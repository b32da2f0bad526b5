-- ===== src/Web/Cookies/Found.antt =====
-- `web_get_cookie` finds the first cookie of a name in a header that a browser writes.
use mathlib.Core.List.{append_assoc, append-nil}
use mathlib.Core.Path.{subst}
use tvpvrd.Prelude.{
  ℕ, zero, suc, ◌+◌, ◌<◌, ◌≡◌, refl, ap, sym, ◌∙◌, inl, inr, true, false, [], ◌∷◌, ◌++◌, some, ltb,
  ◌==◌, if◌then◌else◌, length, All, Bool-cases, length-append, arith,
}
use tvpvrd.Prelude.Int.{negsuc}
use tvpvrd.Prelude.Text.{Bytes}
use tvpvrd.Recs.State.{returns}
use tvpvrd.Freqmap.Rows.{same_string}
use tvpvrd.Xstr.{size_max}
use tvpvrd.Web.Cookies.{find_cookie, web_get_cookie}
use tvpvrd.Web.Cookies.Written.{
  Jar, more_cookies, cookie_header, value_of, IsCookie, answer, whole, after, length-whole,
  find_cookie-round,
}

module _ (name : Bytes) (m : ℕ) where
  find_cookie-end :
      (fuel : ℕ) (c : Bytes) → find_cookie (suc fuel) name m c (length c) ≡ returns (negsuc 0, [])
  unfolding find_cookie
  find_cookie-end fuel c =
      let inside : ltb (length c) (length c) ≡ false = ground arith in
      let ended : (length c == length c) ≡ true = ground arith in rw (inside, ended) refl

  abbrev next : Bytes → Bytes → Bytes → Bytes → ℕ
  next pre k v post =
      if after pre k v post == length (whole pre k v post)
      then after pre k v post
      else after pre k v post + 2

  next-end :
      (fuel : ℕ) (pre k v : Bytes)
      → find_cookie (suc fuel) name m (whole pre k v []) (next pre k v []) ≡ returns (negsuc 0, [])
  next-end fuel pre k v =
      let at : next pre k v [] ≡ length (whole pre k v []) =
        ground (arith, length-whole pre k v []) in
      rw at (find_cookie-end fuel (whole pre k v []))

  -- What was passed when the next cookie starts.
  abbrev passed : Bytes → Bytes → Bytes → Bytes
  passed pre k v = pre ++ (k ++ b'=' ∷ (v ++ b';' ∷ b' ' ∷ []))

  whole-passed :
      (pre k v post : Bytes) → whole pre k v (b';' ∷ b' ' ∷ post) ≡ passed pre k v ++ post
  whole-passed pre k v post = sym (
      append_assoc pre (k ++ b'=' ∷ (v ++ b';' ∷ b' ' ∷ [])) post
      ∙ ap (λ w. pre ++ w) (append_assoc k (b'=' ∷ (v ++ b';' ∷ b' ' ∷ [])) post)
      ∙ ap (λ w. pre ++ (k ++ b'=' ∷ w)) (append_assoc v (b';' ∷ b' ' ∷ []) post))

  next-passed : (pre k v post : Bytes) → next pre k v (b';' ∷ b' ' ∷ post) ≡ length (passed pre k v)
  next-passed pre k v post = ground (
    arith,
    length-whole pre k v (b';' ∷ b' ' ∷ post),
    length-append pre (k ++ b'=' ∷ (v ++ b';' ∷ b' ' ∷ [])),
    length-append k (b'=' ∷ (v ++ b';' ∷ b' ' ∷ [])),
    length-append v (b';' ∷ b' ' ∷ []),
  )

  find_cookie-jar :
      (fuel : ℕ) (pre : Bytes) (jar : Jar)
      → All IsCookie jar
      → length (cookie_header jar) < fuel
      → length (pre ++ cookie_header jar) < size_max
      → find_cookie fuel name m (pre ++ cookie_header jar) (length pre)
        ≡ returns (answer m (value_of name jar))
  unfolding cookie_header value_of more_cookies
  find_cookie-jar zero pre jar h enough fits = absurd (omega arith)
  find_cookie-jar (suc fuel) pre [] h enough fits = rw (append-nil pre) (find_cookie-end fuel pre)
  find_cookie-jar (suc zero) pre ((k, v) ∷ []) h enough fits =
      absurd (omega (arith, length-append k (b'=' ∷ (v ++ []))))
  find_cookie-jar (suc (suc fuel)) pre ((k, v) ∷ []) (one, h) enough fits =
      let round = find_cookie-round name m (suc fuel) pre k v [] one tt fits in
      elim (Bool-cases (same_string k name)) [
        | inl same ↦ rw (round, same) refl
        | inr other ↦ rw (round, other) (next-end fuel pre k v)
      ]
  find_cookie-jar (suc fuel) pre ((k, v) ∷ (k2, v2) ∷ jar) (one, h) enough fits =
      let later = cookie_header ((k2, v2) ∷ jar) in
      let round = find_cookie-round name m fuel pre k v (b';' ∷ b' ' ∷ later) one refl fits in
      elim (Bool-cases (same_string k name)) [
        | inl same ↦ rw (round, same) refl
        | inr other ↦
            rw (round, other)
              (rw (next-passed pre k v later) (
                subst
                  (λ c.
                    find_cookie fuel name m c (length (passed pre k v))
                    ≡ returns (answer m (value_of name ((k2, v2) ∷ jar))))
                  (sym (whole-passed pre k v later))
                  (find_cookie-jar fuel (passed pre k v) ((k2, v2) ∷ jar) h
                    (omega (
                      arith,
                      length-append k (b'=' ∷ (v ++ b';' ∷ b' ' ∷ later)),
                      length-append v (b';' ∷ b' ' ∷ later),
                    ))
                    (subst (λ (c : Bytes). length c < size_max) (whole-passed pre k v later)
                      fits))))
      ]

-- In a header of cookies `name=value`, set apart by a semicolon and a space, with names of 1 to 254
-- bytes without semicolon, and values with neither semicolon nor equals sign, as the code takes the
-- last of these: `web_get_cookie` finds the value of the first cookie of the name, and answers 0 with
-- the value, or without it where it does not fit the buffer; if no cookie has the name, it answers -1.
-- A cookie whose value has an equals sign is not covered.
pub web_get_cookie_finds :
    (name : Bytes) (maxlen : ℕ) (jar : Jar)
    → All IsCookie jar
    → length (cookie_header jar) < size_max
    → web_get_cookie name maxlen (some (cookie_header jar))
      ≡ returns (answer maxlen (value_of name jar))
unfolding web_get_cookie
web_get_cookie_finds name maxlen jar h fits =
    find_cookie-jar name maxlen (suc (length (cookie_header jar))) [] jar h (omega arith) fits
