-- ===== src/Web/Cookies/Written.antt =====
-- A header of cookies, as a browser writes it, and what `web_get_cookie` finds in it.
use tvpvrd.Prelude.{
  ℕ, suc, ◌+◌, ◌-◌, ◌<◌, ◌≡◌, ◌≢◌, refl, ap, sym, ◌∙◌, true, false, List, [], ◌∷◌, ◌++◌, Option,
  none, some, ltb, ◌==◌, if◌then◌else◌, length, drop, All, length-append, arith,
}
use mathlib.Core.Path.{subst}
use mathlib.Core.List.{append_assoc, append-nil}
use tvpvrd.Prelude.Int.{ℤ, pos, negsuc}
use tvpvrd.Prelude.Text.{Bytes}
use tvpvrd.Recs.State.{returns}
use tvpvrd.Freqmap.Rows.{same_string}
use tvpvrd.Xstr.{size_max, xsubstr}
use tvpvrd.Xstr.Cutting.{drop-append, fitting, xsubstr-part, fitting_short, xsubstr-end}
use tvpvrd.Web.Cookies.{cookie_end, find_cookie}

-- Names and values, in the order of the header.
abbrev pub Jar : Type 0
Jar = List (Bytes × Bytes)

unfoldable pub more_cookies : Jar → Bytes
more_cookies [] = []
more_cookies ((k, v) ∷ jar) = b';' ∷ b' ' ∷ (k ++ b'=' ∷ (v ++ more_cookies jar))

-- The cookies, separated by "; ".
unfoldable pub cookie_header : Jar → Bytes
cookie_header [] = []
cookie_header ((k, v) ∷ jar) = k ++ b'=' ∷ (v ++ more_cookies jar)

-- The value of the first cookie of that name.
unfoldable pub value_of : Bytes → Jar → Option Bytes
value_of name [] = none
value_of name ((k, v) ∷ jar) =
    let rest = value_of name jar in if same_string k name then some v else rest

-- A name of at least one byte, which fits its buffer, without ';', and a value without ';' and '='.
abbrev pub IsCookie : Bytes × Bytes → Type 0
IsCookie (k, v) =
    (0 < length k) × (length k < 255) × All (λ c. c ≢ b';') k × All (λ c. (c ≢ b';') × (c ≢ b'=')) v

abbrev pub Ends : Bytes → Type 0
Ends [] = Unit
Ends (c ∷ cs) = c ≡ b';'

pub more_cookies-Ends : (jar : Jar) → Ends (more_cookies jar)
unfolding more_cookies
more_cookies-Ends [] = tt
more_cookies-Ends ((k, v) ∷ jar) = refl

same_pair : {a b c d : ℕ} → a ≡ c → b ≡ d → ◌≡◌ {A = ℕ × ℕ} (a, b) (c, d)
same_pair e f = rw (e, f) refl

cookie_end-value :
    (e eq : ℕ) (v post : Bytes)
    → All (λ c. (c ≢ b';') × (c ≢ b'=')) v
    → Ends post
    → cookie_end e eq (v ++ post) ≡ (e + length v, eq)
unfolding cookie_end
cookie_end-value e eq [] [] h s = ap (λ n. (n, eq)) (omega arith)
cookie_end-value e eq [] (c ∷ post) h s =
    let stop : (c == b';') ≡ true = ground arith in rw stop (ap (λ n. (n, eq)) (omega arith))
cookie_end-value e eq (c ∷ v) post ((no_stop, no_eq), h) s =
    let go : (c == b';') ≡ false = ground arith in
    let same : (c == b'=') ≡ false = ground arith in
    rw (go, same) (cookie_end-value (suc e) eq v post h s ∙ ap (λ n. (n, eq)) (omega arith))

cookie_end-cookie :
    (e eq : ℕ) (k v post : Bytes)
    → All (λ c. c ≢ b';') k
    → All (λ c. (c ≢ b';') × (c ≢ b'=')) v
    → Ends post
    → cookie_end e eq (k ++ b'=' ∷ (v ++ post)) ≡ (e + length k + 1 + length v, e + length k)
unfolding cookie_end
cookie_end-cookie e eq [] v post hk hv s =
    cookie_end-value (suc e) e v post hv s ∙ same_pair (omega arith) (omega arith)
cookie_end-cookie e eq (c ∷ k) v post (no_stop, hk) hv s =
    let go : (c == b';') ≡ false = ground arith in
    rw go (
      cookie_end-cookie (suc e) (if c == b'=' then e else eq) k v post hk hv s
      ∙ same_pair (omega arith) (omega arith))

-- What is found of a value in a buffer of `m` bytes, and -1 without a value.
abbrev pub answer : ℕ → Option Bytes → ℤ × Bytes
answer m none = (negsuc 0, [])
answer m (some v) = (pos 0, fitting m v)

-- One round: `pre` is what was passed.
module _ (pre k v post : Bytes) where
  abbrev pub whole : Bytes
  whole = pre ++ (k ++ b'=' ∷ (v ++ post))

  abbrev pub after : ℕ
  after = length pre + length k + 1 + length v

  pub length-whole : length whole ≡ after + length post
  length-whole = omega (
    arith,
    length-append pre (k ++ b'=' ∷ (v ++ post)),
    length-append k (b'=' ∷ (v ++ post)),
    length-append v post,
  )

  abbrev past : Bytes
  past = pre ++ (k ++ b'=' ∷ [])

  length-past : length past ≡ length pre + length k + 1
  length-past = omega (arith, length-append pre (k ++ b'=' ∷ []), length-append k (b'=' ∷ []))

  whole-past : whole ≡ past ++ (v ++ post)
  whole-past = sym (
      append_assoc pre (k ++ b'=' ∷ []) (v ++ post)
      ∙ ap (λ w. pre ++ w) (append_assoc k (b'=' ∷ []) (v ++ post)))

  xsubstr-name :
      0 < length k
      → length k < 255
      → length whole < size_max
      → (xsubstr 255 whole (length pre) (length pre + length k - 1)).1 ≡ k
  xsubstr-name some_byte short fits =
      xsubstr-part 255 pre k (b'=' ∷ (v ++ post)) (length pre + length k - 1) (omega arith)
        (omega (arith, length-whole))
      ∙ fitting_short 255 k short

  xsubstr-value_inside :
      (m : ℕ)
      → 0 < length post
      → length whole < size_max
      → (xsubstr m whole (length pre + length k + 1) (after - 1)).1 ≡ fitting m v
  xsubstr-value_inside m some_byte fits =
      subst (λ n. (xsubstr m whole n (after - 1)).1 ≡ fitting m v) length-past
        (subst (λ z. (xsubstr m z (length past) (after - 1)).1 ≡ fitting m v) (sym whole-past)
          (xsubstr-part m past v post (after - 1) (omega (arith, length-past))
            (omega (arith, length-whole))))

module _ (pre k v : Bytes) where
  whole-nil : whole pre k v [] ≡ past pre k v [] ++ v
  whole-nil = whole-past pre k v [] ∙ ap (λ w. past pre k v [] ++ w) (append-nil v)

  xsubstr-value_end :
      (m : ℕ)
      → length (whole pre k v []) < size_max
      → (xsubstr m (whole pre k v []) (length pre + length k + 1) size_max).1 ≡ fitting m v
  xsubstr-value_end m fits =
      subst (λ n. (xsubstr m (whole pre k v []) n size_max).1 ≡ fitting m v)
        (length-past pre k v [])
        (subst (λ z. (xsubstr m z (length (past pre k v [])) size_max).1 ≡ fitting m v)
          (sym whole-nil)
          (xsubstr-end m (past pre k v []) v (omega (arith, length-past pre k v []))
            (omega (arith, length-past pre k v [], length-whole pre k v []))))

module _ (name : Bytes) (m : ℕ) where
  xsubstr-value :
      (pre k v post : Bytes)
      → length (whole pre k v post) < size_max
      → (xsubstr m (whole pre k v post) (length pre + length k + 1) (
          if after pre k v post == length (whole pre k v post)
          then size_max
          else after pre k v post - 1)).1
        ≡ fitting m v
  xsubstr-value pre k v [] fits =
      let at : (after pre k v [] == length (whole pre k v [])) ≡ true =
        ground (arith, length-whole pre k v []) in
      rw at (xsubstr-value_end pre k v m fits)
  xsubstr-value pre k v (c ∷ post) fits =
      let before : (after pre k v (c ∷ post) == length (whole pre k v (c ∷ post))) ≡ false =
        ground (arith, length-whole pre k v (c ∷ post)) in
      rw before (xsubstr-value_inside pre k v (c ∷ post) m (omega arith) fits)

  pub find_cookie-round :
      (fuel : ℕ) (pre k v post : Bytes)
      → IsCookie (k, v)
      → Ends post
      → length (whole pre k v post) < size_max
      → find_cookie (suc fuel) name m (whole pre k v post) (length pre) ≡ (
          if same_string k name
          then returns (pos 0, fitting m v)
          else find_cookie fuel name m (whole pre k v post) (
              if after pre k v post == length (whole pre k v post)
              then after pre k v post
              else after pre k v post + 2))
  unfolding find_cookie
  find_cookie-round fuel pre k v post (some_byte, short, hk, hv) s fits =
      let ends : cookie_end (length pre) 0 (drop (length pre) (whole pre k v post))
          ≡ (after pre k v post, length pre + length k) =
        ap (cookie_end (length pre) 0) (drop-append pre (k ++ b'=' ∷ (v ++ post)))
        ∙ cookie_end-cookie (length pre) 0 k v post hk hv s in
      let inside : ltb (length (whole pre k v post)) (length pre) ≡ false =
        ground (arith, length-whole pre k v post) in
      let before_end : (length pre == length (whole pre k v post)) ≡ false =
        ground (arith, length-whole pre k v post) in
      let equals : (length pre + length k == 0) ≡ false = ground arith in
      rw
        (
          inside,
          before_end,
          ends,
          equals,
          xsubstr-name pre k v post some_byte short fits,
          xsubstr-value pre k v post fits,
        )
        refl
