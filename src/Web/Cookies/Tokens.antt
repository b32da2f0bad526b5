-- ===== src/Web/Cookies/Tokens.antt =====
-- Who is let in by a cookie.
use tvpvrd.Prelude.{
  ℕ, zero, suc, ◌≤◌, ◌<◌, ◌≡◌, ◌≢◌, refl, ap, sym, ◌∙◌, inl, inr, Bool, true, false, [], ◌∷◌, ◌++◌,
  ◌&&◌, ◌||◌, Option, none, some, leb, ==_refl, if◌then◌else◌, length, take, All, Bool-cases,
  Option-cases, arith,
}
use mathlib.Core.Path.{subst}
use tvpvrd.Prelude.Int.{ℤ, pos, negsuc}
use tvpvrd.Prelude.Text.{Bytes, codes}
use tvpvrd.Recs.State.{returns}
use tvpvrd.Freqmap.Rows.{same_string}
use tvpvrd.Freqmap.Exact.{same_string_sound, and_both}
use tvpvrd.Xstr.{size_max}
use tvpvrd.Xstr.Cutting.{fitting}
use tvpvrd.Web.Cookies.{
  Secrets, scramble, scrambled, create_login_cookie, validate_cookie, web_validate_login,
  validate_login,
}
use tvpvrd.Web.Cookies.Written.{Jar, cookie_header, value_of, IsCookie}
use tvpvrd.Web.Cookies.Found.{web_get_cookie_finds}

-- A digit or a letter of ASCII.
abbrev pub is_alnum : ℕ → Bool
is_alnum c = (leb 48 c && leb c 57) || (leb 65 c && leb c 90) || (leb 97 c && leb c 122)

scramble-is_alnum : (a b : ℕ) → is_alnum (scramble a b) ≡ true
unfolding scramble
scramble-is_alnum a b = ground arith

is_alnum-plain : (c : ℕ) → is_alnum c ≡ true → (c ≢ b';') × (c ≢ b'=')
is_alnum-plain c h = ground arith

scrambled-plain : (xs bs : Bytes) → All (λ c. (c ≢ b';') × (c ≢ b'=')) (scrambled xs bs)
unfolding scrambled
scrambled-plain [] bs = tt
scrambled-plain (a ∷ more) [] = tt
scrambled-plain (a ∷ more) (b ∷ bs) =
    (is_alnum-plain (scramble a b) (scramble-is_alnum a b), scrambled-plain more bs)

-- The token of the user that the server knows.
unfoldable pub token : Secrets → Bytes
token given = create_login_cookie given given.web_user given.web_password

abbrev pub holds_token : Bytes → Option Bytes → Bool
holds_token made none = false
holds_token made (some v) = same_string made v

same_string_self : (s : Bytes) → same_string s s ≡ true
unfolding same_string
same_string_self [] = refl
same_string_self (c ∷ s) = rw (==_refl c) (same_string_self s)

take-short : (n : ℕ) (s : Bytes) → length s ≤ n → take n s ≡ s
take-short zero [] h = refl
take-short zero (c ∷ s) h = absurd (omega arith)
take-short (suc n) [] h = refl
take-short (suc n) (c ∷ s) h = ap (λ r. c ∷ r) (take-short n s (omega arith))

abbrev pub granted : Bool → Bytes → ℤ × Bytes
granted b made = if b then (pos 0, made) else (negsuc 0, [])

-- A value of another length is another string.
same_string-longer : (made v : Bytes) → length made ≢ length v → same_string made v ≡ false
same_string-longer made v h = elim (Bool-cases (same_string made v)) [
  | inl same ↦ absurd (h (ap length (same_string_sound made v same)))
  | inr other ↦ other
]

module _ (given : Secrets) (jar : Jar) where
  -- The result for a cookie that was found with value `v`.
  accepted :
      (made v : Bytes)
      → 0 < length made
      → length made < 80
      → granted (same_string made (fitting 80 v)) (take 79 (fitting 80 v))
        ≡ granted (same_string made v) made
  unfolding fitting
  accepted made v some_byte short = elim (Bool-cases (leb 80 (length v))) [
    | inl long ↦
        let other : same_string made v ≡ false = same_string-longer made v (ground arith) in
        let empty : same_string made [] ≡ false = same_string-longer made [] (λ e. omega arith) in
        rw (long, other, empty) refl
    | inr fits ↦ elim (Bool-cases (same_string made v)) [
      | inl same ↦
          let e : made ≡ v = same_string_sound made v same in
          let kept : take 79 v ≡ made = take-short 79 v (ground arith) ∙ sym e in
          rw (fits, same, kept) refl
      | inr other ↦ rw (fits, other) refl
    ]
  ]

  -- In a header of cookies `name=value`, set apart by a semicolon and a space, with names of 1 to 254
  -- bytes without semicolon, and values with neither semicolon nor equals sign, and with a token of 1
  -- to 79 bytes: the answer is 0 with the token if the first cookie named tvpvrd holds the token of the server's user, and -1 with an
  -- empty token otherwise.
  pub web_validate_login_decides :
      All IsCookie jar
      → length (cookie_header jar) < size_max
      → 0 < length (token given)
      → length (token given) < 80
      → web_validate_login given (some (cookie_header jar))
        ≡ returns
            (granted (holds_token (token given) (value_of (codes "tvpvrd") jar)) (token given))
  unfolding web_validate_login validate_cookie token
  web_validate_login_decides h fits some_byte short =
      let found = web_get_cookie_finds (codes "tvpvrd") 80 jar h fits in
      elim (Option-cases (value_of (codes "tvpvrd") jar)) [
        | inl missing ↦ rw (found, missing) refl
        | inr (v, e) ↦ rw (found, e) (ap returns (accepted (token given) v some_byte short))
      ]

abbrev LetsIn : Secrets → Jar → Bytes → Type 0
LetsIn given jar m =
    length (cookie_header ((codes "tvpvrd", m) ∷ jar)) < size_max
    → 0 < length m
    → length m < 80
    → web_validate_login given (some (cookie_header ((codes "tvpvrd", m) ∷ jar)))
      ≡ returns (pos 0, m)

token-LetsIn : (given : Secrets) (jar : Jar) → All IsCookie jar → LetsIn given jar (token given)
unfolding value_of same_string
token-LetsIn given jar h fits some_byte short =
    let plain : All (λ c. (c ≢ b';') × (c ≢ b'=')) (token given) =
      unfold token create_login_cookie in
      scrambled-plain given.seed
        (take 127 (given.web_user ++ given.web_password ++ take 127 given.hostname)) in
    let name : All (λ c. c ≢ b';') (codes "tvpvrd") = ground arith in
    let ours : IsCookie (codes "tvpvrd", token given) = (omega arith, omega arith, name, plain) in
    web_validate_login_decides given ((codes "tvpvrd", token given) ∷ jar) (ours, h) fits some_byte
      short
    ∙ ap (λ b. returns (granted b (token given))) (same_string_self (token given))

-- Whoever logs in with the right user and password and sends the cookie back, before any other
-- cookies, is let in with that cookie as token, if it has 1 to 79 bytes.
pub web_validate_login-create_login_cookie :
    (given : Secrets) (user pwd : Bytes) (jar : Jar)
    → validate_login given user pwd ≡ true
    → All IsCookie jar
    → length (cookie_header ((codes "tvpvrd", create_login_cookie given user pwd) ∷ jar)) < size_max
    → 0 < length (create_login_cookie given user pwd)
    → length (create_login_cookie given user pwd) < 80
    → web_validate_login given
        (some (cookie_header ((codes "tvpvrd", create_login_cookie given user pwd) ∷ jar)))
      ≡ returns (pos 0, create_login_cookie given user pwd)
unfolding validate_login
web_validate_login-create_login_cookie given user pwd jar login h fits some_byte short =
    let known =
      and_both (same_string user given.web_user) (same_string pwd given.web_password) login in
    let made : create_login_cookie given user pwd ≡ token given =
      unfold token in
      rw
        (
          same_string_sound user given.web_user known.0,
          same_string_sound pwd given.web_password known.1,
        )
        refl in
    subst (λ m. LetsIn given jar m) (sym made) (token-LetsIn given jar h) fits some_byte short
