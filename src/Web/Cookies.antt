-- ===== src/Web/Cookies.antt =====
-- The cookie of a login in httpreq.c. The seed is a constant that the build makes, of 32 characters,
-- and the name of the host comes from the system; both are arguments. A read behind the header ends
-- in `aborts`.
pub mod Written
pub mod Found
pub mod Tokens
use tvpvrd.Prelude.{
  ℕ, zero, suc, ◌+◌, ◌-◌, ◌*◌, ◌%◌, Bool, true, false, [], ◌∷◌, ◌++◌, ◌&&◌, ltb, leb, ◌==◌,
  if◌then◌else◌, Option, none, some, length, take, drop,
}
use tvpvrd.Prelude.Int.{ℤ, pos, negsuc}
use tvpvrd.Prelude.Text.{Bytes, codes}
use tvpvrd.Recs.State.{Outcome, returns, aborts, ◌>>=◌}
use tvpvrd.Freqmap.Rows.{same_string}
use tvpvrd.Xstr.{size_max, xsubstr}

-- The inner loop of `web_get_cookie`: where the cookie ends, and its last '='.
unfoldable pub cookie_end : ℕ → ℕ → Bytes → ℕ × ℕ
cookie_end e eq [] = (e, eq)
cookie_end e eq (x ∷ xs) =
    let rest = cookie_end (suc e) (if x == b'=' then e else eq) xs in
    if x == b';' then (e, eq) else rest

-- The outer loop, from position `s`; each round moves on.
unfoldable pub find_cookie : ℕ → Bytes → ℕ → Bytes → ℕ → Outcome (ℤ × Bytes)
find_cookie zero name maxlen c s = aborts
find_cookie (suc fuel) name maxlen c s =
    let found = cookie_end s 0 (drop s c) in
    let e = found.0 in
    let eq = found.1 in
    let rest = find_cookie fuel name maxlen c (if e == length c then e else e + 2) in
    if ltb (length c) s
    then aborts
    else if s == length c
    then returns (negsuc 0, [])
    else if eq == 0
    then returns (negsuc 0, [])
    else if same_string (xsubstr 255 c s (eq - 1)).1 name
    then returns (pos 0, (xsubstr maxlen c (eq + 1) (if e == length c then size_max else e - 1)).1)
    else rest

-- The answer, and what is written to `val`.
unfoldable pub web_get_cookie : Bytes → ℕ → Option Bytes → Outcome (ℤ × Bytes)
web_get_cookie name maxlen none = returns (negsuc 0, [])
web_get_cookie name maxlen (some c) = find_cookie (suc (length c)) name maxlen c 0

-- What the user, the password and the build give the server.
pub record Secrets : Type 0 where
  pub seed : Bytes
  pub hostname : Bytes
  pub web_user : Bytes
  pub web_password : Bytes

-- One character of the cookie.
unfoldable pub scramble : ℕ → ℕ → ℕ
scramble a b =
    let v = if ltb ((a + b) % 128) 48 then (a + b) % 128 + 48 else (a + b) % 128 in
    if ltb 57 v && ltb v 65
    then v + 7
    else if ltb 90 v && ltb v 97
    then v + 6
    else if ltb 122 v
    then v - 5
    else v

-- The seed and the text, as far as the shorter of them goes.
unfoldable pub scrambled : Bytes → Bytes → Bytes
scrambled [] bs = []
scrambled (a ∷ more) [] = []
scrambled (a ∷ more) (b ∷ bs) = scramble a b ∷ scrambled more bs

unfoldable pub create_login_cookie : Secrets → Bytes → Bytes → Bytes
create_login_cookie given user pwd =
    scrambled given.seed (take 127 (user ++ pwd ++ take 127 given.hostname))

unfoldable pub validate_cookie : Secrets → Bytes → Bool
validate_cookie given cookie =
    same_string (create_login_cookie given given.web_user given.web_password) cookie

abbrev is_zero : ℤ → Bool
is_zero (pos n) = n == 0
is_zero (negsuc n) = false

-- The answer, and the login token.
unfoldable pub web_validate_login : Secrets → Option Bytes → Outcome (ℤ × Bytes)
web_validate_login given header = do
  (answer, cookie) ← web_get_cookie (codes "tvpvrd") 80 header
  returns (
      if is_zero answer && validate_cookie given cookie
      then (pos 0, take 79 cookie)
      else (negsuc 0, []))

unfoldable pub validate_login : Secrets → Bytes → Bytes → Bool
validate_login given user pwd =
    same_string user given.web_user && same_string pwd given.web_password
