-- ===== src/Web/Get.antt =====
-- `web_parse_httpget` of httpreq.c: the path and the arguments of a GET request. `none` is the answer
-- -1; a read before the start of the string ends in `aborts`.
pub mod Encoded
pub mod Arguments
pub mod Paths
pub mod RoundTrip
use tvpvrd.Prelude.{
  ℕ, zero, suc, ◌+◌, ◌-◌, Bool, true, false, List, [], ◌∷◌, ◌++◌, ◌||◌, ltb, leb, ◌==◌,
  if◌then◌else◌, Option, none, some, length, drop, min,
}
use tvpvrd.Prelude.Int.{ℤ, pos, negsuc}
use tvpvrd.Prelude.Text.{Bytes, codes}
use tvpvrd.Recs.State.{Outcome, returns, aborts, ◌>>=◌}
use tvpvrd.Utils.Url.{is_digit, url_decode_buff}
use tvpvrd.Xstr.{size_max, wrap, byte_at, xsubstr}

-- An array of `struct keypair_t`: keys and values.
abbrev pub Args : Type 0
Args = List (Bytes × Bytes)

pub record Request : Type 0 where
  pub dir : Bytes
  pub file : Bytes
  pub args : Args

-- `isdigit(str[n-1]) && str[n-2]=='.' && ...`, from left to right.
unfoldable pub ends_with : Bytes → ℕ → List (ℕ × (ℕ → Bool)) → Outcome Bool
ends_with str n [] = returns true
ends_with str n ((k, test) ∷ more) =
    let rest = ends_with str n more in
    if ltb n k then aborts else if test (byte_at str (n - k)) then rest else returns false

abbrev pub version_tests : List (ℕ × (ℕ → Bool))
version_tests =
    (1, is_digit)
    ∷ (2, λ c. c == b'.')
    ∷ (3, is_digit)
    ∷ (4, λ c. c == b'/')
    ∷ (5, λ c. c == b'P')
    ∷ (6, λ c. c == b'T')
    ∷ (7, λ c. c == b'T')
    ∷ (8, λ c. c == b'H')
    ∷ (9, λ c. c == b' ')
    ∷ []

-- The first position from `i` on, and before `limit`, with a byte that stops the loop, or `limit`;
-- the string goes on at least to there.
unfoldable pub until : (ℕ → Bool) → ℕ → ℕ → Bytes → ℕ
until stop limit i [] = i
until stop limit i (x ∷ xs) =
    let rest = until stop limit (suc i) xs in if leb limit i then i else if stop x then i else rest

-- `while( j>0 && fbuff[j] != '/' ) j--`.
unfoldable pub slash_back : Bytes → ℕ → ℕ
slash_back fbuff zero = 0
slash_back fbuff (suc j) = if byte_at fbuff (suc j) == b'/' then suc j else slash_back fbuff j

-- A part of the string, decoded; the answers of the calls are not looked at.
unfoldable pub decoded_part : Bytes → ℕ → ℕ → Bytes
decoded_part s first last = (url_decode_buff 255 (xsubstr 255 s first last).1).1

abbrev pub with_arg : Bytes × Bytes → Option Args → Option Args
with_arg arg none = none
with_arg arg (some more) = some (arg ∷ more)

-- The loop over the arguments, with the places that `args` has left. `sp` is where the '?' or '&'
-- stands.
unfoldable pub parse_args : ℕ → Bytes → ℕ → Option Args
parse_args zero s sp = none
parse_args (suc room) s sp =
    let ep = until (λ c. c == b'&') (length s - 9) (sp + 1) (drop (sp + 1) s) in
    let j = until (λ c. c == b'=') ep (sp + 1) (drop (sp + 1) s) in
    let arg : Bytes × Bytes = (decoded_part s (sp + 1) (j - 1), decoded_part s (j + 1) (ep - 1)) in
    let rest = with_arg arg (parse_args room s ep) in
    if leb ep j then none else if byte_at s ep == b'&' then rest else some (arg ∷ [])

-- `dir` and `file` of the path `fbuff`.
unfoldable pub split_path : ℕ → ℕ → Bytes → Bytes × Bytes
split_path maxdirlen maxfilelen fbuff =
    let j = slash_back fbuff (length fbuff - 1) in
    (
      if j == 0 then codes "/" else (xsubstr maxdirlen fbuff 0 (j - 1)).1,
      (xsubstr maxfilelen fbuff (j + 1) size_max).1,
    )

abbrev pub path_stop : ℕ → Bool
path_stop c = c == b' ' || c == b'?'

unfoldable pub make_request : Bytes × Bytes → Option Args → Option Request
make_request (dir, file) none = none
make_request (dir, file) (some args) = some (record { dir = dir; file = file; args = args })

abbrev failed : ℤ → Bool
failed (pos n) = false
failed (negsuc n) = true

-- The parsing of a string that ends with a version.
unfoldable pub parse_get : Bytes → ℕ → ℕ → ℕ → ℕ → Option Request
unfolding make_request
parse_get s n maxdirlen maxfilelen maxargs =
    let i = until path_stop n 0 s in
    let fbuff = xsubstr (length s) s 0 (wrap (i + size_max)) in
    let path = split_path maxdirlen maxfilelen fbuff.1 in
    if i == n
    then none
    else if failed fbuff.0
    then none
    else if byte_at s i == b'?'
    then make_request path (parse_args maxargs s i)
    else make_request path (some [])

unfoldable pub web_parse_httpget : Option Bytes → ℕ → ℕ → ℕ → Outcome (Option Request)
web_parse_httpget none maxdirlen maxfilelen maxargs = returns none
web_parse_httpget (some str) maxdirlen maxfilelen maxargs = do
  versioned ← ends_with str (min 512 (length str)) version_tests
  returns (
      if versioned then parse_get str (min 512 (length str)) maxdirlen maxfilelen maxargs else none)
