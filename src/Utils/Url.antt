-- ===== src/Utils/Url.antt =====
-- `url_encode`, `url_decode` and `url_decode_buff`. Bytes are unsigned: the code shifts and masks
-- them as signed chars, with the same digits; the C locale has no letters above 127.
pub mod RoundTrip
use Prim.Native.Nat.{bit_or}
use tvpvrd.Prelude.{
  ℕ, zero, suc, ◌+◌, ◌-◌, ◌*◌, ◌/◌, ◌%◌, Bool, true, false, List, [], ◌∷◌, ◌++◌, Option, none, some,
  ◌&&◌, ◌||◌, ltb, leb, ◌==◌, if◌then◌else◌, get_elem?,
}
use tvpvrd.Prelude.Int.{ℤ, pos, negsuc}
use tvpvrd.Prelude.Text.{Bytes}
use tvpvrd.Freqmap.Rows.{tolower}

abbrev pub is_digit : ℕ → Bool
is_digit c = leb b'0' c && leb c b'9'

unfoldable pub from_hex : ℕ → ℕ
unfolding tolower
from_hex ch = if is_digit ch then ch - b'0' else (tolower ch + 256 - b'a' + 10) % 256

unfoldable pub to_hex : ℕ → ℕ
to_hex code = if ltb (code % 16) 10 then b'0' + code % 16 else b'A' + (code % 16 - 10)

abbrev is_alnum : ℕ → Bool
is_alnum c = is_digit c || (leb b'A' c && leb c b'Z') || (leb b'a' c && leb c b'z')

unfoldable pub unreserved : ℕ → Bool
unreserved c = is_alnum c || c == b'-' || c == b'_' || c == b'.' || c == b'~'

-- What one round of the loop writes.
unfoldable pub encode_char : ℕ → Bytes
unfolding unreserved to_hex
encode_char c =
    if unreserved c
    then c ∷ []
    else if c == b' '
    then b'+' ∷ []
    else b'%' ∷ to_hex (c / 16) ∷ to_hex c ∷ []

unfoldable pub url_encode : Bytes → Bytes
url_encode [] = []
url_encode (c ∷ cs) = encode_char c ++ url_encode cs

unfoldable pub hex_char : ℕ → ℕ → ℕ
hex_char x y = bit_or (from_hex x * 16 % 256) (from_hex y)

unfoldable pub plain_char : ℕ → ℕ
plain_char c = if c == b'+' then b' ' else c

-- A `%` with fewer than two bytes behind it is left out.
unfoldable pub url_decode : Bytes → Bytes
url_decode [] = []
url_decode (c ∷ []) = if c == b'%' then [] else plain_char c ∷ []
url_decode (c ∷ x ∷ []) =
    let rest = url_decode (x ∷ []) in if c == b'%' then rest else plain_char c ∷ rest
url_decode (c ∷ x ∷ y ∷ rest) =
    let coded = hex_char x y ∷ url_decode rest in
    let plain = plain_char c ∷ url_decode (x ∷ y ∷ rest) in if c == b'%' then coded else plain

abbrev pub write_char : ℕ → ℤ × Bytes → ℤ × Bytes
write_char c r = (r.0, c ∷ r.1)

-- -1 where the buffer is used up before the string is.
abbrev used_up : Bytes → ℤ × Bytes
used_up [] = (pos 0, [])
used_up (c ∷ cs) = (negsuc 0, [])

-- The first argument is `maxlen`, less the byte for the final zero.
unfoldable pub decode_within : ℕ → Bytes → ℤ × Bytes
decode_within zero s = used_up s
decode_within (suc n) [] = (pos 0, [])
decode_within (suc n) (c ∷ []) =
    let rest = decode_within n [] in if c == b'%' then rest else write_char (plain_char c) rest
decode_within (suc n) (c ∷ x ∷ []) =
    let rest = decode_within n (x ∷ []) in
    if c == b'%' then rest else write_char (plain_char c) rest
decode_within (suc n) (c ∷ x ∷ y ∷ rest) =
    let coded = write_char (hex_char x y) (decode_within n rest) in
    let plain = write_char (plain_char c) (decode_within n (x ∷ y ∷ rest)) in
    if c == b'%' then coded else plain

-- With `maxlen` 0 the code writes the final zero all the same, and answers 0.
unfoldable pub url_decode_buff : ℕ → Bytes → ℤ × Bytes
url_decode_buff zero s = (pos 0, [])
url_decode_buff (suc n) s = decode_within n s
