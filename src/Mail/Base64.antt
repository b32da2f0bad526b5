-- ===== src/Mail/Base64.antt =====
-- libsmtpmail/base64ed.c. A buffer is given by its size; what is written into it is the list of
-- bytes, without the final zero. A write behind the buffer, or a read behind the input, ends in
-- `aborts`.
pub mod Words
pub mod RoundTrip
use Prim.Native.Nat.{bit_and, bit_or}
use tvpvrd.Prelude.{
  ℕ, zero, suc, ◌+◌, ◌*◌, ◌/◌, ◌%◌, ◌^◌, Bool, true, false, List, [], ◌∷◌, ◌++◌, Option, none, some,
  ◌||◌, not, ltb, ◌==◌, if◌then◌else◌, length, get_elem?,
}
use tvpvrd.Prelude.Int.{ℤ, pos, negsuc}
use tvpvrd.Prelude.Text.{Bytes, codes}
use tvpvrd.Recs.State.{Outcome, returns, aborts}

-- The final zero of the literal is a part of the array.
abbrev pub b64table : Bytes
b64table = codes "ABCDEFGHIJKLMNOPQRSTUVWXYZabcdefghijklmnopqrstuvwxyz0123456789+/" ++ 0 ∷ []

-- `b64table[i]`, with `i` below 64 wherever the code reads it.
abbrev or_zero : Option ℕ → ℕ
or_zero none = 0
or_zero (some c) = c

unfoldable pub b64char : ℕ → ℕ
b64char i = or_zero (get_elem? b64table i)

-- `strchr` finds the final zero too.
unfoldable pub index_in : ℕ → Bytes → ℕ → ℕ
index_in c [] i = 0
index_in c (x ∷ xs) i = let rest = index_in c xs (i + 1) in if x == c then i else rest

unfoldable pub base64_decodechar : ℕ → ℕ
base64_decodechar c = index_in c b64table 0

abbrev pub to_char : ℕ → ℕ
to_char n = n % 256

-- The loops of `base64encode`, three bytes a round.
unfoldable pub encode_all : Bytes → Bytes
encode_all [] = []
encode_all (a1 ∷ []) = b64char (a1 / 4) ∷ b64char (bit_and a1 3 * 16) ∷ b'=' ∷ b'=' ∷ []
encode_all (a1 ∷ a2 ∷ []) =
    b64char (a1 / 4)
    ∷ b64char (bit_or (bit_and a1 3 * 16) (a2 / 16))
    ∷ b64char (bit_and a2 15 * 4)
    ∷ b'='
    ∷ []
encode_all (a1 ∷ a2 ∷ a3 ∷ rest) =
    b64char (a1 / 4)
    ∷ b64char (bit_or (bit_and a1 3 * 16) (a2 / 16))
    ∷ b64char (bit_or (bit_and a2 15 * 4) (a3 / 64))
    ∷ b64char (bit_and a3 63)
    ∷ encode_all rest

unfoldable pub base64encode : Bytes → ℕ → Outcome (ℤ × Bytes)
base64encode inbuff outbuff_maxlen =
    if ltb outbuff_maxlen ((length inbuff / 3 + 1) * 4)
    then returns (negsuc 0, [])
    else if ltb outbuff_maxlen (length (encode_all inbuff) + 1)
    then aborts
    else returns (pos 0, encode_all inbuff)

abbrev pub first_byte : ℕ → ℕ → ℕ
first_byte a1 a2 = to_char (bit_or (a1 * 4) (a2 / 16))

abbrev pub second_byte : ℕ → ℕ → ℕ
second_byte a2 a3 = to_char (bit_or (a2 * 16) (a3 / 4))

abbrev pub third_byte : ℕ → ℕ → ℕ
third_byte a3 a4 = to_char (bit_or (a3 * 64) a4)

-- The last quartet, which may end in one or two `=`.
unfoldable pub decode_last : ℕ → ℕ → ℕ → ℕ → Bytes
decode_last c1 c2 c3 c4 =
    let a1 = base64_decodechar c1 in
    let a2 = base64_decodechar c2 in
    let a3 = base64_decodechar c3 in
    let a4 = base64_decodechar c4 in
    if c3 == b'='
    then first_byte a1 a2 ∷ []
    else if c4 == b'='
    then first_byte a1 a2 ∷ second_byte a2 a3 ∷ []
    else first_byte a1 a2 ∷ second_byte a2 a3 ∷ third_byte a3 a4 ∷ []

unfoldable pub decode_quartet : ℕ → ℕ → ℕ → ℕ → Bytes
decode_quartet c1 c2 c3 c4 =
    let a1 = base64_decodechar c1 in
    let a2 = base64_decodechar c2 in
    let a3 = base64_decodechar c3 in
    let a4 = base64_decodechar c4 in first_byte a1 a2 ∷ second_byte a2 a3 ∷ third_byte a3 a4 ∷ []

-- The loop `while (n > 4)` and what follows it; the length is a multiple of 4.
unfoldable pub decode_all : Bytes → Bytes
decode_all (c1 ∷ c2 ∷ c3 ∷ c4 ∷ []) = decode_last c1 c2 c3 c4
decode_all (c1 ∷ c2 ∷ c3 ∷ c4 ∷ c5 ∷ rest) = decode_quartet c1 c2 c3 c4 ++ decode_all (c5 ∷ rest)
decode_all other = []

-- An empty input passes the tests, and then two bytes of it are read.
unfoldable pub base64decode : Bytes → ℕ → Outcome (ℤ × Bytes)
base64decode inbuff outbuff_maxlen =
    if ltb outbuff_maxlen (length inbuff / 4 * 3 + 1) || not (length inbuff % 4 == 0)
    then returns (negsuc 0, [])
    else if length inbuff == 0
    then aborts
    else if ltb outbuff_maxlen (length (decode_all inbuff) + 1)
    then aborts
    else returns (pos 0, decode_all inbuff)
