-- ===== src/Mail/Quotprinted.antt =====
-- `qprint_encode_word` of libsmtpmail/quotprinted.c. The output is the list of bytes that are
-- written, without the final zero; a write behind the buffer of `maxlen` bytes ends in `aborts`.
pub mod Decoded
use tvpvrd.Prelude.{
  ℕ, zero, suc, ◌+◌, ◌-◌, ◌/◌, Bool, true, false, [], ◌∷◌, ◌++◌, ◌||◌, ◌&&◌, ltb, leb, ◌==◌,
  if◌then◌else◌, Option, none, some, length,
}
use tvpvrd.Prelude.Int.{ℤ, pos, negsuc}
use tvpvrd.Prelude.Text.{Bytes, codes}
use tvpvrd.Recs.State.{Outcome, returns, aborts}
use tvpvrd.Utils.Url.{to_hex}

-- `%02X` behind an '='.
abbrev pub hex_code : ℕ → Bytes
hex_code c = b'=' ∷ to_hex (c / 16) ∷ to_hex c ∷ []

abbrev pub must_code : ℕ → Bool
must_code c = c == b'_' || c == b'=' || c == b'?' || ltb c 32

-- What the loop wrote, whether anything was encoded, and what is left of `n`; `none` for -1.
abbrev pub Loop : Type 0
Loop = Outcome (Option (Bytes × Bool × ℕ))

abbrev more_bytes : Bytes → Loop → Loop
more_bytes out (returns (some (rest, encoded, n))) = returns (some (out ++ rest, encoded, n))
more_bytes out (returns none) = returns none
more_bytes out aborts = aborts

abbrev pub prefix : Bytes
prefix = codes "=?utf8?Q?"

-- The next byte stands 9 + (maxlen - n) bytes from the start, so that `k` more fit if 9 + k is at
-- most n.
abbrev pub write : ℕ → ℕ → Bytes → Loop → Loop
write n k out rest = if ltb n (9 + k) then aborts else more_bytes out rest

-- The tests of one round, with what each branch does.
abbrev pub round : ℕ → ℕ → Bool → Loop → Loop → Loop → Loop → Loop → Loop
round c n encoded skip blank coded plain pair =
    if n == 0
    then returns (some ([], encoded, n))
    else if c == 10 || c == 13
    then skip
    else if c == 32
    then blank
    else if must_code c
    then (if ltb n 3 then returns none else coded)
    else if leb c b'z'
    then plain
    else if ltb 127 c
    then (if ltb n 6 then returns none else pair)
    else returns none

-- The loop; `n` is as large as the buffer at first, although the prefix is in it already. Bytes above
-- 127 are taken by twos.
unfoldable pub encode_loop : Bytes → Bool → ℕ → Loop
encode_loop [] encoded n = returns (some ([], encoded, n))
encode_loop (c ∷ []) encoded n =
    round c n encoded (encode_loop [] encoded n)
      (write n 1 (b'_' ∷ []) (encode_loop [] true (n - 1)))
      (write n 3 (hex_code c) (encode_loop [] true (n - 3)))
      (write n 1 (c ∷ []) (encode_loop [] encoded (n - 1))) (write n 3 [] (returns none))
encode_loop (c ∷ d ∷ ds) encoded n =
    round c n encoded (encode_loop (d ∷ ds) encoded n)
      (write n 1 (b'_' ∷ []) (encode_loop (d ∷ ds) true (n - 1)))
      (write n 3 (hex_code c) (encode_loop (d ∷ ds) true (n - 3)))
      (write n 1 (c ∷ []) (encode_loop (d ∷ ds) encoded (n - 1)))
      (write n 6 (hex_code c ++ hex_code d) (encode_loop ds true (n - 6)))

-- The end mark, or the copy of the input where nothing was encoded.
unfoldable pub finish_word : Bytes → ℕ → Loop → Outcome (ℤ × Bytes)
finish_word inp maxlen aborts = aborts
finish_word inp maxlen (returns none) = returns (negsuc 0, [])
finish_word inp maxlen (returns (some (body, encoded, n))) =
    if ltb n 3
    then returns (negsuc 0, [])
    else if ltb n 12
    then aborts
    else if encoded
    then returns (pos 0, prefix ++ body ++ codes "?=")
    else if leb maxlen (length inp)
    then aborts
    else returns (pos 0, inp)

unfoldable pub qprint_encode_word : Bytes → ℕ → Outcome (ℤ × Bytes)
qprint_encode_word inp maxlen =
    if ltb maxlen 11
    then returns (negsuc 0, [])
    else finish_word inp maxlen (encode_loop inp false maxlen)
