-- ===== src/Xstr.antt =====
-- xstr.c: the cutting, trimming and copying of strings. What is written to a buffer is given as the
-- string that it then holds, without the final zero; `size_t` wraps at 2 ^ 64.
pub mod Cutting
pub mod Trimming
use tvpvrd.Prelude.{
  ℕ, zero, suc, ◌+◌, ◌-◌, ◌%◌, ◌≡◌, ◌<◌, ◌≤◌, Bool, [], ◌∷◌, ◌++◌, map, ◌||◌, ltb, leb, ◌==◌,
  if◌then◌else◌, Option, none, some, length, get_elem?, take, drop, min,
}
use tvpvrd.Prelude.Int.{ℤ, pos, negsuc}
use tvpvrd.Prelude.Text.{Bytes}

-- `(size_t)-1`.
abbrev pub size_max : ℕ
size_max = 18446744073709551615

abbrev pub wrap : ℕ → ℕ
wrap n = n % 18446744073709551616

-- `s[i]`, with the final zero behind the last byte.
abbrev pub byte_at : Bytes → ℕ → ℕ
byte_at [] i = 0
byte_at (x ∷ xs) zero = x
byte_at (x ∷ xs) (suc i) = byte_at xs i

-- The part from `s` to `last`, which starts within the string.
unfoldable pub cut : ℕ → Bytes → ℕ → ℕ → ℤ × Bytes
cut maxlen from s last =
    if ltb last s
    then (negsuc 0, [])
    else if leb maxlen (wrap (last - s + 1))
    then (negsuc 0, [])
    else (pos 0, take (wrap (last - s + 1)) (drop s from))

-- The position -1 stands for the end of the string.
unfoldable pub xsubstr : ℕ → Bytes → ℕ → ℕ → ℤ × Bytes
unfolding cut
xsubstr maxlen from s e =
    cut maxlen from s (if e == size_max then wrap (length from + size_max) else e)

-- The number of spaces at the start.
unfoldable pub leading : Bytes → ℕ
leading [] = 0
leading (c ∷ cs) = if c == b' ' then suc (leading cs) else 0

-- `n` when the loop from the end stops.
unfoldable pub trailing : Bytes → ℕ → ℕ
trailing s zero = 0
trailing s (suc n) = if byte_at s n == b' ' then trailing s n else suc n

unfoldable pub xstrtrim : Bytes → Bytes
xstrtrim str = take (trailing str (length str) - leading str) (drop (leading str) str)

-- The buffer of `size` bytes holds what fits, and the answer is its length.
unfoldable pub xstrlcpy : Bytes → ℕ → ℕ × Bytes
xstrlcpy src size = (length (take (size - 1) src), take (size - 1) src)

-- `dst` is a string in a buffer of `size` bytes; what does not fit as a whole is not appended.
unfoldable pub xstrlcat : Bytes → Bytes → ℕ → ℕ × Bytes
xstrlcat dst src size =
    if size == 0
    then (0, dst)
    else if leb (size - 1) (length dst)
    then (size - 1, dst)
    else if ltb (length src + length dst) size
    then (length (dst ++ src), dst ++ src)
    else (length dst, dst)

abbrev filename_stop : ℕ → Bool
filename_stop c =
    c == b' '
    || c == b'&'
    || c == b':'
    || c == b'!'
    || c == b'#'
    || c == b'?'
    || c == b'/'
    || c == b'\\'
    || c == b'@'
    || c == b','

unfoldable pub xstrfilify : Bytes → ℕ → Bytes
xstrfilify s replace = map (λ c. if filename_stop c then replace else c) s
