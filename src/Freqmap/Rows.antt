-- ===== src/Freqmap/Rows.antt =====
-- `struct freqch` of freqmap.h, and `xstricmp` of xstr.c as the lookups use it. Names are ASCII.
use Prim.Native.String.{String}
use tvpvrd.Prelude.{
  ℕ, ◌+◌, Bool, true, false, [], ◌∷◌, ◌&&◌, ◌||◌, ltb, leb, ◌==◌, if◌then◌else◌, length, map,
}
use tvpvrd.Prelude.Text.{Bytes}
pub use tvpvrd.Prelude.Text.{codes}

pub record Freqch : Type 0 where
  pub freq : ℕ
  pub ch : Bytes

abbrev pub row : ℕ → String → Freqch
row f name = record { freq = f; ch = codes name }

-- `tolower` of the C locale.
unfoldable pub tolower : ℕ → ℕ
tolower c = if ltb c b'A' || ltb b'Z' c then c else c + 32

abbrev pub xstrtolower : Bytes → Bytes
xstrtolower s = map tolower s

unfoldable pub same_string : Bytes → Bytes → Bool
same_string [] [] = true
same_string [] (y ∷ ys) = false
same_string (x ∷ xs) [] = false
same_string (x ∷ xs) (y ∷ ys) = x == y && same_string xs ys

-- Whether `xstricmp` returns 0: strings of 4096 bytes and more never compare equal.
unfoldable pub xstricmp_equal : Bytes → Bytes → Bool
unfolding same_string tolower
xstricmp_equal s1 s2 =
    if leb 4096 (length s1) || leb 4096 (length s2)
    then false
    else same_string (xstrtolower s1) (xstrtolower s2)
