-- ===== src/Prelude/Text.antt =====
-- Strings as lists of bytes, without the final zero.
use Prim.Native.Char.{code}
use Prim.Native.String.{String}
use tvpvrd.Prelude.{ℕ, List, [], ◌∷◌}

abbrev pub Bytes : Type 0
Bytes = List ℕ

-- The bytes of an ASCII literal.
abbrev pub codes : String → Bytes
codes String.[] = []
codes (String.◌∷◌ c s) = code c ∷ codes s
