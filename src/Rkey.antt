-- ===== src/Rkey.antt =====
-- `rkey.c`: keywords in brackets are replaced by their values. `strcasecmp` is a parameter. The
-- working buffer has `N` bytes; a result that does not fit it with its final zero ends in `aborts`,
-- since the code writes, or then reads, behind the buffer.
pub mod Expand
use tvpvrd.Prelude.{
  ℕ, zero, suc, ◌+◌, ◌*◌, Bool, true, false, List, [], ◌∷◌, ◌++◌, Option, none, some, ltb, leb,
  ◌==◌, if◌then◌else◌, length, take,
}
use tvpvrd.Prelude.Int.{ℤ, pos, negsuc}
use tvpvrd.Prelude.Text.{Bytes}
use tvpvrd.Recs.State.{Outcome, returns, aborts}

-- `struct keypairs`
pub record Keypair : Type 0 where
  pub key : Bytes
  pub val : Bytes

abbrev pub max_keypair_val_size : ℕ
max_keypair_val_size = 1024

-- The list of pairs, and the number of those that are in use.
unfoldable pub add_keypair : ℕ → Bytes → Bytes → List Keypair → ℤ × List Keypair
add_keypair maxkeys key val keys =
    if leb maxkeys (length keys)
    then (negsuc 0, keys)
    else (pos 0, keys ++ record { key = key; val = val } ∷ [])

-- The name behind a bracket, of at most the given length, and what follows it.
unfoldable pub scan_name : ℕ → Bytes → Bytes × Bytes
scan_name zero s = ([], s)
scan_name (suc most) [] = ([], [])
scan_name (suc most) (c ∷ s) =
    let rest = scan_name most s in if c == b']' then ([], c ∷ s) else (c ∷ rest.0, rest.1)

module _ (same : Bytes → Bytes → Bool) where
  unfoldable pub find_key : Bytes → List Keypair → Option Bytes
  find_key name [] = none
  find_key name (k ∷ keys) =
      let rest = find_key name keys in if same name k.key then some k.val else rest

  -- The value for a name that ends in a bracket, with what follows that.
  abbrev pub value_at : List Keypair → Bytes × Bytes → Option (Bytes × Bytes)
  value_at keys (name, []) = none
  value_at keys (name, c ∷ rest) = elim (find_key name keys) [
    | none ↦ none
    | some v ↦ if c == b']' then some (v, rest) else none
  ]

  unfoldable pub keyword_at : List Keypair → Bytes → Option (Bytes × Bytes)
  keyword_at keys [] = none
  keyword_at keys (c ∷ s) =
      let found = value_at keys (scan_name 254 s) in if c == b'[' then found else none

  -- The loop, with fuel of one for each byte of the template: `n` does not count the bytes of values.
  unfoldable pub replace_from : List Keypair → ℕ → ℕ → ℕ → Bytes → Bytes
  replace_from keys size zero n s = []
  replace_from keys size (suc fuel) n [] = []
  replace_from keys size (suc fuel) n (c ∷ s) = elim (ltb n size) [
    | false ↦ []
    | true ↦ elim (keyword_at keys (c ∷ s)) [
      | some (v, rest) ↦ take max_keypair_val_size v ++ replace_from keys size fuel n rest
      | none ↦ c ∷ replace_from keys size fuel (n + 1) s
    ]
  ]

  abbrev pub buffer_size : List Keypair → Bytes → ℕ
  buffer_size keys buffer = length buffer + max_keypair_val_size * length keys

  unfoldable pub replace_keywords : List Keypair → ℕ → Bytes → Outcome (ℤ × Bytes)
  replace_keywords keys maxlen buffer =
      let out = replace_from keys (buffer_size keys buffer) (length buffer) 0 buffer in
      if leb (buffer_size keys buffer) (length out)
      then aborts
      else if ltb (length out) maxlen
      then returns (pos 0, out)
      else returns (negsuc 0, buffer)

  -- The bytes of the file, if it can be read.
  unfoldable pub replace_keywords_in_file : List Keypair → Option Bytes → Outcome (ℤ × Bytes)
  replace_keywords_in_file keys none = returns (negsuc 0, [])
  replace_keywords_in_file keys (some content) =
      replace_keywords keys (length content + max_keypair_val_size * length keys + 1) content
