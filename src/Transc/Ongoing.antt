-- ===== src/Transc/Ongoing.antt =====
-- The array `ongoing_transcodings`, of which the first two slots are used: `max_ongoing_transcoding`.
use tvpvrd.Prelude.{
  ℕ, zero, suc, ◌+◌, List, [], ◌∷◌, ◌++◌, Option, none, some, Bool, not, leb, ltb, set,
  if◌then◌else◌,
}
use tvpvrd.Prelude.Int.{ℤ, pos, negsuc}
use tvpvrd.Prelude.Text.{Bytes}
use tvpvrd.Transc.Slots.{find_free, used, slot_at}

-- `struct ongoing_transcoding`; of the profile its name is kept.
pub record OngoingTranscoding : Type 0 where
  pub filename : Bytes
  pub workingdir : Bytes
  pub cmd : Bytes
  pub start_ts : ℤ
  pub profile_name : Bytes
  pub pid : ℕ

abbrev pub Ongoing : Type 0
Ongoing = List (Option OngoingTranscoding)

abbrev pub max_ongoing_transcoding : ℕ
max_ongoing_transcoding = 2

abbrev pub no_transcodings : Ongoing
no_transcodings = none ∷ none ∷ []

-- `memory` is whether `calloc` has an entry.
unfoldable pub record_ongoingtranscoding : Bool → OngoingTranscoding → Ongoing → ℤ × Ongoing
record_ongoingtranscoding memory e xs =
    let i = find_free xs in
    if leb max_ongoing_transcoding i
    then (negsuc 0, xs)
    else if not memory
    then (negsuc 0, xs)
    else (pos i, set xs i (some e))

unfoldable pub forget_ongoingtranscoding : ℤ → Ongoing → Ongoing
forget_ongoingtranscoding (negsuc n) xs = xs
forget_ongoingtranscoding (pos i) xs =
    if ltb i max_ongoing_transcoding
    then (elim (slot_at xs i) [ none ↦ xs | some e ↦ set xs i none ])
    else xs

abbrev pub get_num_ongoing_transcodings : Ongoing → ℕ
get_num_ongoing_transcodings xs = used xs

-- The process groups that are killed.
unfoldable pub kill_ongoing_transcoding : ℤ → Ongoing → ℤ × List ℕ
kill_ongoing_transcoding (negsuc n) xs = (negsuc 0, [])
kill_ongoing_transcoding (pos i) xs =
    if ltb i max_ongoing_transcoding
    then (elim (slot_at xs i) [ none ↦ (pos 0, []) | some e ↦ (pos 0, e.pid ∷ []) ])
    else (negsuc 0, [])

unfoldable kill_from : ℕ → ℕ → Ongoing → List ℕ
unfolding kill_ongoing_transcoding
kill_from zero i xs = []
kill_from (suc left) i xs = (kill_ongoing_transcoding (pos i) xs).1 ++ kill_from left (i + 1) xs

unfoldable pub kill_all_ongoing_transcodings : Ongoing → List ℕ
unfolding kill_from
kill_all_ongoing_transcodings xs = kill_from max_ongoing_transcoding 0 xs
