-- ===== src/Recs/Invariant.antt =====
-- The invariant of the pending lists, which every operation of recs.c keeps.
use tvpvrd.Prelude.{ℕ, ◌<◌, ◌≤◌, ◌≢◌, All, AllPairs, length}
use tvpvrd.Recs.Entry.{Entry}
use tvpvrd.Recs.Sorting.{IsSorted}
use tvpvrd.Recs.State.{Config, Recs}

abbrev pub OtherNumber : Entry → Entry → Type 0
OtherNumber a b = a.seqnbr ≢ b.seqnbr

-- No list is longer than its array; each is in order of start time, so that the next recording is
-- in slot 0; a sequence number is used for one recording only, over all streams.
pub record Inv (c : Config) (s : Recs) : Type 0 where
  pub capacity : (v : ℕ) → length (s.recs v) ≤ c.max_entries
  pub sorted : (v : ℕ) → IsSorted (s.recs v)
  pub numbered : (v : ℕ) → All (λ e. e.seqnbr < s.global_seqnbr) (s.recs v)
  pub distinct : (v : ℕ) → AllPairs OtherNumber (s.recs v)
  pub across : (v w : ℕ) → v ≢ w → All (λ a. All (OtherNumber a) (s.recs w)) (s.recs v)
