-- ===== src/Recs/Delete.antt =====
-- `delete_toprec`, `remove_toprec`, `update_profile` and `delete_recid`. What is freed is gone from
-- the lists, and no list holds a null pointer between calls.
pub mod Search
pub mod Removal
pub mod Recid
pub mod Returns
use tvpvrd.Prelude.{
  ℕ, zero, suc, ◌+◌, ◌-◌, Bool, true, false, not, ◌&&◌, List, [], ◌∷◌, ◌++◌, Option, none, some,
  ltb, ◌==◌, if◌then◌else◌, take, length, set,
}
use tvpvrd.Recs.Entry.{Entry, Bytes, rec_max_tprofile_len}
use tvpvrd.Recs.State.{
  Config, Recs, Outcome, returns, aborts, ◌>>=◌, update, with_recs, drop_slot, sortrecs,
}
use tvpvrd.Recs.Exclusion.{add_excluded_from_repeated_recording}

-- `delete_toprec` and `remove_toprec`: they differ only in freeing the entry. An empty list stays.
unfoldable pub remove_toprec : Config → Recs → ℕ → Recs
remove_toprec c s video =
    if ltb (length (s.recs video)) 1 then s else with_recs s video (drop_slot c 0 (s.recs video))

pub record Found : Type 0 where
  pub foundvideo : ℕ
  pub foundidx : ℕ
  pub found : Entry

-- The inner loop of the search for a sequence number, from slot `i`.
unfoldable pub find_slot : ℕ → ℕ → ℕ → List Entry → Option Found
find_slot seqnbr video i [] = none
find_slot seqnbr video i (e ∷ es) =
    if e.seqnbr == seqnbr
    then some (record { foundvideo = video; foundidx = i; found = e })
    else find_slot seqnbr video (i + 1) es

-- The outer loop, with `left` streams to go.
unfoldable pub find_from : Recs → ℕ → ℕ → ℕ → Option Found
unfolding find_slot
find_from s seqnbr zero video = none
find_from s seqnbr (suc left) video =
    let rest = find_from s seqnbr left (video + 1) in
    elim (find_slot seqnbr video 0 (s.recs video)) [ none ↦ rest | some f ↦ some f ]

unfoldable pub find_rec : Config → Recs → ℕ → Option Found
unfolding find_from
find_rec c s seqnbr = find_from s seqnbr c.max_video 0

-- The loop that deletes a whole series, with the compaction behind it.
unfoldable pub remove_series : ℕ → List Entry → List Entry
remove_series rid [] = []
remove_series rid (e ∷ es) =
    if e.recurrence_id == rid then remove_series rid es else e ∷ remove_series rid es

-- All of the series.
unfoldable pub delete_series : Config → Recs → Found → Recs
unfolding sortrecs
delete_series c s f =
    with_recs s f.foundvideo
      (sortrecs c (remove_series f.found.recurrence_id (s.recs f.foundvideo)))

-- This recording only; one of a series is entered in the table of exclusions first, and the answer
-- of that call is not read.
unfoldable pub delete_one : Config → Recs → Found → Outcome Recs
delete_one c s f = do
  s' ←
      if f.found.recurrence
      then add_excluded_from_repeated_recording s f.found.recurrence_id
          f.found.recurrence_start_number
      else returns s
  returns (with_recs s' f.foundvideo (drop_slot c f.foundidx (s'.recs f.foundvideo)))

-- 1 where the sequence number was found, 0 where not.
unfoldable pub delete_recid : Config → Recs → ℕ → Bool → Outcome (ℕ × Recs)
delete_recid c s seqnbr allrecurrences = elim (find_rec c s seqnbr) [
  | none ↦ returns (0, s)
  | some f ↦
      if f.found.recurrence && allrecurrences
      then returns (1, delete_series c s f)
      else delete_one c s f >>= λ s'. returns (1, s')
]

-- `transcoding_profile_exist` of transcprofile.c: `strncmp` over 31 bytes.
pub same_bytes : Bytes → Bytes → Bool
same_bytes [] [] = true
same_bytes [] (y ∷ ys) = false
same_bytes (x ∷ xs) [] = false
same_bytes (x ∷ xs) (y ∷ ys) = x == y && same_bytes xs ys

pub any_named : Bytes → List Bytes → Bool
any_named name [] = false
any_named name (p ∷ ps) = if same_bytes (take 31 name) (take 31 p) then true else any_named name ps

pub transcoding_profile_exist : Config → Bytes → Bool
unfolding same_bytes any_named
transcoding_profile_exist c [] = false
transcoding_profile_exist c (x ∷ xs) = any_named (x ∷ xs) c.profile_names

unfoldable pub update_profile : Config → Recs → ℕ → Bytes → ℕ × Recs
unfolding transcoding_profile_exist
update_profile c s seqnbr profile =
    if not (transcoding_profile_exist c profile) then (0, s) else elim (find_rec c s seqnbr) [
      | none ↦ (0, s)
      | some f ↦
          let renamed = record (f.found) {
            transcoding_profiles =
                set f.found.transcoding_profiles 0 (take (rec_max_tprofile_len - 1) profile);
          } in
          (seqnbr, with_recs s f.foundvideo (set (s.recs f.foundvideo) f.foundidx renamed))
    ]
