-- ===== src/Recs/Delete/Returns.antt =====
-- `delete_recid` returns where the table of exclusions has room.
use tvpvrd.Prelude.{
  ℕ, ◌+◌, ◌<◌, ◌≡◌, ◌≢◌, ◌⊎◌, refl, arith, Bool, inl, inr, ◌&&◌, List, [], ◌∷◌, ◌==◌, ltb, length,
  All, Option-cases,
}
use tvpvrd.Recs.State.{Config, Recs, Excluded, Outcome, returns}
use tvpvrd.Recs.Invariant.{Inv}
use tvpvrd.Recs.Exclusion.{table_size, add_excluded, add_excluded_from_repeated_recording, behind}
use tvpvrd.Recs.Delete.{find_rec, delete_one, delete_series, delete_recid}
use tvpvrd.Recs.Delete.Search.{Absent}
use tvpvrd.Recs.Delete.Recid.{delete_recid_exact}
use tvpvrd.Recs.Insert.Returns.{Returns, then-Returns, if-Returns}

-- One more series, and one more number for each series, fit in the table.
pub record HasRoom (xs : List Excluded) : Type 0 where
  pub series : length xs < table_size
  pub items : All (λ x. length x.excluded_items < table_size) xs

add_excluded-Returns :
    (before id number : ℕ) (xs : List Excluded)
    → before + length xs < table_size
    → All (λ x. length x.excluded_items < table_size) xs
    → Returns (add_excluded before id number xs)
unfolding add_excluded
add_excluded-Returns before id number [] lt h =
    if-Returns (ltb before table_size) (λ fits. (_, refl)) (λ full. absurd (ground arith))
add_excluded-Returns before id number (x ∷ xs) lt h =
    if-Returns (x.series_id == id)
      (λ here.
        if-Returns (ltb (length x.excluded_items) table_size) (λ fits. (_, refl))
          (λ full. absurd (ground (arith, h.0))))
      (λ there. passed (add_excluded-Returns (before + 1) id number xs (omega arith) h.1))
  where
    passed : {m : Outcome (List Excluded)} → Returns m → Returns (behind x m)
    passed (ys, done) = rw done (x ∷ ys, refl)

delete_recid-Returns :
    (c : Config) (s : Recs) (n : ℕ) (allrecurrences : Bool)
    → HasRoom s.excluded_recordings
    → Returns (delete_recid c s n allrecurrences)
unfolding delete_recid delete_one add_excluded_from_repeated_recording
delete_recid-Returns c s n allrecurrences room = elim (Option-cases (find_rec c s n)) [
  | inl missing ↦ rw (missing, delete_recid) ((0, s), refl)
  | inr (f, hit) ↦
      rw (hit, delete_recid)
        (if-Returns (f.found.recurrence && allrecurrences)
          (λ whole. ((1, delete_series c s f), refl))
          λ one.
            then-Returns
              (then-Returns
                (if-Returns f.found.recurrence
                  (λ series.
                    then-Returns
                      (add_excluded-Returns 0 f.found.recurrence_id f.found.recurrence_start_number
                        s.excluded_recordings (omega (arith, room.series)) room.items)
                      (λ xs. (_, refl)))
                  (λ single. (s, refl)))
                (λ s'. (_, refl)))
              (λ s'. ((1, s'), refl)))
]

-- Where the table of exclusions has room and the lists satisfy the invariant, the call returns
-- and keeps the invariant. The answer is 0, with nothing changed, where no recording of an
-- existing stream has the number; it is 1 where one had it, and then none has it any more.
pub delete_recid_deletes :
    (c : Config) (s : Recs) (n : ℕ) (allrecurrences : Bool)
    → HasRoom s.excluded_recordings
    → Inv c s
    → (k : ℕ) × (s' : Recs) × (delete_recid c s n allrecurrences ≡ returns (k, s'))
      × Inv c s'
      × (((k ≡ 0) × (s' ≡ s) × Absent s n c.max_video 0)
          ⊎ ((k ≡ 1)
              × (¬ Absent s n c.max_video 0)
              × ((w : ℕ) → All (λ e. e.seqnbr ≢ n) (s'.recs w))))
delete_recid_deletes c s n allrecurrences room inv =
    let ((k, s'), done) = delete_recid-Returns c s n allrecurrences room in
    let (kept, answer) = delete_recid_exact c s s' n k allrecurrences inv done in
    (k, s', done, kept, answer)
