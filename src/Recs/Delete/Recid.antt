-- ===== src/Recs/Delete/Recid.antt =====
-- `delete_recid`: what its answer means, and what it leaves.
use mathlib.Core.List.{Permᴰ}
use mathlib.Core.List.Permᴰ
use tvpvrd.Prelude.{
  ℕ, ◌≡◌, ◌≢◌, refl, sym, ◌∙◌, ◌⊎◌, inl, inr, Bool, true, false, ◌&&◌, List, ◌∷◌, some, arith, ◌==◌,
  if◌then◌else◌, All, All-map, All-zip, All-get_elem?, Bool-cases,
}
use tvpvrd.Prelude.Perms.{All-Permᴰ, AllPairs-Permᴰ}
use tvpvrd.Recs.Entry.{Entry}
use tvpvrd.Recs.Invariant.{Inv, OtherNumber}
use tvpvrd.Recs.State.{
  Config, Recs, Excluded, returns, with_recs, drop_slot, sortrecs, Ensures, Ensures-bind,
  Ensures-then, Ensures-if, Ensures-returns, update_self, update_other,
}
use tvpvrd.Recs.Exclusion.{add_excluded, add_excluded_from_repeated_recording}
use tvpvrd.Recs.Delete.{remove_series, delete_series, delete_one, delete_recid, Found, find_rec}
use tvpvrd.Recs.Delete.Search.{
  IsFound, find_rec-Answer, Absent, IsFound-not-Absent, find_rec-IsFound,
}
use tvpvrd.Recs.Delete.Removal.{
  Shrinks-Inv, drop_slot-Permᴰ, drop_slot-Shrinks, remove_series-Shrinks, remove_series_gone,
  sorted-Permᴰ, All-remove_series,
}

-- An exclusion changes the table of exclusions only.
excluded_keeps :
    (P : Recs → Type 0) (s : Recs) (id number : ℕ)
    → ((xs : List Excluded) → P (record s { excluded_recordings = xs }))
    → Ensures P (add_excluded_from_repeated_recording s id number)
unfolding add_excluded_from_repeated_recording
excluded_keeps P s id number h =
    Ensures-bind P (add_excluded 0 id number s.excluded_recordings)
      (λ xs. returns (record s { excluded_recordings = xs })) h

excluded-Inv :
    (c : Config) (s : Recs) (xs : List Excluded)
    → Inv c s
    → Inv c (record s { excluded_recordings = xs })
excluded-Inv c s xs inv = record {
  capacity = inv.capacity;
  sorted = inv.sorted;
  numbered = inv.numbered;
  distinct = inv.distinct;
  across = inv.across;
}

abbrev Numberless : ℕ → Recs → Type 0
Numberless n s = (w : ℕ) → All (λ e. e.seqnbr ≢ n) (s.recs w)

-- The recording that was found is gone, the others of its stream stay, and so does every other list.
abbrev pub TookOut : Recs → Found → Recs → Type 0
TookOut s f s' =
    Permᴰ (s.recs f.foundvideo) (f.found ∷ s'.recs f.foundvideo)
    × ((w : ℕ) → w ≢ f.foundvideo → s'.recs w ≡ s.recs w)

module _ (c : Config) (s : Recs) (n : ℕ) (f : Found) (at : IsFound c s n f) where
  abbrev old : List Entry
  old = s.recs f.foundvideo

  abbrev left_over : List Entry
  left_over = drop_slot c f.foundidx old

  drop-TookOut :
      (xs : List Excluded)
      → TookOut s f (with_recs (record s { excluded_recordings = xs }) f.foundvideo left_over)
  drop-TookOut xs = (
    rw (update_self s.recs f.foundvideo left_over)
        (drop_slot-Permᴰ c f.foundidx old f.found at.slot),
    update_other s.recs f.foundvideo left_over,
  )

  module _ (inv : Inv c s) where
    -- Whoever has the number is the entry that was found.
    only_found : (P : Entry → Type 0) → P f.found → All (λ e. e.seqnbr ≡ n → P e) old
    only_found P p = All-Permᴰ _ (Permᴰ.symm (drop_slot-Permᴰ c f.foundidx old f.found at.slot)) (
      (λ e. p),
      All-map (OtherNumber f.found) _ left_over (λ e ne same. absurd (ne (at.number ∙ sym same)))
          (AllPairs-Permᴰ OtherNumber (λ a b ne e. ne (sym e))
            (drop_slot-Permᴰ c f.foundidx old f.found at.slot) (inv.distinct f.foundvideo)).0,
    )

    elsewhere : (w : ℕ) → w ≢ f.foundvideo → All (λ e. e.seqnbr ≢ n) (s.recs w)
    elsewhere w ne =
        All-map (OtherNumber f.found) _ (s.recs w) (λ e other same. other (at.number ∙ sym same))
          (All-get_elem? (λ a. All (OtherNumber a) (s.recs w)) old f.foundidx f.found
            (inv.across f.foundvideo w (λ e. ne (sym e))) at.slot)

    numberless :
        (xs : List Excluded) (es : List Entry)
        → All (λ e. e.seqnbr ≢ n) es
        → Numberless n (with_recs (record s { excluded_recordings = xs }) f.foundvideo es)
    numberless xs es h w = elim (Bool-cases (w == f.foundvideo)) [
      | inl here ↦ rw here h
      | inr there ↦ rw there (elsewhere w (ground arith))
    ]

    drop_numberless : All (λ e. e.seqnbr ≢ n) left_over
    drop_numberless =
        All-map (OtherNumber f.found) _ left_over (λ e ne same. ne (at.number ∙ sym same))
          (AllPairs-Permᴰ OtherNumber (λ a b ne e. ne (sym e))
            (drop_slot-Permᴰ c f.foundidx old f.found at.slot) (inv.distinct f.foundvideo)).0

    series_numberless :
        All (λ e. e.seqnbr ≢ n) (sortrecs c (remove_series f.found.recurrence_id old))
    series_numberless = All-Permᴰ _ (sorted-Permᴰ c (remove_series f.found.recurrence_id old)) (
        All-map _ _ (remove_series f.found.recurrence_id old)
          (λ e (same_id, other_id) same. other_id (same_id same))
          (All-zip (λ e. e.seqnbr ≡ n → e.recurrence_id ≡ f.found.recurrence_id)
            (λ e. e.recurrence_id ≢ f.found.recurrence_id) (remove_series f.found.recurrence_id old)
            (All-remove_series f.found.recurrence_id _ old
              (only_found (λ e. e.recurrence_id ≡ f.found.recurrence_id) refl))
            (remove_series_gone f.found.recurrence_id old)))

    abbrev Deleted : Recs → Type 0
    Deleted s' = Inv c s' × Numberless n s'

    delete_series-Deleted : Deleted (delete_series c s f)
    unfolding delete_series
    delete_series-Deleted = (
      Shrinks-Inv c s f.foundvideo _ inv (remove_series-Shrinks c f.found.recurrence_id old),
      numberless s.excluded_recordings _ series_numberless,
    )

    dropped-Deleted :
        (xs : List Excluded)
        → Deleted (with_recs (record s { excluded_recordings = xs }) f.foundvideo left_over)
    dropped-Deleted xs = (
      Shrinks-Inv c (record s { excluded_recordings = xs }) f.foundvideo left_over
          (excluded-Inv c s xs inv) (drop_slot-Shrinks c f.foundidx old f.found at.slot),
      numberless xs left_over drop_numberless,
    )

  -- Any property that holds whatever the table of exclusions is, holds after `delete_one`.
  delete_one-Ensures :
      (P : Recs → Type 0)
      → ((xs : List Excluded)
          → P (with_recs (record s { excluded_recordings = xs }) f.foundvideo left_over))
      → Ensures P (delete_one c s f)
  unfolding delete_one
  delete_one-Ensures P h =
      Ensures-then
        (λ s'. P (with_recs s' f.foundvideo (drop_slot c f.foundidx (s'.recs f.foundvideo)))) P
        (if f.found.recurrence
          then add_excluded_from_repeated_recording s f.found.recurrence_id
              f.found.recurrence_start_number
          else returns s)
        _
        (Ensures-if _ f.found.recurrence _ _
          (excluded_keeps _ s f.found.recurrence_id f.found.recurrence_start_number h)
          (h s.excluded_recordings))
        (λ s' p. p)

abbrev RecidAnswer : Config → Recs → ℕ → ℕ × Recs → Type 0
RecidAnswer c s n (k, s') =
    Inv c s'
    × (((k ≡ 0) × (s' ≡ s) × Absent s n c.max_video 0)
        ⊎ ((k ≡ 1)
            × (¬ Absent s n c.max_video 0)
            × ((w : ℕ) → All (λ e. e.seqnbr ≢ n) (s'.recs w))))

delete_recid-Answer :
    (c : Config) (s : Recs) (n : ℕ) (allrecurrences : Bool)
    → Inv c s
    → Ensures (RecidAnswer c s n) (delete_recid c s n allrecurrences)
unfolding delete_recid
delete_recid-Answer c s n allrecurrences inv = elim (find_rec-Answer c s n) [
  | inr (missing, absent) ↦ rw (missing, delete_recid) (inv, inl (refl, refl, absent))
  | inl (f, hit, at) ↦
      rw (hit, delete_recid)
        (Ensures-if (RecidAnswer c s n) (f.found.recurrence && allrecurrences) _ _
          (answer f at (delete_series c s f) (delete_series-Deleted c s n f at inv))
          (Ensures-then (Deleted c s n f at inv) (RecidAnswer c s n) (delete_one c s f) _
            (delete_one-Ensures c s n f at _ (dropped-Deleted c s n f at inv)) (answer f at)))
]
  where
    answer :
        (f : Found) (at : IsFound c s n f) (s' : Recs)
        → Deleted c s n f at inv s'
        → RecidAnswer c s n (1, s')
    answer f at s' d = (d.0, inr (refl, IsFound-not-Absent c s n f at, d.1))

-- The answer is 0, with nothing changed, where no recording of an existing stream has the number;
-- it is 1 where one had it, and then none has it any more. The invariant is kept.
pub delete_recid_exact :
    (c : Config) (s s' : Recs) (n k : ℕ) (allrecurrences : Bool)
    → Inv c s
    → delete_recid c s n allrecurrences ≡ returns (k, s')
    → Inv c s'
      × (((k ≡ 0) × (s' ≡ s) × Absent s n c.max_video 0)
          ⊎ ((k ≡ 1)
              × (¬ Absent s n c.max_video 0)
              × ((w : ℕ) → All (λ e. e.seqnbr ≢ n) (s'.recs w))))
delete_recid_exact c s s' n k allrecurrences inv done =
    Ensures-returns (RecidAnswer c s n) (delete_recid c s n allrecurrences) (k, s') done
      (delete_recid-Answer c s n allrecurrences inv)

and_false : (b : Bool) → (b && false) ≡ false
and_false true = refl
and_false false = refl

-- Without `allrecurrences`, and where the call returns 1 after the search found a recording,
-- only that recording goes: its stream keeps the others, up to the order, and the other streams
-- are as they were.
pub delete_recid_takes_one :
    (c : Config) (s s' : Recs) (n : ℕ) (f : Found)
    → find_rec c s n ≡ some f
    → delete_recid c s n false ≡ returns (1, s')
    → Permᴰ (s.recs f.foundvideo) (f.found ∷ s'.recs f.foundvideo)
      × ((w : ℕ) → w ≢ f.foundvideo → s'.recs w ≡ s.recs w)
delete_recid_takes_one c s s' n f hit done =
    Ensures-returns (λ (p : ℕ × Recs). TookOut s f p.1) (delete_recid c s n false) (1, s') done kept
  where
    at : IsFound c s n f
    at = find_rec-IsFound c s n f hit

    kept : Ensures (λ (p : ℕ × Recs). TookOut s f p.1) (delete_recid c s n false)
    kept =
        unfold delete_recid in
        rw (hit, delete_recid, and_false f.found.recurrence)
          (Ensures-then (TookOut s f) _ (delete_one c s f) _
            (delete_one-Ensures c s n f at (TookOut s f) (drop-TookOut c s n f at)) (λ s'' h. h))
