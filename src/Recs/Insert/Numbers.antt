-- ===== src/Recs/Insert/Numbers.antt =====
-- `insertrec` keeps the invariant, on every path.
use tvpvrd.Prelude.{
  ℕ, zero, suc, ◌+◌, ◌≤◌, ◌<◌, ◌≡◌, ◌≢◌, sym, Bool, true, false, List, arith, All, AllPairs,
  All-map, All-zip, ltb, take, length, ◌==◌,
}
use tvpvrd.Prelude.Int.{ℤ}
use tvpvrd.Datetime.{Dates, Advance, advanced, failed, exits, increcdays}
use tvpvrd.Recs.Entry.{Entry}
use tvpvrd.Recs.Invariant.{Inv, OtherNumber}
use tvpvrd.Recs.State.{
  Config, Recs, Outcome, returns, add_slot, Ensures, Ensures-bind, Ensures-then, Ensures-if,
  Ensures-returns,
}
use tvpvrd.Recs.Sorting.{IsSorted}
use tvpvrd.Recs.Overlap.{isentryoverlapping}
use tvpvrd.Recs.Insert.{
  add_numbered, expand, insertrec, insert_series, Series, series_entry, next_round, is_excluded,
  reset_start_number, finish_series, split_at_dot, or_abort,
}
use tvpvrd.Recs.Insert.Invariant.{
  All-add_slot, AllPairs-add_slot, length-add_slot, IsSorted-add_slot, update_all, update_across,
}

OtherNumber-symm : (a b : Entry) → OtherNumber a b → OtherNumber b a
OtherNumber-symm a b h e = h (sym e)

module _ (c : Config) (video : ℕ) (e : Entry) (s : Recs) (inv : Inv c s) where
  abbrev numbered_entry : Entry
  numbered_entry = record e { seqnbr = s.global_seqnbr }

  abbrev added : List Entry
  added = add_slot c video numbered_entry (s.recs video)

  old_numbers : (v : ℕ) → All (OtherNumber (record numbered_entry { video = video })) (s.recs v)
  old_numbers v = All-map _ _ (s.recs v) (λ a lt. omega arith) (inv.numbered v)

  added_numbered : All (λ a. a.seqnbr < s.global_seqnbr + 1) added
  added_numbered =
      All-add_slot c video numbered_entry (s.recs video) _ (omega arith)
        (All-map _ _ (s.recs video) (λ a lt. omega arith) (inv.numbered video))

  added_from : (w : ℕ) → w ≢ video → All (λ a. All (OtherNumber a) (s.recs w)) added
  added_from w ne =
      All-add_slot c video numbered_entry (s.recs video) _ (old_numbers w)
        (inv.across video w (λ h. ne (sym h)))

  added_to : (w : ℕ) → w ≢ video → All (λ a. All (OtherNumber a) added) (s.recs w)
  added_to w ne =
      All-map _ _ (s.recs w)
        (λ a (lt, apart).
          All-add_slot c video numbered_entry (s.recs video) (OtherNumber a) (omega arith) apart)
        (All-zip (λ a. a.seqnbr < s.global_seqnbr) (λ a. All (OtherNumber a) (s.recs video))
          (s.recs w) (inv.numbered w) (inv.across w video ne))

  pub add_numbered-Inv : Inv c (add_numbered c video e s)
  unfolding add_numbered
  add_numbered-Inv = record {
    capacity =
        update_all (λ v es. length es ≤ c.max_entries) s.recs video added
          (length-add_slot c video numbered_entry (s.recs video) (inv.capacity video)) inv.capacity;
    sorted =
        update_all (λ v. IsSorted) s.recs video added
          (IsSorted-add_slot c video numbered_entry (s.recs video) (inv.sorted video)) inv.sorted;
    numbered =
        update_all (λ v. All (λ a. a.seqnbr < s.global_seqnbr + 1)) s.recs video added
          added_numbered (λ w. All-map _ _ (s.recs w) (λ a lt. omega arith) (inv.numbered w));
    distinct =
        update_all (λ v. AllPairs OtherNumber) s.recs video added
          (AllPairs-add_slot c video numbered_entry (s.recs video) OtherNumber OtherNumber-symm
            (old_numbers video) (inv.distinct video))
          inv.distinct;
    across =
        update_across (λ xs ys. All (λ a. All (OtherNumber a) ys) xs) s.recs video added added_from
          added_to inv.across;
  }

abbrev KeepsInv {ℓ} : {A : Type ℓ} → Config → A × Recs → Type 0
KeepsInv c p = Inv c p.1

next_round-Inv :
    (c : Config) (rest : Dates → Outcome (Bool × Recs)) (s : Recs) (a : Advance)
    → Inv c s
    → ((d : Dates) → Ensures (KeepsInv c) (rest d))
    → Ensures (KeepsInv c) (next_round rest s a)
next_round-Inv c rest s (advanced d) inv h = h d
next_round-Inv c rest s failed inv h = inv
next_round-Inv c rest s exits inv h = tt
next_round-Inv c rest s Advance.stuck inv h = tt

reset_start_number-Inv :
    (c : Config) (b : Bool) (s : Recs) → Inv c s → Inv c (reset_start_number b s)
reset_start_number-Inv c true s inv = record {
  capacity = inv.capacity;
  sorted = inv.sorted;
  numbered = inv.numbered;
  distinct = inv.distinct;
  across = inv.across;
}
reset_start_number-Inv c false s inv = inv

expand-Inv :
    (c : Config) (video : ℕ) (r : Series) (left i : ℕ) (d : Dates) (s : Recs)
    → Inv c s
    → Ensures (KeepsInv c) (expand c video r left i d s)
unfolding expand
expand-Inv c video r zero i d s inv = inv
expand-Inv c video r (suc left) i d s inv =
    Ensures-if (KeepsInv c) (is_excluded (i + r.entry.recurrence_start_number) r.excluded) _ _
      (expand-Inv c video r left (i + 1) d s inv)
      (Ensures-bind (KeepsInv c) (series_entry c s r i d) _ λ e.
        let kept =
          add_numbered-Inv c video e _ (reset_start_number-Inv c r.entry.recurrence s inv) in
        next_round-Inv c _ _ (increcdays c.time r.entry.recurrence_type d) kept
          (λ d'. expand-Inv c video r left (i + 1) d' _ kept))

finish_series-Inv : (c : Config) (p : Bool × Recs) → KeepsInv c p → KeepsInv c (finish_series p)
finish_series-Inv c (true, s) inv = record {
  capacity = inv.capacity;
  sorted = inv.sorted;
  numbered = inv.numbered;
  distinct = inv.distinct;
  across = inv.across;
}
finish_series-Inv c (false, s) inv = inv

insert_series-Inv :
    (c : Config) (now : ℤ) (s : Recs) (video : ℕ) (e : Entry) (excluded : List ℕ)
    → Inv c s
    → Ensures (KeepsInv c) (insert_series c now s video e excluded)
unfolding insert_series
insert_series-Inv c now s video e excluded inv =
    Ensures-if (KeepsInv c) (ltb c.max_entries (length (s.recs video) + e.recurrence_num)) _ _ inv (
      Ensures-bind (KeepsInv c) (or_abort (split_at_dot (c.basename (take 255 e.filename)))) _
        λ (core, filetype). Ensures-if (KeepsInv c) (e.recurrence_num == 0) _ _ tt (
          Ensures-then (KeepsInv c) (KeepsInv c) _ _
            (expand-Inv c video _ e.recurrence_num 0 _ s inv) (finish_series-Inv c)))

-- Whatever `insertrec` answers, if it returns, the lists satisfy the invariant that they satisfied
-- before: accepted or refused, single or repeated, with any dates excluded.
pub insertrec-Inv :
    (c : Config) (now : ℤ) (s s' : Recs) (video : ℕ) (e : Entry) (excluded : List ℕ) (answer : ℤ)
    → Inv c s
    → insertrec c now s video e excluded ≡ returns (answer, s')
    → Inv c s'
unfolding insertrec
insertrec-Inv c now s s' video e excluded answer inv done =
    Ensures-returns (KeepsInv c) (insertrec c now s video e excluded) (answer, s') done kept
  where
    kept : Ensures (KeepsInv c) (insertrec c now s video e excluded)
    kept = Ensures-bind (KeepsInv c) (isentryoverlapping c s video e) _ λ hit.
        Ensures-if (KeepsInv c) hit _ _ inv (
          Ensures-if (KeepsInv c) e.recurrence _ _ (insert_series-Inv c now s video e excluded inv)
            (add_numbered-Inv c video e s inv))
