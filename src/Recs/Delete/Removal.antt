-- ===== src/Recs/Delete/Removal.antt =====
-- A deletion takes out what it should, and keeps the invariant.
use mathlib.Core.List.{Permᴰ}
use tvpvrd.Prelude.{
  ℕ, ◌≤◌, ◌<◌, ◌≡◌, ◌≢◌, refl, sym, inl, inr, List, [], ◌∷◌, some, arith, ◌==◌, get_elem?, All,
  AllPairs, All-map, length, Bool-cases,
}
use tvpvrd.Prelude.Perms.{
  All-Permᴰ, AllPairs-Permᴰ, length-Permᴰ, fill_from_last-Permᴰ, fill_from_last,
}
use tvpvrd.Recs.Entry.{Entry}
use tvpvrd.Recs.Sorting.{IsSorted, qsort-IsSorted}
use tvpvrd.Recs.Invariant.{Inv, OtherNumber}
use tvpvrd.Recs.State.{Config, Recs, with_recs, drop_slot, sortrecs}
use tvpvrd.Recs.Insert.Invariant.{update_all, update_across}
use tvpvrd.Recs.Delete.{remove_series}

-- The new list has entries of the old one only, each at most as often, and is in order.
pub record Shrinks (old new : List Entry) : Type 1 where
  pub all : (P : Entry → Type 0) → All P old → All P new
  pub pairs :
      (R : Entry → Entry → Type 0)
      → ((a b : Entry) → R a b → R b a)
      → AllPairs R old
      → AllPairs R new
  pub shorter : length new ≤ length old
  pub ordered : IsSorted new

module _ (c : Config) (s : Recs) (v : ℕ) (es : List Entry) (inv : Inv c s)
    (h : Shrinks (s.recs v) es) where
  from_new : (w : ℕ) → w ≢ v → All (λ a. All (OtherNumber a) (s.recs w)) es
  from_new w ne = h.all _ (inv.across v w (λ e. ne (sym e)))

  to_new : (w : ℕ) → w ≢ v → All (λ a. All (OtherNumber a) es) (s.recs w)
  to_new w ne = All-map _ _ (s.recs w) (λ a. h.all (OtherNumber a)) (inv.across w v ne)

  pub Shrinks-Inv : Inv c (with_recs s v es)
  Shrinks-Inv = record {
    capacity =
        update_all (λ w xs. length xs ≤ c.max_entries) s.recs v es
          (omega (arith, h.shorter, inv.capacity v)) inv.capacity;
    sorted = update_all (λ w. IsSorted) s.recs v es h.ordered inv.sorted;
    numbered =
        update_all (λ w. All (λ a. a.seqnbr < s.global_seqnbr)) s.recs v es
          (h.all _ (inv.numbered v)) inv.numbered;
    distinct =
        update_all (λ w. AllPairs OtherNumber) s.recs v es
          (h.pairs OtherNumber (λ a b ne e. ne (sym e)) (inv.distinct v)) inv.distinct;
    across =
        update_across (λ xs ys. All (λ a. All (OtherNumber a) ys) xs) s.recs v es from_new to_new
          inv.across;
  }

-- The entry of the slot and the list after it are the list before it, up to the order.
pub drop_slot-Permᴰ :
    (c : Config) (i : ℕ) (es : List Entry) (e : Entry)
    → get_elem? es i ≡ some e
    → Permᴰ es (e ∷ drop_slot c i es)
unfolding drop_slot
drop_slot-Permᴰ c i es e at =
    Permᴰ.trans (fill_from_last-Permᴰ es i e at)
      (Permᴰ.cons refl (c.sorter.rearranges (fill_from_last es i)))

pub drop_slot-Shrinks :
    (c : Config) (i : ℕ) (es : List Entry) (e : Entry)
    → get_elem? es i ≡ some e
    → Shrinks es (drop_slot c i es)
drop_slot-Shrinks c i es e at = record {
  all = λ P h. (All-Permᴰ P (drop_slot-Permᴰ c i es e at) h).1;
  pairs = λ R symm h. (AllPairs-Permᴰ R symm (drop_slot-Permᴰ c i es e at) h).1;
  shorter = let same = length-Permᴰ (drop_slot-Permᴰ c i es e at) in omega arith;
  ordered = unfold drop_slot in qsort-IsSorted c.sorter (fill_from_last es i);
}

module _ (rid : ℕ) where
  pub All-remove_series :
      (P : Entry → Type 0) (es : List Entry) → All P es → All P (remove_series rid es)
  unfolding remove_series
  All-remove_series P [] h = tt
  All-remove_series P (e ∷ es) h = elim (Bool-cases (e.recurrence_id == rid)) [
    | inl gone ↦ rw gone (All-remove_series P es h.1)
    | inr stays ↦ rw stays (h.0, All-remove_series P es h.1)
  ]

  AllPairs-remove_series :
      (R : Entry → Entry → Type 0) (es : List Entry)
      → AllPairs R es
      → AllPairs R (remove_series rid es)
  unfolding remove_series
  AllPairs-remove_series R [] h = tt
  AllPairs-remove_series R (e ∷ es) h = elim (Bool-cases (e.recurrence_id == rid)) [
    | inl gone ↦ rw gone (AllPairs-remove_series R es h.1)
    | inr stays ↦ rw stays (All-remove_series (R e) es h.0, AllPairs-remove_series R es h.1)
  ]

  length-remove_series : (es : List Entry) → length (remove_series rid es) ≤ length es
  unfolding remove_series
  length-remove_series [] = omega arith
  length-remove_series (e ∷ es) = ground (arith, length-remove_series es)

  pub remove_series_gone :
      (es : List Entry) → All (λ e. e.recurrence_id ≢ rid) (remove_series rid es)
  unfolding remove_series
  remove_series_gone [] = tt
  remove_series_gone (e ∷ es) = elim (Bool-cases (e.recurrence_id == rid)) [
    | inl gone ↦ rw gone (remove_series_gone es)
    | inr stays ↦ rw stays (ground arith, remove_series_gone es)
  ]

pub sorted-Permᴰ : (c : Config) (es : List Entry) → Permᴰ es (sortrecs c es)
unfolding sortrecs
sorted-Permᴰ c es = c.sorter.rearranges es

pub remove_series-Shrinks :
    (c : Config) (rid : ℕ) (es : List Entry) → Shrinks es (sortrecs c (remove_series rid es))
unfolding sortrecs
remove_series-Shrinks c rid es = record {
  all = λ P h. All-Permᴰ P (c.sorter.rearranges _) (All-remove_series rid P es h);
  pairs =
      λ R symm h. AllPairs-Permᴰ R symm (c.sorter.rearranges _) (AllPairs-remove_series rid R es h);
  shorter = omega (
    arith,
    length-Permᴰ (c.sorter.rearranges (remove_series rid es)),
    length-remove_series rid es,
  );
  ordered = qsort-IsSorted c.sorter (remove_series rid es);
}
