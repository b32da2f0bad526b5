-- ===== src/Recs/Insert/Invariant.antt =====
-- What every insertion keeps.
use mathlib.Core.List.{Permᴰ}
use tvpvrd.Prelude.{
  ℕ, ◌≤◌, ◌≡◌, ◌≢◌, sym, subst, ◌∙◌, inl, inr, true, false, List, ◌∷◌, arith, All, AllPairs, length,
  leb, ◌==◌, Bool-cases, ==_iff,
}
use tvpvrd.Prelude.Perms.{All-Permᴰ, AllPairs-Permᴰ, append-Permᴰ, length-Permᴰ}
use tvpvrd.Recs.Entry.{Entry}
use tvpvrd.Recs.Sorting.{IsSorted, qsort-IsSorted}
use tvpvrd.Recs.State.{Config, update, add_slot}

-- The new slot and the old ones, in another order.
pub add_slot-Permᴰ :
    (c : Config) (v : ℕ) (e : Entry) (es : List Entry)
    → leb c.max_entries (length es) ≡ false
    → Permᴰ (record e { video = v } ∷ es) (add_slot c v e es)
unfolding add_slot
add_slot-Permᴰ c v e es room =
    rw room (Permᴰ.trans (append-Permᴰ es (record e { video = v })) (c.sorter.rearranges _))

pub add_slot_full :
    (c : Config) (v : ℕ) (e : Entry) (es : List Entry)
    → leb c.max_entries (length es) ≡ true
    → add_slot c v e es ≡ es
unfolding add_slot
add_slot_full c v e es full = rw full

module _ (c : Config) (v : ℕ) (e : Entry) (es : List Entry) where
  pub All-add_slot :
      (P : Entry → Type 0) → P (record e { video = v }) → All P es → All P (add_slot c v e es)
  All-add_slot P p h = elim (Bool-cases (leb c.max_entries (length es))) [
    | inl full ↦ rw (add_slot_full c v e es full) h
    | inr room ↦ All-Permᴰ P (add_slot-Permᴰ c v e es room) (p, h)
  ]

  pub AllPairs-add_slot :
      (R : Entry → Entry → Type 0)
      → ((a b : Entry) → R a b → R b a)
      → All (R (record e { video = v })) es
      → AllPairs R es
      → AllPairs R (add_slot c v e es)
  AllPairs-add_slot R symm p h = elim (Bool-cases (leb c.max_entries (length es))) [
    | inl full ↦ rw (add_slot_full c v e es full) h
    | inr room ↦ AllPairs-Permᴰ R symm (add_slot-Permᴰ c v e es room) (p, h)
  ]

  pub length-add_slot : length es ≤ c.max_entries → length (add_slot c v e es) ≤ c.max_entries
  length-add_slot h = elim (Bool-cases (leb c.max_entries (length es))) [
    | inl full ↦ rw (add_slot_full c v e es full) h
    | inr room ↦ let same = length-Permᴰ (add_slot-Permᴰ c v e es room) in ground (arith, same)
  ]

  pub IsSorted-add_slot : IsSorted es → IsSorted (add_slot c v e es)
  unfolding add_slot
  IsSorted-add_slot h = elim (Bool-cases (leb c.max_entries (length es))) [
    | inl full ↦ rw full h
    | inr room ↦ rw room (qsort-IsSorted c.sorter _)
  ]

-- A property of every stream's list, after one of them is replaced.
pub update_all :
    (P : ℕ → List Entry → Type 0) (f : ℕ → List Entry) (v : ℕ) (es : List Entry)
    → P v es
    → ((w : ℕ) → P w (f w))
    → (w : ℕ) → P w (update f v es w)
update_all P f v es p h w = elim (Bool-cases (w == v)) [
  | inl e ↦ rw e (subst (λ u. P u es) (sym ((==_iff w v).0 e)) p)
  | inr e ↦ rw e (h w)
]

-- The same for a relation between the lists of two streams.
pub update_across :
    (R : List Entry → List Entry → Type 0) (f : ℕ → List Entry) (u : ℕ) (es : List Entry)
    → ((w : ℕ) → w ≢ u → R es (f w))
    → ((w : ℕ) → w ≢ u → R (f w) es)
    → ((v w : ℕ) → v ≢ w → R (f v) (f w))
    → (v w : ℕ) → v ≢ w
    → R (update f u es v) (update f u es w)
update_across R f u es from to others v w ne = elim (Bool-cases (v == u)) [
  | inl vu ↦ elim (Bool-cases (w == u)) [
    | inl wu ↦ absurd (ne ((==_iff v u).0 vu ∙ sym ((==_iff w u).0 wu)))
    | inr wu ↦ rw (vu, wu) (from w (ground arith))
  ]
  | inr vu ↦ elim (Bool-cases (w == u)) [
    | inl wu ↦ rw (vu, wu) (to v (ground arith))
    | inr wu ↦ rw (vu, wu) (others v w ne)
  ]
]
