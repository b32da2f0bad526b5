-- ===== src/Recs/Sorting.antt =====
-- The order of the pending recordings. `qsort` is the C library's: a parameter that rearranges the
-- list and leaves it in the order of `_cmprec`; nothing is said of entries that compare equal.
use mathlib.Core.List.{Permᴰ}
use tvpvrd.Prelude.{
  ◌≡◌, refl, inl, inr, true, false, List, [], ◌∷◌, arith, if◌then◌else◌, AllPairs, All-map,
  Bool-cases,
}
use tvpvrd.Prelude.Int.{ℤ, pos, negsuc, ltb_ℤ, leb_ℤ, ◌≤ℤ◌}
use tvpvrd.Prelude.Perms.{All-Permᴰ, refl-Permᴰ}
use tvpvrd.Recs.Entry.{Entry}

-- `_cmprec`
unfoldable pub cmprec : Entry → Entry → ℤ
cmprec e1 e2 =
    if ltb_ℤ e1.ts_start e2.ts_start
    then negsuc 0
    else if ltb_ℤ e2.ts_start e1.ts_start
    then pos 1
    else pos 0

abbrev pub StartsFirst : Entry → Entry → Type 0
StartsFirst a b = a.ts_start ≤ℤ b.ts_start

-- Each entry starts no later than those behind it.
abbrev pub IsSorted : List Entry → Type 0
IsSorted = AllPairs StartsFirst

pub record Qsort : Type 0 where
  pub qsort : List Entry → List Entry
  pub rearranges : (xs : List Entry) → Permᴰ xs (qsort xs)
  pub in_order : (xs : List Entry) → AllPairs (λ a b. cmprec a b ≤ℤ pos 0) (qsort xs)

cmprec-StartsFirst : (a b : Entry) → cmprec a b ≤ℤ pos 0 → StartsFirst a b
unfolding cmprec
cmprec-StartsFirst a b h = ground arith

AllPairs-map :
    (R Q : Entry → Entry → Type 0) (xs : List Entry)
    → ((a b : Entry) → R a b → Q a b)
    → AllPairs R xs
    → AllPairs Q xs
AllPairs-map R Q [] f h = tt
AllPairs-map R Q (x ∷ xs) f h = (All-map (R x) (Q x) xs (f x) h.0, AllPairs-map R Q xs f h.1)

pub qsort-IsSorted : (q : Qsort) (xs : List Entry) → IsSorted (q.qsort xs)
qsort-IsSorted q xs = AllPairs-map _ StartsFirst (q.qsort xs) cmprec-StartsFirst (q.in_order xs)

-- A sort for tests, by insertion.
unfoldable pub insert_sorted : Entry → List Entry → List Entry
insert_sorted a [] = a ∷ []
insert_sorted a (x ∷ xs) =
    if leb_ℤ a.ts_start x.ts_start then a ∷ x ∷ xs else x ∷ insert_sorted a xs

unfoldable pub insertion_sort : List Entry → List Entry
insertion_sort [] = []
insertion_sort (x ∷ xs) = insert_sorted x (insertion_sort xs)

insert_sorted-Permᴰ : (a : Entry) (xs : List Entry) → Permᴰ (a ∷ xs) (insert_sorted a xs)
unfolding insert_sorted
insert_sorted-Permᴰ a [] = refl-Permᴰ (a ∷ [])
insert_sorted-Permᴰ a (x ∷ xs) = elim (Bool-cases (leb_ℤ a.ts_start x.ts_start)) [
  | inl first ↦ rw (first, insert_sorted) (refl-Permᴰ (a ∷ x ∷ xs))
  | inr later ↦
      rw (later, insert_sorted)
        (Permᴰ.trans (Permᴰ.swap refl refl) (Permᴰ.cons refl (insert_sorted-Permᴰ a xs)))
]

pub insertion_sort-Permᴰ : (xs : List Entry) → Permᴰ xs (insertion_sort xs)
unfolding insertion_sort
insertion_sort-Permᴰ [] = Permᴰ.nil
insertion_sort-Permᴰ (x ∷ xs) =
    Permᴰ.trans (Permᴰ.cons refl (insertion_sort-Permᴰ xs))
      (insert_sorted-Permᴰ x (insertion_sort xs))

abbrev pub NotAfter : Entry → Entry → Type 0
NotAfter a b = cmprec a b ≤ℤ pos 0

NotAfter-trans : (a b c : Entry) → NotAfter a b → NotAfter b c → NotAfter a c
unfolding cmprec
NotAfter-trans a b c h k = ground arith

insert_sorted_in_order :
    (a : Entry) (xs : List Entry) → AllPairs NotAfter xs → AllPairs NotAfter (insert_sorted a xs)
unfolding insert_sorted
insert_sorted_in_order a [] h = (tt, tt)
insert_sorted_in_order a (x ∷ xs) h = elim (Bool-cases (leb_ℤ a.ts_start x.ts_start)) [
  | inl first ↦
      rw (first, insert_sorted)
        (
          (
            before first,
            All-map (NotAfter x) (NotAfter a) xs (λ y. NotAfter-trans a x y (before first)) h.0,
          ),
          h,
        )
  | inr later ↦
      rw (later, insert_sorted)
        (
          All-Permᴰ (NotAfter x) (insert_sorted-Permᴰ a xs) (after later, h.0),
          insert_sorted_in_order a xs h.1,
        )
]
  where
    before : leb_ℤ a.ts_start x.ts_start ≡ true → NotAfter a x
    before e = unfold cmprec in ground arith

    after : leb_ℤ a.ts_start x.ts_start ≡ false → NotAfter x a
    after e = unfold cmprec in ground arith

pub insertion_sort_in_order : (xs : List Entry) → AllPairs NotAfter (insertion_sort xs)
unfolding insertion_sort
insertion_sort_in_order [] = tt
insertion_sort_in_order (x ∷ xs) =
    insert_sorted_in_order x (insertion_sort xs) (insertion_sort_in_order xs)

unfoldable pub by_insertion : Qsort
unfolding insertion_sort insert_sorted
by_insertion = record {
  qsort = insertion_sort;
  rearranges = insertion_sort-Permᴰ;
  in_order = insertion_sort_in_order;
}
