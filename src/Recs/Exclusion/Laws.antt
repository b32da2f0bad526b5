-- ===== src/Recs/Exclusion/Laws.antt =====
-- What is excluded after an exclusion.
use tvpvrd.Prelude.{
  ℕ, ◌+◌, ◌≡◌, inl, inr, Bool, false, ◌||◌, ◌&&◌, List, [], ◌∷◌, ◌++◌, Option, none, some, arith,
  ltb, ◌==◌, Bool-cases, length,
}
use tvpvrd.Recs.State.{
  Recs, Excluded, Outcome, returns, aborts, Ensures, Ensures-if, Ensures-returns, Ensures-then,
}
use tvpvrd.Recs.Exclusion.{
  table_size, behind, add_excluded, add_excluded_from_repeated_recording, find_series, listed,
  is_excluded_from_repeated_recording,
}

-- Whether the table excludes the number from the series.
abbrev in_items : ℕ → Option (List ℕ) → Bool
in_items n none = false
in_items n (some items) = listed n items

listed-append : (n m : ℕ) (xs : List ℕ) → listed n (xs ++ m ∷ []) ≡ (listed n xs || n == m)
unfolding listed
listed-append n m [] = ground arith
listed-append n m (x ∷ xs) = ground (arith, listed-append n m xs)

abbrev Excludes : ℕ → ℕ → ℕ → ℕ → Bool → List Excluded → Type 0
Excludes id number j n old ys = in_items n (find_series j ys) ≡ (old || j == id && n == number)

Ensures-behind :
    (P Q : List Excluded → Type 0) (x : Excluded) (m : Outcome (List Excluded))
    → ((ys : List Excluded) → Q ys → P (x ∷ ys))
    → Ensures Q m
    → Ensures P (behind x m)
Ensures-behind P Q x (returns ys) f h = f ys h
Ensures-behind P Q x aborts f h = tt

add_excluded_lem :
    (before id number j n : ℕ) (xs : List Excluded)
    → Ensures
        (Excludes id number j n (in_items n (find_series j xs)))
        (add_excluded before id number xs)
unfolding add_excluded find_series
add_excluded_lem before id number j n [] =
    Ensures-if _ (ltb before table_size) _ _ (unfold listed in ground arith) tt
add_excluded_lem before id number j n (x ∷ xs) = elim (Bool-cases (x.series_id == id)) [
  | inl here ↦ rw here (
      Ensures-if _ (ltb (length x.excluded_items) table_size) _ _
        (ground (arith, listed-append n number x.excluded_items)) tt)
  | inr there ↦ rw there (
      Ensures-behind _ _ x (add_excluded (before + 1) id number xs) (λ ys h. passed there ys h)
        (add_excluded_lem (before + 1) id number j n xs))
]
  where
    passed :
        x.series_id == id ≡ false
        → (ys : List Excluded) → Excludes id number j n (in_items n (find_series j xs)) ys
        → Excludes id number j n (in_items n (find_series j (x ∷ xs))) (x ∷ ys)
    passed there ys h = ground arith

-- If the call returns, that is, if the table has room, exactly the numbers that were excluded
-- before are excluded afterwards, and the new one from its series.
pub is_excluded-add_excluded :
    (s s' : Recs) (id number j n : ℕ)
    → add_excluded_from_repeated_recording s id number ≡ returns s'
    → is_excluded_from_repeated_recording s' j n
      ≡ (is_excluded_from_repeated_recording s j n || j == id && n == number)
unfolding add_excluded_from_repeated_recording is_excluded_from_repeated_recording
is_excluded-add_excluded s s' id number j n done =
    Ensures-returns
      (λ (r : Recs).
        in_items n (find_series j r.excluded_recordings)
        ≡ (in_items n (find_series j s.excluded_recordings) || j == id && n == number))
      _ s' done
      (Ensures-then (Excludes id number j n (in_items n (find_series j s.excluded_recordings))) _
        (add_excluded 0 id number s.excluded_recordings) _
        (add_excluded_lem 0 id number j n s.excluded_recordings) (λ ys h. h))
