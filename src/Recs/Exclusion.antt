-- ===== src/Recs/Exclusion.antt =====
-- The numbers deleted from a repeated series: `add_excluded_from_repeated_recording` and the
-- functions that read the table. Both arrays have 1024 places, and neither write is checked.
pub mod Laws
use tvpvrd.Prelude.{
  ℕ, zero, suc, ◌+◌, Bool, true, false, ◌||◌, List, [], ◌∷◌, ◌++◌, Option, none, some, ltb, ◌==◌,
  if◌then◌else◌, length, get_elem?,
}
use tvpvrd.Prelude.Int.{ℤ, pos, negsuc}
use tvpvrd.Recs.State.{Config, Recs, Excluded, Outcome, returns, aborts, ◌>>=◌}

abbrev pub table_size : ℕ
table_size = 1024

abbrev pub fits : ℕ → List Excluded → Outcome (List Excluded)
fits n xs = if ltb n table_size then returns xs else aborts

abbrev pub behind : Excluded → Outcome (List Excluded) → Outcome (List Excluded)
behind x (returns xs) = returns (x ∷ xs)
behind x aborts = aborts

-- The loop over the series, `before` of which have been passed, and the new series behind it.
unfoldable pub add_excluded : ℕ → ℕ → ℕ → List Excluded → Outcome (List Excluded)
add_excluded before id number [] =
    fits before (record { series_id = id; excluded_items = number ∷ [] } ∷ [])
add_excluded before id number (x ∷ xs) =
    if x.series_id == id
    then fits (length x.excluded_items)
        (record x { excluded_items = x.excluded_items ++ number ∷ [] } ∷ xs)
    else behind x (add_excluded (before + 1) id number xs)

unfoldable pub add_excluded_from_repeated_recording : Recs → ℕ → ℕ → Outcome Recs
unfolding add_excluded
add_excluded_from_repeated_recording s id number =
    add_excluded 0 id number s.excluded_recordings >>= λ xs.
    returns (record s { excluded_recordings = xs })

pub find_series : ℕ → List Excluded → Option (List ℕ)
find_series id [] = none
find_series id (x ∷ xs) = if x.series_id == id then some x.excluded_items else find_series id xs

pub has_excluded_items : Recs → ℕ → Bool
unfolding find_series
has_excluded_items s id = elim (find_series id s.excluded_recordings) [
  | none ↦ false
  | some items ↦ true
]

pub listed : ℕ → List ℕ → Bool
listed n [] = false
listed n (x ∷ xs) = n == x || listed n xs

pub is_excluded_from_repeated_recording : Recs → ℕ → ℕ → Bool
unfolding find_series listed
is_excluded_from_repeated_recording s id number = elim (find_series id s.excluded_recordings) [
  | none ↦ false
  | some items ↦ listed number items
]

-- The static variables of the iteration over one series: `iterate_serie` and `iterate_idx`.
pub record Iteration : Type 0 where
  pub iterate_serie : Option (List ℕ)
  pub iterate_idx : ℕ

-- For an unknown series the old `iterate_serie` stays.
pub iterate_excluded_init : Recs → Iteration → ℕ → ℤ × Iteration
unfolding find_series
iterate_excluded_init s it id = elim (find_series id s.excluded_recordings) [
  | none ↦ (negsuc 0, record it { iterate_idx = 0 })
  | some items ↦ (pos 0, record { iterate_serie = some items; iterate_idx = 0 })
]

abbrev next_of : Iteration → List ℕ → ℤ × Iteration
next_of it items = elim (get_elem? items it.iterate_idx) [
  | none ↦ (negsuc 0, it)
  | some n ↦ (pos n, record it { iterate_idx = it.iterate_idx + 1 })
]

pub next_excluded_item : Iteration → ℤ × Iteration
next_excluded_item it = elim it.iterate_serie [
  | none ↦ (negsuc 0, it)
  | some items ↦ next_of it items
]
