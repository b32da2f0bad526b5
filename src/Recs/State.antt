-- ===== src/Recs/State.antt =====
-- The arrays of recs.c as one state. `recs v` is the prefix of stream v's slots that is in use, so
-- its length is `num_entries[v]`; the slots behind it are never read. Sequence numbers do not wrap.
use tvpvrd.Prelude.{
  ℕ, ◌≡◌, ◌≢◌, ◌∙◌, refl, sym, ap, inl, inr, arith, Bool, true, false, Bool-cases, ==_refl, ==_iff,
  List, [], ◌∷◌, ◌++◌, Option, none, ◌==◌, leb, if◌then◌else◌, length,
}
use tvpvrd.Prelude.Perms.{fill_from_last}
use tvpvrd.Datetime.{LibcTime}
use tvpvrd.Recs.Entry.{Entry, Bytes}
use tvpvrd.Recs.Sorting.{Qsort}

-- The settings that the operations read, and the C library's functions that they call.
pub record Config : Type 0 where
  pub max_video : ℕ
  pub max_entries : ℕ
  pub default_transcoding_profile : Bytes
  pub profile_names : List Bytes
  pub sorter : Qsort
  pub time : LibcTime
  pub basename : Bytes → Bytes
  pub dirname : Bytes → Bytes

-- `struct excluded`: the deleted numbers of one series.
pub record Excluded : Type 0 where
  pub series_id : ℕ
  pub excluded_items : List ℕ

pub record Recs : Type 0 where
  pub recs : ℕ → List Entry
  pub ongoing_recs : ℕ → Option Entry
  pub global_seqnbr : ℕ
  pub recurrence_id : ℕ
  pub initial_recurrence_start_number : ℕ
  pub excluded_recordings : List Excluded

-- A call returns, or the process ends: `exit`, a failed assertion, or a write or a pointer that is
-- out of bounds.
pub data Outcome {ℓ} (A : Type ℓ) : Type ℓ where
  returns : A → Outcome A
  aborts : Outcome A

infixl 5 ◌>>=◌
abbrev pub ◌>>=◌ {ℓ κ} : {A : Type ℓ} {B : Type κ} → Outcome A → (A → Outcome B) → Outcome B
returns a >>= f = f a
aborts >>= f = aborts

-- What holds of the result, if the call returns.
abbrev pub Ensures {ℓ κ} : {A : Type ℓ} → (A → Type κ) → Outcome A → Type κ
Ensures P (returns a) = P a
Ensures P aborts = Unit

pub Ensures-bind {ℓ κ μ} :
    {A : Type ℓ} {B : Type κ} (P : B → Type μ) (m : Outcome A) (f : A → Outcome B)
    → ((a : A) → Ensures P (f a))
    → Ensures P (m >>= f)
Ensures-bind P (returns a) f h = h a
Ensures-bind P aborts f h = tt

pub Ensures-then {ℓ κ μ ν} :
    {A : Type ℓ} {B : Type κ} (Q : A → Type μ) (P : B → Type ν) (m : Outcome A) (f : A → Outcome B)
    → Ensures Q m
    → ((a : A) → Q a → Ensures P (f a))
    → Ensures P (m >>= f)
Ensures-then Q P (returns a) f q h = h a q
Ensures-then Q P aborts f q h = tt

pub Ensures-if {ℓ κ} :
    {A : Type ℓ} (P : A → Type κ) (b : Bool) (x y : Outcome A)
    → Ensures P x
    → Ensures P y
    → Ensures P (if b then x else y)
Ensures-if P true x y h k = h
Ensures-if P false x y h k = k

pub Ensures-returns {ℓ κ} :
    {A : Type ℓ} (P : A → Type κ) (m : Outcome A) (a : A) → m ≡ returns a → Ensures P m → P a
Ensures-returns P m a e h = rw e at h

abbrev pub update {ℓ} : {A : Type ℓ} → (ℕ → A) → ℕ → A → ℕ → A
update f v a w = if w == v then a else f w

module _ {ℓ} {A : Type ℓ} (f : ℕ → A) (v : ℕ) (x : A) where
  pub update_self : update f v x v ≡ x
  update_self = rw (==_refl v)

  pub update_other : (w : ℕ) → w ≢ v → update f v x w ≡ f w
  update_other w ne = ground arith

  pub update_same : x ≡ f v → (w : ℕ) → update f v x w ≡ f w
  update_same e w = elim (Bool-cases (w == v)) [
    | inl wv ↦ rw wv (e ∙ ap f (sym ((==_iff w v).0 wv)))
    | inr wv ↦ rw wv refl
  ]

abbrev pub with_recs : Recs → ℕ → List Entry → Recs
with_recs s v es = record s { recs = update s.recs v es }

-- `initrecs`, and the initial values of the counters.
unfoldable pub initrecs : Recs
initrecs = record {
  recs = λ v. [];
  ongoing_recs = λ v. none;
  global_seqnbr = 1;
  recurrence_id = 1;
  initial_recurrence_start_number = 1;
  excluded_recordings = [];
}

-- `sortrecs` on the slots in use.
unfoldable pub sortrecs : Config → List Entry → List Entry
sortrecs c es = c.sorter.qsort es

-- `_insertrec` on stream `video`: a full list stays as it is.
unfoldable pub add_slot : Config → ℕ → Entry → List Entry → List Entry
unfolding sortrecs
add_slot c video e es =
    if leb c.max_entries (length es) then es else sortrecs c (es ++ record e { video = video } ∷ [])

-- The slot is overwritten by the last one, and the list sorted again: `remove_toprec` at slot 0,
-- and the end of `delete_recid`.
unfoldable pub drop_slot : Config → ℕ → List Entry → List Entry
unfolding sortrecs
drop_slot c i es = sortrecs c (fill_from_last es i)
