-- ===== src/Transc/Slots.antt =====
-- Arrays whose entries are in use or free, as transc.c keeps them: the search for a free slot, and
-- the number in use.
use tvpvrd.Prelude.{
  ℕ, zero, suc, ◌<◌, ◌≤◌, ◌≡◌, ◌≢◌, refl, sym, ap, arith, Option, none, some, List, [], ◌∷◌, length,
  set,
}

module _ {ℓ} {A : Type ℓ} where
  -- The first free slot, or the number of slots.
  unfoldable pub find_free : List (Option A) → ℕ
  find_free [] = 0
  find_free (none ∷ xs) = 0
  find_free (some a ∷ xs) = suc (find_free xs)

  unfoldable pub used : List (Option A) → ℕ
  used [] = 0
  used (none ∷ xs) = used xs
  used (some a ∷ xs) = suc (used xs)

  unfoldable pub slot_at : List (Option A) → ℕ → Option A
  slot_at [] i = none
  slot_at (x ∷ xs) zero = x
  slot_at (x ∷ xs) (suc i) = slot_at xs i

  pub used-le : (xs : List (Option A)) → used xs ≤ length xs
  unfolding used
  used-le [] = omega arith
  used-le (none ∷ xs) = omega (arith, used-le xs)
  used-le (some a ∷ xs) = omega (arith, used-le xs)

  pub find_free-le : (xs : List (Option A)) → find_free xs ≤ length xs
  unfolding find_free
  find_free-le [] = omega arith
  find_free-le (none ∷ xs) = omega arith
  find_free-le (some a ∷ xs) = omega (arith, find_free-le xs)

  -- No slot is found exactly where all are in use.
  pub find_free_full : (xs : List (Option A)) → length xs ≤ find_free xs → used xs ≡ length xs
  unfolding find_free used
  find_free_full [] h = refl
  find_free_full (none ∷ xs) h = absurd (omega (arith, h))
  find_free_full (some a ∷ xs) h = omega (arith, find_free_full xs (omega (arith, h)))

  pub find_free_room : (xs : List (Option A)) → find_free xs < length xs → used xs < length xs
  unfolding find_free used
  find_free_room [] h = absurd (omega (arith, h))
  find_free_room (none ∷ xs) h = omega (arith, used-le xs)
  find_free_room (some a ∷ xs) h = omega (arith, find_free_room xs (omega (arith, h)))

  pub slot_at-find_free : (xs : List (Option A)) → slot_at xs (find_free xs) ≡ none
  unfolding find_free slot_at
  slot_at-find_free [] = refl
  slot_at-find_free (none ∷ xs) = refl
  slot_at-find_free (some a ∷ xs) = slot_at-find_free xs

  pub length-set : (xs : List (Option A)) (i : ℕ) (o : Option A) → length (set xs i o) ≡ length xs
  length-set [] i o = refl
  length-set (x ∷ xs) zero o = refl
  length-set (x ∷ xs) (suc i) o = ap suc (length-set xs i o)

  pub slot_at-set :
      (xs : List (Option A)) (i : ℕ) (o : Option A) → i < length xs → slot_at (set xs i o) i ≡ o
  unfolding slot_at
  slot_at-set [] i o h = absurd (omega (arith, h))
  slot_at-set (x ∷ xs) zero o h = refl
  slot_at-set (x ∷ xs) (suc i) o h = slot_at-set xs i o (omega (arith, h))

  pub slot_at_other :
      (xs : List (Option A)) (i j : ℕ) (o : Option A)
      → i ≢ j
      → slot_at (set xs i o) j ≡ slot_at xs j
  unfolding slot_at
  slot_at_other [] i j o ne = refl
  slot_at_other (x ∷ xs) zero zero o ne = absurd (ne refl)
  slot_at_other (x ∷ xs) zero (suc j) o ne = refl
  slot_at_other (x ∷ xs) (suc i) zero o ne = refl
  slot_at_other (x ∷ xs) (suc i) (suc j) o ne = slot_at_other xs i j o (λ e. ne (ap suc e))

  pub used-fill :
      (xs : List (Option A)) (i : ℕ) (a : A)
      → i < length xs
      → slot_at xs i ≡ none
      → used (set xs i (some a)) ≡ suc (used xs)
  unfolding slot_at used
  used-fill [] i a h e = absurd (omega (arith, h))
  used-fill (none ∷ xs) zero a h e = refl
  used-fill (some b ∷ xs) zero a h e = cc e
  used-fill (none ∷ xs) (suc i) a h e = used-fill xs i a (omega (arith, h)) e
  used-fill (some b ∷ xs) (suc i) a h e = ap suc (used-fill xs i a (omega (arith, h)) e)

  pub used-clear :
      (xs : List (Option A)) (i : ℕ) (a : A)
      → slot_at xs i ≡ some a
      → suc (used (set xs i none)) ≡ used xs
  unfolding slot_at used
  used-clear [] i a e = cc e
  used-clear (none ∷ xs) zero a e = cc e
  used-clear (some b ∷ xs) zero a e = refl
  used-clear (none ∷ xs) (suc i) a e = used-clear xs i a e
  used-clear (some b ∷ xs) (suc i) a e = ap suc (used-clear xs i a e)

  -- Filling the free slot and clearing it is nothing.
  pub set-set :
      (xs : List (Option A)) (i : ℕ) (o : Option A)
      → slot_at xs i ≡ none
      → set (set xs i o) i none ≡ xs
  unfolding slot_at
  set-set [] i o e = refl
  set-set (x ∷ xs) zero o e = ap (λ y. y ∷ xs) (sym e)
  set-set (x ∷ xs) (suc i) o e = ap (λ ys. x ∷ ys) (set-set xs i o e)

  pub slot_at-lt : (xs : List (Option A)) (i : ℕ) (a : A) → slot_at xs i ≡ some a → i < length xs
  unfolding slot_at
  slot_at-lt [] i a e = cc e
  slot_at-lt (x ∷ xs) zero a e = omega arith
  slot_at-lt (x ∷ xs) (suc i) a e = omega (arith, slot_at-lt xs i a e)
