-- ===== src/Prelude/Perms.antt =====
-- What a rearrangement of a list keeps, and the removal of a slot by moving the last entry there.
use mathlib.Core.List.{Permᴰ}
use tvpvrd.Prelude.{
  ℕ, zero, suc, ◌-◌, ◌≡◌, refl, ap, subst, ◌∙◌, List, [], ◌∷◌, ◌++◌, none, some, arith,
}
use tvpvrd.Prelude.{length, get_elem?, set, take, All, AllPairs}

module _ {ℓ} {A : Type ℓ} where
  pub length-Permᴰ : {xs ys : List A} → Permᴰ xs ys → length xs ≡ length ys
  length-Permᴰ Permᴰ.nil = refl
  length-Permᴰ (Permᴰ.cons e p) = ap suc (length-Permᴰ p)
  length-Permᴰ (Permᴰ.swap e f) = refl
  length-Permᴰ (Permᴰ.trans p q) = length-Permᴰ p ∙ length-Permᴰ q

  pub refl-Permᴰ : (xs : List A) → Permᴰ xs xs
  refl-Permᴰ [] = Permᴰ.nil
  refl-Permᴰ (x ∷ xs) = Permᴰ.cons refl (refl-Permᴰ xs)

  pub append-Permᴰ : (xs : List A) (a : A) → Permᴰ (a ∷ xs) (xs ++ a ∷ [])
  append-Permᴰ [] a = refl-Permᴰ (a ∷ [])
  append-Permᴰ (x ∷ xs) a = Permᴰ.trans (Permᴰ.swap refl refl) (Permᴰ.cons refl (append-Permᴰ xs a))

  pub append_left-Permᴰ : (xs : List A) {ys zs : List A} → Permᴰ ys zs → Permᴰ (xs ++ ys) (xs ++ zs)
  append_left-Permᴰ [] p = p
  append_left-Permᴰ (x ∷ xs) p = Permᴰ.cons refl (append_left-Permᴰ xs p)

  pub middle-Permᴰ : (a : A) (xs ys : List A) → Permᴰ (a ∷ xs ++ ys) (xs ++ a ∷ ys)
  middle-Permᴰ a [] ys = refl-Permᴰ (a ∷ ys)
  middle-Permᴰ a (x ∷ xs) ys =
      Permᴰ.trans (Permᴰ.swap refl refl) (Permᴰ.cons refl (middle-Permᴰ a xs ys))

  last_of : A → List A → A
  last_of x [] = x
  last_of x (y ∷ r) = last_of y r

  get_elem?-last_of : (x : A) (r : List A) → get_elem? (x ∷ r) (length r) ≡ some (last_of x r)
  unfolding last_of
  get_elem?-last_of x [] = refl
  get_elem?-last_of x (y ∷ r) = get_elem?-last_of y r

  last_of-Permᴰ : (x : A) (r : List A) → Permᴰ (x ∷ r) (last_of x r ∷ take (length r) (x ∷ r))
  unfolding last_of
  last_of-Permᴰ x [] = refl-Permᴰ (x ∷ [])
  last_of-Permᴰ x (y ∷ r) = Permᴰ.trans (Permᴰ.cons refl (last_of-Permᴰ y r)) (Permᴰ.swap refl refl)

  -- The last entry moves to slot `i`, and the list gets shorter by one.
  unfoldable pub fill_from_last : List A → ℕ → List A
  fill_from_last xs i = elim (get_elem? xs (length xs - 1)) [
    | none ↦ xs
    | some l ↦ take (length xs - 1) (set xs i l)
  ]

  fill_from_last-cons :
      (x : A) (r : List A) (i : ℕ)
      → fill_from_last (x ∷ r) i ≡ take (length r) (set (x ∷ r) i (last_of x r))
  unfolding fill_from_last
  fill_from_last-cons x r i =
      let e : suc (length r) - 1 ≡ length r = omega arith in
      rw (e, get_elem?-last_of x r, fill_from_last)
        (ap (λ n. take n (set (x ∷ r) i (last_of x r))) e)

  fill-Permᴰ :
      (x : A) (r : List A) (i : ℕ) (a : A)
      → get_elem? (x ∷ r) i ≡ some a
      → Permᴰ (x ∷ r) (a ∷ take (length r) (set (x ∷ r) i (last_of x r)))
  unfolding last_of
  fill-Permᴰ x [] zero a e = Permᴰ.cons (ground arith) Permᴰ.nil
  fill-Permᴰ x [] (suc i) a e = elim (none_some e) [ ]
    where
      none_some : none ≡ some a → ⊥
      none_some h = cc
  fill-Permᴰ x (y ∷ r) zero a e = Permᴰ.cons (ground arith) (last_of-Permᴰ y r)
  fill-Permᴰ x (y ∷ r) (suc i) a e =
      Permᴰ.trans (Permᴰ.cons refl (fill-Permᴰ y r i a e)) (Permᴰ.swap refl refl)

  -- Together with the entry that was in the slot, it holds what was there before.
  pub fill_from_last-Permᴰ :
      (xs : List A) (i : ℕ) (a : A) → get_elem? xs i ≡ some a → Permᴰ xs (a ∷ fill_from_last xs i)
  fill_from_last-Permᴰ [] i a e = cc
  fill_from_last-Permᴰ (x ∷ r) i a e = rw (fill_from_last-cons x r i) (fill-Permᴰ x r i a e)

module _ {ℓ κ} {A : Type ℓ} (P : A → Type κ) where
  pub All-Permᴰ : {xs ys : List A} → Permᴰ xs ys → All P xs → All P ys
  All-Permᴰ Permᴰ.nil h = tt
  All-Permᴰ (Permᴰ.cons e p) h = (subst P e h.0, All-Permᴰ p h.1)
  All-Permᴰ (Permᴰ.swap e f) h = (subst P f h.1.0, (subst P e h.0, h.1.1))
  All-Permᴰ (Permᴰ.trans p q) h = All-Permᴰ q (All-Permᴰ p h)

module _ {ℓ κ} {A : Type ℓ} (R : A → A → Type κ) (symm : (a b : A) → R a b → R b a) where
  pub AllPairs-Permᴰ : {xs ys : List A} → Permᴰ xs ys → AllPairs R xs → AllPairs R ys
  AllPairs-Permᴰ Permᴰ.nil h = tt
  AllPairs-Permᴰ (Permᴰ.cons {l₂ = ys} e p) h =
      (subst (λ a. All (R a) ys) e (All-Permᴰ (R _) p h.0), AllPairs-Permᴰ p h.1)
  AllPairs-Permᴰ (Permᴰ.swap {a} {b} {a'} {b'} {l} e f) h = (
    (subst (λ x. R x b') f (subst (R b) e (symm a b h.0.0)), subst (λ x. All (R x) l) f h.1.0),
    (subst (λ x. All (R x) l) e h.0.1, h.1.1),
  )
  AllPairs-Permᴰ (Permᴰ.trans p q) h = AllPairs-Permᴰ q (AllPairs-Permᴰ p h)
