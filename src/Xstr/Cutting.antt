-- ===== src/Xstr/Cutting.antt =====
-- Cutting a part out of a string that is known as three pieces.
use tvpvrd.Prelude.{
  ℕ, suc, ◌+◌, ◌-◌, ◌≤◌, ◌<◌, ◌≡◌, refl, ap, ◌∙◌, inl, inr, true, false, List, [], ◌∷◌, ◌++◌, ltb,
  leb, ◌==◌, if◌then◌else◌, length, take, drop, Bool-cases, arith, length-append,
}
use mathlib.Core.Path.{subst}
use mathlib.Core.List.{append-nil}
use tvpvrd.Prelude.Int.{pos}
use tvpvrd.Prelude.Text.{Bytes}
use tvpvrd.Xstr.{size_max, wrap, cut, xsubstr}

pub drop-append {ℓ} : {A : Type ℓ} (xs ys : List A) → drop (length xs) (xs ++ ys) ≡ ys
drop-append [] ys = refl
drop-append (x ∷ xs) ys = drop-append xs ys

pub take-append {ℓ} : {A : Type ℓ} (xs ys : List A) → take (length xs) (xs ++ ys) ≡ xs
take-append [] ys = refl
take-append (x ∷ xs) ys = ap (λ t. x ∷ t) (take-append xs ys)

-- What a buffer of `m` bytes holds of a part: all of it, or nothing where it does not fit.
unfoldable pub fitting : ℕ → Bytes → Bytes
fitting m t = if leb m (length t) then [] else t

cut-part :
    (m : ℕ) (pre t post : Bytes) (last : ℕ)
    → suc last ≡ length pre + length t
    → last < size_max
    → (cut m (pre ++ (t ++ post)) (length pre) last).1 ≡ fitting m t
unfolding cut fitting
cut-part m pre [] post last e bound =
    let short : ltb last (length pre) ≡ true = ground arith in rw short (ground arith)
cut-part m pre (x ∷ t) post last e bound =
    let long : ltb last (length pre) ≡ false = ground arith in
    let all : wrap (last - length pre + 1) ≡ length (x ∷ t) = omega arith in
    elim (Bool-cases (leb m (length (x ∷ t)))) [
      | inl over ↦ rw (long, all, over) refl
      | inr fits ↦
          rw (long, all, fits)
            (ap (take (length (x ∷ t))) (drop-append pre ((x ∷ t) ++ post))
              ∙ take-append (x ∷ t) post)
    ]

-- A part that ends at a position.
pub xsubstr-part :
    (m : ℕ) (pre t post : Bytes) (e : ℕ)
    → suc e ≡ length pre + length t
    → e < size_max
    → (xsubstr m (pre ++ (t ++ post)) (length pre) e).1 ≡ fitting m t
unfolding xsubstr
xsubstr-part m pre t post e h bound =
    let known : (e == size_max) ≡ false = ground arith in rw known (cut-part m pre t post e h bound)

-- A part that goes on to the end of the string.
pub xsubstr-end :
    (m : ℕ) (pre t : Bytes)
    → 0 < length pre + length t
    → length pre + length t ≤ size_max
    → (xsubstr m (pre ++ t) (length pre) size_max).1 ≡ fitting m t
unfolding xsubstr
xsubstr-end m pre t some_byte bound =
    let last : wrap (length (pre ++ t) + size_max) ≡ length pre + length t - 1 =
      omega (arith, length-append pre t) in
    let whole : t ++ [] ≡ t = append-nil t in
    rw last (
      subst (λ z. (cut m (pre ++ z) (length pre) (length pre + length t - 1)).1 ≡ fitting m t) whole
        (cut-part m pre t [] (length pre + length t - 1) (omega arith) (omega arith)))

-- A part that has bytes and fits is answered with 0.
pub xsubstr-fits :
    (m : ℕ) (pre t post : Bytes) (e : ℕ)
    → suc e ≡ length pre + length t
    → e < size_max
    → 0 < length t
    → length t < m
    → (xsubstr m (pre ++ (t ++ post)) (length pre) e).0 ≡ pos 0
unfolding xsubstr cut
xsubstr-fits m pre t post e at bound some_byte short =
    let known : (e == size_max) ≡ false = ground arith in
    let forward : ltb e (length pre) ≡ false = ground arith in
    let inside : leb m (wrap (e - length pre + 1)) ≡ false = ground arith in
    rw (known, forward, inside) refl

pub fitting_short : (m : ℕ) (t : Bytes) → length t < m → fitting m t ≡ t
unfolding fitting
fitting_short m t h = let fits : leb m (length t) ≡ false = ground arith in rw fits refl
