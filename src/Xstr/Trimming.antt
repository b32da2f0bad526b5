-- ===== src/Xstr/Trimming.antt =====
-- `xstrtrim` takes away the spaces around a text, and no others.
use tvpvrd.Prelude.{
  ℕ, zero, suc, ◌+◌, ◌-◌, ◌≤◌, ◌<◌, ◌≡◌, ◌≢◌, refl, ap, sym, ◌∙◌, [], ◌∷◌, ◌++◌, length, take, drop,
  replicate, length-append, length-replicate, arith,
}
use mathlib.Core.List.{append_assoc}
use tvpvrd.Prelude.Text.{Bytes}
use tvpvrd.Xstr.{byte_at, leading, trailing, xstrtrim}
use tvpvrd.Xstr.Cutting.{drop-append, take-append}

abbrev pub spaces : ℕ → Bytes
spaces n = replicate n b' '

length-spaces : (n : ℕ) → length (spaces n) ≡ n
length-spaces n = length-replicate n b' '

-- No space at the start or at the end, where the text has bytes at all.
abbrev pub IsTrimmed : Bytes → Type 0
IsTrimmed t = (byte_at t 0 ≢ b' ') × (byte_at t (length t - 1) ≢ b' ')

pub byte_at-append : (xs ys : Bytes) (i : ℕ) → byte_at (xs ++ ys) (length xs + i) ≡ byte_at ys i
byte_at-append [] ys i = ap (byte_at ys) (omega arith)
byte_at-append (x ∷ xs) ys i =
    let e : length (x ∷ xs) + i ≡ suc (length xs + i) = omega arith in rw e (byte_at-append xs ys i)

byte_at-front : (xs ys : Bytes) (i : ℕ) → i < length xs → byte_at (xs ++ ys) i ≡ byte_at xs i
byte_at-front [] ys i h = absurd (omega arith)
byte_at-front (x ∷ xs) ys zero h = refl
byte_at-front (x ∷ xs) ys (suc i) h = byte_at-front xs ys i (omega arith)

byte_at-spaces : (n i : ℕ) → i < n → byte_at (spaces n) i ≡ b' '
byte_at-spaces zero i h = absurd (omega arith)
byte_at-spaces (suc n) zero h = refl
byte_at-spaces (suc n) (suc i) h = byte_at-spaces n i (omega arith)

leading-spaces : (i : ℕ) (s : Bytes) → byte_at s 0 ≢ b' ' → leading (spaces i ++ s) ≡ i
unfolding leading
leading-spaces zero [] h = refl
leading-spaces zero (c ∷ s) h = ground arith
leading-spaces (suc i) s h = ap suc (leading-spaces i s h)

-- The loop from the end passes the spaces.
trailing-spaces :
    (s : Bytes) (j : ℕ) (k : ℕ)
    → k ≤ j
    → trailing (s ++ spaces j) (length s + k) ≡ trailing (s ++ spaces j) (length s)
unfolding trailing
trailing-spaces s j zero h = ap (trailing (s ++ spaces j)) (omega arith)
trailing-spaces s j (suc k) h =
    let blank : byte_at (s ++ spaces j) (length s + k) ≡ b' ' =
      byte_at-append s (spaces j) k ∙ byte_at-spaces j k (omega arith) in
    let step : length s + suc k ≡ suc (length s + k) = omega arith in
    rw (step, trailing, blank) (trailing-spaces s j k (omega arith))

trailing-stops : (s : Bytes) (n : ℕ) → byte_at s n ≢ b' ' → trailing s (suc n) ≡ suc n
unfolding trailing
trailing-stops s n h = ground arith

trailing-text :
    (s : Bytes) (j : ℕ)
    → 0 < length s
    → byte_at s (length s - 1) ≢ b' '
    → trailing (s ++ spaces j) (length (s ++ spaces j)) ≡ length s
trailing-text s j some_byte last =
    let whole : length (s ++ spaces j) ≡ length s + j =
      length-append s (spaces j) ∙ ap (λ k. length s + k) (length-spaces j) in
    let before : suc (length s - 1) ≡ length s = omega arith in
    let kept : byte_at (s ++ spaces j) (length s - 1) ≡ byte_at s (length s - 1) =
      byte_at-front s (spaces j) (length s - 1) (omega arith) in
    let stops : trailing (s ++ spaces j) (suc (length s - 1)) ≡ suc (length s - 1) =
      trailing-stops (s ++ spaces j) (length s - 1) (rw kept last) in
    ap (trailing (s ++ spaces j)) whole
    ∙ trailing-spaces s j j (omega arith)
    ∙ ap (trailing (s ++ spaces j)) (sym before)
    ∙ stops
    ∙ before

xstrtrim-text :
    (i j c : ℕ) (t : Bytes) → IsTrimmed (c ∷ t) → xstrtrim ((spaces i ++ c ∷ t) ++ spaces j) ≡ c ∷ t
unfolding xstrtrim
xstrtrim-text i j c t (first, last) =
    let regroup : (spaces i ++ c ∷ t) ++ spaces j ≡ spaces i ++ (c ∷ t ++ spaces j) =
      append_assoc (spaces i) (c ∷ t) (spaces j) in
    let size : length (spaces i ++ c ∷ t) ≡ i + length (c ∷ t) =
      length-append (spaces i) (c ∷ t) ∙ ap (λ k. k + length (c ∷ t)) (length-spaces i) in
    let front : leading ((spaces i ++ c ∷ t) ++ spaces j) ≡ i =
      ap leading regroup ∙ leading-spaces i (c ∷ t ++ spaces j) first in
    let final : byte_at (spaces i ++ c ∷ t) (length (spaces i ++ c ∷ t) - 1) ≢ b' ' =
      let at : length (spaces i ++ c ∷ t) - 1 ≡ length (spaces i) + (length (c ∷ t) - 1) =
        omega (arith, size, length-spaces i) in
      rw (at, byte_at-append (spaces i) (c ∷ t) (length (c ∷ t) - 1)) last in
    let back : trailing ((spaces i ++ c ∷ t) ++ spaces j) (length ((spaces i ++ c ∷ t) ++ spaces j))
        ≡ length (spaces i ++ c ∷ t) =
      trailing-text (spaces i ++ c ∷ t) j (omega (arith, size)) final in
    let gap : length (spaces i ++ c ∷ t) - i ≡ length (c ∷ t) = omega (arith, size) in
    let skip : drop i ((spaces i ++ c ∷ t) ++ spaces j) ≡ c ∷ t ++ spaces j =
      ap (drop i) regroup
      ∙ ap (λ k. drop k (spaces i ++ (c ∷ t ++ spaces j))) (sym (length-spaces i))
      ∙ drop-append (spaces i) (c ∷ t ++ spaces j) in
    rw (back, front, gap) (ap (take (length (c ∷ t))) skip ∙ take-append (c ∷ t) (spaces j))

spaces-spaces : (i j : ℕ) → (spaces i ++ []) ++ spaces j ≡ [] ++ spaces (i + j)
spaces-spaces zero j = ap spaces (omega arith)
spaces-spaces (suc i) j =
    let e : suc i + j ≡ suc (i + j) = omega arith in rw e (ap (λ s. b' ' ∷ s) (spaces-spaces i j))

xstrtrim-spaces : (n : ℕ) → xstrtrim (spaces n) ≡ []
unfolding xstrtrim trailing
xstrtrim-spaces n =
    let size : length (spaces n) ≡ length {A = ℕ} [] + n = omega (arith, length-spaces n) in
    let all : trailing (spaces n) (length (spaces n)) ≡ 0 =
      ap (trailing (spaces n)) size ∙ trailing-spaces [] n n (omega arith) in
    let none_left : 0 - leading (spaces n) ≡ 0 = omega arith in rw (all, none_left) refl

-- A text without a space at its start or at its end comes out of any spaces around it; of spaces
-- alone nothing is left.
pub xstrtrim_removes :
    (i j : ℕ) (t : Bytes) → IsTrimmed t → xstrtrim (spaces i ++ t ++ spaces j) ≡ t
xstrtrim_removes i j [] h = rw (spaces-spaces i j) (xstrtrim-spaces (i + j))
xstrtrim_removes i j (c ∷ t) h = xstrtrim-text i j c t h
