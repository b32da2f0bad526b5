-- ===== src/History.antt =====
-- `tvhistory.c`: the last recordings, the newest first. The array has `HISTORY_LENGTH` slots; the
-- file that it is written to is outside the model, and no answer depends on it.
use tvpvrd.Prelude.{
  ℕ, zero, suc, ◌+◌, ◌-◌, ◌≤◌, ◌≡◌, refl, sym, ◌∙◌, ap, arith, List, [], ◌∷◌, ltb, if◌then◌else◌,
  take, replicate, Bool-cases, inl, inr,
}
use tvpvrd.Prelude.Int.{ℤ, pos}
use tvpvrd.Prelude.Text.{Bytes}

-- `struct histrec`
pub record Histrec : Type 0 where
  pub title : Bytes
  pub ts_start : ℤ
  pub ts_end : ℤ
  pub filepath : Bytes
  pub profile : Bytes

pub record History : Type 0 where
  pub history : List Histrec
  pub nrecs : ℕ

abbrev pub history_length : ℕ
history_length = 99

-- Each record moves down one slot, and the new one is the first.
unfoldable pub hist_addrec : Histrec → History → History
hist_addrec r h = record {
  history = r ∷ take (history_length - 1) h.history;
  nrecs = if ltb h.nrecs history_length then h.nrecs + 1 else h.nrecs;
}

abbrev no_record : Histrec
no_record = record { title = []; ts_start = pos 0; ts_end = pos 0; filepath = []; profile = [] }

-- The array before anything is read.
unfoldable pub empty_history : History
empty_history = record { history = replicate history_length no_record; nrecs = 0 }

-- What the listings show.
abbrev pub listed : History → List Histrec
listed h = take h.nrecs h.history

unfoldable pub add_all : List Histrec → History
add_all [] = empty_history
add_all (r ∷ rs) = hist_addrec r (add_all rs)

take-take_less : (m n : ℕ) (xs : List Histrec) → m ≤ n → take m (take n xs) ≡ take m xs
take-take_less zero n xs le = refl
take-take_less (suc m) zero xs le = absurd (omega (arith, le))
take-take_less (suc m) (suc n) [] le = refl
take-take_less (suc m) (suc n) (x ∷ xs) le =
    ap (λ ys. x ∷ ys) (take-take_less m n xs (omega (arith, le)))

take-take_more : (m n : ℕ) (xs : List Histrec) → n ≤ m → take m (take n xs) ≡ take n xs
take-take_more zero zero xs le = refl
take-take_more zero (suc n) xs le = absurd (omega (arith, le))
take-take_more (suc m) zero xs le = refl
take-take_more (suc m) (suc n) [] le = refl
take-take_more (suc m) (suc n) (x ∷ xs) le =
    ap (λ ys. x ∷ ys) (take-take_more m n xs (omega (arith, le)))

listed-hist_addrec :
    (r : Histrec) (h : History) → h.nrecs ≤ 99 → listed (hist_addrec r h) ≡ take 99 (r ∷ listed h)
unfolding hist_addrec
listed-hist_addrec r h le = elim (Bool-cases (ltb h.nrecs 99)) [
  | inl room ↦
      let one : h.nrecs + 1 ≡ suc h.nrecs = omega arith in
      rw (hist_addrec, room, one)
        (ap (λ ys. r ∷ ys)
          (take-take_less h.nrecs 98 h.history (ground arith)
            ∙ sym (take-take_more 98 h.nrecs h.history (ground arith))))
  | inr full ↦
      let all : h.nrecs ≡ 99 = ground arith in
      rw (hist_addrec, full, all)
        (ap (λ ys. r ∷ ys)
          (take-take_less 98 98 h.history (omega arith)
            ∙ sym (take-take_less 98 99 h.history (omega arith))))
]

nrecs_le : (rs : List Histrec) → (add_all rs).nrecs ≤ 99
unfolding add_all empty_history hist_addrec
nrecs_le [] = omega arith
nrecs_le (r ∷ rs) = ground (arith, nrecs_le rs)

-- After any recordings, the history lists the last 99 of them, the newest first; the list that is
-- added has the newest first too.
pub listed-add_all : (rs : List Histrec) → listed (add_all rs) ≡ take 99 rs
unfolding add_all empty_history
listed-add_all [] = refl
listed-add_all (r ∷ rs) =
    listed-hist_addrec r (add_all rs) (nrecs_le rs)
    ∙ ap (λ ys. take 99 (r ∷ ys)) (listed-add_all rs)
    ∙ ap (λ ys. r ∷ ys) (take-take_less 98 99 rs (omega arith))
