-- ===== src/Transc/Filelists/Worked.antt =====
-- The thread that works a list off: what it submits, and what it leaves while it is alone.
use tvpvrd.Prelude.{
  ℕ, zero, suc, ◌+◌, ◌<◌, ◌≤◌, ◌≡◌, refl, ap, subst, arith, List, [], ◌∷◌, Option, some, true,
  false, leb, ◌==◌, set, length, ◌⊎◌, map, take, All, inl, inr,
}
use tvpvrd.Prelude.Int.{ℤ, pos, negsuc, ◌+ℤ◌}
use tvpvrd.Prelude.Text.{Bytes}
use tvpvrd.Transc.Filelists.{
  Filelist, Filelists, Param, holds, Call, path_of, submit_from, transcode_filelist_thread,
}

abbrev pub NotQueued : ℕ → List (Option Filelist) → Type 0
NotQueued address = All (λ o. holds address o ≡ false)

-- No other thread calls.
abbrev pub alone : ℕ → List Call
alone k = []

-- The queue with the list in slot `i`, or without it.
data Holds (address : ℕ) (q : Filelists) (i : ℕ) : Filelists → Type 0 where
  queued :
      (l : Filelist)
      → (l.filelist_param == address) ≡ true
      → i < length q.ongoing
      → Holds address q i
          (record { ongoing = set q.ongoing i (some l); num_filelists = q.num_filelists +ℤ pos 1 })
  refused : Holds address q i q

-- A name that is not empty.
abbrev pub Named : Bytes → Type 0
Named [] = ⊥
Named (c ∷ cs) = Unit

submit_from_takes :
    (others : ℕ → List Call) (answers : ℕ → ℤ) (p : Param) (names : List Bytes) (k m : ℕ)
    (q : Filelists)
    → ((j : ℕ) → j < m → answers (k + j) ≡ pos 0)
    → (length names ≤ m) ⊎ ((n : ℕ) × (answers (k + m) ≡ negsuc n))
    → All Named names
    → (submit_from others answers p k names q).0 ≡ take (suc m) (map (path_of p.dirpath) names)
unfolding submit_from
submit_from_takes others answers p [] k m q ok stop named = refl
submit_from_takes others answers p ([] ∷ names) k m q ok stop named = absurd named.0
submit_from_takes others answers p ((c ∷ cs) ∷ names) k zero q ok stop named = elim stop [
  | inl short ↦ absurd (omega (arith, short))
  | inr (n, failed) ↦
      let here : answers k ≡ negsuc n = subst (λ x. answers x ≡ negsuc n) (omega arith) failed in
      rw (submit_from, here) refl
]
submit_from_takes others answers p ((c ∷ cs) ∷ names) k (suc m) q ok stop named =
    let here : answers k ≡ pos 0 =
      subst (λ x. answers x ≡ pos 0) (omega arith) (ok 0 (omega arith)) in
    let later : (length names ≤ m) ⊎ ((n : ℕ) × (answers (suc k + m) ≡ negsuc n)) = elim stop [
      | inl short ↦ inl (omega (arith, short))
      | inr (n, failed) ↦ inr (n, subst (λ x. answers x ≡ negsuc n) (omega arith) failed)
    ] in
    let before : (j : ℕ) → j < m → answers (suc k + j) ≡ pos 0 =
      λ j lt. subst (λ x. answers x ≡ pos 0) (omega arith) (ok (suc j) (omega (arith, lt))) in
    rw (submit_from, here)
      (ap (λ ps. path_of p.dirpath (c ∷ cs) ∷ ps)
        (submit_from_takes others answers p names (suc k) m _ before later named.1))

-- Let the directory's name be shorter than 256 bytes and no file's name be empty. If the first `m`
-- calls of `transcode_file` succeed, and the next one fails or there are no more files, the thread
-- submits, whatever other threads do, the paths of the first `m` + 1 files, or of all where there are fewer, in their order.
pub transcode_filelist_thread_submits :
    (others : ℕ → List Call) (answers : ℕ → ℤ) (p : Param) (now : ℤ) (q : Filelists) (m : ℕ)
    → length p.dirpath < 256
    → All Named p.filelist
    → ((j : ℕ) → j < m → answers j ≡ pos 0)
    → (length p.filelist ≤ m) ⊎ ((n : ℕ) × (answers m ≡ negsuc n))
    → (transcode_filelist_thread others answers p now q).0
      ≡ take (m + 1) (map (path_of p.dirpath) p.filelist)
unfolding transcode_filelist_thread
transcode_filelist_thread_submits others answers p now q m short named ok stop =
    let fits : leb 256 (length p.dirpath) ≡ false = ground arith in
    let before : (j : ℕ) → j < m → answers (0 + j) ≡ pos 0 =
      λ j lt. subst (λ x. answers x ≡ pos 0) (omega arith) (ok j lt) in
    let stop_at : (length p.filelist ≤ m) ⊎ ((n : ℕ) × (answers (0 + m) ≡ negsuc n)) = elim stop [
      | inl few ↦ inl few
      | inr (n, failed) ↦ inr (n, subst (λ x. answers x ≡ negsuc n) (omega arith) failed)
    ] in
    let one : m + 1 ≡ suc m = omega arith in
    rw (fits, one) (submit_from_takes others answers p p.filelist 0 m _ before stop_at named)
