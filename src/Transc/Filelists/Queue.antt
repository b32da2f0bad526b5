-- ===== src/Transc/Filelists/Queue.antt =====
-- The number of lists is the number of slots in use.
use tvpvrd.Prelude.{
  ℕ, suc, ◌<◌, ◌≡◌, refl, sym, ◌∙◌, ap, arith, List, [], ◌∷◌, Option, none, some, ltb, ◌==◌, length,
  Bool-cases, inl, inr,
}
use tvpvrd.Prelude.Int.{ℤ, pos, ◌+ℤ◌, ◌-ℤ◌}
use tvpvrd.Transc.Slots.{
  find_free, used, slot_at, slot_at-find_free, used-fill, used-clear, length-set,
}
use tvpvrd.Transc.Filelists.{
  Filelist, Filelists, Param, no_filelists, find_filelist, enqueue_filelist, dequeue_filelist,
  inc_slot, incidx_fillist, Call, call, calls, enqueue, dequeue, incidx,
}

pub record WellFormed (q : Filelists) : Type 0 where
  pub size : length q.ongoing ≡ 5
  pub counts : q.num_filelists ≡ pos (used q.ongoing)

pub plus_one : (n : ℤ) (m : ℕ) → n ≡ pos m → n +ℤ pos 1 ≡ pos (suc m)
unfolding ◌+ℤ◌
plus_one n m h = rw h (ground arith)

minus_one : (n : ℤ) (m : ℕ) → n ≡ pos (suc m) → n -ℤ pos 1 ≡ pos m
unfolding ◌-ℤ◌
minus_one n m h = rw h (ground arith)

found :
    (address : ℕ) (xs : List (Option Filelist))
    → find_filelist address xs < length xs
    → (l : Filelist) × (slot_at xs (find_filelist address xs) ≡ some l)
unfolding find_filelist slot_at
found address [] h = absurd (omega (arith, h))
found address (none ∷ xs) h = found address xs (omega (arith, h))
found address (some l ∷ xs) h = elim (Bool-cases (l.filelist_param == address)) [
  | inl here ↦ rw here (l, refl)
  | inr other ↦ rw other (found address xs (omega (arith, rw other at h)))
]

inc_slot_keeps :
    (address : ℕ) (xs : List (Option Filelist))
    → (length (inc_slot address xs).1 ≡ length xs) × (used (inc_slot address xs).1 ≡ used xs)
unfolding inc_slot used
inc_slot_keeps address [] = (refl, refl)
inc_slot_keeps address (none ∷ xs) = let ih = inc_slot_keeps address xs in (ap suc ih.0, ih.1)
inc_slot_keeps address (some l ∷ xs) =
    let ih = inc_slot_keeps address xs in
    elim (Bool-cases (l.filelist_param == address)) [
      | inl here ↦ rw here (refl, refl)
      | inr other ↦ rw other (ap suc ih.0, ap suc ih.1)
    ]

enqueue-WellFormed :
    (p : Param) (now : ℤ) (q : Filelists) → WellFormed q → WellFormed (enqueue_filelist p now q).1
unfolding enqueue_filelist
enqueue-WellFormed p now q wf = elim (Bool-cases (ltb (find_free q.ongoing) 5)) [
  | inl room ↦ rw room (record {
    size = length-set q.ongoing (find_free q.ongoing) _ ∙ wf.size;
    counts =
        plus_one q.num_filelists _ wf.counts
        ∙ ap pos (
            sym (
              used-fill q.ongoing (find_free q.ongoing) _ (let s = wf.size in ground arith)
                (slot_at-find_free q.ongoing)));
  })
  | inr full ↦ rw full wf
]

dequeue-WellFormed :
    (address : ℕ) (q : Filelists) → WellFormed q → WellFormed (dequeue_filelist address q).1
unfolding dequeue_filelist
dequeue-WellFormed address q wf = elim (Bool-cases (ltb (find_filelist address q.ongoing) 5)) [
  | inl there ↦
      let lt : find_filelist address q.ongoing < length q.ongoing =
        (let s = wf.size in ground arith) in
      let l = found address q.ongoing lt in
      rw there (record {
        size = length-set q.ongoing (find_filelist address q.ongoing) none ∙ wf.size;
        counts = minus_one q.num_filelists _ (
            wf.counts
            ∙ ap pos (sym (used-clear q.ongoing (find_filelist address q.ongoing) l.0 l.1)));
      })
  | inr missing ↦ rw missing wf
]

pub call-WellFormed : (c : Call) (q : Filelists) → WellFormed q → WellFormed (call c q).1
unfolding incidx_fillist
call-WellFormed (enqueue p now) q wf = enqueue-WellFormed p now q wf
call-WellFormed (dequeue address) q wf = dequeue-WellFormed address q wf
call-WellFormed (incidx address) q wf =
    let k = inc_slot_keeps address q.ongoing in
    record { size = k.0 ∙ wf.size; counts = wf.counts ∙ ap pos (sym k.1) }

calls_from : (cs : List Call) (q : Filelists) → WellFormed q → WellFormed (calls cs q)
unfolding calls
calls_from [] q wf = wf
calls_from (c ∷ cs) q wf = calls_from cs (call c q).1 (call-WellFormed c q wf)

-- After any calls, by whatever threads, there are five slots and `num_filelists` is the number of
-- those in use.
pub calls-WellFormed : (cs : List Call) → WellFormed (calls cs no_filelists)
unfolding used
calls-WellFormed cs = calls_from cs no_filelists (record { size = refl; counts = refl })
