-- ===== src/Transc/Threads/Ends.antt =====
-- The threads end.
use tvpvrd.Prelude.{
  ℕ, zero, suc, ◌+◌, ◌-◌, ◌*◌, ◌<◌, ◌≤◌, ◌≡◌, arith, List, [], ◌∷◌, some, Bool, true, false, set,
  get_elem?, length, if◌then◌else◌,
}
use tvpvrd.Prelude.Int.{ℤ, pos, negsuc}
use tvpvrd.Transc.Ongoing.{Ongoing, record_ongoingtranscoding}
use tvpvrd.Transc.Threads.{
  Job, file, recording, exit, Phase, waits, links, builds, forks, records, watches, leaves, gone,
  Answer, World, recorded, next_phase, proceed,
}
use tvpvrd.Transc.Threads.Reached.{Gone}

-- The steps that a thread has left at most.
abbrev pub left : Phase → ℕ
left (waits job) = 7
left links = 6
left (builds job) = 5
left (forks job) = 4
left (records job) = 3
left (watches job i) = 2
left leaves = 1
left (gone counted) = 0

unfoldable pub left_of_all : List Phase → ℕ
left_of_all [] = 0
left_of_all (p ∷ ps) = left p + left_of_all ps

left_of_all-set :
    (ps : List Phase) (i : ℕ) (p q : Phase)
    → get_elem? ps i ≡ some p
    → left_of_all (set ps i q) + left p ≡ left_of_all ps + left q
unfolding left_of_all
left_of_all-set [] i p q e = cc e
left_of_all-set (x ∷ ps) zero p q e = let same : x ≡ p = (cc e) in rw same (omega arith)
left_of_all-set (x ∷ ps) (suc i) p q e = omega (arith, left_of_all-set ps i p q e)

left-exit : (job : Job) → left (exit job) ≤ 1
left-exit file = omega arith
left-exit recording = omega arith

left-recorded : (job : Job) (r : ℤ) → left (recorded job r) ≤ 2
left-recorded job (pos i) = omega arith
left-recorded job (negsuc n) = omega (arith, left-exit job)

left_if : (b : Bool) (p q : Phase) (n : ℕ) → left p ≤ n → left q ≤ n → left (if b then p else q) ≤ n
left_if true p q n h k = h
left_if false p q n h k = k

left-next_phase : (a : Answer) (xs : Ongoing) (p : Phase) → left (next_phase a xs p) ≤ left p - 1
unfolding next_phase
left-next_phase a xs (waits file) = left_if a.ok links leaves 6 (omega arith) (omega arith)
left-next_phase a xs (waits recording) =
    left_if a.ok (builds recording) (gone true) 6 (omega arith) (omega arith)
left-next_phase a xs links = left_if a.ok (builds file) leaves 5 (omega arith) (omega arith)
left-next_phase a xs (builds file) =
    left_if a.ok (forks file) (gone false) 4 (omega arith) (omega arith)
left-next_phase a xs (builds recording) =
    left_if a.ok (forks recording) (gone true) 4 (omega arith) (omega arith)
left-next_phase a xs (forks job) =
    left_if a.ok (records job) (exit job) 3 (omega arith) (omega (arith, left-exit job))
left-next_phase a xs (records job) = left-recorded job (record_ongoingtranscoding a.ok a.entry xs).0
left-next_phase a xs (watches job i) = left-exit job
left-next_phase a xs leaves = omega arith
left-next_phase a xs (gone counted) = omega arith

alive_left : (p : Phase) → (Gone p → ⊥) → 1 ≤ left p
alive_left (waits job) h = omega arith
alive_left links h = omega arith
alive_left (builds job) h = omega arith
alive_left (forks job) h = omega arith
alive_left (records job) h = omega arith
alive_left (watches job i) h = omega arith
alive_left leaves h = omega arith
alive_left (gone counted) h = absurd (h tt)

proceed-shorter :
    (w : World) (i : ℕ) (p : Phase) (a : Answer)
    → get_elem? w.threads i ≡ some p
    → (Gone p → ⊥)
    → left_of_all (proceed i p a w).threads < left_of_all w.threads
unfolding proceed
proceed-shorter w i p a at alive = omega (
  arith,
  left_of_all-set w.threads i p (next_phase a w.ongoing p) at,
  left-next_phase a w.ongoing p,
  alive_left p alive,
)

-- So many steps of threads that have not gone, one after the other, whatever their calls answer.
pub data Run : ℕ → World → World → Type 0 where
  done : (w : World) → Run 0 w w
  more :
      (n i : ℕ) (p : Phase) (a : Answer) (w w' : World)
      → get_elem? w.threads i ≡ some p
      → (Gone p → ⊥)
      → Run n (proceed i p a w) w'
      → Run (suc n) w w'

Run-shorter :
    (n : ℕ) (w w' : World) → Run n w w' → n + left_of_all w'.threads ≤ left_of_all w.threads
Run-shorter _ w _ (done _) = omega arith
Run-shorter _ w w' (more n i p a _ _ at alive run) =
    omega (arith, Run-shorter n (proceed i p a w) w' run, proceed-shorter w i p a at alive)

left_le : (p : Phase) → left p ≤ 7
left_le (waits job) = omega arith
left_le links = omega arith
left_le (builds job) = omega arith
left_le (forks job) = omega arith
left_le (records job) = omega arith
left_le (watches job i) = omega arith
left_le leaves = omega arith
left_le (gone counted) = omega arith

left_of_all_le : (ps : List Phase) → left_of_all ps ≤ length ps * 7
unfolding left_of_all
left_of_all_le [] = omega arith
left_of_all_le (p ∷ ps) = omega (arith, left_le p, left_of_all_le ps)

-- The threads take at most seven steps each until they have gone, in whatever order they run and
-- whatever the calls answer, if no new ones come.
pub Run-ends : (n : ℕ) (w w' : World) → Run n w w' → n ≤ length w.threads * 7
Run-ends n w w' run = omega (arith, Run-shorter n w w' run, left_of_all_le w.threads)
