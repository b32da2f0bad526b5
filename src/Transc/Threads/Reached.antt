-- ===== src/Transc/Threads/Reached.antt =====
-- What holds in every state that the threads reach.
use tvpvrd.Prelude.{
  ℕ, zero, suc, ◌+◌, ◌<◌, ◌≤◌, ◌≡◌, ◌⊎◌, refl, sym, ◌∙◌, ap, arith, List, [], ◌∷◌, none, some, Bool,
  true, false, set, get_elem?, length, All, if◌then◌else◌, Bool-cases, inl, inr, leb, ltb,
}
use tvpvrd.Prelude.Int.{ℤ, pos, negsuc, ◌+ℤ◌}
use tvpvrd.Transc.Slots.{find_free, slot_at, used-le, slot_at-find_free, slot_at-lt}
use tvpvrd.Transc.Ongoing.{
  OngoingTranscoding, Ongoing, record_ongoingtranscoding, forget_ongoingtranscoding,
  get_num_ongoing_transcodings,
}
use tvpvrd.Transc.Threads.{
  Job, file, recording, Phase, waits, links, builds, forks, records, watches, leaves, gone, exit,
  Answer, World, next_phase, next_ongoing, proceed, transcode_file, transcode_and_move_file, Step,
  submits, transcodes, proceeds, Reachable, starts, steps,
}
use tvpvrd.Transc.Threads.Counting.{bit, count, watching, counted, counted-exit, watching-exit}
use tvpvrd.Transc.Threads.Invariant.{
  Inv, server_start-Inv, total_kept, total_less, quiet-Inv, closes-Inv, opens-Inv,
}

record-cases :
    (memory : Bool) (e : OngoingTranscoding) (xs : Ongoing)
    → length xs ≡ 2
    → (record_ongoingtranscoding memory e xs ≡ (negsuc 0, xs))
      ⊎ ((record_ongoingtranscoding memory e xs
            ≡ (pos (find_free xs), set xs (find_free xs) (some e)))
          × (find_free xs < length xs))
unfolding record_ongoingtranscoding
record-cases memory e xs two = elim (Bool-cases (leb 2 (find_free xs))) [
  | inl full ↦ inl (rw full refl)
  | inr room ↦ elim (Bool-cases memory) [
    | inl had ↦ inr (rw (room, had) refl, ground arith)
    | inr out ↦ inl (rw (room, out) refl)
  ]
]

forget_clears :
    (i : ℕ) (e : OngoingTranscoding) (xs : Ongoing)
    → length xs ≡ 2
    → slot_at xs i ≡ some e
    → forget_ongoingtranscoding (pos i) xs ≡ set xs i none
unfolding forget_ongoingtranscoding slot_at
forget_clears i e xs two at =
    let small : ltb i 2 ≡ true = (let lt = slot_at-lt xs i e at in ground arith) in
    rw (small, at) refl

module _ (w : World) (inv : Inv w) (k : ℕ) where
  records-Inv :
      (a : Answer) (job : Job)
      → get_elem? w.threads k ≡ some (records job)
      → Inv (proceed k (records job) a w)
  unfolding proceed next_phase next_ongoing
  records-Inv a job at = elim (record-cases a.ok a.entry w.ongoing inv.size) [
    | inl refused ↦
        rw (next_ongoing, refused)
          (quiet-Inv w inv k (records job) at (exit job) w.nfiletransc_threads refl
            (watching-exit job) (total_kept w inv k (records job) at (exit job) (counted-exit job)))
    | inr (done, room) ↦
        rw (next_ongoing, done)
          (opens-Inv w inv k (records job) at (find_free w.ongoing) job a.entry refl refl room
            (slot_at-find_free w.ongoing))
  ]

  watches-Inv :
      (a : Answer) (job : Job) (i : ℕ)
      → get_elem? w.threads k ≡ some (watches job i)
      → Inv (proceed k (watches job i) a w)
  unfolding proceed next_phase next_ongoing
  watches-Inv a job i at =
      let held = inv.held k i job at in
      rw (proceed, forget_clears i held.0 w.ongoing inv.size held.1)
        (closes-Inv w inv k (watches job i) at i job refl)

  -- A phase that only chooses what comes next.
  chooses-Inv :
      (p q r : Phase) (b : Bool)
      → get_elem? w.threads k ≡ some p
      → watching p ≡ false
      → watching q ≡ false
      → watching r ≡ false
      → counted q ≡ counted p
      → counted r ≡ counted p
      → Inv (record {
        ongoing = w.ongoing;
        nfiletransc_threads = w.nfiletransc_threads;
        threads = set w.threads k (if b then q else r);
      })
  chooses-Inv p q r true at hp hq hr cq cr =
      quiet-Inv w inv k p at q w.nfiletransc_threads hp hq (total_kept w inv k p at q cq)
  chooses-Inv p q r false at hp hq hr cq cr =
      quiet-Inv w inv k p at r w.nfiletransc_threads hp hr (total_kept w inv k p at r cr)

  proceed-Inv : (p : Phase) (a : Answer) → get_elem? w.threads k ≡ some p → Inv (proceed k p a w)
  unfolding proceed next_phase next_ongoing
  proceed-Inv (waits file) a at =
      chooses-Inv (waits file) links leaves a.ok at refl refl refl refl refl
  proceed-Inv (waits recording) a at =
      chooses-Inv (waits recording) (builds recording) (gone true) a.ok at refl refl refl refl refl
  proceed-Inv links a at = chooses-Inv links (builds file) leaves a.ok at refl refl refl refl refl
  proceed-Inv (builds file) a at =
      chooses-Inv (builds file) (forks file) (gone false) a.ok at refl refl refl refl refl
  proceed-Inv (builds recording) a at =
      chooses-Inv (builds recording) (forks recording) (gone true) a.ok at refl refl refl refl refl
  proceed-Inv (forks job) a at =
      chooses-Inv (forks job) (records job) (exit job) a.ok at refl refl (watching-exit job) refl
        (counted-exit job)
  proceed-Inv (records job) a at = records-Inv a job at
  proceed-Inv (watches job i) a at = watches-Inv a job i at
  proceed-Inv leaves a at =
      quiet-Inv w inv k leaves at (gone true) _ refl refl
        (total_less w inv k leaves at (gone true) refl refl)
  proceed-Inv (gone true) a at =
      quiet-Inv w inv k (gone true) at (gone true) _ refl refl
        (total_kept w inv k (gone true) at (gone true) refl)
  proceed-Inv (gone false) a at =
      quiet-Inv w inv k (gone false) at (gone false) _ refl refl
        (total_kept w inv k (gone false) at (gone false) refl)

plus_one : (n : ℤ) (m : ℕ) → n ≡ pos m → n +ℤ pos 1 ≡ pos (1 + m)
unfolding ◌+ℤ◌
plus_one n m h = rw h (ground arith)

older :
    (q : Phase) (ps : List Phase) (j i : ℕ) (job : Job)
    → watching q ≡ false
    → get_elem? (q ∷ ps) j ≡ some (watches job i)
    → (j' : ℕ) × (j ≡ suc j') × (get_elem? ps j' ≡ some (watches job i))
older q ps zero i job quiet h =
    let same : q ≡ watches job i = (cc h) in
    let watched : watching q ≡ true = ap watching same in absurd (ground arith)
older q ps (suc j) i job quiet h = (j, refl, h)

enters-Inv :
    (w : World) (q : Phase) (n : ℤ)
    → Inv w
    → watching q ≡ false
    → n ≡ pos (bit (counted q) + count counted w.threads)
    → Inv (record { ongoing = w.ongoing; nfiletransc_threads = n; threads = q ∷ w.threads })
unfolding count
enters-Inv w q n inv hq total = record {
  size = inv.size;
  held = λ j i job h. let o = older q w.threads j i job hq h in inv.held o.0 i job o.2;
  alone = λ j j' i job job' h h'.
      let o = older q w.threads j i job hq h in
      let o' = older q w.threads j' i job' hq h' in
      o.1 ∙ ap suc (inv.alone o.0 o'.0 i job job' o.2 o'.2) ∙ sym o'.1;
  filled = rw hq (omega (arith, inv.filled));
  total = total;
}

Step-Inv : (w w' : World) → Inv w → Step w w' → Inv w'
unfolding transcode_file transcode_and_move_file
Step-Inv w _ inv (submits true) =
    enters-Inv w (waits file) _ inv refl (plus_one w.nfiletransc_threads _ inv.total)
Step-Inv w _ inv (submits false) =
    enters-Inv w leaves _ inv refl (plus_one w.nfiletransc_threads _ inv.total)
Step-Inv w _ inv transcodes =
    enters-Inv w (waits recording) w.nfiletransc_threads inv refl (inv.total ∙ ap pos (omega arith))
Step-Inv w _ inv (proceeds k p a at) = proceed-Inv w inv k p a at

-- In every state that the threads reach, in whatever order they run: a slot that a thread watches is
-- in use, no two threads watch the same slot, and there are as many transcodings as threads that
-- watch one; and the counter is the number of threads of files that have not counted themselves
-- out. The threads of recordings use the slots as those of files do.
pub Reachable-Inv : (w : World) → Reachable w → Inv w
Reachable-Inv _ starts = server_start-Inv
Reachable-Inv _ (steps w w' r s) = Step-Inv w w' (Reachable-Inv w r) s

-- In every state that the threads reach, at most two threads watch a transcoding, and as many are
-- listed.
pub Reachable-bounded :
    (w : World)
    → Reachable w
    → (count watching w.threads ≤ 2)
      × (get_num_ongoing_transcodings w.ongoing ≡ count watching w.threads)
Reachable-bounded w r =
    let inv = Reachable-Inv w r in
    (omega (arith, used-le w.ongoing, inv.size, inv.filled), inv.filled)

abbrev pub Gone : Phase → Type 0
Gone (gone counted) = Unit
Gone _ = ⊥

-- The threads that have gone without counting themselves out.
abbrev pub leaked : Phase → Bool
leaked (gone false) = true
leaked _ = false

Gone-counts :
    (ps : List Phase) → All Gone ps → (count watching ps ≡ 0) × (count counted ps ≡ count leaked ps)
unfolding count
Gone-counts [] h = (refl, refl)
Gone-counts (gone true ∷ ps) h =
    let ih = Gone-counts ps h.1 in (omega (arith, ih.0), omega (arith, ih.1))
Gone-counts (gone false ∷ ps) h =
    let ih = Gone-counts ps h.1 in (omega (arith, ih.0), omega (arith, ih.1))
Gone-counts (waits job ∷ ps) h = absurd h.0
Gone-counts (links ∷ ps) h = absurd h.0
Gone-counts (builds job ∷ ps) h = absurd h.0
Gone-counts (forks job ∷ ps) h = absurd h.0
Gone-counts (records job ∷ ps) h = absurd h.0
Gone-counts (watches job i ∷ ps) h = absurd h.0
Gone-counts (leaves ∷ ps) h = absurd h.0

-- Once all threads have gone, no transcoding is listed, and the counter is not 0 but the number of
-- threads that `create_ffmpeg_cmdline` has failed for.
pub Reachable-leaks :
    (w : World)
    → Reachable w
    → All Gone w.threads
    → (get_num_ongoing_transcodings w.ongoing ≡ 0)
      × (w.nfiletransc_threads ≡ pos (count leaked w.threads))
Reachable-leaks w r h =
    let inv = Reachable-Inv w r in
    let g = Gone-counts w.threads h in (inv.filled ∙ g.0, inv.total ∙ ap pos g.1)
