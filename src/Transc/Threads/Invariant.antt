-- ===== src/Transc/Threads/Invariant.antt =====
-- The slots belong to the threads that watch a process, one each, and the counter counts the
-- threads: what each kind of step keeps.
use tvpvrd.Prelude.{
  ℕ, ◌+◌, ◌<◌, ◌≡◌, ◌≢◌, ◌⊎◌, refl, sym, ◌∙◌, ap, subst, arith, List, none, some, true, false, set,
  get_elem?, length, Bool-cases, inl, inr, ◌==◌, ==_iff,
}
use tvpvrd.Prelude.Int.{ℤ, pos, ◌-ℤ◌}
use tvpvrd.Transc.Slots.{
  used, slot_at, length-set, slot_at-set, slot_at_other, used-fill, used-clear,
}
use tvpvrd.Transc.Ongoing.{OngoingTranscoding}
use tvpvrd.Transc.Threads.{Job, Phase, watches, exit, World, server_start}
use tvpvrd.Transc.Threads.Counting.{
  bit, count, watching, of_file, counted, counted-exit, watching-exit, count-set, get_elem?-set,
  get_elem?-set_other,
}

pub record Inv (w : World) : Type 0 where
  pub size : length w.ongoing ≡ 2
  pub held :
      (j i : ℕ) (job : Job)
      → get_elem? w.threads j ≡ some (watches job i)
      → (e : OngoingTranscoding) × (slot_at w.ongoing i ≡ some e)
  pub alone :
      (j j' i : ℕ) (job job' : Job)
      → get_elem? w.threads j ≡ some (watches job i)
      → get_elem? w.threads j' ≡ some (watches job' i)
      → j ≡ j'
  pub filled : used w.ongoing ≡ count watching w.threads
  pub total : w.nfiletransc_threads ≡ pos (count counted w.threads)

pub server_start-Inv : Inv server_start
unfolding used count
server_start-Inv = record {
  size = refl;
  held = λ j i job h. cc h;
  alone = λ j j' i job job' h h'. cc h;
  filled = refl;
  total = refl;
}

-- A thread that watches after a step that makes no watcher watched before it.
watched_before :
    (ps : List Phase) (k j i : ℕ) (job : Job) (p q : Phase)
    → get_elem? ps k ≡ some p
    → watching q ≡ false
    → get_elem? (set ps k q) j ≡ some (watches job i)
    → (k ≢ j) × (get_elem? ps j ≡ some (watches job i))
watched_before ps k j i job p q at quiet h = elim (Bool-cases (k == j)) [
  | inl same ↦
      let kj = (==_iff k j).0 same in
      let now : get_elem? (set ps k q) k ≡ some (watches job i) =
        subst (λ x. get_elem? (set ps k q) x ≡ some (watches job i)) (sym kj) h in
      let both : some q ≡ some (watches job i) = sym (get_elem?-set ps k p q at) ∙ now in
      let same_phase : q ≡ watches job i = (cc both) in
      let watched : watching q ≡ true = ap watching same_phase in absurd (ground arith)
  | inr other ↦
      let ne : k ≢ j = (λ e. absurd (ground arith)) in
      (ne, sym (get_elem?-set_other ps k j q ne) ∙ h)
]

pub minus_one : (n : ℤ) (m : ℕ) → n ≡ pos (m + 1) → n -ℤ pos 1 ≡ pos m
unfolding ◌-ℤ◌
minus_one n m h = rw h (ground arith)

module _ (w : World) (inv : Inv w) (k : ℕ) (p : Phase) (at : get_elem? w.threads k ≡ some p) where
  -- The counter, of a step that leaves it, and of the last one.
  pub total_kept :
      (q : Phase)
      → counted q ≡ counted p
      → w.nfiletransc_threads ≡ pos (count counted (set w.threads k q))
  total_kept q h =
      let c = count-set counted w.threads k p q at in
      let b = ap bit h in inv.total ∙ ap pos (omega arith)

  pub total_less :
      (q : Phase)
      → counted p ≡ true
      → counted q ≡ false
      → w.nfiletransc_threads -ℤ pos 1 ≡ pos (count counted (set w.threads k q))
  total_less q h h' =
      let c = count-set counted w.threads k p q at in
      let a = ap bit h in
      let b = ap bit h' in minus_one w.nfiletransc_threads _ (inv.total ∙ ap pos (omega arith))

  before :
      (q : Phase)
      → watching q ≡ false
      → (j i : ℕ) (job : Job) → get_elem? (set w.threads k q) j ≡ some (watches job i)
      → (k ≢ j) × (get_elem? w.threads j ≡ some (watches job i))
  before q quiet j i job h = watched_before w.threads k j i job p q at quiet h

  -- A step that neither begins nor ends to watch.
  pub quiet-Inv :
      (q : Phase) (n : ℤ)
      → watching p ≡ false
      → watching q ≡ false
      → n ≡ pos (count counted (set w.threads k q))
      → Inv (record { ongoing = w.ongoing; nfiletransc_threads = n; threads = set w.threads k q })
  quiet-Inv q n hp hq total = record {
    size = inv.size;
    held = λ j i job h. inv.held j i job (before q hq j i job h).1;
    alone = λ j j' i job job' h h'.
        inv.alone j j' i job job' (before q hq j i job h).1 (before q hq j' i job' h').1;
    filled =
        (let c = count-set watching w.threads k p q at in
          let a = ap bit hp in let b = ap bit hq in omega (arith, inv.filled));
    total = total;
  }

  -- A step that ends to watch slot `i`.
  pub closes-Inv :
      (i : ℕ) (job : Job)
      → p ≡ watches job i
      → Inv (record {
        ongoing = set w.ongoing i none;
        nfiletransc_threads = w.nfiletransc_threads;
        threads = set w.threads k (exit job);
      })
  closes-Inv i job e =
      let held = inv.held k i job (at ∙ ap some e) in
      record {
        size = length-set w.ongoing i none ∙ inv.size;
        held = λ j i' other h.
            let b = before (exit job) (watching-exit job) j i' other h in
            let old = inv.held j i' other b.1 in
            (
              old.0,
              slot_at_other w.ongoing i i' none (λ same.
                    b.0 (inv.alone k j i' job other (at ∙ ap some (e ∙ ap (watches job) same)) b.1))
                  ∙ old.1,
            );
        alone = λ j j' i' job1 job2 h h'.
            inv.alone j j' i' job1 job2 (before (exit job) (watching-exit job) j i' job1 h).1
              (before (exit job) (watching-exit job) j' i' job2 h').1;
        filled =
            (let c = count-set watching w.threads k p (exit job) at in
              let q = ap bit (watching-exit job) in
              let a = ap (λ x. bit (watching x)) e in
              let u = used-clear w.ongoing i held.0 held.1 in omega (arith, inv.filled));
        total = total_kept (exit job) (counted-exit job ∙ ap counted (sym e));
      }

  now :
      (i : ℕ) (job : Job)
      → slot_at w.ongoing i ≡ none
      → (j i' : ℕ) (other : Job)
      → get_elem? (set w.threads k (watches job i)) j ≡ some (watches other i')
      → ((j ≡ k) × (i' ≡ i)) ⊎ ((get_elem? w.threads j ≡ some (watches other i')) × (i ≢ i'))
  now i job free j i' other h = elim (Bool-cases (k == j)) [
    | inl same ↦
        let kj = (==_iff k j).0 same in
        let here : get_elem? (set w.threads k (watches job i)) k ≡ some (watches other i') =
          subst (λ x. get_elem? (set w.threads k (watches job i)) x ≡ some (watches other i'))
            (sym kj) h in
        let both : some (watches job i) ≡ some (watches other i') =
          sym (get_elem?-set w.threads k p (watches job i) at) ∙ here in
        inl (sym kj, cc both)
    | inr differs ↦
        let ne : k ≢ j = (λ e. absurd (ground arith)) in
        let old = sym (get_elem?-set_other w.threads k j (watches job i) ne) ∙ h in
        let held = inv.held j i' other old in
        inr (old, λ e. cc (sym (ap (slot_at w.ongoing) e) ∙ free, held.1))
  ]

  -- A step that begins to watch a free slot.
  pub opens-Inv :
      (i : ℕ) (job : Job) (entry : OngoingTranscoding)
      → watching p ≡ false
      → counted p ≡ of_file job
      → i < length w.ongoing
      → slot_at w.ongoing i ≡ none
      → Inv (record {
        ongoing = set w.ongoing i (some entry);
        nfiletransc_threads = w.nfiletransc_threads;
        threads = set w.threads k (watches job i);
      })
  opens-Inv i job entry hp hc room free = record {
    size = length-set w.ongoing i (some entry) ∙ inv.size;
    held = λ j i' other h. elim (now i job free j i' other h) [
      | inl (here, same) ↦ (
        entry,
        ap (slot_at (set w.ongoing i (some entry))) same
            ∙ slot_at-set w.ongoing i (some entry) room,
      )
      | inr (old, ne) ↦
          let held = inv.held j i' other old in
          (held.0, slot_at_other w.ongoing i i' (some entry) ne ∙ held.1)
    ];
    alone = λ j j' i' job1 job2 h h'. elim (now i job free j i' job1 h) [
      | inl (here, same) ↦ elim (now i job free j' i' job2 h') [
        | inl (here', same') ↦ here ∙ sym here'
        | inr (old, ne) ↦ absurd (ne (sym same))
      ]
      | inr (old, ne) ↦ elim (now i job free j' i' job2 h') [
        | inl (here', same') ↦ absurd (ne (sym same'))
        | inr (old', ne') ↦ inv.alone j j' i' job1 job2 old old'
      ]
    ];
    filled =
        (let c = count-set watching w.threads k p (watches job i) at in
          let a = ap bit hp in
          let u = used-fill w.ongoing i entry room free in omega (arith, inv.filled));
    total = total_kept (watches job i) (sym hc);
  }
