-- ===== src/Server/Chkrec/Rounds.antt =====
-- What a round of `chkrec` starts and drops.
use tvpvrd.Prelude.{
  ℕ, zero, suc, ◌+◌, ◌%◌, ◌<◌, ◌≡◌, ◌≢◌, ◌∙◌, refl, sym, ap, ◌⊎◌, inl, inr, true, false, List, [],
  ◌∷◌, Option, none, some, arith, Bool-cases, Option-cases, get_elem?, length, ltb, ◌==◌, ==_iff,
  subst,
}
use tvpvrd.Prelude.Int.{ℤ, pos, negsuc, to_int, ltb_ℤ, leb_ℤ, ◌-ℤ◌, ◌≤ℤ◌}
use tvpvrd.Recs.Entry.{Entry}
use tvpvrd.Recs.State.{Config, Recs, update, drop_slot, update_self, update_other}
use tvpvrd.Recs.Invariant.{Inv}
use tvpvrd.Recs.Delete.{remove_toprec}
use tvpvrd.Recs.Delete.Removal.{Shrinks-Inv, drop_slot-Shrinks}
use tvpvrd.Recs.Next.{top}
use tvpvrd.Server.Chkrec.{start_top, check_stream, check_from, chkrec_round, clamp_resolution}

top-get_elem? : (es : List Entry) (e : Entry) → top es ≡ some e → get_elem? es 0 ≡ some e
top-get_elem? [] e h = h
top-get_elem? (x ∷ xs) e h = h

pub remove_toprec-Inv :
    (c : Config) (s : Recs) (video : ℕ) → Inv c s → Inv c (remove_toprec c s video)
unfolding remove_toprec
remove_toprec-Inv c s video inv = elim (Option-cases (get_elem? (s.recs video) 0)) [
  | inl empty ↦ rw (no_slot (s.recs video) empty) inv
  | inr (e, at) ↦ rw (a_slot (s.recs video) e at) (
      Shrinks-Inv c s video (drop_slot c 0 (s.recs video)) inv
        (drop_slot-Shrinks c 0 (s.recs video) e at))
]
  where
    no_slot : (es : List Entry) → get_elem? es 0 ≡ none → ltb (length es) 1 ≡ true
    no_slot [] h = refl
    no_slot (x ∷ xs) h = cc

    a_slot : (es : List Entry) (e : Entry) → get_elem? es 0 ≡ some e → ltb (length es) 1 ≡ false
    a_slot [] e h = cc
    a_slot (x ∷ xs) e h = ground arith

remove_toprec_ongoing :
    (c : Config) (s : Recs) (v w : ℕ) → (remove_toprec c s v).ongoing_recs w ≡ s.ongoing_recs w
unfolding remove_toprec
remove_toprec_ongoing c s v w = elim (Bool-cases (ltb (length (s.recs v)) 1)) [
  | inl empty ↦ rw empty refl
  | inr more ↦ rw more refl
]

remove_toprec_other :
    (c : Config) (s : Recs) (v w : ℕ) → w ≢ v → (remove_toprec c s v).recs w ≡ s.recs w
unfolding remove_toprec
remove_toprec_other c s v w ne = elim (Bool-cases (ltb (length (s.recs v)) 1)) [
  | inl empty ↦ rw empty refl
  | inr more ↦ rw more (update_other s.recs v (drop_slot c 0 (s.recs v)) w ne)
]

-- With that difference between now and its start, a recording is at most `r` seconds early and ten
-- minutes late.
pub record Due (r : ℕ) (diff : ℤ) : Type 0 where
  pub not_early : pos 0 ≤ℤ diff -ℤ (pos 0 -ℤ pos r)
  pub not_late : diff ≤ℤ pos 600

-- The difference as a number, and as the int that the code compares.
abbrev pub lateness : ℤ → Entry → ℤ
lateness now e = now -ℤ e.ts_start

abbrev int_lateness : ℤ → Entry → ℤ
int_lateness now e = to_int (now -ℤ e.ts_start)

-- What a stream records stays; or it recorded nothing, and its next recording, which was due, has
-- begun.
abbrev pub Begins : ℕ → (Entry → ℤ) → List Entry → Option Entry → Option Entry → Type 0
Begins r diff pending before after =
    (after ≡ before)
    ⊎ ((before ≡ none)
        × ((e : Entry) × ((top pending ≡ some e) × ((after ≡ some e) × Due r (diff e)))))

carry :
    {r : ℕ} {diff : Entry → ℤ} {es es' : List Entry} {o o' after : Option Entry}
    → es' ≡ es
    → o' ≡ o
    → Begins r diff es' o' after
    → Begins r diff es o after
carry e f h = rw (e, f) at h

module _ (c : Config) (r : ℕ) (now : ℤ) where
  -- What the body of the loop comes to.
  check_stream_cases :
      (s : Recs) (v : ℕ)
      → (check_stream c r now s v ≡ s)
        ⊎ ((check_stream c r now s v ≡ remove_toprec c s v)
            ⊎ ((e : Entry) × ((top (s.recs v) ≡ some e)
                  × ((s.ongoing_recs v ≡ none)
                      × (Due r (int_lateness now e)
                          × (check_stream c r now s v ≡ start_top c s v e))))))
  unfolding check_stream
  check_stream_cases s v = elim (Option-cases (top (s.recs v))) [
    | inl idle ↦ inl (rw (idle, check_stream) refl)
    | inr (e, first) ↦ elim (Bool-cases (ltb_ℤ (pos 600) (int_lateness now e))) [
      | inl late ↦ inr (inl (rw (first, late, check_stream) refl))
      | inr in_time ↦ elim (Bool-cases (leb_ℤ (pos 0) (int_lateness now e -ℤ (pos 0 -ℤ pos r)))) [
        | inr early ↦ inl (rw (first, in_time, early, check_stream) refl)
        | inl due ↦ elim (Option-cases (s.ongoing_recs v)) [
          | inr (active, busy) ↦ inl (rw (first, in_time, due, busy, check_stream) refl)
          | inl free ↦ inr (
              inr (
                e,
                (
                  first,
                  (
                    free,
                    (
                      record { not_early = ground arith; not_late = ground arith },
                      rw (first, in_time, due, free, check_stream) refl,
                    ),
                  ),
                ),
              ))
        ]
      ]
    ]
  ]

  check_stream-Begins :
      (s : Recs) (v : ℕ)
      → Begins r
          (int_lateness now)
          (s.recs v)
          (s.ongoing_recs v)
          ((check_stream c r now s v).ongoing_recs v)
  check_stream-Begins s v = elim (check_stream_cases s v) [
    | inl same ↦ inl (ap (λ x. x.ongoing_recs v) same)
    | inr (inl dropped) ↦ inl (ap (λ x. x.ongoing_recs v) dropped ∙ remove_toprec_ongoing c s v v)
    | inr (inr (e, (first, (free, (due, started))))) ↦
        inr (free, (e, (first, (ap (λ x. x.ongoing_recs v) started ∙ now_ongoing s v e, due))))
  ]
    where
      now_ongoing : (s : Recs) (v : ℕ) (e : Entry) → (start_top c s v e).ongoing_recs v ≡ some e
      now_ongoing s v e = remove_toprec_ongoing c _ v v ∙ update_self s.ongoing_recs v (some e)

  check_stream_others :
      (s : Recs) (v w : ℕ)
      → w ≢ v
      → ((check_stream c r now s v).recs w ≡ s.recs w)
        × ((check_stream c r now s v).ongoing_recs w ≡ s.ongoing_recs w)
  check_stream_others s v w ne = elim (check_stream_cases s v) [
    | inl same ↦ (ap (λ x. x.recs w) same, ap (λ x. x.ongoing_recs w) same)
    | inr (inl dropped) ↦ (
      ap (λ x. x.recs w) dropped ∙ remove_toprec_other c s v w ne,
      ap (λ x. x.ongoing_recs w) dropped ∙ remove_toprec_ongoing c s v w,
    )
    | inr (inr (e, (first, (free, (due, started))))) ↦ (
      ap (λ x. x.recs w) started ∙ remove_toprec_other c _ v w ne,
      ap (λ x. x.ongoing_recs w) started
          ∙ (remove_toprec_ongoing c _ v w ∙ update_other s.ongoing_recs v (some e) w ne),
    )
  ]

  check_stream-Inv : (s : Recs) (v : ℕ) → Inv c s → Inv c (check_stream c r now s v)
  check_stream-Inv s v inv = elim (check_stream_cases s v) [
    | inl same ↦ subst (Inv c) (sym same) inv
    | inr (inl dropped) ↦ subst (Inv c) (sym dropped) (remove_toprec-Inv c s v inv)
    | inr (inr (e, (first, (free, (due, started))))) ↦
        subst (Inv c) (sym started)
          (remove_toprec-Inv c _ v (same_recs (update s.ongoing_recs v (some e))))
  ]
    where
      same_recs : (o : ℕ → Option Entry) → Inv c (record s { ongoing_recs = o })
      same_recs o = record {
        capacity = inv.capacity;
        sorted = inv.sorted;
        numbered = inv.numbered;
        distinct = inv.distinct;
        across = inv.across;
      }

  check_from_below :
      (left v w : ℕ) (s : Recs)
      → w < v
      → (check_from c r now left v s).ongoing_recs w ≡ s.ongoing_recs w
  unfolding check_from
  check_from_below zero v w s lt = refl
  check_from_below (suc left) v w s lt =
      check_from_below left (v + 1) w (check_stream c r now s v) (omega arith)
      ∙ (check_stream_others s v w (λ e. omega arith)).1

  check_from-Begins :
      (left v w : ℕ) (s : Recs)
      → Begins r
          (int_lateness now)
          (s.recs w)
          (s.ongoing_recs w)
          ((check_from c r now left v s).ongoing_recs w)
  unfolding check_from
  check_from-Begins zero v w s = inl refl
  check_from-Begins (suc left) v w s = elim (Bool-cases (w == v)) [
    | inl at ↦
        subst
          (λ u.
            Begins r (int_lateness now) (s.recs u) (s.ongoing_recs u)
              ((check_from c r now left (v + 1) (check_stream c r now s v)).ongoing_recs u))
          (sym ((==_iff w v).0 at))
          (subst (Begins r (int_lateness now) (s.recs v) (s.ongoing_recs v))
            (sym (check_from_below left (v + 1) v (check_stream c r now s v) (omega arith)))
            (check_stream-Begins s v))
    | inr there ↦
        let others = check_stream_others s v w (λ e. ground arith) in
        carry others.0 others.1 (check_from-Begins left (v + 1) w (check_stream c r now s v))
  ]

  check_from-Inv : (left v : ℕ) (s : Recs) → Inv c s → Inv c (check_from c r now left v s)
  unfolding check_from
  check_from-Inv zero v s inv = inv
  check_from-Inv (suc left) v s inv =
      check_from-Inv left (v + 1) (check_stream c r now s v) (check_stream-Inv s v inv)

-- The difference fits an int.
abbrev pub FitsInt : ℤ → Type 0
FitsInt diff = (negsuc 2147483647 ≤ℤ diff) × (diff ≤ℤ pos 2147483647)

to_int_fits : (z : ℤ) → FitsInt z → to_int z ≡ z
to_int_fits (pos n) h =
    let small : n % 4294967296 ≡ n = omega arith in
    let below : ltb n 2147483648 ≡ true = ground arith in rw (small, below) refl
to_int_fits (negsuc n) h =
    let small : n % 4294967296 ≡ n = omega arith in
    let below : ltb n 2147483648 ≡ true = ground arith in rw (small, below) refl

-- In a round, whatever a stream records goes on, or the stream was idle and the first recording
-- of its list, which starts at most `time_resolution` seconds later and at most ten minutes
-- earlier than now, begins. The start of the first recording is assumed to be so near, by 68 years,
-- that its difference from now fits an int.
pub chkrec_round-Begins :
    (c : Config) (r : ℕ) (now : ℤ) (s : Recs) (w : ℕ)
    → ((e : Entry) → top (s.recs w) ≡ some e → FitsInt (lateness now e))
    → Begins
        (clamp_resolution r)
        (lateness now)
        (s.recs w)
        (s.ongoing_recs w)
        ((chkrec_round c r now s).ongoing_recs w)
unfolding chkrec_round
chkrec_round-Begins c r now s w near =
    elim (check_from-Begins c (clamp_resolution r) now c.max_video 0 w s) [
      | inl same ↦ inl same
      | inr (idle, (e, (first, (began, due)))) ↦
          let exact = to_int_fits (lateness now e) (near e first) in
          inr (idle, (e, (first, (began, subst (Due (clamp_resolution r)) exact due))))
    ]

-- A round keeps the invariant of the pending lists: their bound, their order and their unique
-- numbers.
pub chkrec_round-Inv :
    (c : Config) (r : ℕ) (now : ℤ) (s : Recs) → Inv c s → Inv c (chkrec_round c r now s)
unfolding chkrec_round
chkrec_round-Inv c r now s inv = check_from-Inv c (clamp_resolution r) now c.max_video 0 s inv
