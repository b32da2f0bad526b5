-- ===== src/Recs/Insert/Single.antt =====
-- `insertrec` for one recording that is not repeated.
use mathlib.Core.List.{Permᴰ}
use tvpvrd.Prelude.{
  ℕ, ◌≤◌, ◌<◌, ◌≡◌, ◌↔◌, refl, sym, subst, ◌∙◌, ◌⊎◌, inl, inr, false, List, ◌∷◌, arith, All,
  AllPairs, length, Bool-cases, ==_refl, if◌then◌else◌,
}
use tvpvrd.Prelude.Int.{ℤ, pos, negsuc}
use tvpvrd.Recs.Entry.{Entry}
use tvpvrd.Recs.State.{Config, Recs, returns, add_slot, Ensures, update_same}
use tvpvrd.Recs.Overlap.{isentryoverlapping, taken}
use tvpvrd.Recs.Overlap.Exact.{Apart, Proper, ProperOngoing, Free, taken-Free}
use tvpvrd.Recs.Insert.{add_numbered, insertrec}
use tvpvrd.Recs.Insert.Invariant.{add_slot-Permᴰ, add_slot_full, AllPairs-add_slot}

-- No second belongs to both recordings.
abbrev pub Disjoint : Entry → Entry → Type 0
Disjoint a b = Apart a.ts_start a.ts_end b

Disjoint-symm : (a b : Entry) → Disjoint a b → Disjoint b a
Disjoint-symm a b (inl h) = inr h
Disjoint-symm a b (inr h) = inl h

module _ (c : Config) (now : ℤ) (s : Recs) (video : ℕ) (e : Entry) (excluded : List ℕ)
    (single : e.recurrence ≡ false) (proper : Proper e) (pending : All Proper (s.recs video))
    (ongoing : ProperOngoing (s.ongoing_recs video)) where
  insertrec-taken : insertrec c now s video e excluded ≡ (
      if taken e.ts_start e.ts_end (s.recs video) (s.ongoing_recs video)
      then returns (negsuc 0, s)
      else returns (pos s.global_seqnbr, add_numbered c video e s))
  unfolding insertrec isentryoverlapping
  insertrec-taken = rw single refl

  Free-iff :
      (taken e.ts_start e.ts_end (s.recs video) (s.ongoing_recs video) ≡ false)
      ↔ Free e.ts_start e.ts_end (s.recs video) (s.ongoing_recs video)
  Free-iff =
      taken-Free e.ts_start e.ts_end (s.recs video) (s.ongoing_recs video) proper pending ongoing

  -- For a recording that is not repeated, where it and all recordings of the stream end no
  -- earlier than they start: the call returns always. It accepts the recording exactly when,
  -- ends included, it shares no second with a pending recording of the stream or with the
  -- ongoing one; it is then numbered and handed to the list, and otherwise -1 is returned and
  -- nothing changes.
  pub insertrec_single :
      (Free e.ts_start e.ts_end (s.recs video) (s.ongoing_recs video)
        × (insertrec c now s video e excluded
            ≡ returns (pos s.global_seqnbr, add_numbered c video e s)))
      ⊎ ((¬ Free e.ts_start e.ts_end (s.recs video) (s.ongoing_recs video))
          × (insertrec c now s video e excluded ≡ returns (negsuc 0, s)))
  insertrec_single =
      elim (Bool-cases (taken e.ts_start e.ts_end (s.recs video) (s.ongoing_recs video))) [
        | inl hit ↦ inr (λ free. cc (hit, Free-iff.1 free), rw (insertrec-taken, hit) refl)
        | inr miss ↦ inl (Free-iff.0 miss, rw (insertrec-taken, miss) refl)
      ]

  Free-Disjoint :
      Free e.ts_start e.ts_end (s.recs video) (s.ongoing_recs video)
      → AllPairs Disjoint (s.recs video)
      → AllPairs Disjoint ((add_numbered c video e s).recs video)
  unfolding add_numbered
  Free-Disjoint free h = rw (==_refl video) (
      AllPairs-add_slot c video (record e { seqnbr = s.global_seqnbr }) (s.recs video) Disjoint
        Disjoint-symm free.0 h)

  -- For a recording that is not repeated, where it and all recordings of the stream end no
  -- earlier than they start: whatever the answer, pending recordings of the stream that do not
  -- overlap one another before the call do not overlap after it.
  pub insertrec-Disjoint :
      (answer : ℤ) (s' : Recs)
      → AllPairs Disjoint (s.recs video)
      → insertrec c now s video e excluded ≡ returns (answer, s')
      → AllPairs Disjoint (s'.recs video)
  insertrec-Disjoint answer s' h done = elim insertrec_single [
    | inl (free, added) ↦
        subst (λ r. Ensures (λ (p : ℤ × Recs). AllPairs Disjoint (p.1.recs video)) r)
          (sym added ∙ done) (Free-Disjoint free h)
    | inr (busy, refused) ↦
        subst (λ r. Ensures (λ (p : ℤ × Recs). AllPairs Disjoint (p.1.recs video)) r)
          (sym refused ∙ done) h
  ]

  -- For a recording that is not repeated, where it and all recordings of the stream end no
  -- earlier than they start: if the list has room and the time is free, the recording is
  -- accepted and is in the list afterwards, under the number that is returned, and the rest of
  -- the list is what it was, up to the order.
  pub insertrec_stored :
      length (s.recs video) < c.max_entries
      → Free e.ts_start e.ts_end (s.recs video) (s.ongoing_recs video)
      → (s' : Recs) × (insertrec c now s video e excluded ≡ returns (pos s.global_seqnbr, s'))
        × Permᴰ
            (record e { seqnbr = s.global_seqnbr; video = video } ∷ s.recs video)
            (s'.recs video)
  insertrec_stored room free = (add_numbered c video e s, accepted free, stored room)
    where
      accepted :
          Free e.ts_start e.ts_end (s.recs video) (s.ongoing_recs video)
          → insertrec c now s video e excluded
            ≡ returns (pos s.global_seqnbr, add_numbered c video e s)
      accepted f = rw (insertrec-taken, Free-iff.1 f) refl

      stored :
          length (s.recs video) < c.max_entries
          → Permᴰ
              (record e { seqnbr = s.global_seqnbr; video = video } ∷ s.recs video)
              ((add_numbered c video e s).recs video)
      stored r =
          unfold add_numbered in
          rw (==_refl video) (
            add_slot-Permᴰ c video (record e { seqnbr = s.global_seqnbr }) (s.recs video)
              (ground arith))

  -- For a recording that is not repeated, where it and all recordings of the stream end no
  -- earlier than they start: if the list is full and the time is free, the recording is lost:
  -- the call answers as for a success, with the next sequence number, and every list is as it
  -- was.
  pub insertrec_full_loses :
      c.max_entries ≤ length (s.recs video)
      → Free e.ts_start e.ts_end (s.recs video) (s.ongoing_recs video)
      → (s' : Recs) × (insertrec c now s video e excluded ≡ returns (pos s.global_seqnbr, s'))
        × ((w : ℕ) → s'.recs w ≡ s.recs w)
  insertrec_full_loses full free =
      (add_numbered c video e s, rw (insertrec-taken, Free-iff.1 free) refl, same full)
    where
      same :
          c.max_entries ≤ length (s.recs video)
          → (w : ℕ) → (add_numbered c video e s).recs w ≡ s.recs w
      same f w =
          unfold add_numbered in
          update_same s.recs video
            (add_slot c video (record e { seqnbr = s.global_seqnbr }) (s.recs video))
            (add_slot_full c video (record e { seqnbr = s.global_seqnbr }) (s.recs video)
              (ground arith))
            w
