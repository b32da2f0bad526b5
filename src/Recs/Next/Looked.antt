-- ===== src/Recs/Next/Looked.antt =====
-- What the loop of `get_nextsched_rec` knows after each stream.
use native.Mathlib.Nat.{add-zero}
use tvpvrd.Prelude.{
  ℕ, zero, suc, ◌+◌, ◌≤◌, ◌<◌, ◌≡◌, refl, sym, subst, ◌⊎◌, inl, inr, Option, none, some, arith,
  Bool-cases, Option-cases, ◌==◌, ==_iff,
}
use tvpvrd.Prelude.Int.{ℤ, ltb_ℤ, ◌≤ℤ◌, ◌<ℤ◌}
use tvpvrd.Recs.Entry.{Entry}
use tvpvrd.Recs.State.{Recs}
use tvpvrd.Recs.Next.{NextRec, top, look_at, look_from}

-- The first recording of the stream, if it has one, starts no earlier.
abbrev pub NoEarlier : ℤ → Option Entry → Type 0
NoEarlier ts none = Unit {0}
NoEarlier ts (some e) = ts ≤ℤ e.ts_start

NoEarlier-mono : (a b : ℤ) (o : Option Entry) → a ≤ℤ b → NoEarlier b o → NoEarlier a o
NoEarlier-mono a b none h k = tt
NoEarlier-mono a b (some e) h k = omega arith

-- What the loop knows when it comes to `video`; it began behind stream `first`.
pub record Looked (s : Recs) (first video : ℕ) (n : NextRec) : Type 0 where
  pub chosen : Entry
  pub slot : top (s.recs n.nextrec_video) ≡ some chosen
  pub start : chosen.ts_start ≡ n.nextrec_ts
  pub range : (first ≤ n.nextrec_video) × (n.nextrec_video < video)
  pub least : (w : ℕ) → first ≤ w → w < video → NoEarlier n.nextrec_ts (top (s.recs w))
  pub stale :
      (n.nextrec_video ≡ first) × (n.nextrec ≡ some chosen)
      ⊎ ((e : Entry) × (n.nextrec ≡ some e)
          × (n.nextrec_ts <ℤ e.ts_start)
          × (first < n.nextrec_video))

look_at-none :
    (s : Recs) (video : ℕ) (n : NextRec) → top (s.recs video) ≡ none → look_at s video n ≡ n
unfolding look_at
look_at-none s video n e = rw (e, look_at) refl

least_next :
    (s : Recs) (first video : ℕ) (ts : ℤ)
    → NoEarlier ts (top (s.recs video))
    → ((w : ℕ) → first ≤ w → w < video → NoEarlier ts (top (s.recs w)))
    → (w : ℕ) → first ≤ w
    → w < video + 1
    → NoEarlier ts (top (s.recs w))
least_next s first video ts here before w lo hi = elim (Bool-cases (w == video)) [
  | inl same ↦ subst (λ v. NoEarlier ts (top (s.recs v))) (sym ((==_iff w video).0 same)) here
  | inr other ↦ before w lo (ground arith)
]

look_at-some :
    (s : Recs) (first video : ℕ) (n : NextRec) (e : Entry)
    → top (s.recs video) ≡ some e
    → Looked s first video n
    → Looked s first (video + 1) (look_at s video n)
unfolding look_at
look_at-some s first video n e at h = elim (Bool-cases (ltb_ℤ e.ts_start n.nextrec_ts)) [
  | inl earlier ↦
      rw (at, look_at)
        (rw earlier (record {
          chosen = e;
          slot = at;
          start = refl;
          range = omega arith;
          least =
              least_next s first video e.ts_start (rw at (omega arith))
                (λ w a b. NoEarlier-mono e.ts_start n.nextrec_ts _ (ground arith) (h.least w a b));
          stale = inr (h.chosen, h.slot, rw h.start (ground arith), omega (arith, h.range));
        }))
  | inr later ↦
      rw (at, look_at)
        (rw later (record {
          chosen = h.chosen;
          slot = h.slot;
          start = h.start;
          range = omega (arith, h.range);
          least = least_next s first video n.nextrec_ts (rw at (ground arith)) h.least;
          stale = h.stale;
        }))
]

look_at-Looked :
    (s : Recs) (first video : ℕ) (n : NextRec)
    → first ≤ video
    → Looked s first video n
    → Looked s first (video + 1) (look_at s video n)
look_at-Looked s first video n lo h = elim (Option-cases (top (s.recs video))) [
  | inr (e, at) ↦ look_at-some s first video n e at h
  | inl empty ↦ rw (look_at-none s video n empty) (record {
    chosen = h.chosen;
    slot = h.slot;
    start = h.start;
    range = omega (arith, h.range);
    least = least_next s first video n.nextrec_ts (rw empty tt) h.least;
    stale = h.stale;
  })
]

pub look_from-Looked :
    (s : Recs) (first left video : ℕ) (n : NextRec)
    → first ≤ video
    → Looked s first video n
    → Looked s first (video + left) (look_from s left video n)
unfolding look_from
look_from-Looked s first zero video n lo h = rw add-zero h
look_from-Looked s first (suc left) video n lo h =
    let along : video + suc left ≡ video + 1 + left = omega arith in
    rw along (
      look_from-Looked s first left (video + 1) (look_at s video n) (omega arith)
        (look_at-Looked s first video n lo h))
