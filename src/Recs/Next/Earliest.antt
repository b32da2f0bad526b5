-- ===== src/Recs/Next/Earliest.antt =====
-- Which recording is the next.
use tvpvrd.Prelude.{
  true, if◌then◌else◌, ℕ, zero, suc, ◌+◌, ◌-◌, ◌≤◌, ◌<◌, ◌≡◌, ◌≢◌, ◌↔◌, refl, sym, ap, subst, ◌∙◌,
  ◌⊎◌, inl, inr, List, [], ◌∷◌, Option, none, some, arith, Bool-cases, ◌==◌, ==_iff, ltb,
}
use tvpvrd.Prelude.Int.{ℤ, pos, negsuc, ◌<ℤ◌, pos_part, neg_part}
use tvpvrd.Recs.Entry.{Entry}
use tvpvrd.Recs.State.{Config, Recs, Outcome, returns, aborts, ◌>>=◌}
use tvpvrd.Recs.Next.{NextRec, top, first_stream, look_from, get_nextsched_rec}
use tvpvrd.Recs.Next.Looked.{NoEarlier, Looked, look_from-Looked}

abbrev FirstAnswer : Recs → ℕ → ℕ → Outcome (ℕ × Entry) → Type 0
FirstAnswer s left video aborts = (w : ℕ) → video ≤ w → w < video + left → s.recs w ≡ []
FirstAnswer s left video (returns (v, e)) =
    (video ≤ v)
    × (v < video + left)
    × (top (s.recs v) ≡ some e)
    × ((w : ℕ) → video ≤ w → w < v → s.recs w ≡ [])

top-none : (es : List Entry) → top es ≡ none → es ≡ []
top-none [] h = refl
top-none (e ∷ es) h = cc

first_stream-Answer :
    (s : Recs) (left video : ℕ) → FirstAnswer s left video (first_stream s left video)
unfolding first_stream
first_stream-Answer s zero video = λ w lo hi. absurd (omega arith)
first_stream-Answer s (suc left) video =
    go (top (s.recs video)) refl (first_stream s left (video + 1))
      (first_stream-Answer s left (video + 1))
  where
    empty_on :
        (v : ℕ)
        → top (s.recs video) ≡ none
        → ((w : ℕ) → video + 1 ≤ w → w < v → s.recs w ≡ [])
        → (w : ℕ) → video ≤ w
        → w < v
        → s.recs w ≡ []
    empty_on v none_here later w lo hi = elim (Bool-cases (w == video)) [
      | inl same ↦ ap s.recs ((==_iff w video).0 same) ∙ top-none (s.recs video) none_here
      | inr other ↦ later w (ground arith) hi
    ]

    go :
        (o : Option Entry)
        → top (s.recs video) ≡ o
        → (rest : Outcome (ℕ × Entry)) → FirstAnswer s left (video + 1) rest
        → FirstAnswer s (suc left) video (elim o [ none ↦ rest | some e ↦ returns (video, e) ])
    go none at aborts h =
        λ w lo hi. empty_on (video + suc left) at (λ u a b. h u a (omega arith)) w lo hi
    go none at (returns (v, e)) h = (omega arith, omega arith, h.2, empty_on v at h.3)
    go (some e) at rest h = (omega arith, omega arith, at, λ w lo hi. absurd (omega arith))

-- The time stamp and the stream are those of a first recording, and no stream's first recording
-- starts earlier.
pub record IsNext (c : Config) (s : Recs) (n : NextRec) : Type 0 where
  pub chosen : Entry
  pub stream : n.nextrec_video < c.max_video
  pub slot : top (s.recs n.nextrec_video) ≡ some chosen
  pub start : chosen.ts_start ≡ n.nextrec_ts
  pub least : (w : ℕ) → w < c.max_video → NoEarlier n.nextrec_ts (top (s.recs w))

-- The entry that is handed out: that of the chosen stream, if no stream before it has any, and else
-- one that starts later.
HandedOut : Recs → NextRec → Type 0
HandedOut s n =
    (((w : ℕ) → w < n.nextrec_video → s.recs w ≡ []) × (n.nextrec ≡ top (s.recs n.nextrec_video)))
    ⊎ ((w : ℕ) × (e : Entry) × (w < n.nextrec_video)
        × (s.recs w ≢ [])
        × (n.nextrec ≡ some e)
        × (n.nextrec_ts <ℤ e.ts_start))

abbrev NextAnswer : Config → Recs → Outcome (ℤ × NextRec) → Type 0
NextAnswer c s aborts = (w : ℕ) → w < c.max_video → s.recs w ≡ []
NextAnswer c s (returns (ret, n)) = (ret ≡ pos 0) × IsNext c s n × HandedOut s n

not_empty : (es : List Entry) (e : Entry) → top es ≡ some e → es ≢ []
not_empty [] e h k = cc
not_empty (x ∷ es) e h k = cc

NoEarlier-empty : (ts : ℤ) (es : List Entry) → es ≡ [] → NoEarlier ts (top es)
NoEarlier-empty ts es h = rw h tt

module _ (c : Config) (s : Recs) (first : ℕ) (e : Entry) (n : NextRec)
    (at : top (s.recs first) ≡ some e) (below : first < c.max_video)
    (empty : (w : ℕ) → w < first → s.recs w ≡ []) (h : Looked s first c.max_video n) where
  Looked-least : (w : ℕ) → w < c.max_video → NoEarlier n.nextrec_ts (top (s.recs w))
  Looked-least w hi = elim (Bool-cases (ltb w first)) [
    | inl before ↦ NoEarlier-empty n.nextrec_ts (s.recs w) (empty w (ground arith))
    | inr behind ↦ h.least w (ground arith) hi
  ]

  Looked-HandedOut : HandedOut s n
  unfolding HandedOut
  Looked-HandedOut = elim (h.stale) [
    | inl (same, out) ↦ inl ((λ w lt. empty w (omega arith)), out ∙ sym h.slot)
    | inr (x, out, later, behind) ↦
        inr (first, x, behind, not_empty (s.recs first) e at, out, later)
  ]

  Looked-IsNext : IsNext c s n
  Looked-IsNext = record {
    chosen = h.chosen;
    stream = h.range.1;
    slot = h.slot;
    start = h.start;
    least = Looked-least;
  }

alone :
    (s : Recs) (first : ℕ) (e : Entry)
    → top (s.recs first) ≡ some e
    → (w : ℕ) → w ≡ first
    → NoEarlier e.ts_start (top (s.recs w))
alone s first e at w same =
    subst (λ v. NoEarlier e.ts_start (top (s.recs v))) (sym same) (rw at (omega arith))

get_nextsched_rec-Answer : (c : Config) (s : Recs) → NextAnswer c s (get_nextsched_rec c s)
unfolding get_nextsched_rec
get_nextsched_rec-Answer c s =
    go (first_stream s c.max_video 0) (first_stream-Answer s c.max_video 0)
  where
    start_at : ℕ → Entry → NextRec
    start_at first e = record { nextrec = some e; nextrec_video = first; nextrec_ts = e.ts_start }

    looked :
        (first : ℕ) (e : Entry)
        → top (s.recs first) ≡ some e
        → first < c.max_video
        → Looked s first c.max_video
            (look_from s (c.max_video - (first + 1)) (first + 1) (start_at first e))
    looked first e at below =
        let whole : first + 1 + (c.max_video - (first + 1)) ≡ c.max_video = omega arith in
        subst
          (λ v.
            Looked s first v
              (look_from s (c.max_video - (first + 1)) (first + 1) (start_at first e)))
          whole
          (look_from-Looked s first (c.max_video - (first + 1)) (first + 1) (start_at first e)
            (omega arith)
            (record {
              chosen = e;
              slot = at;
              start = refl;
              range = omega arith;
              least = λ w lo hi. alone s first e at w (omega arith);
              stale = inl (refl, refl);
            }))

    go :
        (r : Outcome (ℕ × Entry))
        → FirstAnswer s c.max_video 0 r
        → NextAnswer c s (
            r >>= λ p.
            if ltb p.0 c.max_video
            then returns (pos 0, look_from s (c.max_video - (p.0 + 1)) (p.0 + 1) (start_at p.0 p.1))
            else returns
                (negsuc 0, record { nextrec = none; nextrec_video = p.0; nextrec_ts = pos 0 }))
    go aborts h = λ w lt. h w (omega arith) (omega arith)
    go (returns (first, e)) h =
        let below : first < c.max_video = omega (arith, h.1) in
        let inside : ltb first c.max_video ≡ true = ground arith in
        let l = looked first e h.2 below in
        let empty : (w : ℕ) → w < first → s.recs w ≡ [] = λ w lt. h.3 w (omega arith) lt in
        rw inside (
          refl,
          Looked-IsNext c s first e _ h.2 below empty l,
          Looked-HandedOut c s first e _ h.2 below empty l,
        )

Answered : (c : Config) (s : Recs) → Outcome (ℤ × NextRec) → Type 0
Answered c s m =
    ((m ≡ aborts) × ((w : ℕ) → w < c.max_video → s.recs w ≡ []))
    ⊎ ((n : NextRec) × (m ≡ returns (pos 0, n)) × IsNext c s n × HandedOut s n)

answered : (c : Config) (s : Recs) (m : Outcome (ℤ × NextRec)) → NextAnswer c s m → Answered c s m
unfolding Answered
answered c s aborts h = inl (refl, h)
answered c s (returns (ret, n)) (found, next, out) =
    inr (n, ap (λ r. returns (r, n)) found, next, out)

-- Where no stream has a pending recording, the call reads behind the array of their numbers.
-- Otherwise 0 is answered, with the stream and the start time of a first recording such that no
-- stream's first recording starts earlier.
pub get_nextsched_rec_earliest :
    (c : Config) (s : Recs)
    → ((get_nextsched_rec c s ≡ aborts) × ((w : ℕ) → w < c.max_video → s.recs w ≡ []))
      ⊎ ((n : NextRec) × (get_nextsched_rec c s ≡ returns (pos 0, n)) × IsNext c s n)
unfolding Answered
get_nextsched_rec_earliest c s =
    elim (answered c s (get_nextsched_rec c s) (get_nextsched_rec-Answer c s)) [
      | inl (stopped, empty) ↦ inl (stopped, empty)
      | inr (n, found, next, out) ↦ inr (n, found, next)
    ]

HandedOut-iff :
    (c : Config) (s : Recs) (n : NextRec)
    → IsNext c s n
    → HandedOut s n
    → (n.nextrec ≡ top (s.recs n.nextrec_video)) ↔ ((w : ℕ) → w < n.nextrec_video → s.recs w ≡ [])
unfolding HandedOut
HandedOut-iff c s n next (inl (empty, out)) = (λ h. empty, λ h. out)
HandedOut-iff c s n next (inr (w, e, before, full, out, later)) =
    (λ h. absurd (apart h), λ h. absurd (full (h w before)))
  where
    apart : n.nextrec ≡ top (s.recs n.nextrec_video) → ⊥
    apart h =
        let same : e ≡ next.chosen = cc (out, h, next.slot) in
        omega (
          arith,
          subst (λ x. n.nextrec_ts <ℤ x.ts_start) same later,
          ap (λ z. pos_part z) next.start,
          ap (λ z. neg_part z) next.start,
        )

pub get_nextsched_rec_hands_out :
    (c : Config) (s : Recs) (ret : ℤ) (n : NextRec)
    → get_nextsched_rec c s ≡ returns (ret, n)
    → (e : Entry) × (n.nextrec ≡ some e)
unfolding HandedOut
get_nextsched_rec_hands_out c s ret n e =
    let (found, next, handed) = subst (NextAnswer c s) e (get_nextsched_rec-Answer c s) in
    elim handed [
      | inl (first, out) ↦ (next.chosen, out ∙ next.slot)
      | inr (w, x, behind, full, out, later) ↦ (x, out)
    ]

-- The entry that is handed out with a success is the first recording of the chosen stream exactly
-- when every stream before that one is empty; in all other cases it is another recording.
pub get_nextsched_rec_stale :
    (c : Config) (s : Recs) (n : NextRec)
    → get_nextsched_rec c s ≡ returns (pos 0, n)
    → (n.nextrec ≡ top (s.recs n.nextrec_video)) ↔ ((w : ℕ) → w < n.nextrec_video → s.recs w ≡ [])
get_nextsched_rec_stale c s n e =
    let (found, next, out) = subst (NextAnswer c s) e (get_nextsched_rec-Answer c s) in
    HandedOut-iff c s n next out
