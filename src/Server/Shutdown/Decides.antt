-- ===== src/Server/Shutdown/Decides.antt =====
-- When the server goes down, and to when the alarm is set, in terms of the recordings.
use tvpvrd.Prelude.{
  ℕ, ◌+◌, ◌≤◌, ◌<◌, ◌≡◌, ◌↔◌, refl, ap, subst, ◌⊎◌, inl, inr, arith, true, false, Option, none,
  some, [],
}
use tvpvrd.Prelude.Int.{ℤ, pos, ◌-ℤ◌, ◌<ℤ◌, ◌≤ℤ◌, -ℤ_parts}
use tvpvrd.Recs.Entry.{Entry}
use tvpvrd.Recs.State.{Config, Recs, aborts}
use tvpvrd.Recs.Next.{NextRec, top}
use tvpvrd.Recs.Next.Looked.{NoEarlier}
use tvpvrd.Recs.Next.Earliest.{IsNext, get_nextsched_rec_earliest, get_nextsched_rec_hands_out}
use tvpvrd.Server.Shutdown.{Settings, Machine, Decision, stays, goes_down, idle, check_for_shutdown}
use tvpvrd.Server.Shutdown.Guards.{
  Shuts, after_guards, aborts_iff, Guards, no_next, far, idle_iff, check_next_iff, no_next-found,
  not_zero, Guards-iff,
}

-- What does not depend on the recordings that are scheduled.
pub record Permitted (k : Settings) (m : Machine) (c : Config) (s : Recs) : Type 0 where
  pub enabled : k.enable ≡ true
  pub root : m.is_root ≡ true
  pub awake : k.min_uptime ≤ m.uptime
  pub users : (k.ignore_users ≡ true) ⊎ (m.num_users ≡ pos 0)
  pub load : m.load_below ≡ true
  pub no_transcoding : m.num_ongoing_transcodings ≡ 0
  pub no_recording : (w : ℕ) → w < c.max_video → s.ongoing_recs w ≡ none

-- The first pending recording of each stream leaves time for the shortest time off and the start.
abbrev pub TimeOff : Settings → Machine → Config → Recs → Type 0
TimeOff k m c s =
    (w : ℕ) (e : Entry)
    → w < c.max_video
    → top (s.recs w) ≡ some e
    → pos (k.min_time + k.pre_startup_time) <ℤ e.ts_start -ℤ m.now

-- Some stream has a pending recording.
abbrev pub Scheduled : Config → Recs → Type 0
Scheduled c s = (w : ℕ) × (e : Entry) × (w < c.max_video) × (top (s.recs w) ≡ some e)

-- No stream's first pending recording is at the epoch or before it.
abbrev pub AfterEpoch : Config → Recs → Type 0
AfterEpoch c s =
    (w : ℕ) (e : Entry) → w < c.max_video → top (s.recs w) ≡ some e → pos 0 <ℤ e.ts_start

module _ (k : Settings) (m : Machine) (c : Config) (s : Recs) where
  Permitted-iff : (Guards k m × (idle m c s ≡ true)) ↔ Permitted k m c s
  Permitted-iff = (
    (λ h.
        let i = (idle_iff m c s).0 h.1 in
        record {
          enabled = h.0.0;
          root = h.0.1;
          awake = h.0.2;
          users = h.0.3;
          load = i.0;
          no_transcoding = i.1;
          no_recording = i.2;
        }),
    λ h. (
      (h.enabled, h.root, h.awake, h.users),
      (idle_iff m c s).1 (h.load, h.no_transcoding, h.no_recording),
    ),
  )

  TimeOff-earliest :
      (n : NextRec) (w : ℕ) (e : Entry)
      → IsNext c s n
      → w < c.max_video
      → top (s.recs w) ≡ some e
      → n.nextrec_ts ≤ℤ e.ts_start
  TimeOff-earliest n w e next lt at = subst (NoEarlier n.nextrec_ts) at (next.least w lt)

  -- The test of the time off reads the earliest start only.
  far_iff :
      (n : NextRec)
      → IsNext c s n
      → pos 0 <ℤ n.nextrec_ts
      → (far k m (pos 0, n) ≡ true) ↔ TimeOff k m c s
  far_iff n next later = rw (not_zero n.nextrec_ts later) (
    (λ h w e lt at.
        let le = TimeOff-earliest n w e next lt at in
        let p = -ℤ_parts n.nextrec_ts m.now in let q = -ℤ_parts e.ts_start m.now in ground arith),
    λ h.
        let chosen = h n.nextrec_video next.chosen next.stream next.slot in
        let p = next.start in ground arith,
  )

  nothing-Scheduled : ((w : ℕ) → w < c.max_video → s.recs w ≡ []) → Scheduled c s → ⊥
  nothing-Scheduled empty (w, e, lt, at) = cc (at, ap top (empty w lt))

  decides-found :
      AfterEpoch c s
      → (n : NextRec) (e : Entry) → n.nextrec ≡ some e
      → IsNext c s n
      → ((no_next k (pos 0, n) ≡ false) × (far k m (pos 0, n) ≡ true))
        ↔ (TimeOff k m c s × Scheduled c s)
  decides-found after n e out next =
      let later : pos 0 <ℤ n.nextrec_ts =
        subst (λ t. pos 0 <ℤ t) next.start
          (after n.nextrec_video next.chosen next.stream next.slot) in
      (
        (λ h.
            ((far_iff n next later).0 h.1, (n.nextrec_video, next.chosen, next.stream, next.slot))),
        λ h. (no_next-found k (pos 0, n) e refl later out, (far_iff n next later).1 h.0),
      )

  decides-guarded :
      AfterEpoch c s
      → Shuts (after_guards k m c s) ↔ ((idle m c s ≡ true) × TimeOff k m c s × Scheduled c s)
  decides-guarded after = elim (get_nextsched_rec_earliest c s) [
    | inl (stopped, empty) ↦ rw stopped ((λ h. absurd h), λ h. absurd (nothing-Scheduled empty h.2))
    | inr (n, found, next) ↦
        let (e, out) = get_nextsched_rec_hands_out c s (pos 0) n found in
        let t = check_next_iff k m c s (pos 0, n) in
        let answer = decides-found after n e out next in
        rw found (
          (λ h. let g = t.0 h in let a = answer.0 (g.0, g.1) in (g.2, a.0, a.1)),
          λ h. let a = answer.1 (h.1, h.2) in t.1 (a.0, a.1, h.0),
        )
  ]

  stops-guarded : (after_guards k m c s ≡ aborts) ↔ ((w : ℕ) → w < c.max_video → s.recs w ≡ [])
  stops-guarded = elim (get_nextsched_rec_earliest c s) [
    | inl (stopped, empty) ↦ rw stopped ((λ h. empty), λ h. refl)
    | inr (n, found, next) ↦ rw found (
      (λ h. cc h),
      λ h. absurd (nothing-Scheduled h (n.nextrec_video, next.chosen, next.stream, next.slot)),
    )
  ]

  -- If no first recording of a stream starts at the epoch or before it: the server goes down exactly
  -- where that is permitted (switched on, as root, awake for long enough, no users or users ignored,
  -- a low load, nothing transcoded or recorded), every stream's first recording leaves more than the
  -- shortest time off and the time to start, and some recording is scheduled. Where it is switched
  -- on, as root, awake for long enough and without users that count, and nothing is scheduled,
  -- whether or not something need be, the call reads behind the array of the numbers of recordings;
  -- and it does so nowhere else.
  pub check_for_shutdown_decides :
      AfterEpoch c s
      → (Shuts (check_for_shutdown k m c s) ↔ (Permitted k m c s × TimeOff k m c s × Scheduled c s))
        × ((check_for_shutdown k m c s ≡ aborts)
            ↔ (Guards k m × ((w : ℕ) → w < c.max_video → s.recs w ≡ [])))
  check_for_shutdown_decides after =
      let shuts = Guards-iff k m c s in
      let stops = aborts_iff k m c s in
      let decided = decides-guarded after in
      (
        (
          (λ h.
              let g = shuts.0 h in let d = decided.0 g.1 in (Permitted-iff.0 (g.0, d.0), d.1, d.2)),
          λ h. let p = Permitted-iff.1 h.0 in shuts.1 (p.0, decided.1 (p.1, h.1, h.2)),
        ),
        (
          (λ h. let g = stops.0 h in (g.0, stops-guarded.0 g.1)),
          λ h. stops.1 (h.0, stops-guarded.1 h.1),
        ),
      )

-- The alarm is at the start of the recording `e` less the time to start, and it comes later than
-- the shortest time off; no stream's first recording starts before `e`.
pub record WakesFor (k : Settings) (m : Machine) (c : Config) (s : Recs) (wakeup : ℤ) (e : Entry)
    : Type 0 where
  pub before_start : wakeup ≡ e.ts_start -ℤ pos k.pre_startup_time
  pub long_enough : pos k.min_time <ℤ wakeup -ℤ m.now
  pub least :
      (w : ℕ) (other : Entry)
      → w < c.max_video
      → top (s.recs w) ≡ some other
      → e.ts_start ≤ℤ other.ts_start

module _ (k : Settings) (m : Machine) (c : Config) (s : Recs) (a : Option (ℤ × ℤ))
    (n : Option Entry) (ts : ℤ) where
  alarm_of : Decision → Option (ℤ × ℤ)
  alarm_of stays = none
  alarm_of (goes_down alarm next ts) = alarm
