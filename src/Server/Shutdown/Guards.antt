-- ===== src/Server/Shutdown/Guards.antt =====
-- The tests of `check_for_shutdown`, one by one.
use tvpvrd.Prelude.{
  ℕ, zero, suc, ◌+◌, ◌≤◌, ◌<◌, ◌≡◌, ◌↔◌, refl, sym, ◌∙◌, ap, ◌⊎◌, inl, inr, arith, Bool, true,
  false, not, ◌&&◌, ◌||◌, Option, none, some, ltb, ◌==◌, ==_iff, if◌then◌else◌, Bool-cases,
}
use tvpvrd.Prelude.Int.{ℤ, pos, negsuc, pos_part, ltb_ℤ, ◌-ℤ◌, ◌<ℤ◌}
use tvpvrd.Recs.Entry.{Entry}
use tvpvrd.Recs.State.{Config, Recs, Outcome, returns, aborts, ◌>>=◌}
use tvpvrd.Recs.Next.{NextRec, get_nextsched_rec}
use tvpvrd.Server.Shutdown.{
  Settings, Machine, Decision, stays, goes_down, count_ongoing, get_num_ongoing_recordings, is_null,
  is_zero, go_down, idle, check_next, check_for_shutdown,
}

abbrev pub GoesDown : Decision → Type 0
GoesDown stays = ⊥
GoesDown (goes_down alarm next ts) = Unit

-- The call returns, and the server goes down.
abbrev pub Shuts : Outcome Decision → Type 0
Shuts aborts = ⊥
Shuts (returns d) = GoesDown d

abbrev pub stay_or : Outcome Decision → Bool → Outcome Decision
stay_or m b = if b then returns stays else m

Shuts-unless : (b : Bool) (m : Outcome Decision) → Shuts (stay_or m b) ↔ ((b ≡ false) × Shuts m)
Shuts-unless true m = ((λ h. absurd h), λ h. cc h.0)
Shuts-unless false m = ((λ h. (refl, h)), λ h. h.1)

aborts-unless :
    (b : Bool) (m : Outcome Decision) → (stay_or m b ≡ aborts) ↔ ((b ≡ false) × (m ≡ aborts))
aborts-unless true m = ((λ h. cc h), λ h. cc h.0)
aborts-unless false m = ((λ h. (refl, h)), λ h. h.1)

-- What follows the guards.
abbrev pub after_guards : Settings → Machine → Config → Recs → Outcome Decision
after_guards k m c s = get_nextsched_rec c s >>= λ r. returns (check_next k m c s r)

count_from_zero :
    (s : Recs) (left i : ℕ) (o : Option Entry)
    → s.ongoing_recs i ≡ o
    → ((count_ongoing s left (i + 1) ≡ 0)
        ↔ ((w : ℕ) → i + 1 ≤ w → w < i + 1 + left → s.ongoing_recs w ≡ none))
    → ((elim o [
      | none ↦ count_ongoing s left (i + 1)
      | some e ↦ suc (count_ongoing s left (i + 1))
    ])
        ≡ 0)
      ↔ ((w : ℕ) → i ≤ w → w < i + suc left → s.ongoing_recs w ≡ none)
count_from_zero s left i none free ih = (
  (λ h w lo hi. elim (Bool-cases (w == i)) [
    | inl same ↦ ap s.ongoing_recs ((==_iff w i).0 same) ∙ free
    | inr other ↦ ih.0 h w (ground arith) (omega arith)
  ]),
  λ h. ih.1 (λ w lo hi. h w (omega arith) (omega arith)),
)
count_from_zero s left i (some e) busy ih =
    ((λ h. absurd (omega (arith, h))), λ h. cc (h i (omega arith) (omega arith), busy))

count_ongoing-zero :
    (s : Recs) (left i : ℕ)
    → (count_ongoing s left i ≡ 0) ↔ ((w : ℕ) → i ≤ w → w < i + left → s.ongoing_recs w ≡ none)
unfolding count_ongoing
count_ongoing-zero s zero i = ((λ h w lo hi. absurd (omega arith)), λ h. refl)
count_ongoing-zero s (suc left) i =
    count_from_zero s left i (s.ongoing_recs i) refl (count_ongoing-zero s left (i + 1))

pub goes-if :
    (b : Bool) (d : Decision) → GoesDown (if b then d else stays) ↔ ((b ≡ true) × GoesDown d)
goes-if true d = ((λ h. (refl, h)), λ h. h.1)
goes-if false d = ((λ h. absurd h), λ h. cc h.0)

pub goes-unless :
    (b : Bool) (d : Decision) → GoesDown (if b then stays else d) ↔ ((b ≡ false) × GoesDown d)
goes-unless true d = ((λ h. absurd h), λ h. cc h.0)
goes-unless false d = ((λ h. (refl, h)), λ h. h.1)

pub go_down-goes : (k : Settings) (m : Machine) (n : NextRec) → GoesDown (go_down k m n)
unfolding go_down
go_down-goes k m n = elim (Bool-cases (ltb_ℤ (pos 0) n.nextrec_ts)) [
  | inl later ↦ rw later tt
  | inr never ↦ rw never tt
]

abbrev pub Guards : Settings → Machine → Type 0
Guards k m =
    (k.enable ≡ true)
    × (m.is_root ≡ true)
    × (k.min_uptime ≤ m.uptime)
    × ((k.ignore_users ≡ true) ⊎ (m.num_users ≡ pos 0))

users_iff : (b : Bool) (n : ℤ) → ((not b && not (is_zero n)) ≡ false) ↔ ((b ≡ true) ⊎ (n ≡ pos 0))
users_iff true n = ((λ h. inl refl), λ h. refl)
users_iff false (pos zero) = ((λ h. inr refl), λ h. refl)
users_iff false (pos (suc n)) = (
  (λ h. absurd (ground arith)),
  λ h. elim h [ inl x ↦ cc x | inr x ↦ absurd (omega (arith, ap pos_part x)) ],
)
users_iff false (negsuc n) =
    ((λ h. absurd (ground arith)), λ h. elim h [ inl x ↦ cc x | inr x ↦ cc x ])

and_iff : (a b : Bool) → ((a && b) ≡ true) ↔ ((a ≡ true) × (b ≡ true))
and_iff true b = ((λ h. (refl, h)), λ h. h.1)
and_iff false b = ((λ h. cc h), λ h. cc h.0)

pub idle_iff :
    (m : Machine) (c : Config) (s : Recs)
    → (idle m c s ≡ true) ↔ (
        (m.load_below ≡ true)
        × (m.num_ongoing_transcodings ≡ 0)
        × ((w : ℕ) → w < c.max_video → s.ongoing_recs w ≡ none))
unfolding idle get_num_ongoing_recordings
idle_iff m c s =
    let counted = count_ongoing-zero s c.max_video 0 in
    (
      (λ h.
          let both =
            (and_iff (m.load_below && m.num_ongoing_transcodings == 0)
                (count_ongoing s c.max_video 0 == 0)).0
              h in
          let front = (and_iff m.load_below (m.num_ongoing_transcodings == 0)).0 both.0 in
          (
            front.0,
            (==_iff _ 0).0 front.1,
            λ w lt. counted.0 ((==_iff _ 0).0 both.1) w (omega arith) (omega arith),
          )),
      λ h.
          (and_iff (m.load_below && m.num_ongoing_transcodings == 0)
              (count_ongoing s c.max_video 0 == 0)).1
            (
              (and_iff m.load_below (m.num_ongoing_transcodings == 0)).1 (h.0, (==_iff _ 0).1 h.1),
              (==_iff _ 0).1 (counted.1 (λ w lo hi. h.2 w (omega arith))),
            ),
    )

abbrev pub no_next : Settings → ℤ × NextRec → Bool
no_next k r =
    not k.no_recordings && (not (is_zero r.0) || is_zero r.1.nextrec_ts || is_null r.1.nextrec)

abbrev pub far : Settings → Machine → ℤ × NextRec → Bool
far k m r =
    is_zero r.1.nextrec_ts
    || ltb_ℤ (pos (k.min_time + k.pre_startup_time)) (r.1.nextrec_ts -ℤ m.now)

pub check_next_iff :
    (k : Settings) (m : Machine) (c : Config) (s : Recs) (r : ℤ × NextRec)
    → GoesDown (check_next k m c s r)
      ↔ ((no_next k r ≡ false) × (far k m r ≡ true) × (idle m c s ≡ true))
unfolding check_next
check_next_iff k m c s r =
    let acts = goes-if (idle m c s) (go_down k m r.1) in
    let enough = goes-if (far k m r) (if idle m c s then go_down k m r.1 else stays) in
    let known =
      goes-unless (no_next k r)
        (if far k m r then (if idle m c s then go_down k m r.1 else stays) else stays) in
    (
      (λ h. let g = known.0 h in let f = enough.0 g.1 in (g.0, f.0, (acts.0 f.1).0)),
      λ h. known.1 (h.0, enough.1 (h.1, acts.1 (h.2, go_down-goes k m r.1))),
    )

not-false : (b : Bool) → (not b && false) ≡ false
not-false true = refl
not-false false = refl

pub not_zero : (ts : ℤ) → pos 0 <ℤ ts → is_zero ts ≡ false
not_zero (pos n) h = ground arith
not_zero (negsuc n) h = refl

pub no_next-found :
    (k : Settings) (r : ℤ × NextRec) (e : Entry)
    → r.0 ≡ pos 0
    → pos 0 <ℤ r.1.nextrec_ts
    → r.1.nextrec ≡ some e
    → no_next k r ≡ false
no_next-found k r e ok later out =
    rw (ok, not_zero r.1.nextrec_ts later, out) (not-false k.no_recordings)

-- What is common to the ways in which the guards are passed.
module _ (k : Settings) (m : Machine) (P : Outcome Decision → Type 0)
    (unless : (b : Bool) (o : Outcome Decision) → P (stay_or o b) ↔ ((b ≡ false) × P o)) where
  guarded_iff :
      (o : Outcome Decision)
      → P (
          stay_or
            (stay_or
              (stay_or
                (stay_or o (not k.ignore_users && not (is_zero m.num_users)))
                (ltb m.uptime k.min_uptime))
              (not m.is_root))
            (not k.enable))
        ↔ (Guards k m × P o)
  guarded_iff o =
      let d4 = stay_or o (not k.ignore_users && not (is_zero m.num_users)) in
      let d3 = stay_or d4 (ltb m.uptime k.min_uptime) in
      let d2 = stay_or d3 (not m.is_root) in
      let g4 = unless (not k.ignore_users && not (is_zero m.num_users)) o in
      let g3 = unless (ltb m.uptime k.min_uptime) d4 in
      let g2 = unless (not m.is_root) d3 in
      let g1 = unless (not k.enable) d2 in
      (
        (λ h.
            let a = g1.0 h in
            let b = g2.0 a.1 in
            let u = g3.0 b.1 in
            let d = g4.0 u.1 in
            (
              (
                ground arith,
                ground arith,
                ground arith,
                (users_iff k.ignore_users m.num_users).0 d.0,
              ),
              d.1,
            )),
        λ h. g1.1 (
          rw h.0.0 refl,
          g2.1 (
            rw h.0.1 refl,
            g3.1 (ground arith, g4.1 ((users_iff k.ignore_users m.num_users).1 h.0.3, h.1)),
          ),
        ),
      )

module _ (k : Settings) (m : Machine) (c : Config) (s : Recs) where
  pub Guards-iff : Shuts (check_for_shutdown k m c s) ↔ (Guards k m × Shuts (after_guards k m c s))
  unfolding check_for_shutdown
  Guards-iff = guarded_iff k m Shuts Shuts-unless (after_guards k m c s)

  pub aborts_iff :
      (check_for_shutdown k m c s ≡ aborts) ↔ (Guards k m × (after_guards k m c s ≡ aborts))
  unfolding check_for_shutdown
  aborts_iff = guarded_iff k m (λ o. o ≡ aborts) aborts-unless (after_guards k m c s)

-- The part that acts is what a server that goes down has done.
pub goes_down-if :
    (b : Bool) (d : Decision) (a : Option (ℤ × ℤ)) (n : Option Entry) (ts : ℤ)
    → (if b then d else stays) ≡ goes_down a n ts
    → d ≡ goes_down a n ts
goes_down-if true d a n ts h = h
goes_down-if false d a n ts h = cc h

goes_down-unless :
    (b : Bool) (d : Decision) (a : Option (ℤ × ℤ)) (n : Option Entry) (ts : ℤ)
    → (if b then stays else d) ≡ goes_down a n ts
    → d ≡ goes_down a n ts
goes_down-unless true d a n ts h = cc h
goes_down-unless false d a n ts h = h

goes_down-stay_or :
    (b : Bool) (o : Outcome Decision) (a : Option (ℤ × ℤ)) (n : Option Entry) (ts : ℤ)
    → stay_or o b ≡ returns (goes_down a n ts)
    → o ≡ returns (goes_down a n ts)
goes_down-stay_or true o a n ts h = cc h
goes_down-stay_or false o a n ts h = h

pub goes_down-go_down :
    (k : Settings) (m : Machine) (c : Config) (s : Recs) (r : ℤ × NextRec) (a : Option (ℤ × ℤ))
    (n : Option Entry) (ts : ℤ)
    → get_nextsched_rec c s ≡ returns r
    → check_for_shutdown k m c s ≡ returns (goes_down a n ts)
    → go_down k m r.1 ≡ goes_down a n ts
unfolding check_for_shutdown check_next
goes_down-go_down k m c s r a n ts found h =
    let d6 = if idle m c s then go_down k m r.1 else stays in
    let d5 = if far k m r then d6 else stays in
    let o4 = after_guards k m c s in
    let o3 = stay_or o4 (not k.ignore_users && not (is_zero m.num_users)) in
    let o2 = stay_or o3 (ltb m.uptime k.min_uptime) in
    let o1 = stay_or o2 (not m.is_root) in
    let h1 = goes_down-stay_or (not k.enable) o1 a n ts h in
    let h2 = goes_down-stay_or (not m.is_root) o2 a n ts h1 in
    let h3 = goes_down-stay_or (ltb m.uptime k.min_uptime) o3 a n ts h2 in
    let h4 = goes_down-stay_or (not k.ignore_users && not (is_zero m.num_users)) o4 a n ts h3 in
    let decided : check_next k m c s r ≡ goes_down a n ts =
      of_returns (sym (ap (λ o. o >>= λ x. returns (check_next k m c s x)) found) ∙ h4) in
    let h5 = goes_down-unless (no_next k r) d5 a n ts decided in
    goes_down-if (idle m c s) (go_down k m r.1) a n ts (goes_down-if (far k m r) d6 a n ts h5)
  where
    of_returns : {x y : Decision} → returns x ≡ returns y → x ≡ y
    of_returns e = cc e
