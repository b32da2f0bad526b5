-- ===== src/Server/Shutdown.antt =====
-- `check_for_shutdown`: whether the server is shut down, and what the wakeup alarm is set to. The
-- answers of the operating system are inputs: the user, the times, the number of users and the load,
-- as far as they are compared; and so is the number of transcodings.
pub mod Guards
pub mod Decides
use tvpvrd.Prelude.{
  ℕ, zero, suc, ◌+◌, Bool, true, false, not, ◌&&◌, ◌||◌, Option, none, some, ltb, leb, ◌==◌,
  if◌then◌else◌,
}
use tvpvrd.Prelude.Int.{ℤ, pos, negsuc, ltb_ℤ, leb_ℤ, ◌-ℤ◌}
use tvpvrd.Recs.Entry.{Entry}
use tvpvrd.Recs.State.{Config, Recs, Outcome, returns, ◌>>=◌}
use tvpvrd.Recs.Next.{NextRec, get_nextsched_rec}

-- The settings `shutdown_…`; both times are in seconds.
pub record Settings : Type 0 where
  pub enable : Bool
  pub min_uptime : ℕ
  pub ignore_users : Bool
  pub no_recordings : Bool
  pub min_time : ℕ
  pub pre_startup_time : ℕ

-- `num_users` is -1 where it cannot be found out; `load_below` is `avg5 < shutdown_max_5load`.
pub record Machine : Type 0 where
  pub is_root : Bool
  pub uptime : ℕ
  pub num_users : ℤ
  pub now : ℤ
  pub load_below : Bool
  pub num_ongoing_transcodings : ℕ
  pub set_rtc_alarm : ℤ → ℤ

-- Going down: the time given to `set_rtc_alarm` with its answer, and the arguments of the mail.
pub data Decision : Type 0 where
  stays : Decision
  goes_down : Option (ℤ × ℤ) → Option Entry → ℤ → Decision

unfoldable pub count_ongoing : Recs → ℕ → ℕ → ℕ
count_ongoing s zero i = 0
count_ongoing s (suc left) i =
    let rest = count_ongoing s left (i + 1) in
    elim (s.ongoing_recs i) [ none ↦ rest | some e ↦ suc rest ]

unfoldable pub get_num_ongoing_recordings : Config → Recs → ℕ
get_num_ongoing_recordings c s = count_ongoing s c.max_video 0

abbrev pub is_null {ℓ} : {A : Type ℓ} → Option A → Bool
is_null none = true
is_null (some a) = false

abbrev pub is_zero : ℤ → Bool
is_zero (pos n) = n == 0
is_zero (negsuc n) = false

-- The part that acts. The mail and `do_shutdown` follow whatever the alarm answers.
unfoldable pub go_down : Settings → Machine → NextRec → Decision
go_down k m n =
    let wakeup = n.nextrec_ts -ℤ pos k.pre_startup_time in
    if ltb_ℤ (pos 0) n.nextrec_ts
    then goes_down (some (wakeup, m.set_rtc_alarm wakeup)) n.nextrec wakeup
    else goes_down none n.nextrec n.nextrec_ts

unfoldable pub idle : Machine → Config → Recs → Bool
idle m c s = m.load_below && m.num_ongoing_transcodings == 0 && get_num_ongoing_recordings c s == 0

unfoldable pub check_next : Settings → Machine → Config → Recs → ℤ × NextRec → Decision
unfolding go_down idle
check_next k m c s r =
    let ts = r.1.nextrec_ts in
    if not k.no_recordings && (not (is_zero r.0) || is_zero ts || is_null r.1.nextrec)
    then stays
    else if is_zero ts || ltb_ℤ (pos (k.min_time + k.pre_startup_time)) (ts -ℤ m.now)
    then (if idle m c s then go_down k m r.1 else stays)
    else stays

-- The number of users is compared as a `size_t`, so that -1 is a large number.
unfoldable pub check_for_shutdown : Settings → Machine → Config → Recs → Outcome Decision
unfolding check_next
check_for_shutdown k m c s =
    if not k.enable
    then returns stays
    else if not m.is_root
    then returns stays
    else if ltb m.uptime k.min_uptime
    then returns stays
    else if not k.ignore_users && not (is_zero m.num_users)
    then returns stays
    else (do r ← get_nextsched_rec c s; returns (check_next k m c s r))
