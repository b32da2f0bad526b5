-- ===== src/Powerd.antt =====
-- tvpowerd/tvpowerd.c: `server_loop`, when it refreshes. What the remote server and the clock answer
-- are inputs, one `Poll` for each round of the loop that waits for the time to wake the server.
pub mod Wakes
use tvpvrd.Prelude.{
  ℕ, zero, suc, ◌+◌, ◌*◌, Bool, true, false, not, ◌&&◌, List, [], ◌∷◌, Option, none, some, ltb, leb,
  ◌==◌, if◌then◌else◌,
}
use tvpvrd.Prelude.Int.{ℤ, pos, negsuc, ltb_ℤ, leb_ℤ, ◌-ℤ◌, to_int}

-- Minutes for the first, seconds for the second.
pub record Margins : Type 0 where
  pub min_poweroff_time : ℕ
  pub wakeup_margin_time : ℕ

-- `next` is the start of the first recording, if any is listed; `ongoing` is what `remote_recording`
-- writes, if it can. The two tests compare the loads with `max_shutdown_5load`; where they are not
-- known, the second one compares 99.
pub record Round : Type 0 where
  pub num_users : ℤ
  pub refreshed : Bool
  pub next : Option ℤ
  pub ongoing : Option ℤ
  pub now : ℤ
  pub load1_low : Bool
  pub load5_low : Bool

-- What is found in one round: the time, before the sleep; and behind it, whether a signal has come,
-- the server answers, the file start_tvp is there, or
-- `wakeup_remote_server` would succeed.
pub record Poll : Type 0 where
  pub time : ℤ
  pub received_signal : Bool
  pub alive : Bool
  pub start_tvp : Bool
  pub wakeup_works : Bool

-- The end: nothing is done; the shutdown fails; `wakeup_remote_server` is called at a time, with its
-- success; the server was started by a user; a signal ends the daemon; or it waits still.
pub data Power : Type 0 where
  stays_on : Power
  still_up : Power
  wakes_at : ℤ → Bool → Power
  user_started : Power
  signalled : Power
  waits_on : Power

-- `ongoing` is 1 unless it is written.
abbrev pub no_recording : Option ℤ → Bool
no_recording none = false
no_recording (some (pos n)) = n == 0
no_recording (some (negsuc n)) = false

abbrev pub may_power_off : Margins → Round → ℤ → Bool
may_power_off k r ts =
    ltb_ℤ r.num_users (pos 1)
    && (r.refreshed
        && (no_recording r.ongoing
            && (leb_ℤ (pos (k.min_poweroff_time * 60)) (to_int (ts -ℤ r.now))
                && (r.load1_low && r.load5_low))))

-- The start of the next recording, where the server is to be shut down.
unfoldable pub power_off_until : Margins → Round → Option ℤ
power_off_until k r = elim r.next [
  | none ↦ none
  | some ts ↦ if may_power_off k r ts then some ts else none
]

-- The loop `while (!user_started && …)` and what follows it.
unfoldable pub wait_power_on : ℤ → List Poll → Power
wait_power_on wakeup [] = waits_on
wait_power_on wakeup (p ∷ ps) =
    let rest = wait_power_on wakeup ps in
    if leb_ℤ wakeup p.time
    then wakes_at p.time p.wakeup_works
    else if p.received_signal
    then signalled
    else if p.start_tvp
    then (if p.alive then user_started else wakes_at p.time p.wakeup_works)
    else if p.alive
    then user_started
    else rest

-- The wait for the shutdown is over without a signal, and `verified` is whether the server answers
-- behind it.
unfoldable pub server_loop_round : Margins → Round → Bool → List Poll → Power
server_loop_round k r verified polls = elim (power_off_until k r) [
  | none ↦ stays_on
  | some ts ↦
      let waited = wait_power_on (ts -ℤ pos k.wakeup_margin_time) polls in
      if verified then still_up else waited
]
