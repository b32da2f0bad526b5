-- ===== src/Powerd/Wakes.antt =====
-- A server that was shut down is woken in time.
use tvpvrd.Prelude.{ℕ, ◌≡◌, false, List, [], ◌∷◌}
use tvpvrd.Prelude.Int.{leb_ℤ, ℤ, pos, leb_ℤ, ◌-ℤ◌, ◌≤ℤ◌}
use tvpvrd.Powerd.{Poll, Power, wakes_at}

-- No signal comes, and no user starts the server.
abbrev pub Undisturbed : Poll → Type 0
Undisturbed p = (p.received_signal ≡ false) × (p.alive ≡ false)

-- From a time on, no two polls in turn are more than `gap` seconds apart, and the last one is not
-- before the end.
abbrev pub Regular : ℕ → ℤ → ℤ → List Poll → Type 0
Regular gap from end [] = end ≤ℤ from
Regular gap from end (p ∷ ps) = (p.time -ℤ from ≤ℤ pos gap) × Regular gap p.time end ps

-- The call that wakes the server is made, no later than `gap` seconds behind the time.
abbrev pub WokenBy : ℕ → ℤ → Power → Type 0
WokenBy gap wakeup (wakes_at t works) = t -ℤ wakeup ≤ℤ pos gap
WokenBy gap wakeup _ = ⊥
