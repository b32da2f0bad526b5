-- ===== src/Tests/Power.antt =====
-- A server that is shut down for the night.
use tvpvrd.Prelude.{ℕ, true, false, List, [], ◌∷◌, some}
use tvpvrd.Prelude.Int.{pos}
use tvpvrd.Powerd.{Margins, Round, Poll}

abbrev margins : Margins
margins = record { min_poweroff_time = 60; wakeup_margin_time = 300 }

abbrev evening : Round
evening = record {
  num_users = pos 0;
  refreshed = true;
  next = some (pos 10000);
  ongoing = some (pos 0);
  now = pos 100;
  load1_low = true;
  load5_low = true;
}

abbrev quiet : ℕ → Poll
quiet time = record {
  time = pos time;
  received_signal = false;
  alive = false;
  start_tvp = false;
  wakeup_works = true;
}

abbrev night : List Poll
night = quiet 9694 ∷ quiet 9698 ∷ quiet 9702 ∷ []
