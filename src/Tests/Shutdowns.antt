-- ===== src/Tests/Shutdowns.antt =====
-- A server that may go down until the news.
use tvpvrd.Prelude.{ℕ, ◌≡◌, ◌<◌, ◌↔◌, subst, arith, true, false, some, Option, [], ◌∷◌}
use tvpvrd.Prelude.Int.{ℤ, pos, ◌<ℤ◌}
use tvpvrd.Recs.Entry.{Entry}
use tvpvrd.Recs.Next.{top}
use tvpvrd.Recs.Insert.Invariant.{update_all}
use tvpvrd.Server.Shutdown.{Settings, Machine, check_for_shutdown}
use tvpvrd.Server.Shutdown.Guards.{Shuts, Guards}
use tvpvrd.Recs.State.{aborts}
use tvpvrd.Server.Shutdown.Decides.{
  Permitted, TimeOff, Scheduled, AfterEpoch, check_for_shutdown_decides,
}
use tvpvrd.Tests.Samples.{settings, news, waiting}

abbrev nightly : Settings
nightly = record {
  enable = true;
  min_uptime = 600;
  ignore_users = false;
  no_recordings = false;
  min_time = 1800;
  pre_startup_time = 300;
}

-- Two hours before the news.
abbrev machine : Machine
machine = record {
  is_root = true;
  uptime = 3600;
  num_users = pos 0;
  now = pos 1393956900;
  load_below = true;
  num_ongoing_transcodings = 0;
  set_rtc_alarm = λ t. pos 0;
}

waiting-AfterEpoch : AfterEpoch settings waiting
waiting-AfterEpoch w e lt at =
    update_all (λ v es. (x : Entry) → top es ≡ some x → pos 0 <ℤ x.ts_start) (λ v. []) 0 (news ∷ [])
      (λ x h. let same : news ≡ x = (cc h) in subst (λ y. pos 0 <ℤ y.ts_start) same (omega arith))
      (λ v x h. cc h) w e at

check_for_shutdown_decides_example :
    (Shuts (check_for_shutdown nightly machine settings waiting) ↔ (
      Permitted nightly machine settings waiting
      × TimeOff nightly machine settings waiting
      × Scheduled settings waiting))
    × ((check_for_shutdown nightly machine settings waiting ≡ aborts)
        ↔ (Guards nightly machine × ((w : ℕ) → w < 2 → waiting.recs w ≡ [])))
check_for_shutdown_decides_example =
    check_for_shutdown_decides nightly machine settings waiting waiting-AfterEpoch

abbrev alarm : Option (ℤ × ℤ)
alarm = some (pos 1393963800, pos 0)
