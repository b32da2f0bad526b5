-- ===== src/Tests/Statistics.antt =====
-- Statistics of one profile, with numbers in place of floats.
use tvpvrd.Prelude.{ℕ, ◌+◌, ◌/◌, ◌<◌, ◌≡◌, ◌≢◌, ◌↔◌, refl, List, [], ◌∷◌, ◌==◌, none}
use tvpvrd.Prelude.Int.{negsuc}
use tvpvrd.Prelude.Text.{codes}
use tvpvrd.Recs.State.{returns, aborts}
use tvpvrd.Freqmap.Rows.{same_string}
use tvpvrd.Stats.{Floats, ProfileStat, get_stats, update_found, stats_update}
use tvpvrd.Stats.Averages.{stats_update_divides}

abbrev floats : Floats
floats = record { Float = ℕ; is_zero = λ n. n == 0; plus = λ m n. m + n; half = λ n. n / 2 }

abbrev normal : ProfileStat floats
normal = record {
  profile_name = codes "normal";
  num_samples = 1;
  transcoding_speed = 80;
  mp2size_1min = 30000;
  mp2buffer_time = 0;
  mp4size_1min = 6000;
  total_ttime = 10;
  total_mp2time = 3600;
  total_mp2files = 1;
  total_mp4files = 1;
  avg_5load = 2;
}

abbrev stats : List (ProfileStat floats)
stats = normal ∷ []

stats_update_divides_example :
    (stats_update floats (codes "normal") 20000 30 0 60 1 stats ≡ aborts)
    ↔ ((get_stats floats (codes "normal") stats 0 ≢ none) × (30 < 60))
stats_update_divides_example = stats_update_divides floats (codes "normal") 20000 30 0 60 1 stats

other_profile : stats_update floats (codes "high") 20000 30 0 60 1 stats ≡ returns (negsuc 0, stats)
unfolding stats_update update_found get_stats same_string
other_profile = refl
