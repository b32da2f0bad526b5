-- ===== src/Stats.antt =====
-- stats.c: the statistics of the transcoding profiles. Numbers are unsigned and wrap at 2 ^ 32. The
-- arithmetic on `float` is an argument. A division by zero ends in `aborts`. `rtime` is the running
-- time of a transcoding in seconds.
pub mod Averages
use tvpvrd.Prelude.{
  ℕ, zero, suc, ◌+◌, ◌*◌, ◌/◌, ◌%◌, Bool, true, false, List, [], ◌∷◌, ◌&&◌, not, ltb, ◌==◌,
  if◌then◌else◌, Option, none, some, take, set,
}
use tvpvrd.Prelude.Int.{ℤ, pos, negsuc}
use tvpvrd.Prelude.Text.{Bytes}
use tvpvrd.Recs.State.{Outcome, returns, aborts, ◌>>=◌}
use tvpvrd.Freqmap.Rows.{same_string}

-- `float`, with the operations that the averages need.
pub record Floats : Type 1 where
  pub Float : Type 0
  pub is_zero : Float → Bool
  pub plus : Float → Float → Float
  pub half : Float → Float

abbrev pub unsigned : ℕ → ℕ
unsigned n = n % 4294967296

-- `struct profile_stat_entry`.
pub record ProfileStat (F : Floats) : Type 0 where
  pub profile_name : Bytes
  pub num_samples : ℕ
  pub transcoding_speed : ℕ
  pub mp2size_1min : ℕ
  pub mp2buffer_time : ℕ
  pub mp4size_1min : ℕ
  pub total_ttime : ℕ
  pub total_mp2time : ℕ
  pub total_mp2files : ℕ
  pub total_mp4files : ℕ
  pub avg_5load : F.Float

-- The mean of what was there and the new value, or the new value where there was none.
unfoldable pub running : ℕ → ℕ → ℕ
running old new = if old == 0 then new else unsigned (old + new) / 2

abbrev count_if : ℕ → ℕ → ℕ
count_if size n = unsigned (n + (if ltb 0 size then 1 else 0))

-- A division by zero ends the process.
abbrev pub divided : ℕ → ℕ → Outcome ℕ
divided n zero = aborts
divided n (suc m) = returns (n / suc m)

module _ (F : Floats) where
  -- The first entry of that name, with its index.
  unfoldable pub get_stats : Bytes → List (ProfileStat F) → ℕ → Option (ℕ × ProfileStat F)
  get_stats name [] i = none
  get_stats name (s ∷ stats) i =
      let rest = get_stats name stats (suc i) in
      if same_string (take 32 name) (take 32 s.profile_name) then some (i, s) else rest

  unfoldable pub running_load : F.Float → F.Float → F.Float
  running_load old new = if F.is_zero old then new else F.half (F.plus old new)

  -- What the transcoding adds: nothing where there is no file, or less than a minute was used.
  unfoldable pub with_mp4 : ℕ → ℕ → ℕ → ProfileStat F → Outcome (ProfileStat F)
  with_mp4 recorded_time mp4size t2_min e =
      if ltb 0 mp4size && ltb 0 t2_min
      then (do
        per_minute ← divided mp4size (recorded_time / 60)
        speed ← divided recorded_time t2_min
        returns (record e {
          mp4size_1min = running e.mp4size_1min per_minute;
          transcoding_speed = running e.transcoding_speed speed;
        }))
      else returns e

  -- The entry with the new sample.
  unfoldable pub update_entry : ℕ → ℕ → ℕ → ℕ → F.Float → ProfileStat F → Outcome (ProfileStat F)
  update_entry mp2size recorded_time mp4size rtime load e = do
    per_minute ← divided mp2size (recorded_time / 60)
    e1 ← with_mp4 recorded_time mp4size (rtime / 60) e
    returns (record e1 {
      num_samples = unsigned (e.num_samples + 1);
      avg_5load = running_load e.avg_5load load;
      mp2size_1min = running e.mp2size_1min per_minute;
      total_ttime = unsigned (e.total_ttime + rtime / 60);
      total_mp2files = count_if mp2size e.total_mp2files;
      total_mp4files = count_if mp4size e.total_mp4files;
      total_mp2time = unsigned (e.total_mp2time + (if ltb 0 mp2size then recorded_time else 0));
    })

  unfoldable pub update_found :
      ℕ
      → ℕ
      → ℕ
      → ℕ
      → F.Float
      → List (ProfileStat F)
      → Option (ℕ × ProfileStat F)
      → Outcome (ℤ × List (ProfileStat F))
  update_found mp2size recorded_time mp4size rtime load stats none = returns (negsuc 0, stats)
  update_found mp2size recorded_time mp4size rtime load stats (some (i, e)) =
      update_entry mp2size recorded_time mp4size rtime load e >>= λ e'.
      returns (pos 0, set stats i e')

  unfoldable pub stats_update :
      Bytes → ℕ → ℕ → ℕ → ℕ → F.Float → List (ProfileStat F) → Outcome (ℤ × List (ProfileStat F))
  stats_update name mp2size recorded_time mp4size rtime load stats =
      update_found mp2size recorded_time mp4size rtime load stats (get_stats name stats 0)
