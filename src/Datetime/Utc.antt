-- ===== src/Datetime/Utc.antt =====
-- A C library for tests: the Gregorian calendar in UTC, from 1970 on; an earlier
-- date gives the time on the first day. No theorem rests on it.
use tvpvrd.Prelude.{ℕ, ◌+◌, ◌-◌, ◌*◌, ◌/◌, ◌%◌, ◌≡◌, refl, arith, ltb, if◌then◌else◌}
use tvpvrd.Prelude.Int.{ℤ, pos, pos_part}
use tvpvrd.Datetime.{Tm, LibcTime, Parts, totimestamp, fromtimestamp, weekday}
use tvpvrd.Datetime.Weekdays.{WeekdaysStep}

-- Years begin in March, so that the leap day is a year's last. Months count from 0.
abbrev year_from_march : ℕ → ℕ → ℕ
year_from_march y m = if ltb m 2 then y - 1 else y

abbrev month_from_march : ℕ → ℕ
month_from_march m = if ltb m 2 then m + 10 else m - 2

days_to_month : ℕ → ℕ → ℕ
days_to_month y m = 365 * y + y / 4 - y / 100 + y / 400 + (153 * m + 2) / 5

abbrev day_number : Tm → ℕ
day_number t =
    let y = t.tm_year + 1900 + t.tm_mon / 12 in
    let m = t.tm_mon % 12 in days_to_month (year_from_march y m) (month_from_march m) + t.tm_mday

-- The number of 1970-01-01, a Thursday.
abbrev epoch : ℕ
epoch = 719469

unfoldable pub utc_mktime : Tm → ℤ
unfolding days_to_month
utc_mktime t =
    let seconds = t.tm_hour * 3600 + t.tm_min * 60 + t.tm_sec in
    pos ((day_number t - epoch) * 86400 + seconds)

unfoldable pub utc_wday : Tm → ℕ
unfolding days_to_month
utc_wday t = (day_number t + 2) % 7

unfoldable pub utc_localtime : ℤ → Tm
utc_localtime ts =
    let z = pos_part ts / 86400 + 719468 in
    let era = z / 146097 in
    let doe = z % 146097 in
    let yoe = (doe - doe / 1460 + doe / 36524 - doe / 146096) / 365 in
    let doy = doe - (365 * yoe + yoe / 4 - yoe / 100) in
    let mp = (5 * doy + 2) / 153 in
    let month = if ltb mp 10 then mp + 2 else mp - 10 in
    let year = era * 400 + yoe + (if ltb month 2 then 1 else 0) in
    let s = pos_part ts % 86400 in
    record {
      tm_sec = s % 60;
      tm_min = s / 60 % 60;
      tm_hour = s / 3600;
      tm_mday = doy - (153 * mp + 2) / 5 + 1;
      tm_mon = month;
      tm_year = year - 1900;
    }

abbrev pub utc : LibcTime
utc = record {
  mktime = utc_mktime;
  mktime_fields = λ t. utc_localtime (utc_mktime t);
  mktime_wday = utc_wday;
  localtime = utc_localtime;
}

pub utc-WeekdaysStep : WeekdaysStep utc
unfolding utc_wday
utc-WeekdaysStep = record { in_week = λ p. omega arith; steps = λ p. omega arith }

-- Tuesday, 2014-03-04 20:15:00.
abbrev pub evening : Parts
evening = record { year = 2014; month = 3; day = 4; hour = 20; min = 15; sec = 0 }

utc-evening :
    (totimestamp utc evening ≡ pos 1393964100)
    × (fromtimestamp utc (pos 1393964100) ≡ evening)
    × (weekday utc evening ≡ 2)
unfolding utc_mktime utc_wday utc_localtime totimestamp fromtimestamp
utc-evening = (refl, refl, refl)
