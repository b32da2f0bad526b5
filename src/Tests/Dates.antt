-- ===== src/Tests/Dates.antt =====
-- The dates of repeated recordings, on a calendar.
use tvpvrd.Prelude.{ℕ, ◌≤◌, ◌<◌, ◌≡◌, arith, ◌⊎◌, false, true, ◌+◌}
use tvpvrd.Prelude.Int.{pos}
use tvpvrd.Datetime.{
  Dates, failed, increcdays, settle, skips, weekday, days_on, past_shift,
  adjust_initital_repeat_date, totimestamp,
}
use tvpvrd.Datetime.Utc.{utc, utc-WeekdaysStep, evening}
use tvpvrd.Datetime.Weekdays.{increcdays_first_day}
use tvpvrd.Datetime.Advances.{Advances, increcdays_ends}
use tvpvrd.Datetime.Adjust.{adjust_lands_on_day}
use tvpvrd.Tests.Samples.{utc-InTime, tuesday_evening}

abbrev tuesday : Dates
tuesday = record {
  ts_start = pos tuesday_evening;
  ts_end = pos (tuesday_evening + 3600);
  start = evening;
  end = record evening { hour = 21 };
}

increcdays_first_day_example :
    (n : ℕ) × (1 ≤ n)
    × (n ≤ 7)
    × (increcdays utc 5 tuesday ≡ settle utc (days_on n tuesday.start) (days_on n tuesday.end))
    × (skips 5 (weekday utc (days_on n tuesday.start)) ≡ false)
    × ((m : ℕ) → 1 ≤ m → m < n → skips 5 (weekday utc (days_on m tuesday.start)) ≡ true)
increcdays_first_day_example =
    increcdays_first_day utc 5 tuesday utc-WeekdaysStep (omega arith) (omega arith)

increcdays_ends_example :
    ((8 ≤ 9) × Advances utc 8 tuesday) ⊎ ((9 < 8) × (increcdays utc 8 tuesday ≡ failed))
increcdays_ends_example = increcdays_ends utc 8 tuesday utc-WeekdaysStep (utc-InTime 8 1 tuesday)

adjust_lands_on_day_example :
    let (s, e) = past_shift utc (pos 1393970000) (pos 1393964100) (pos 1393967700) in
    (n : ℕ) × (adjust_initital_repeat_date utc (pos 1393970000) (pos 1393964100) (pos 1393967700) 5
      ≡ (pos 0, totimestamp utc (days_on n s), totimestamp utc (days_on n e)))
    × (skips 5 (weekday utc (days_on n s)) ≡ false)
    × ((m : ℕ) → m < n → skips 5 (weekday utc (days_on m s)) ≡ true)
adjust_lands_on_day_example =
    adjust_lands_on_day utc (pos 1393970000) (pos 1393964100) (pos 1393967700) 5 utc-WeekdaysStep
      (omega arith) (omega arith)
