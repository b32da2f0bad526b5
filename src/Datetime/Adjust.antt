-- ===== src/Datetime/Adjust.antt =====
-- The first date of a repeated recording.
use tvpvrd.Prelude.{ℕ, ◌≤◌, ◌<◌, ◌%◌, ◌+◌, ◌≡◌, true, false, arith}
use tvpvrd.Prelude.Int.{ℤ, pos}
use tvpvrd.Datetime.{
  LibcTime, Parts, weekday, days_on, totimestamp, skips, past_shift, adjust_shift,
  adjust_initital_repeat_date,
}
use tvpvrd.Datetime.Weekdays.{WeekdaysStep, weekday-days_on, adjust_shift_least}

-- Where weekdays follow one another, on the types 4 to 9 both time stamps move by the same
-- number of days, the least that brings the start (moved to the next day before, if it was past)
-- to a day of the type.
pub adjust_lands_on_day :
    (T : LibcTime) (now start end : ℤ) (type : ℕ)
    → WeekdaysStep T
    → 4 ≤ type
    → type ≤ 9
    → let (s, e) = past_shift T now start end in
      (n : ℕ) × (adjust_initital_repeat_date T now start end type
        ≡ (pos 0, totimestamp T (days_on n s), totimestamp T (days_on n e)))
      × (skips type (weekday T (days_on n s)) ≡ false)
      × ((m : ℕ) → m < n → skips type (weekday T (days_on m s)) ≡ true)
unfolding adjust_initital_repeat_date
adjust_lands_on_day T now start end type law lo hi = (
  adjust_shift type (weekday T s),
  ground arith,
  rw (weekday-days_on T law _ s) least.0,
  λ m lt. rw (weekday-days_on T law m s) (least.1 m lt),
)
  where
    s : Parts
    s = (past_shift T now start end).0

    least :
        (skips type ((weekday T s + adjust_shift type (weekday T s)) % 7) ≡ false)
        × ((n : ℕ)
            → n < adjust_shift type (weekday T s)
            → skips type ((weekday T s + n) % 7) ≡ true)
    least = adjust_shift_least type (weekday T s) lo hi (law.in_week s)
