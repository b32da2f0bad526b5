-- ===== src/Datetime.antt =====
-- datetimeutil.c: time stamps and calendar parts, and the dates of a repeated recording.
--
-- `mktime`, `localtime_r` and the time zone are the C library's: a parameter, `LibcTime`. The parts
-- of a date are the program's int variables (sy, sm, sd, sh, smin, ssec), of dates from 1900 on, so
-- never negative. A `time_t` is in ℤ, since `mktime` answers -1 where it fails.
pub mod Weekdays
pub mod Adjust
pub mod Advances
pub mod Relative
pub mod Utc
use tvpvrd.Prelude.{
  ℕ, zero, suc, ◌+◌, ◌-◌, ◌<◌, Bool, true, false, not, ◌&&◌, ◌||◌, Option, none, some, ltb, leb,
  ◌==◌, if◌then◌else◌,
}
use tvpvrd.Prelude.Int.{ℤ, pos, negsuc, ltb_ℤ, leb_ℤ}

-- The fields of `struct tm` that the program sets.
pub record Tm : Type 0 where
  pub tm_sec : ℕ
  pub tm_min : ℕ
  pub tm_hour : ℕ
  pub tm_mday : ℕ
  pub tm_mon : ℕ
  pub tm_year : ℕ

-- `mktime` answers the time stamp, and writes the normalised fields and `tm_wday` back.
pub record LibcTime : Type 0 where
  pub mktime : Tm → ℤ
  pub mktime_fields : Tm → Tm
  pub mktime_wday : Tm → ℕ
  pub localtime : ℤ → Tm

pub record Parts : Type 0 where
  pub year : ℕ
  pub month : ℕ
  pub day : ℕ
  pub hour : ℕ
  pub min : ℕ
  pub sec : ℕ

-- `struct tm` as `totimestamp` and each loop of `increcdays` fill it; `tm_isdst` is always -1.
abbrev pub to_tm : Parts → Tm
to_tm p = record {
  tm_sec = p.sec;
  tm_min = p.min;
  tm_hour = p.hour;
  tm_mday = p.day;
  tm_mon = p.month - 1;
  tm_year = p.year - 1900;
}

module _ (T : LibcTime) where
  -- On a failure `mktime` gives -1, and so does this.
  unfoldable pub totimestamp : Parts → ℤ
  totimestamp p = T.mktime (to_tm p)

  unfoldable pub fromtimestamp : ℤ → Parts
  fromtimestamp timestamp =
      let t = T.localtime timestamp in
      record {
        year = t.tm_year + 1900;
        month = t.tm_mon + 1;
        day = t.tm_mday;
        hour = t.tm_hour;
        min = t.tm_min;
        sec = t.tm_sec;
      }

  -- `tm_wday` after `mktime(&tm_start)`: 0 is Sunday.
  abbrev pub weekday : Parts → ℕ
  weekday p = T.mktime_wday (to_tm p)

abbrev pub days_on : ℕ → Parts → Parts
days_on n p = record p { day = p.day + n }

-- The `while` conditions of `increcdays`, for the recurrence types 4 to 9.
unfoldable pub skips : ℕ → ℕ → Bool
skips type wday =
    if type == 4
    then wday == 6 || wday == 0
    else if type == 5
    then not (wday == 6) && not (wday == 0)
    else if type == 6
    then leb 5 wday || wday == 0
    else if type == 7
    then wday == 6 || leb wday 1
    else if type == 8
    then wday == 6 || leb wday 2
    else if type == 9
    then leb 5 wday || leb wday 1
    else false

-- The `do … while` loop: the day moves by one at least, and on while its weekday is skipped.
unfoldable pub next_weekday : LibcTime → ℕ → ℕ → Parts → Parts → Option (Parts × Parts)
next_weekday T type zero s e = none
next_weekday T type (suc fuel) s e =
    let rest = next_weekday T type fuel (days_on 1 s) (days_on 1 e) in
    if skips type (weekday T (days_on 1 s)) then rest else some (days_on 1 s, days_on 1 e)

-- The switch of `increcdays`.
pub data Moved : Type 0 where
  moved : Parts → Parts → Moved
  unknown_type stuck : Moved

abbrev of_loop : Option (Parts × Parts) → Moved
of_loop none = stuck
of_loop (some (s, e)) = moved s e

unfoldable pub move_days : LibcTime → ℕ → Parts → Parts → Moved
move_days T type s e =
    if type == 0
    then moved s e
    else if type == 1
    then moved (days_on 1 s) (days_on 1 e)
    else if type == 2
    then moved (days_on 7 s) (days_on 7 e)
    else if type == 3
    then moved (record s { month = s.month + 1 }) (record e { month = e.month + 1 })
    else if leb type 9
    then of_loop (next_weekday T type 7 s e)
    else unknown_type

-- The variables that `increcdays` is handed by address.
pub record Dates : Type 0 where
  pub ts_start : ℤ
  pub ts_end : ℤ
  pub start : Parts
  pub end : Parts

-- 0, -1, `exit(EXIT_FAILURE)`, and a loop that ran out of fuel.
pub data Advance : Type 0 where
  advanced : Dates → Advance
  failed exits stuck : Advance

-- The full cycle behind the switch.
unfoldable pub settle : LibcTime → Parts → Parts → Advance
unfolding totimestamp fromtimestamp
settle T s e =
    let ts_start = totimestamp T s in
    let ts_end = totimestamp T e in
    if ltb_ℤ ts_start (pos 0)
    then exits
    else if ltb_ℤ ts_end (pos 0)
    then exits
    else advanced (record {
      ts_start = ts_start;
      ts_end = ts_end;
      start = fromtimestamp T ts_start;
      end = fromtimestamp T ts_end;
    })

abbrev settle_moved : LibcTime → Moved → Advance
settle_moved T (moved s e) = settle T s e
settle_moved T unknown_type = failed
settle_moved T Moved.stuck = Advance.stuck

unfoldable pub increcdays : LibcTime → ℕ → Dates → Advance
unfolding settle move_days
increcdays T type d = settle_moved T (move_days T type d.start d.end)

-- The days by which `adjust_initital_repeat_date` moves a first date that falls on `wday`.
unfoldable pub adjust_shift : ℕ → ℕ → ℕ
adjust_shift type wday =
    if type == 4
    then (if wday == 6 then 2 else if wday == 0 then 1 else 0)
    else if type == 6
    then (if wday == 6 then 2 else if wday == 0 then 1 else if wday == 5 then 3 else 0)
    else if type == 7
    then (if wday == 6 then 3 else if wday == 0 then 2 else if wday == 1 then 1 else 0)
    else if type == 8
    then (if wday == 6
        then 4
        else if wday == 0
        then 3
        else if wday == 1
        then 2
        else if wday == 2
        then 1
        else 0)
    else if type == 9
    then (if wday == 6
        then 3
        else if wday == 0
        then 2
        else if wday == 1
        then 1
        else if wday == 5
        then 4
        else 0)
    else if type == 5
    then (if ltb wday 6 && ltb 0 wday then 6 - wday else 0)
    else 0

-- A date in the past moves to the next day first.
pub past_shift : LibcTime → ℤ → ℤ → ℤ → Parts × Parts
unfolding totimestamp fromtimestamp
past_shift T now start end =
    let s = fromtimestamp T start in
    let e = fromtimestamp T end in
    if ltb_ℤ start now
    then (
      fromtimestamp T (totimestamp T (days_on 1 s)),
      fromtimestamp T (totimestamp T (days_on 1 e)),
    )
    else (s, e)

-- The two time stamps after the call; an unknown type (above 9) leaves them, and answers -1.
unfoldable pub adjust_initital_repeat_date : LibcTime → ℤ → ℤ → ℤ → ℕ → ℤ × ℤ × ℤ
adjust_initital_repeat_date T now start end type =
    let (s, e) = past_shift T now start end in
    let n = adjust_shift type (weekday T s) in
    if ltb 9 type
    then (negsuc 0, start, end)
    else (pos 0, totimestamp T (days_on n s), totimestamp T (days_on n e))
