-- ===== src/Datetime/Relative.antt =====
-- `getreldatefromdayname` of datetimeutil.c: dates that are given by the name of a day.
use tvpvrd.Prelude.{ℕ, ◌+◌, ◌-◌, ◌≡◌, List, [], ◌∷◌, ◌||◌, ltb, if◌then◌else◌, Option, none, some}
use tvpvrd.Prelude.Int.{ℤ}
use tvpvrd.Prelude.Text.{Bytes, codes}
use tvpvrd.Freqmap.Rows.{xstricmp_equal}
use tvpvrd.Datetime.{Tm, LibcTime, Parts, to_tm, totimestamp, fromtimestamp}

pub data Named : Type 0 where
  today tomorrow unknown : Named
  on_weekday : ℕ → Named

abbrev pub wday : List Bytes
wday =
    codes "sun"
    ∷ codes "mon"
    ∷ codes "tue"
    ∷ codes "wed"
    ∷ codes "thu"
    ∷ codes "fri"
    ∷ codes "sat"
    ∷ []

-- The loop over the names of weekdays.
unfoldable pub find_wday : Bytes → List Bytes → ℕ → Named
find_wday wdayname [] i = unknown
find_wday wdayname (name ∷ names) i =
    let rest = find_wday wdayname names (i + 1) in
    if xstricmp_equal name wdayname then on_weekday i else rest

unfoldable pub named : Bytes → Named
named wdayname =
    if xstricmp_equal (codes "today") wdayname || xstricmp_equal (codes "tod") wdayname
    then today
    else if xstricmp_equal (codes "tomorrow") wdayname || xstricmp_equal (codes "tom") wdayname
    then tomorrow
    else find_wday wdayname wday 0

-- How many days from weekday `now` to weekday `i`.
unfoldable pub step_to : ℕ → ℕ → ℕ
step_to now i = if ltb i now then 7 - now + i else if ltb now i then i - now else 7

pub record Date : Type 0 where
  pub y : ℕ
  pub m : ℕ
  pub d : ℕ

abbrev pub date_of_tm : Tm → Date
date_of_tm t = record { y = t.tm_year + 1900; m = t.tm_mon + 1; d = t.tm_mday }

abbrev pub date_of_parts : Parts → Date
date_of_parts p = record { y = p.year; m = p.month; d = p.day }

-- `none` is the answer -1.
unfoldable pub relative_date : LibcTime → Parts → Named → Option Date
relative_date T p today = some (date_of_parts p)
relative_date T p tomorrow =
    some (date_of_parts (fromtimestamp T (totimestamp T (record p { day = p.day + 1 }))))
relative_date T p unknown = none
relative_date T p (on_weekday i) =
    let tm_now = T.mktime_fields (to_tm p) in
    let moved = record tm_now { tm_mday = tm_now.tm_mday + step_to (T.mktime_wday (to_tm p)) i } in
    some (date_of_tm (T.mktime_fields moved))

unfoldable pub getreldatefromdayname : LibcTime → ℤ → Bytes → Option Date
getreldatefromdayname T now wdayname = relative_date T (fromtimestamp T now) (named wdayname)

-- What `mktime` documents of the fields that `localtime_r` gives: they are normal already.
abbrev pub NormalNow : LibcTime → ℤ → Type 0
NormalNow T now = T.mktime_fields (to_tm (fromtimestamp T now)) ≡ to_tm (fromtimestamp T now)
