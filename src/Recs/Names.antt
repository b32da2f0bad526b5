-- ===== src/Recs/Names.antt =====
-- `rec_title_mangling`: the title or file name of one recording of a series. `printf` writes a
-- number below 2 ^ 32 in at most ten digits.
use tvpvrd.Prelude.{
  ℕ, zero, suc, ◌+◌, ◌-◌, ◌/◌, ◌%◌, [], ◌∷◌, ◌++◌, Option, none, some, ltb, ◌==◌, if◌then◌else◌,
  take,
}
use tvpvrd.Datetime.{LibcTime, fromtimestamp}
use tvpvrd.Recs.Entry.{Entry, Bytes}

pub digits : ℕ → ℕ → Bytes → Bytes
digits zero n acc = acc
digits (suc fuel) n acc =
    let more = digits fuel (n / 10) ((b'0' + n % 10) ∷ acc) in
    if ltb n 10 then (b'0' + n) ∷ acc else more

-- `%d` and `%02d`
unfoldable pub decimal : ℕ → Bytes
unfolding digits
decimal n = digits 10 n []

unfoldable pub decimal2 : ℕ → Bytes
unfolding decimal
decimal2 n = if ltb n 10 then b'0' ∷ decimal n else decimal n

-- The text that `snprintf` leaves in the buffer of `maxlen` bytes; `none` where the type of
-- mangling is unknown and the buffer is left as it was.
unfoldable pub rec_title_mangling : LibcTime → Entry → ℕ → Bytes → ℕ → Option Bytes
unfolding decimal2
rec_title_mangling T e num orgname maxlen =
    let s = fromtimestamp T e.ts_start in
    let prefix = e.recurrence_mangling_prefix in
    if e.recurrence_mangling == 0
    then some (
        take (maxlen - 1) (
          orgname
          ++ (prefix ++ (decimal s.year ++ (b'-' ∷ decimal2 s.month ++ (b'-' ∷ decimal2 s.day))))))
    else if e.recurrence_mangling == 1
    then some (
        take (maxlen - 1) (
          orgname
          ++ (prefix
              ++ (decimal2 (num + e.recurrence_start_number)
                  ++ (b'-' ∷ decimal2 (e.recurrence_num + e.recurrence_start_number - 1))))))
    else if e.recurrence_mangling == 2
    then some (take (maxlen - 1) (orgname ++ (b'E' ∷ decimal2 (num + e.recurrence_start_number))))
    else none
