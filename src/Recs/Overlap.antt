-- ===== src/Recs/Overlap.antt =====
-- `isentryoverlapping`: does a new entry collide with a pending or the ongoing recording?
pub mod Exact
pub mod Series
pub mod Decides
use tvpvrd.Prelude.{
  ℕ, zero, suc, Bool, true, false, ◌&&◌, ◌||◌, List, [], ◌∷◌, Option, none, some, if◌then◌else◌,
}
use tvpvrd.Prelude.Int.{ℤ, ltb_ℤ, leb_ℤ}
use tvpvrd.Datetime.{LibcTime, Dates, Advance, advanced, failed, exits, increcdays, fromtimestamp}
use tvpvrd.Recs.Entry.{Entry}
use tvpvrd.Recs.State.{Config, Recs, Outcome, returns, aborts}

-- The three tests that the function makes against each recording.
unfoldable pub collides : ℤ → ℤ → Entry → Bool
collides ts_start ts_end r =
    (leb_ℤ r.ts_start ts_start && leb_ℤ ts_start r.ts_end)
    || (leb_ℤ r.ts_start ts_end && leb_ℤ ts_end r.ts_end)
    || (ltb_ℤ ts_start r.ts_start && ltb_ℤ r.ts_end ts_end)

unfoldable pub collides_any : ℤ → ℤ → List Entry → Bool
collides_any ts_start ts_end [] = false
collides_any ts_start ts_end (r ∷ rs) =
    collides ts_start ts_end r || collides_any ts_start ts_end rs

unfoldable pub collides_ongoing : ℤ → ℤ → Option Entry → Bool
collides_ongoing ts_start ts_end none = false
collides_ongoing ts_start ts_end (some r) = collides ts_start ts_end r

-- The pending recordings first, then the ongoing one.
unfoldable pub taken : ℤ → ℤ → List Entry → Option Entry → Bool
unfolding collides_any collides_ongoing
taken ts_start ts_end rs ongoing =
    collides_any ts_start ts_end rs || collides_ongoing ts_start ts_end ongoing

-- How a loop over the occurrences goes on from `d`: the answer of `increcdays` is not read.
abbrev pub go_on {ℓ} : {A : Type ℓ} → (Dates → A) → A → Dates → Advance → A
go_on rest ended d (advanced d') = rest d'
go_on rest ended d failed = rest d
go_on rest ended d exits = ended
go_on rest ended d Advance.stuck = ended

-- The loop over the occurrences that are left.
unfoldable pub series_taken : LibcTime → ℕ → ℕ → Dates → List Entry → Option Entry → Outcome Bool
series_taken T type zero d rs ongoing = returns false
series_taken T type (suc left) d rs ongoing =
    let rest =
      go_on (λ d'. series_taken T type left d' rs ongoing) aborts d (increcdays T type d) in
    if taken d.ts_start d.ts_end rs ongoing then returns true else rest

abbrev pub dates_of : LibcTime → ℤ → ℤ → Dates
dates_of T ts_start ts_end = record {
  ts_start = ts_start;
  ts_end = ts_end;
  start = fromtimestamp T ts_start;
  end = fromtimestamp T ts_end;
}

unfoldable pub isentryoverlapping : Config → Recs → ℕ → Entry → Outcome Bool
isentryoverlapping c s video e =
    if e.recurrence
    then series_taken c.time e.recurrence_type e.recurrence_num
        (dates_of c.time e.ts_start e.ts_end) (s.recs video) (s.ongoing_recs video)
    else returns (taken e.ts_start e.ts_end (s.recs video) (s.ongoing_recs video))
