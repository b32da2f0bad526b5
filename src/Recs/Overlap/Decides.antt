-- ===== src/Recs/Overlap/Decides.antt =====
-- The collision test answers, and what its answer means.
use tvpvrd.Prelude.{
  ℕ, zero, suc, ◌≡◌, ◌↔◌, refl, Bool, true, false, inl, inr, Bool-cases, List, Option, All,
}
use tvpvrd.Datetime.{LibcTime, Dates}
use tvpvrd.Datetime.Weekdays.{WeekdaysStep}
use tvpvrd.Datetime.Advances.{InTime, InTime-less, InTime-once, increcdays_ends}
use tvpvrd.Recs.Entry.{Entry}
use tvpvrd.Recs.State.{Config, Recs, Outcome, returns}
use tvpvrd.Recs.Overlap.{taken, dates_of, series_taken, isentryoverlapping}
use tvpvrd.Recs.Overlap.Exact.{Proper, ProperOngoing}
use tvpvrd.Recs.Overlap.Series.{ProperDates, FreeDates, dates_wanted, isentryoverlapping_exact}

abbrev pub Answers : Outcome Bool → Type 0
Answers r = (b : Bool) × (r ≡ returns b)

series_taken-Answers :
    (T : LibcTime) (type left : ℕ) (d : Dates) (rs : List Entry) (o : Option Entry)
    → WeekdaysStep T
    → InTime T type left d
    → Answers (series_taken T type left d rs o)
unfolding series_taken
series_taken-Answers T type zero d rs o law fine = (false, refl)
series_taken-Answers T type (suc left) d rs o law fine =
    elim (Bool-cases (taken d.ts_start d.ts_end rs o)) [
      | inl hit ↦ (true, rw (hit, series_taken) refl)
      | inr miss ↦ elim (increcdays_ends T type d law (InTime-once T type left d fine)) [
        | inl (known, (f, move, next)) ↦
            rw (miss, next, series_taken)
              (series_taken-Answers T type left _ rs o law (fine f move).2)
        | inr (unknown, stays) ↦
            rw (miss, stays, series_taken)
              (series_taken-Answers T type left d rs o law (InTime-less T type left d fine))
      ]
    ]

-- What `mktime` answers for the dates of a repeated recording.
abbrev pub DatesInTime : Config → Entry → Type 0
DatesInTime c e =
    e.recurrence ≡ true
    → InTime c.time e.recurrence_type e.recurrence_num (dates_of c.time e.ts_start e.ts_end)

pub isentryoverlapping-Answers :
    (c : Config) (s : Recs) (video : ℕ) (e : Entry)
    → WeekdaysStep c.time
    → DatesInTime c e
    → Answers (isentryoverlapping c s video e)
unfolding isentryoverlapping
isentryoverlapping-Answers c s video e law fine = elim (Bool-cases e.recurrence) [
  | inl series ↦ rw series (series_taken-Answers c.time _ _ _ _ _ law (fine series))
  | inr single ↦ rw single (_, refl)
]

-- Where weekdays follow one another, `mktime` fails for no date that the repetitions of the new
-- entry visit and gives none a time before 1970, and every recording and every date of the new entry
-- ends no earlier than it starts, the test returns. It answers "no collision"
-- exactly when each date that the entry asks for, ends included, is apart from every pending
-- recording of the stream and from the ongoing one.
pub isentryoverlapping_decides :
    (c : Config) (s : Recs) (video : ℕ) (e : Entry)
    → WeekdaysStep c.time
    → DatesInTime c e
    → All Proper (s.recs video)
    → ProperOngoing (s.ongoing_recs video)
    → All ProperDates (dates_wanted c e)
    → (b : Bool) × (isentryoverlapping c s video e ≡ returns b)
      × ((b ≡ false) ↔ All (FreeDates (s.recs video) (s.ongoing_recs video)) (dates_wanted c e))
isentryoverlapping_decides c s video e law fine pending ongoing proper =
    let (b, answer) = isentryoverlapping-Answers c s video e law fine in
    (b, answer, isentryoverlapping_exact c s video e b pending ongoing proper answer)
