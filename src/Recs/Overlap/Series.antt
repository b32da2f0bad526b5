-- ===== src/Recs/Overlap/Series.antt =====
-- The collision test over all the dates of a repeated recording.
use tvpvrd.Prelude.{
  ℕ, zero, suc, ◌≡◌, inl, inr, Bool, true, false, List, [], ◌∷◌, Option, arith, ◌↔◌, All,
  Bool-cases, if◌then◌else◌,
}
use tvpvrd.Prelude.Int.{◌≤ℤ◌}
use tvpvrd.Datetime.{LibcTime, Dates, Advance, advanced, failed, exits, increcdays}
use tvpvrd.Recs.Entry.{Entry}
use tvpvrd.Recs.State.{Config, Recs, Outcome, returns, aborts}
use tvpvrd.Recs.Overlap.{taken, series_taken, go_on, dates_of, isentryoverlapping}
use tvpvrd.Recs.Overlap.Exact.{Proper, ProperOngoing, Free, taken-Free}

-- The dates of a series from `d` on, as `increcdays` steps through them; the list ends early where
-- the process would.
abbrev pub occurrences : LibcTime → ℕ → ℕ → Dates → List Dates
occurrences T type zero d = []
occurrences T type (suc n) d = d ∷ go_on (λ d'. occurrences T type n d') [] d (increcdays T type d)

abbrev pub ProperDates : Dates → Type 0
ProperDates d = d.ts_start ≤ℤ d.ts_end

abbrev pub FreeDates : List Entry → Option Entry → Dates → Type 0
FreeDates rs o d = Free d.ts_start d.ts_end rs o

abbrev Decides : List Entry → Option Entry → List Dates → Outcome Bool → Type 0
Decides rs o ds r = (b : Bool) → r ≡ returns b → (b ≡ false) ↔ All (FreeDates rs o) ds

module _ (rs : List Entry) (o : Option Entry) (pending : All Proper rs)
    (ongoing : ProperOngoing o) where
  go_on-Decides :
      (a : Advance) (d : Dates) (f : Dates → Outcome Bool) (g : Dates → List Dates)
      → ((d' : Dates) → All ProperDates (g d') → Decides rs o (g d') (f d'))
      → All ProperDates (go_on g [] d a)
      → Decides rs o (go_on g [] d a) (go_on f aborts d a)
  go_on-Decides (advanced d') d f g ih p = ih d' p
  go_on-Decides failed d f g ih p = ih d p
  go_on-Decides exits d f g ih p = λ b e. cc
  go_on-Decides Advance.stuck d f g ih p = λ b e. cc

  first-Decides :
      (d : Dates) (ds : List Dates) (r : Outcome Bool)
      → ProperDates d
      → Decides rs o ds r
      → Decides rs o (d ∷ ds) (if taken d.ts_start d.ts_end rs o then returns true else r)
  first-Decides d ds r p later b e = elim (Bool-cases (taken d.ts_start d.ts_end rs o)) [
    | inl hit ↦
        let answer : returns true ≡ returns b = rw hit at e in
        (λ h. cc answer, λ h. cc (hit, free.1 h.0))
    | inr miss ↦ let ih = later b (rw miss at e) in (λ h. (free.0 miss, ih.0 h), λ h. ih.1 h.1)
  ]
    where
      free : (taken d.ts_start d.ts_end rs o ≡ false) ↔ FreeDates rs o d
      free = taken-Free d.ts_start d.ts_end rs o p pending ongoing

  series_taken-Decides :
      (T : LibcTime) (type n : ℕ) (d : Dates)
      → All ProperDates (occurrences T type n d)
      → Decides rs o (occurrences T type n d) (series_taken T type n d rs o)
  unfolding series_taken
  series_taken-Decides T type zero d p = λ b e. (λ h. tt, λ h. ground arith)
  series_taken-Decides T type (suc n) d p = first-Decides d _ _ p.0 (
      go_on-Decides (increcdays T type d) d (λ d'. series_taken T type n d' rs o)
        (λ d'. occurrences T type n d') (λ d'. series_taken-Decides T type n d') p.1)

  wanted-Decides :
      (T : LibcTime) (r : Bool) (type n : ℕ) (d : Dates)
      → All ProperDates (if r then occurrences T type n d else d ∷ [])
      → Decides rs o
          (if r then occurrences T type n d else d ∷ [])
          (if r then series_taken T type n d rs o else returns (taken d.ts_start d.ts_end rs o))
  wanted-Decides T true type n d p = series_taken-Decides T type n d p
  wanted-Decides T false type n d p = λ b e.
      let free = taken-Free d.ts_start d.ts_end rs o p.0 pending ongoing in
      (λ h. (free.0 (cc (e, h)), tt), λ h. cc (e, free.1 h.0))

-- The dates that a new entry asks for.
abbrev pub dates_wanted : Config → Entry → List Dates
dates_wanted c e =
    if e.recurrence
    then occurrences c.time e.recurrence_type e.recurrence_num (dates_of c.time e.ts_start e.ts_end)
    else dates_of c.time e.ts_start e.ts_end ∷ []

-- Where every recording ends no earlier than it starts, and the call returns, it answers "no
-- collision" exactly when each date that the entry asks for, closed at both ends, is apart from
-- every pending recording of the stream and from the ongoing one.
pub isentryoverlapping_exact :
    (c : Config) (s : Recs) (video : ℕ) (e : Entry) (b : Bool)
    → All Proper (s.recs video)
    → ProperOngoing (s.ongoing_recs video)
    → All ProperDates (dates_wanted c e)
    → isentryoverlapping c s video e ≡ returns b
    → (b ≡ false) ↔ All (FreeDates (s.recs video) (s.ongoing_recs video)) (dates_wanted c e)
unfolding isentryoverlapping
isentryoverlapping_exact c s video e b pending ongoing proper answer =
    wanted-Decides (s.recs video) (s.ongoing_recs video) pending ongoing c.time e.recurrence
      e.recurrence_type e.recurrence_num (dates_of c.time e.ts_start e.ts_end) proper b answer
