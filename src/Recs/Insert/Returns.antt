-- ===== src/Recs/Insert/Returns.antt =====
-- `insertrec` returns, and leaves the lists well-formed.
use tvpvrd.Prelude.{
  ℕ, zero, suc, ◌+◌, ◌≤◌, ◌≡◌, refl, arith, Bool, true, false, inl, inr, Bool-cases, List, some,
  if◌then◌else◌, ◌==◌, ltb, length, take,
}
use tvpvrd.Prelude.Int.{ℤ, pos, negsuc}
use tvpvrd.Datetime.{LibcTime, Dates, adjust_initital_repeat_date}
use tvpvrd.Datetime.Weekdays.{WeekdaysStep}
use tvpvrd.Datetime.Advances.{InTime, InTime-less, InTime-once, increcdays_ends}
use tvpvrd.Recs.Entry.{Entry, Bytes}
use tvpvrd.Recs.State.{Config, Recs, Outcome, returns, ◌>>=◌}
use tvpvrd.Recs.Names.{rec_title_mangling}
use tvpvrd.Recs.Invariant.{Inv}
use tvpvrd.Recs.Overlap.{dates_of}
use tvpvrd.Recs.Overlap.Decides.{DatesInTime, isentryoverlapping-Answers}
use tvpvrd.Recs.Insert.{
  Series, is_excluded, series_entry, split_at_dot, expand, insert_series, insertrec, finish_series,
  add_numbered, reset_start_number,
}
use tvpvrd.Recs.Insert.Numbers.{insertrec-Inv}

abbrev pub Returns {ℓ} : {A : Type ℓ} → Outcome A → Type ℓ
Returns {A = A} m = (a : A) × (m ≡ returns a)

pub then-Returns {ℓ κ} :
    {A : Type ℓ} {B : Type κ} {m : Outcome A} {f : A → Outcome B}
    → Returns m
    → ((a : A) → Returns (f a))
    → Returns (m >>= f)
then-Returns {m = m} {f = f} (a, done) h = rw done (h a)

pub if-Returns {ℓ} :
    {A : Type ℓ} (b : Bool) {x y : Outcome A}
    → (b ≡ true → Returns x)
    → (b ≡ false → Returns y)
    → Returns (if b then x else y)
if-Returns true f g = f refl
if-Returns false f g = g refl

pub rec_title_mangling-some :
    (T : LibcTime) (e : Entry) (num : ℕ) (name : Bytes) (maxlen : ℕ)
    → e.recurrence_mangling ≤ 2
    → (b : Bytes) × (rec_title_mangling T e num name maxlen ≡ some b)
unfolding rec_title_mangling
rec_title_mangling-some T e num name maxlen le = elim (Bool-cases (e.recurrence_mangling == 0)) [
  | inl dated ↦ rw dated (_, refl)
  | inr other ↦ elim (Bool-cases (e.recurrence_mangling == 1)) [
    | inl counted ↦ rw (other, counted) (_, refl)
    | inr last ↦
        let two : (e.recurrence_mangling == 2) ≡ true = ground arith in
        rw (other, last, two) (_, refl)
  ]
]

pub series_entry-Returns :
    (c : Config) (s : Recs) (r : Series) (i : ℕ) (d : Dates)
    → r.entry.recurrence_mangling ≤ 2
    → Returns (series_entry c s r i d)
unfolding series_entry
series_entry-Returns c s r i d le =
    let (title, t) = rec_title_mangling-some c.time r.entry i r.entry.title 512 le in
    let (name, n) = rec_title_mangling-some c.time r.entry i r.bnamecore 256 le in
    rw (t, n) (_, refl)

expand-Returns :
    (c : Config) (video : ℕ) (r : Series) (left i : ℕ) (d : Dates) (s : Recs)
    → WeekdaysStep c.time
    → InTime c.time r.entry.recurrence_type left d
    → r.entry.recurrence_mangling ≤ 2
    → Returns (expand c video r left i d s)
unfolding expand
expand-Returns c video r zero i d s law fine le = ((true, s), refl)
expand-Returns c video r (suc left) i d s law fine le =
    elim (Bool-cases (is_excluded (i + r.entry.recurrence_start_number) r.excluded)) [
      | inl skipped ↦
          rw (skipped, expand)
            (expand-Returns c video r left (i + 1) d s law
              (InTime-less c.time r.entry.recurrence_type left d fine) le)
      | inr kept ↦
          let (e, made) = series_entry-Returns c s r i d le in
          elim (increcdays_ends c.time r.entry.recurrence_type d law
            (InTime-once c.time r.entry.recurrence_type left d fine)) [
              | inl (known, (f, move, next)) ↦
                  rw (kept, made, next, expand)
                    (expand-Returns c video r left (i + 1) _
                      (add_numbered c video e (reset_start_number r.entry.recurrence s)) law
                      (fine f move).2 le)
              | inr (unknown, stays) ↦ rw (kept, made, stays, expand) (_, refl)
            ]
    ]

-- What `insertrec` needs of a repeated recording: a type of mangling that it knows, at least one
-- recording, and a `.` in the name of the file.
pub record Repeatable (c : Config) (e : Entry) : Type 0 where
  pub mangling : e.recurrence_mangling ≤ 2
  pub some_number : 1 ≤ e.recurrence_num
  pub core : Bytes
  pub filetype : Bytes
  pub dot : split_at_dot (c.basename (take 255 e.filename)) ≡ some (core, filetype)

-- What `mktime` answers for the dates at which the repetitions of an entry are stored.
abbrev pub StoredInTime : Config → ℤ → Entry → Type 0
StoredInTime c now e =
    let (ret, ts_start, ts_end) =
      adjust_initital_repeat_date c.time now e.ts_start e.ts_end e.recurrence_type in
    InTime c.time e.recurrence_type e.recurrence_num (dates_of c.time ts_start ts_end)

insert_series-Returns :
    (c : Config) (now : ℤ) (s : Recs) (video : ℕ) (e : Entry) (excluded : List ℕ)
    → WeekdaysStep c.time
    → StoredInTime c now e
    → Repeatable c e
    → Returns (insert_series c now s video e excluded)
unfolding insert_series
insert_series-Returns c now s video e excluded law fine ok =
    elim (Bool-cases (ltb c.max_entries (length (s.recs video) + e.recurrence_num))) [
      | inl full ↦ rw full (_, refl)
      | inr room ↦
          let not_zero : (e.recurrence_num == 0) ≡ false = ground (arith, ok.some_number) in
          rw (room, ok.dot, not_zero)
            (then-Returns (expand-Returns c video _ e.recurrence_num 0 _ s law fine ok.mangling)
              (λ p. (finish_series p, refl)))
    ]

-- Where weekdays follow one another, and the recording, if it is repeated, is repeatable and `mktime`
-- fails for no date that its repetitions visit, when they are tested and when they are stored, and
-- gives none a time before 1970: the call returns, and the lists satisfy the invariant that they
-- satisfied before it: whether the recording is accepted or refused, and with any numbers
-- excluded.
pub insertrec_keeps :
    (c : Config) (now : ℤ) (s : Recs) (video : ℕ) (e : Entry) (excluded : List ℕ)
    → WeekdaysStep c.time
    → DatesInTime c e
    → (e.recurrence ≡ true → StoredInTime c now e)
    → (e.recurrence ≡ true → Repeatable c e)
    → Inv c s
    → (answer : ℤ) × (s' : Recs) × (insertrec c now s video e excluded ≡ returns (answer, s'))
      × Inv c s'
unfolding insertrec
insertrec_keeps c now s video e excluded law tested stored ok inv =
    let ((answer, s'), done) = called in
    (answer, s', done, insertrec-Inv c now s s' video e excluded answer inv done)
  where
    called : Returns (insertrec c now s video e excluded)
    called = then-Returns (isentryoverlapping-Answers c s video e law tested) λ hit.
        if-Returns hit (λ collision. ((negsuc 0, s), refl))
          λ free.
            if-Returns e.recurrence
              (λ series.
                insert_series-Returns c now s video e excluded law (stored series) (ok series))
              (λ single. ((pos s.global_seqnbr, add_numbered c video e s), refl))
