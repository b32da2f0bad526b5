-- ===== src/Datetime/Advances.antt =====
-- The dates that `increcdays` visits, and that it goes on from each: neither does a loop of it run for
-- ever, nor does the process end.
use tvpvrd.Prelude.{
  ℕ, zero, suc, ◌+◌, ◌≤◌, ◌<◌, ◌≡◌, refl, arith, ◌⊎◌, inl, inr, Bool-cases, true, false, ltb, ◌∙◌,
}
use tvpvrd.Prelude.Int.{ℤ, pos, ltb_ℤ, ◌≤ℤ◌}
use tvpvrd.Datetime.{
  LibcTime, Parts, Dates, advanced, failed, settle, totimestamp, fromtimestamp, weekday, skips,
  move_days, increcdays, days_on,
}
use tvpvrd.Datetime.Weekdays.{WeekdaysStep, increcdays_first_day}

-- How a type of repetition moves the date `start`: not at all, by a day, a week, a month, or to the
-- first later day of its kind.
pub data Moves (T : LibcTime) (start : Parts) : ℕ → (Parts → Parts) → Type 0 where
  stays : Moves T start 0 (λ p. p)
  daily : Moves T start 1 (days_on 1)
  weekly : Moves T start 2 (days_on 7)
  monthly : Moves T start 3 (λ p. record p { month = p.month + 1 })
  to_weekday :
      (type n : ℕ)
      → 4 ≤ type
      → type ≤ 9
      → 1 ≤ n
      → n ≤ 7
      → skips type (weekday T (days_on n start)) ≡ false
      → ((m : ℕ) → 1 ≤ m → m < n → skips type (weekday T (days_on m start)) ≡ true)
      → Moves T start type (days_on n)

abbrev pub settled : LibcTime → Parts → Parts → Dates
settled T s e = record {
  ts_start = totimestamp T s;
  ts_end = totimestamp T e;
  start = fromtimestamp T (totimestamp T s);
  end = fromtimestamp T (totimestamp T e);
}

-- `mktime` fails for none of the dates that `n` moves from `d` visit, and gives no time before 1970.
abbrev pub InTime : LibcTime → ℕ → ℕ → Dates → Type 0
InTime T type zero d = Unit
InTime T type (suc n) d =
    (f : Parts → Parts)
    → Moves T d.start type f
    → (pos 0 ≤ℤ totimestamp T (f d.start))
      × (pos 0 ≤ℤ totimestamp T (f d.end))
      × InTime T type n (settled T (f d.start) (f d.end))

pub InTime-less :
    (T : LibcTime) (type n : ℕ) (d : Dates) → InTime T type (suc n) d → InTime T type n d
InTime-less T type zero d h = tt
InTime-less T type (suc n) d h = λ f m.
    let (s, e, later) = h f m in
    (s, e, InTime-less T type n (settled T (f d.start) (f d.end)) later)

pub InTime-once :
    (T : LibcTime) (type n : ℕ) (d : Dates) → InTime T type (suc n) d → InTime T type 1 d
InTime-once T type n d h = λ f m. ((h f m).0, (h f m).1, tt)

-- The new dates are those of a move of the type.
abbrev pub Advances : LibcTime → ℕ → Dates → Type 0
Advances T type d =
    (f : Parts → Parts) × Moves T d.start type f
    × (increcdays T type d ≡ advanced (settled T (f d.start) (f d.end)))

abbrev Settles : LibcTime → ℕ → Dates → Type 0
Settles T type d =
    (f : Parts → Parts) × Moves T d.start type f
    × (increcdays T type d ≡ settle T (f d.start) (f d.end))

settle_in_time :
    (T : LibcTime) (s e : Parts)
    → pos 0 ≤ℤ totimestamp T s
    → pos 0 ≤ℤ totimestamp T e
    → settle T s e ≡ advanced (settled T s e)
unfolding settle totimestamp fromtimestamp
settle_in_time T s e hs he =
    rw (not_before (totimestamp T s) hs, not_before (totimestamp T e) he, settle) refl
  where
    not_before : (z : ℤ) → pos 0 ≤ℤ z → ltb_ℤ z (pos 0) ≡ false
    not_before z h = ground arith

module _ (T : LibcTime) (d : Dates) where
  simple : (type : ℕ) → type < 4 → Settles T type d
  unfolding increcdays move_days
  simple zero lt = (_, stays, refl)
  simple (suc zero) lt = (_, daily, refl)
  simple (suc (suc zero)) lt = (_, weekly, refl)
  simple (suc (suc (suc zero))) lt = (_, monthly, refl)
  simple (suc (suc (suc (suc n)))) lt = absurd (omega arith)

module _ (T : LibcTime) (type : ℕ) (d : Dates) (law : WeekdaysStep T) where
  -- The call settles on a move of the type.
  settles : type ≤ 9 → Settles T type d
  unfolding increcdays move_days
  settles le = elim (Bool-cases (ltb type 4)) [
    | inr late ↦
        let (n, ge, most, steps, ok, first) = increcdays_first_day T type d law (ground arith) le in
        (days_on n, to_weekday type n (ground arith) le ge most ok first, steps)
    | inl early ↦ simple T d type (ground arith)
  ]

-- Where weekdays follow one another, and `mktime` fails for no date that one move visits and gives no
-- time before 1970: for each of the types 0 to 9 the call hands back the dates of a move of its type,
-- both moved alike: the same ones, or those of a day, a week or a month later, or of the first later
-- day of its kind, a week on at most. For any other type it answers -1.
pub increcdays_ends :
    (T : LibcTime) (type : ℕ) (d : Dates)
    → WeekdaysStep T
    → InTime T type 1 d
    → ((type ≤ 9) × Advances T type d) ⊎ ((9 < type) × (increcdays T type d ≡ failed))
unfolding increcdays move_days
increcdays_ends T type d law fine = elim (Bool-cases (ltb 9 type)) [
  | inl beyond ↦ inr (ground arith, unknown (ground arith))
  | inr known ↦
      let (f, move, steps) = settles T type d law (ground arith) in
      let (s, e, later) = fine f move in
      inl (ground arith, (f, move, steps ∙ settle_in_time T (f d.start) (f d.end) s e))
]
  where
    unknown : 9 < type → increcdays T type d ≡ failed
    unknown h = ground arith
