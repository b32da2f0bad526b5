-- ===== src/Datetime/Weekdays.antt =====
-- The days on which a repeated recording falls.
use native.Mathlib.Numerals.{add-one}
use tvpvrd.Prelude.{
  ℕ, zero, suc, ◌+◌, ◌%◌, ◌≤◌, ◌<◌, ◌≡◌, refl, ap, Bool, not, ◌&&◌, ◌||◌, ltb, check_below,
  check_below-holds, true, false, Option, some, arith, inl, inr, Bool-cases,
}
use tvpvrd.Datetime.{
  LibcTime, Parts, weekday, days_on, skips, next_weekday, increcdays, settle, Dates, adjust_shift,
}

-- What the C library documents of `tm_wday`: 0 to 6, and one further on the next day of the month.
pub record WeekdaysStep (T : LibcTime) : Type 0 where
  pub in_week : (p : Parts) → weekday T p < 7
  pub steps : (p : Parts) → weekday T (days_on 1 p) ≡ (weekday T p + 1) % 7

abbrev shift_ok : ℕ → ℕ → Bool
shift_ok type wday =
    not (skips type ((wday + adjust_shift type wday) % 7))
    && check_below (adjust_shift type wday) (λ n. skips type ((wday + n) % 7))

shift_table : check_below 10 (λ type. ltb type 4 || check_below 7 (shift_ok type)) ≡ true
unfolding check_below skips adjust_shift
shift_table = refl

shift_ok_all : (type wday : ℕ) → 4 ≤ type → type ≤ 9 → wday < 7 → shift_ok type wday ≡ true
shift_ok_all type wday lo hi w =
    check_below-holds 7 (shift_ok type) wday
      (ground (arith, check_below-holds 10 _ type shift_table)) w

-- On the types 4 to 9 the shift of the first date is the least that reaches a day of the type:
-- `adjust_initital_repeat_date` and the loops of `increcdays` agree on the days.
pub adjust_shift_least :
    (type wday : ℕ)
    → 4 ≤ type
    → type ≤ 9
    → wday < 7
    → (skips type ((wday + adjust_shift type wday) % 7) ≡ false)
      × ((n : ℕ) → n < adjust_shift type wday → skips type ((wday + n) % 7) ≡ true)
adjust_shift_least type wday lo hi w = (
  ground (arith, ok),
  λ n lt. check_below-holds _ (λ n. skips type ((wday + n) % 7)) n (ground (arith, ok)) lt,
)
  where
    ok : shift_ok type wday ≡ true
    ok = shift_ok_all type wday lo hi w

days_on_zero : (p : Parts) → days_on 0 p ≡ p
days_on_zero p = ground arith

days_on_add : (m n : ℕ) (p : Parts) → days_on m (days_on n p) ≡ days_on (n + m) p
days_on_add m n p = ground arith

module _ (T : LibcTime) (law : WeekdaysStep T) where
  pub weekday-days_on : (n : ℕ) (p : Parts) → weekday T (days_on n p) ≡ (weekday T p + n) % 7
  weekday-days_on zero p = omega (arith, ap (weekday T) (days_on_zero p), law.in_week p)
  weekday-days_on (suc n) p = omega (
    arith,
    ap (weekday T) (days_on_add 1 n p),
    ap (λ m. weekday T (days_on m p)) (add-one n),
    law.steps (days_on n p),
    weekday-days_on n p,
  )

-- What the loop hands back: the first later day of the type, the end moved by as many days.
pub record FirstDay (T : LibcTime) (type fuel : ℕ) (s e : Parts) (r : Option (Parts × Parts))
    : Type 0 where
  pub count : ℕ
  pub forward : (1 ≤ count) × (count ≤ fuel)
  pub returns : r ≡ some (days_on count s, days_on count e)
  pub allowed : skips type (weekday T (days_on count s)) ≡ false
  pub first : (n : ℕ) → 1 ≤ n → n < count → skips type (weekday T (days_on n s)) ≡ true

step_FirstDay :
    (T : LibcTime) (type fuel : ℕ) (s e : Parts) (r : Option (Parts × Parts))
    → skips type (weekday T (days_on 1 s)) ≡ true
    → FirstDay T type fuel (days_on 1 s) (days_on 1 e) r
    → FirstDay T type (suc fuel) s e r
step_FirstDay T type fuel s e r skipped d = record {
  count = 1 + d.count;
  forward = omega (arith, d.forward);
  returns = rw (← days_on_add d.count 1 s, ← days_on_add d.count 1 e) d.returns;
  allowed = rw (← days_on_add d.count 1 s) d.allowed;
  first = later;
}
  where
    later : (n : ℕ) → 1 ≤ n → n < 1 + d.count → skips type (weekday T (days_on n s)) ≡ true
    later zero lo hi = absurd (omega arith)
    later (suc zero) lo hi = skipped
    later (suc (suc n)) lo hi =
        let back : 1 + suc n ≡ suc (suc n) = omega arith in
        rw (← back, ← days_on_add (suc n) 1 s) (d.first (suc n) (omega arith) (omega arith))

stop_FirstDay :
    (T : LibcTime) (type fuel : ℕ) (s e : Parts)
    → skips type (weekday T (days_on 1 s)) ≡ false
    → FirstDay T type (suc fuel) s e (some (days_on 1 s, days_on 1 e))
stop_FirstDay T type fuel s e stays = record {
  count = 1;
  forward = omega arith;
  returns = refl;
  allowed = stays;
  first = λ n a b. absurd (omega arith);
}

one_more : (k : ℕ) → 1 + suc k ≡ suc (suc k)
one_more k = omega arith

adjust_shift-le : (type wday : ℕ) → adjust_shift type wday ≤ 6
unfolding adjust_shift
adjust_shift-le type wday = ground arith

next_weekday-FirstDay :
    (T : LibcTime) (type fuel k : ℕ) (s e : Parts)
    → 1 ≤ k
    → k ≤ fuel
    → skips type (weekday T (days_on k s)) ≡ false
    → FirstDay T type fuel s e (next_weekday T type fuel s e)
unfolding next_weekday
next_weekday-FirstDay T type zero k s e lo hi ok = absurd (omega arith)
next_weekday-FirstDay T type (suc fuel) zero s e lo hi ok = absurd (omega arith)
next_weekday-FirstDay T type (suc fuel) (suc zero) s e lo hi ok =
    rw (ok, next_weekday) (stop_FirstDay T type fuel s e ok)
next_weekday-FirstDay T type (suc fuel) (suc (suc k)) s e lo hi ok =
    elim (Bool-cases (skips type (weekday T (days_on 1 s)))) [
      | inl skipped ↦
          rw (skipped, next_weekday)
            (step_FirstDay T type fuel s e _ skipped (
              next_weekday-FirstDay T type fuel (suc k) (days_on 1 s) (days_on 1 e) (omega arith)
                (omega arith) (rw (days_on_add (suc k) 1 s, one_more k) ok)))
      | inr stays ↦ rw (stays, next_weekday) (stop_FirstDay T type fuel s e stays)
    ]

-- Where weekdays follow one another, for the types 4 to 9 the call ends: it settles on the first
-- later day of the type, at most a week on, and the end moves by as many days.
pub increcdays_first_day :
    (T : LibcTime) (type : ℕ) (d : Dates)
    → WeekdaysStep T
    → 4 ≤ type
    → type ≤ 9
    → (n : ℕ) × (1 ≤ n)
      × (n ≤ 7)
      × (increcdays T type d ≡ settle T (days_on n d.start) (days_on n d.end))
      × (skips type (weekday T (days_on n d.start)) ≡ false)
      × ((m : ℕ) → 1 ≤ m → m < n → skips type (weekday T (days_on m d.start)) ≡ true)
unfolding increcdays
increcdays_first_day T type d law lo hi =
    (found.count, found.forward.0, found.forward.1, returns, found.allowed, found.first)
  where
    w : ℕ
    w = weekday T (days_on 1 d.start)

    least :
        (skips type ((w + adjust_shift type w) % 7) ≡ false)
        × ((n : ℕ) → n < adjust_shift type w → skips type ((w + n) % 7) ≡ true)
    least = adjust_shift_least type w lo hi (law.in_week (days_on 1 d.start))

    found : FirstDay T type 7 d.start d.end (next_weekday T type 7 d.start d.end)
    found =
        next_weekday-FirstDay T type 7 (1 + adjust_shift type w) d.start d.end (omega arith)
          (omega (arith, adjust_shift-le type w))
          (rw
            (
              ← days_on_add (adjust_shift type w) 1 d.start,
              weekday-days_on T law (adjust_shift type w) (days_on 1 d.start),
            )
            least.0)

    returns :
        increcdays T type d ≡ settle T (days_on found.count d.start) (days_on found.count d.end)
    returns = ground (arith, found.returns)
