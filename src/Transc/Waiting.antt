-- ===== src/Transc/Waiting.antt =====
-- `wait_to_transcode`, and the array `wtrans` of those that wait.
use tvpvrd.Prelude.{
  ℕ, zero, suc, ◌+◌, ◌*◌, ◌<◌, ◌≤◌, ◌≡◌, refl, ◌∙◌, ap, ◌⊎◌, inl, inr, arith, List, [], ◌∷◌, Option,
  none, some, Bool, true, false, ◌&&◌, ◌||◌, ltb, leb, ◌==◌, set, take, if◌then◌else◌, Bool-cases,
}
use tvpvrd.Prelude.Int.{ℤ, pos, negsuc}
use tvpvrd.Prelude.Text.{Bytes}
use tvpvrd.Transc.Slots.{find_free, slot_at-find_free, set-set}

abbrev pub backoff_time : ℕ
backoff_time = 420

-- The loop, with the readings of the load to come: whether each is above the limit. The waiting time
-- comes back, if the fuel, of one for each round, is enough. It does not wrap before 136 years.
unfoldable pub wait_loop : ℕ → ℕ → (ℕ → Bool) → ℕ → Option ℕ
wait_loop limit zero above waiting_time = none
wait_loop limit (suc fuel) above waiting_time =
    let rest = wait_loop limit fuel (λ j. above (suc j)) (waiting_time + backoff_time) in
    if above 0 && (limit == 0 || ltb waiting_time limit) then rest else some waiting_time

abbrev wait_result : ℕ → Option ℕ → Option ℤ
wait_result limit none = none
wait_result limit (some t) = some (if ltb t limit || limit == 0 then pos 0 else negsuc 0)

-- `limit` is `max_waiting_time_to_transcode`.
unfoldable pub wait_to_transcode : ℕ → ℕ → (ℕ → Bool) → Option ℤ
wait_to_transcode limit fuel above = wait_result limit (wait_loop limit fuel above 0)

loop_low :
    (limit m fuel t : ℕ) (above : ℕ → Bool)
    → ((j : ℕ) → j < m → above j ≡ true)
    → above m ≡ false
    → (limit ≡ 0) ⊎ (t + m * 420 < limit)
    → m < fuel
    → wait_loop limit fuel above t ≡ some (t + m * 420)
unfolding wait_loop
loop_low limit m zero t above busy low room enough = absurd (omega (arith, enough))
loop_low limit zero (suc fuel) t above busy low room enough = rw low (ap some (omega arith))
loop_low limit (suc m) (suc fuel) t above busy low room enough =
    let goes_on : (limit == 0 || ltb t limit) ≡ true = elim room [
      | inl free ↦ ground arith
      | inr early ↦ ground (arith, early)
    ] in
    let rest =
      loop_low limit m fuel (t + 420) (λ j. above (suc j))
        (λ j lt. busy (suc j) (omega (arith, lt))) low
        (elim room [ inl free ↦ inl free | inr early ↦ inr (omega (arith, early)) ])
        (omega (arith, enough)) in
    rw (busy 0 (omega arith), goes_on) (rest ∙ ap some (omega arith))

loop_late :
    (limit fuel t : ℕ) (above : ℕ → Bool)
    → 0 < limit
    → limit ≤ t
    → wait_loop limit (suc fuel) above t ≡ some t
unfolding wait_loop
loop_late limit fuel t above some_limit late =
    let no_limit : (limit == 0) ≡ false = ground arith in
    let over : ltb t limit ≡ false = ground arith in
    elim (Bool-cases (above 0)) [
      | inl high ↦ rw (over, no_limit, high) refl
      | inr low ↦ rw low refl
    ]

loop_early :
    (limit fuel t : ℕ) (above : ℕ → Bool)
    → ltb t limit ≡ true
    → above 0 ≡ true
    → wait_loop limit (suc fuel) above t ≡ wait_loop limit fuel (λ j. above (suc j)) (t + 420)
unfolding wait_loop
loop_early limit fuel t above early high =
    let goes_on : (limit == 0 || ltb t limit) ≡ true = ground arith in rw (high, goes_on) refl

loop_busy :
    (limit fuel t : ℕ) (above : ℕ → Bool)
    → 0 < limit
    → ((j : ℕ) → t + j * 420 < limit → above j ≡ true)
    → limit ≤ t + fuel * 420
    → (u : ℕ) × (wait_loop limit (suc fuel) above t ≡ some u) × (limit ≤ u)
loop_busy limit zero t above some_limit busy enough =
    (t, loop_late limit zero t above some_limit (omega (arith, enough)), omega (arith, enough))
loop_busy limit (suc fuel) t above some_limit busy enough = elim (Bool-cases (ltb t limit)) [
  | inl early ↦
      let rest =
        loop_busy limit fuel (t + 420) (λ j. above (suc j)) some_limit
          (λ j lt. busy (suc j) (omega (arith, lt))) (omega (arith, enough)) in
      let high = busy 0 (ground arith) in
      (rest.0, loop_early limit (suc fuel) t above early high ∙ rest.1, rest.2)
  | inr late ↦ (t, loop_late limit (suc fuel) t above some_limit (ground arith), ground arith)
]

-- If the load is above the limit at the first `m` readings and no longer at the next one, and that
-- comes before the time is over or there is no limit of the time, the transcoding may start: `m` + 1
-- rounds are enough for the answer 0.
pub wait_to_transcode_starts :
    (limit m fuel : ℕ) (above : ℕ → Bool)
    → ((j : ℕ) → j < m → above j ≡ true)
    → above m ≡ false
    → (limit ≡ 0) ⊎ (m * 420 < limit)
    → m < fuel
    → wait_to_transcode limit fuel above ≡ some (pos 0)
unfolding wait_to_transcode
wait_to_transcode_starts limit m fuel above busy low room enough =
    let done =
      loop_low limit m fuel 0 above busy low
        (elim room [ inl free ↦ inl free | inr early ↦ inr (omega (arith, early)) ]) enough in
    let ok : (ltb (0 + m * 420) limit || limit == 0) ≡ true = elim room [
      | inl free ↦ ground arith
      | inr early ↦ ground (arith, early)
    ] in
    rw done (rw ok refl)

-- If there is a limit of the time and the load is above its own at each reading before the time is
-- over, the answer is -1, whatever the later readings; as many rounds are enough as the time has
-- periods of seven minutes, and one.
pub wait_to_transcode_gives_up :
    (limit fuel : ℕ) (above : ℕ → Bool)
    → 0 < limit
    → ((j : ℕ) → j * 420 < limit → above j ≡ true)
    → limit ≤ fuel * 420
    → wait_to_transcode limit (suc fuel) above ≡ some (negsuc 0)
unfolding wait_to_transcode
wait_to_transcode_gives_up limit fuel above some_limit busy enough =
    let done =
      loop_busy limit fuel 0 above some_limit (λ j lt. busy j (omega (arith, lt)))
        (omega (arith, enough)) in
    let late : (ltb done.0 limit || limit == 0) ≡ false = (let h = done.2 in ground arith) in
    rw (done.1) (rw late refl)

-- `struct waiting_transcoding_t`
pub record Waiting : Type 0 where
  pub filename : Bytes
  pub profilename : Bytes
  pub timestamp : ℤ

abbrev pub max_waiting_transcodings : ℕ
max_waiting_transcodings = 64

-- A slot with the empty name is free.
abbrev written : Bytes → Bytes → ℤ → Option Waiting
written [] profile now = none
written (c ∷ cs) profile now =
    some (record { filename = take 254 (c ∷ cs); profilename = take 254 profile; timestamp = now })

unfoldable pub remember_waiting_transcoding :
    Bytes → Bytes → ℤ → List (Option Waiting) → ℤ × List (Option Waiting)
remember_waiting_transcoding name profile now xs =
    let idx = find_free xs in
    if leb max_waiting_transcodings idx
    then (negsuc 0, xs)
    else (pos idx, set xs idx (written name profile now))

unfoldable pub forget_waiting_transcoding : ℤ → List (Option Waiting) → ℤ × List (Option Waiting)
forget_waiting_transcoding (negsuc n) xs = (negsuc 0, xs)
forget_waiting_transcoding (pos i) xs =
    if ltb i max_waiting_transcodings then (pos 0, set xs i none) else (negsuc 0, xs)

-- Forgetting the slot that was answered leaves the array as it was, whether it was full or not.
pub forget-remember_waiting :
    (name profile : Bytes) (now : ℤ) (xs : List (Option Waiting))
    → (forget_waiting_transcoding
        (remember_waiting_transcoding name profile now xs).0
        (remember_waiting_transcoding name profile now xs).1).1
      ≡ xs
unfolding remember_waiting_transcoding forget_waiting_transcoding
forget-remember_waiting name profile now xs = elim (Bool-cases (leb 64 (find_free xs))) [
  | inl full ↦ rw full refl
  | inr room ↦
      let small : ltb (find_free xs) 64 ≡ true = ground arith in
      rw (room, small) (set-set xs (find_free xs) _ (slot_at-find_free xs))
]
