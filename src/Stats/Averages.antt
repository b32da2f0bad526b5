-- ===== src/Stats/Averages.antt =====
-- What an update of the statistics does.
use tvpvrd.Prelude.{
  zero, suc, ◌&&◌, ℕ, ◌+◌, ◌/◌, ◌≤◌, ◌<◌, ◌≡◌, ◌≢◌, ◌↔◌, ◌⊎◌, refl, sym, ◌∙◌, inl, inr, false, List,
  ltb, ◌==◌, none, some, set, Bool-cases, Option-cases, arith,
}
use tvpvrd.Prelude.Int.{ℤ, pos, negsuc}
use tvpvrd.Prelude.Text.{Bytes}
use tvpvrd.Recs.State.{Outcome, returns, aborts}
use tvpvrd.Stats.{
  Floats, unsigned, ProfileStat, running, get_stats, divided, with_mp4, update_entry, update_found,
  stats_update,
}

-- A mean is between the two values, in either order.
abbrev pub Between : ℕ → ℕ → ℕ → Type 0
Between a b m = ((a ≤ m) × (m ≤ b)) ⊎ ((b ≤ m) × (m ≤ a))

running-Between :
    (old new : ℕ) → 0 < old → old + new < 4294967296 → Between old new (running old new)
unfolding running
running-Between old new some_old fits =
    let kept : (old == 0) ≡ false = ground arith in
    let whole : unsigned (old + new) ≡ old + new = omega arith in rw (kept, whole) middle
  where
    middle : Between old new ((old + new) / 2)
    middle = elim (Bool-cases (ltb new old)) [
      | inl down ↦ inr (ground arith, ground arith)
      | inr up ↦ inl (ground arith, ground arith)
    ]

divided-some : (n m : ℕ) → 0 < m → divided n m ≡ returns (n / m)
divided-some n zero h = absurd (omega arith)
divided-some n (suc m) h = refl

-- The update of the entry returns, with that mean for the size of a minute.
abbrev Entered : {F : Floats} → ℕ → Outcome (ProfileStat F) → Type 0
Entered {F = F} size m = (e' : ProfileStat F) × (m ≡ returns e') × (e'.mp2size_1min ≡ size)

module _ (F : Floats) (mp2size recorded_time mp4size rtime : ℕ) (load : F.Float)
    (e : ProfileStat F) where
  with_mp4-returns :
      0 < recorded_time / 60
      → (e1 : ProfileStat F) × (with_mp4 F recorded_time mp4size (rtime / 60) e ≡ returns e1)
  unfolding with_mp4
  with_mp4-returns over = elim (Bool-cases (ltb 0 mp4size && ltb 0 (rtime / 60))) [
    | inr nothing ↦ rw nothing (e, refl)
    | inl file ↦
        let used : 0 < rtime / 60 = ground arith in
        rw
          (
            file,
            divided-some mp4size (recorded_time / 60) over,
            divided-some recorded_time (rtime / 60) used,
          )
          (_, refl)
  ]

  update_entry_short :
      recorded_time / 60 ≡ 0 → update_entry F mp2size recorded_time mp4size rtime load e ≡ aborts
  unfolding update_entry
  update_entry_short under = rw under refl

  update_entry_long :
      0 < recorded_time / 60
      → Entered
          (running e.mp2size_1min (mp2size / (recorded_time / 60)))
          (update_entry F mp2size recorded_time mp4size rtime load e)
  unfolding update_entry
  update_entry_long over =
      let (e1, entered) = with_mp4-returns over in
      rw (divided-some mp2size (recorded_time / 60) over, entered) (_, refl, refl)

module _ (F : Floats) (name : Bytes) (mp2size recorded_time mp4size rtime : ℕ) (load : F.Float)
    (stats : List (ProfileStat F)) where
  abbrev updated : Outcome (ℤ × List (ProfileStat F))
  updated = stats_update F name mp2size recorded_time mp4size rtime load stats

  updated_missing : get_stats F name stats 0 ≡ none → updated ≡ returns (negsuc 0, stats)
  unfolding stats_update update_found
  updated_missing missing = rw missing refl

  module _ (i : ℕ) (e : ProfileStat F) (found : get_stats F name stats 0 ≡ some (i, e)) where
    updated_short : recorded_time < 60 → updated ≡ aborts
    unfolding stats_update update_found
    updated_short under =
        let short : recorded_time / 60 ≡ 0 = omega arith in
        rw (found, update_entry_short F mp2size recorded_time mp4size rtime load e short) refl

    updated_long :
        60 ≤ recorded_time
        → (e' : ProfileStat F) × (updated ≡ returns (pos 0, set stats i e'))
          × (e'.mp2size_1min ≡ running e.mp2size_1min (mp2size / (recorded_time / 60)))
    unfolding stats_update update_found
    updated_long over =
        let (e', entered, size) =
          update_entry_long F mp2size recorded_time mp4size rtime load e (omega arith) in
        (e', rw (found, entered) refl, size)

  returned : {r : ℤ × List (ProfileStat F)} → updated ≡ returns r → updated ≢ aborts
  returned e h = cc

  -- Of all divisions of the update, one divides by zero exactly where the profile is known and less
  -- than a minute was recorded.
  pub stats_update_divides :
      (stats_update F name mp2size recorded_time mp4size rtime load stats ≡ aborts)
      ↔ ((get_stats F name stats 0 ≢ none) × (recorded_time < 60))
  stats_update_divides = elim (Option-cases (get_stats F name stats 0)) [
    | inl missing ↦
        (λ h. absurd (returned (updated_missing missing) h), λ known. absurd (known.0 missing))
    | inr ((i, e), found) ↦ elim (Bool-cases (ltb recorded_time 60)) [
      | inl short ↦ (
        λ h. (λ missing. some_none (sym found ∙ missing), ground arith),
        λ h. updated_short i e found h.1,
      )
      | inr long ↦ (
        λ h. absurd (returned (updated_long i e found (ground arith)).1 h),
        λ h. absurd (ground (arith, h.1)),
      )
    ]
  ]
    where
      some_none : {A : Type 0} {a : A} → some a ≡ none → ⊥
      some_none h = cc

  -- With a minute or more recorded, the first entry of the name is updated and no other, and the new
  -- size of a minute of the recording is between the one before and the one of this recording.
  pub stats_update_averages :
      (i : ℕ) (e : ProfileStat F)
      → get_stats F name stats 0 ≡ some (i, e)
      → 60 ≤ recorded_time
      → 0 < e.mp2size_1min
      → e.mp2size_1min + mp2size / (recorded_time / 60) < 4294967296
      → (e' : ProfileStat F) × (updated ≡ returns (pos 0, set stats i e'))
        × Between e.mp2size_1min (mp2size / (recorded_time / 60)) e'.mp2size_1min
  stats_update_averages i e found over some_size fits =
      let (e', done, size) = updated_long i e found over in
      (
        e',
        done,
        rw size (running-Between e.mp2size_1min (mp2size / (recorded_time / 60)) some_size fits),
      )
