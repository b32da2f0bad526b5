-- ===== src/Recs/Delete/Search.antt =====
-- The search for a sequence number.
use tvpvrd.Prelude.{
  ℕ, zero, suc, ◌+◌, ◌-◌, ◌≤◌, ◌<◌, ◌≡◌, ◌≢◌, refl, sym, subst, ◌⊎◌, inl, inr, List, [], ◌∷◌,
  Option, none, some, arith, ◌==◌, get_elem?, All, All-get_elem?, ==_iff, Bool-cases,
}
use tvpvrd.Recs.Entry.{Entry}
use tvpvrd.Recs.State.{Config, Recs}
use tvpvrd.Recs.Delete.{Found, find_slot, find_from, find_rec}

-- Where the search ends: at a recording with the number, in a stream that exists; or nowhere, and
-- no recording has the number.
pub record IsFound (c : Config) (s : Recs) (seqnbr : ℕ) (f : Found) : Type 0 where
  pub stream : f.foundvideo < c.max_video
  pub slot : get_elem? (s.recs f.foundvideo) f.foundidx ≡ some f.found
  pub number : f.found.seqnbr ≡ seqnbr

abbrev SlotAnswer : ℕ → ℕ → ℕ → List Entry → Option Found → Type 0
SlotAnswer seqnbr video i es none = All (λ e. e.seqnbr ≢ seqnbr) es
SlotAnswer seqnbr video i es (some f) =
    (f.foundvideo ≡ video)
    × (i ≤ f.foundidx)
    × (get_elem? es (f.foundidx - i) ≡ some f.found)
    × (f.found.seqnbr ≡ seqnbr)

SlotAnswer-later :
    (seqnbr video i : ℕ) (e : Entry) (es : List Entry) (r : Option Found)
    → e.seqnbr ≢ seqnbr
    → SlotAnswer seqnbr video (i + 1) es r
    → SlotAnswer seqnbr video i (e ∷ es) r
SlotAnswer-later seqnbr video i e es none ne h = (ne, h)
SlotAnswer-later seqnbr video i e es (some f) ne h =
    let back : f.foundidx - i ≡ suc (f.foundidx - (i + 1)) = omega arith in
    (h.0, omega arith, rw back (h.2), h.3)

find_slot-Answer :
    (seqnbr video i : ℕ) (es : List Entry)
    → SlotAnswer seqnbr video i es (find_slot seqnbr video i es)
unfolding find_slot
find_slot-Answer seqnbr video i [] = tt
find_slot-Answer seqnbr video i (e ∷ es) = elim (Bool-cases (e.seqnbr == seqnbr)) [
  | inl hit ↦
      let none_off : i - i ≡ 0 = omega arith in
      rw hit (refl, omega arith, rw none_off refl, ground arith)
  | inr miss ↦ rw miss (
      SlotAnswer-later seqnbr video i e es _ (ground arith)
        (find_slot-Answer seqnbr video (i + 1) es))
]

-- No stream from `video` on, `left` of them, has the number.
abbrev pub Absent : Recs → ℕ → ℕ → ℕ → Type 0
Absent s seqnbr zero video = Unit
Absent s seqnbr (suc left) video =
    All (λ e. e.seqnbr ≢ seqnbr) (s.recs video) × Absent s seqnbr left (video + 1)

abbrev FromAnswer : Recs → ℕ → ℕ → ℕ → Option Found → Type 0
FromAnswer s seqnbr left video none = Absent s seqnbr left video
FromAnswer s seqnbr left video (some f) =
    (f.foundvideo < video + left)
    × (get_elem? (s.recs f.foundvideo) f.foundidx ≡ some f.found)
    × (f.found.seqnbr ≡ seqnbr)

find_from-Answer :
    (s : Recs) (seqnbr left video : ℕ)
    → FromAnswer s seqnbr left video (find_from s seqnbr left video)
unfolding find_from
find_from-Answer s seqnbr zero video = tt
find_from-Answer s seqnbr (suc left) video =
    go (find_slot seqnbr video 0 (s.recs video)) (find_slot-Answer seqnbr video 0 (s.recs video))
      (find_from s seqnbr left (video + 1)) (find_from-Answer s seqnbr left (video + 1))
  where
    go :
        (r : Option Found)
        → SlotAnswer seqnbr video 0 (s.recs video) r
        → (rest : Option Found) → FromAnswer s seqnbr left (video + 1) rest
        → FromAnswer s seqnbr (suc left) video (elim r [ none ↦ rest | some f ↦ some f ])
    go none h none k = (h, k)
    go none h (some f) k = (omega arith, k.1, k.2)
    go (some f) h rest k =
        let at : f.foundidx - 0 ≡ f.foundidx = omega arith in
        (omega arith, rw h.0 (subst (λ i. get_elem? (s.recs video) i ≡ some f.found) at h.2), h.3)

-- The number is found in a slot of an existing stream, or no existing stream has it.
pub find_rec-Answer :
    (c : Config) (s : Recs) (seqnbr : ℕ)
    → ((f : Found) × (find_rec c s seqnbr ≡ some f) × IsFound c s seqnbr f)
      ⊎ ((find_rec c s seqnbr ≡ none) × Absent s seqnbr c.max_video 0)
unfolding find_rec
find_rec-Answer c s seqnbr =
    go (find_from s seqnbr c.max_video 0) (find_from-Answer s seqnbr c.max_video 0)
  where
    go :
        (r : Option Found)
        → FromAnswer s seqnbr c.max_video 0 r
        → ((f : Found) × (r ≡ some f) × IsFound c s seqnbr f)
          ⊎ ((r ≡ none) × Absent s seqnbr c.max_video 0)
    go none h = inr (refl, h)
    go (some f) h = inl (f, refl, record { stream = omega arith; slot = h.1; number = h.2 })

pub Absent-All :
    (s : Recs) (n left video w : ℕ)
    → Absent s n left video
    → video ≤ w
    → w < video + left
    → All (λ e. e.seqnbr ≢ n) (s.recs w)
Absent-All s n zero video w h lo hi = absurd (omega arith)
Absent-All s n (suc left) video w h lo hi = elim (Bool-cases (w == video)) [
  | inl here ↦ subst (λ v. All (λ e. e.seqnbr ≢ n) (s.recs v)) (sym ((==_iff w video).0 here)) h.0
  | inr there ↦ Absent-All s n left (video + 1) w h.1 (ground arith) (omega arith)
]

pub IsFound-not-Absent :
    (c : Config) (s : Recs) (n : ℕ) (f : Found) → IsFound c s n f → ¬ Absent s n c.max_video 0
IsFound-not-Absent c s n f at absent =
    All-get_elem? (λ e. e.seqnbr ≢ n) (s.recs f.foundvideo) f.foundidx f.found
      (Absent-All s n c.max_video 0 f.foundvideo absent (omega arith) (omega arith)) at.slot
      at.number

pub find_rec-IsFound :
    (c : Config) (s : Recs) (n : ℕ) (f : Found) → find_rec c s n ≡ some f → IsFound c s n f
find_rec-IsFound c s n f hit = elim (find_rec-Answer c s n) [
  | inl (g, e, at) ↦ subst (IsFound c s n) (cc (e, hit)) at
  | inr (e, absent) ↦ cc
]
