-- ===== src/Recs/Overlap/Exact.antt =====
-- What the collision test decides.
use tvpvrd.Prelude.{◌≡◌, refl, ◌⊎◌, false, List, [], ◌∷◌, Option, none, some, arith, ◌↔◌, All}
use tvpvrd.Prelude.Int.{ℤ, ◌≤ℤ◌, ◌<ℤ◌}
use tvpvrd.Recs.Entry.{Entry}
use tvpvrd.Recs.Overlap.{collides, collides_any, collides_ongoing, taken}

-- The two recordings, ends included, have no second in common.
abbrev pub Apart : ℤ → ℤ → Entry → Type 0
Apart s e r = (e <ℤ r.ts_start) ⊎ (r.ts_end <ℤ s)

abbrev pub Proper : Entry → Type 0
Proper r = r.ts_start ≤ℤ r.ts_end

collides-Apart : (s e : ℤ) (r : Entry) → collides s e r ≡ false → s ≤ℤ e → Proper r → Apart s e r
unfolding collides
collides-Apart s e r h p q = ground arith

Apart-collides : (s e : ℤ) (r : Entry) → s ≤ℤ e → Proper r → Apart s e r → collides s e r ≡ false
unfolding collides
Apart-collides s e r p q h = ground arith

abbrev pub ApartOngoing : ℤ → ℤ → Option Entry → Type 0
ApartOngoing s e none = Unit {0}
ApartOngoing s e (some r) = Apart s e r

abbrev pub ProperOngoing : Option Entry → Type 0
ProperOngoing none = Unit {0}
ProperOngoing (some r) = Proper r

-- The recording meets none of the pending ones, nor the ongoing one.
abbrev pub Free : ℤ → ℤ → List Entry → Option Entry → Type 0
Free s e rs ongoing = All (Apart s e) rs × ApartOngoing s e ongoing

collides_any-Apart :
    (s e : ℤ) (rs : List Entry)
    → s ≤ℤ e
    → All Proper rs
    → (collides_any s e rs ≡ false) ↔ All (Apart s e) rs
unfolding collides_any
collides_any-Apart s e [] p q = (λ h. tt, λ h. refl)
collides_any-Apart s e (r ∷ rs) p q =
    let ih = collides_any-Apart s e rs p q.1 in
    (
      λ h. (collides-Apart s e r (ground arith) p q.0, ih.0 (ground arith)),
      λ h. ground (arith, Apart-collides s e r p q.0 h.0, ih.1 h.1),
    )

collides_ongoing-Apart :
    (s e : ℤ) (o : Option Entry)
    → s ≤ℤ e
    → ProperOngoing o
    → (collides_ongoing s e o ≡ false) ↔ ApartOngoing s e o
unfolding collides_ongoing
collides_ongoing-Apart s e none p q = (λ h. tt, λ h. refl)
collides_ongoing-Apart s e (some r) p q =
    (λ h. collides-Apart s e r h p q, λ h. Apart-collides s e r p q h)

pub taken-Free :
    (s e : ℤ) (rs : List Entry) (o : Option Entry)
    → s ≤ℤ e
    → All Proper rs
    → ProperOngoing o
    → (taken s e rs o ≡ false) ↔ Free s e rs o
unfolding taken
taken-Free s e rs o p q w =
    let any = collides_any-Apart s e rs p q in
    let on = collides_ongoing-Apart s e o p w in
    (λ h. (any.0 (ground arith), on.0 (ground arith)), λ h. ground (arith, any.1 h.0, on.1 h.1))
