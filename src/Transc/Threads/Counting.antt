-- ===== src/Transc/Threads/Counting.antt =====
-- The threads in a phase, counted, and their list after one of them has moved.
use tvpvrd.Prelude.{
  ℕ, zero, suc, ◌+◌, ◌≡◌, ◌≢◌, refl, ap, arith, List, [], ◌∷◌, some, Bool, true, false, set,
  get_elem?,
}
use tvpvrd.Transc.Threads.{
  Job, file, recording, Phase, waits, links, builds, forks, records, watches, leaves, gone, exit,
}

abbrev pub bit : Bool → ℕ
bit true = 1
bit false = 0

-- How many of a list pass a test.
unfoldable pub count : (Phase → Bool) → List Phase → ℕ
count test [] = 0
count test (p ∷ ps) = bit (test p) + count test ps

abbrev pub watching : Phase → Bool
watching (watches job i) = true
watching _ = false

abbrev pub of_file : Job → Bool
of_file file = true
of_file recording = false

-- The threads of files, but those that have counted themselves out.
abbrev pub counted : Phase → Bool
counted (waits job) = of_file job
counted links = true
counted (builds job) = of_file job
counted (forks job) = of_file job
counted (records job) = of_file job
counted (watches job i) = of_file job
counted leaves = true
counted (gone true) = false
counted (gone false) = true

pub counted-exit : (job : Job) → counted (exit job) ≡ of_file job
counted-exit file = refl
counted-exit recording = refl

pub watching-exit : (job : Job) → watching (exit job) ≡ false
watching-exit file = refl
watching-exit recording = refl

pub count-set :
    (test : Phase → Bool) (ps : List Phase) (i : ℕ) (p q : Phase)
    → get_elem? ps i ≡ some p
    → count test (set ps i q) + bit (test p) ≡ count test ps + bit (test q)
unfolding count
count-set test [] i p q e = cc e
count-set test (x ∷ ps) zero p q e = let same : x ≡ p = (cc e) in rw same (omega arith)
count-set test (x ∷ ps) (suc i) p q e = omega (arith, count-set test ps i p q e)

pub get_elem?-set :
    (ps : List Phase) (i : ℕ) (p q : Phase)
    → get_elem? ps i ≡ some p
    → get_elem? (set ps i q) i ≡ some q
get_elem?-set [] i p q e = cc e
get_elem?-set (x ∷ ps) zero p q e = refl
get_elem?-set (x ∷ ps) (suc i) p q e = get_elem?-set ps i p q e

pub get_elem?-set_other :
    (ps : List Phase) (i j : ℕ) (q : Phase) → i ≢ j → get_elem? (set ps i q) j ≡ get_elem? ps j
get_elem?-set_other [] i j q ne = refl
get_elem?-set_other (x ∷ ps) zero zero q ne = absurd (ne refl)
get_elem?-set_other (x ∷ ps) zero (suc j) q ne = refl
get_elem?-set_other (x ∷ ps) (suc i) zero q ne = refl
get_elem?-set_other (x ∷ ps) (suc i) (suc j) q ne =
    get_elem?-set_other ps i j q (λ e. ne (ap suc e))
