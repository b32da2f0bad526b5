-- ===== src/Transc/Filelists/Shared.antt =====
-- The thread of a list among other threads that call for their own lists.
use tvpvrd.Prelude.{ℕ, ◌+◌, ◌≤◌, ◌≡◌, Bool, false, List, [], ◌∷◌, Option, if◌then◌else◌, ◌==◌}
use tvpvrd.Transc.Filelists.{Filelist, Filelists, holds, Call, enqueue, dequeue, incidx}
use tvpvrd.Transc.Filelists.Queue.{WellFormed}

abbrev one_if : Bool → ℕ
one_if b = if b then 1 else 0

-- The number of slots with the list.
unfoldable pub copies : ℕ → List (Option Filelist) → ℕ
copies address [] = 0
copies address (x ∷ xs) = one_if (holds address x) + copies address xs

-- A call for another list.
abbrev pub IsForeign : ℕ → Call → Type 0
IsForeign address (enqueue p now) = (p.address == address) ≡ false
IsForeign address (dequeue other) = (other == address) ≡ false
IsForeign address (incidx other) = (other == address) ≡ false

module _ (address : ℕ) where
  abbrev Kept : Filelists → Type 0
  Kept q = WellFormed q × (copies address q.ongoing ≤ 1)
