-- ===== src/Server/Clients/Sessions.antt =====
-- What a client must send before a command is run, and which commands then are.
use tvpvrd.Prelude.{ℕ, suc, ◌≡◌, ◌⊎◌, true, List, [], ◌∷◌, ◌++◌, ◌==◌, if◌then◌else◌, length}
use tvpvrd.Prelude.Text.{Bytes, codes}
use tvpvrd.Freqmap.Rows.{same_string}
use tvpvrd.Xstr.{xstrtrim}
use tvpvrd.Server.Clients.{Event, received, goodbye, Session, entered_password}

-- One of the first `tries` events brings the password.
pub data Enters (password : Bytes) : ℕ → List Event → Type 0 where
  now :
      {n : ℕ} (b : Bytes) (es : List Event)
      → same_string (entered_password b) password ≡ true
      → Enters password (suc n) (received b ∷ es)
  later :
      {n : ℕ} (b : Bytes) {es : List Event}
      → Enters password n es
      → Enters password (suc n) (received b ∷ es)

abbrev pub Guarded : Bytes → ℕ → List Event → Session → Type 0
Guarded password tries es s = (s.commands ≡ []) ⊎ Enters password tries es

abbrev pub line : Bytes → Bytes
line t = t ++ codes "\r\n"

-- The texts without the spaces around them, but for those of spaces alone.
unfoldable pub wanted : List Bytes → List Bytes
wanted [] = []
wanted (t ∷ ts) =
    let rest = wanted ts in if length (xstrtrim t) == 0 then rest else xstrtrim t ∷ rest

abbrev pub lines : List Bytes → List Event → List Event
lines [] es = es
lines (t ∷ ts) es = received (line t) ∷ lines ts es

abbrev pub exit_line : Event
exit_line = received (codes "exit\r\n")

abbrev pub exited : List Bytes → Session
exited texts = record { commands = wanted texts; ended = goodbye }

abbrev pub answers : List Bytes → List Event → List Event
answers [] es = es
answers (b ∷ bs) es = received b ∷ answers bs es
