-- ===== src/Tests/Clients.antt =====
-- A server with two slots for clients, and what two clients send.
use tvpvrd.Prelude.{some, ◌≡◌, refl, true, List, [], ◌∷◌, Option, none}
use tvpvrd.Prelude.Text.{Bytes, codes}
use tvpvrd.Prelude.Int.{pos, negsuc, same_ℤ}
use tvpvrd.Recs.State.{returns, aborts}
use tvpvrd.Freqmap.Rows.{same_string}
use tvpvrd.Xstr.{xstrtrim, leading, trailing}
use tvpvrd.Server.Clients.{Event, received, serve, Client, Clients, client_ends, find_client}
use tvpvrd.Server.Clients.Sessions.{wanted}

abbrev password : Bytes
password = codes "secret"

abbrev typed : List Event
typed =
    received (codes "secre\r\n") ∷ received (codes "secret\r\n") ∷ received (codes " l \r\n") ∷ []

abbrev texts : List Bytes
texts = codes " l " ∷ codes "  " ∷ codes "s" ∷ []

run_texts : wanted texts ≡ codes "l" ∷ codes "s" ∷ []
unfolding wanted xstrtrim leading trailing
run_texts = refl

-- One byte alone is not a line: the code writes before the buffer.
short_line : serve 300 0 (received (codes "x") ∷ []) ≡ aborts
unfolding serve same_string
short_line = refl

abbrev slots : List (Option Client)
slots = none ∷ none ∷ []

abbrev first_client : Client
first_client = record { socket = pos 7; terminal = true }

abbrev connected : Clients
connected = record { slots = some first_client ∷ none ∷ []; ncli_threads = 1 }

-- Two connections that fail share the socket -1: the thread of the second one frees the first slot.
abbrev failed_client : Client
failed_client = record { socket = negsuc 0; terminal = true }

frees_other :
    client_ends
      (negsuc 0)
      (record { slots = some failed_client ∷ some failed_client ∷ []; ncli_threads = 2 })
    ≡ returns (record { slots = none ∷ some failed_client ∷ []; ncli_threads = 1 })
unfolding client_ends find_client same_ℤ
frees_other = refl
