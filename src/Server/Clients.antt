-- ===== src/Server/Clients.antt =====
-- `clientsrv` and the accepting of connections in tvpvrsrv.c. What the socket of a client brings is a
-- sequence of events; the commands that the client runs are a list. A write before the start of the
-- buffer, and a lookup that finds no slot, end in `aborts`. Of a slot of the arrays of clients
-- the socket and the kind of connection are kept.
pub mod Sessions
pub mod Connections
use tvpvrd.Prelude.{
  ℕ, zero, suc, ◌+◌, ◌-◌, Bool, true, false, List, [], ◌∷◌, ◌++◌, not, ltb, leb, ◌==◌,
  if◌then◌else◌, Option, none, some, length, take, set,
}
use tvpvrd.Prelude.Int.{ℤ, same_ℤ}
use tvpvrd.Prelude.Text.{Bytes, codes}
use tvpvrd.Recs.State.{Outcome, returns, aborts, ◌>>=◌}
use tvpvrd.Freqmap.Rows.{same_string}
use tvpvrd.Xstr.{xstrtrim}
use tvpvrd.Transc.Slots.{find_free}

-- `select` runs out of time, `read` fails, or it brings up to 1023 bytes: none where the client has
-- closed the connection.
pub data Event : Type 0 where
  timeout : Event
  read_error : Event
  received : Bytes → Event

-- Why a session is over, or `waiting` while more events can come.
pub data Ended : Type 0 where
  waiting not_authenticated idle goodbye closed : Ended

-- The commands that were run, and the end.
pub record Session : Type 0 where
  pub commands : List Bytes
  pub ended : Ended

abbrev pub nothing : Ended → Session
nothing e = record { commands = []; ended = e }

abbrev pub ran : Bytes → Session → Session
ran cmd s = record s { commands = cmd ∷ s.commands }

-- What the answer of a client is compared as.
abbrev pub entered_password : Bytes → Bytes
entered_password b = if ltb 2 (length b) then take (length b - 2) b else b

-- The line without its last two bytes and the spaces around it.
abbrev pub command_of : Bytes → Bytes
command_of b = xstrtrim (take (length b - 2) b)

abbrev pub is_exit : Bytes → Bool
is_exit b = if same_string (codes "exit\r\n") b then true else same_string (codes "quit\r\n") b

-- The loop that runs commands, with the seconds that the client has been idle.
unfoldable pub serve : ℕ → ℕ → List Event → Outcome Session
serve max_idle_time idle_time [] = returns (nothing waiting)
serve max_idle_time idle_time (timeout ∷ es) =
    let more = serve max_idle_time (idle_time + 60) es in
    if leb max_idle_time (idle_time + 60) then returns (nothing idle) else more
serve max_idle_time idle_time (read_error ∷ es) = returns (nothing closed)
serve max_idle_time idle_time (received [] ∷ es) = returns (nothing closed)
serve max_idle_time idle_time (received (c ∷ b) ∷ es) =
    let line = c ∷ b in
    let more = serve max_idle_time 0 es in
    if is_exit line
    then returns (nothing goodbye)
    else if ltb (length line) 2
    then aborts
    else if length (command_of line) == 0
    then more
    else (do s ← more; returns (ran (command_of line) s))

-- The password is asked for at most `tries` times.
unfoldable pub authenticate : ℕ → ℕ → Bytes → List Event → Outcome Session
authenticate zero max_idle_time password es = returns (nothing not_authenticated)
authenticate (suc tries) max_idle_time password [] = returns (nothing waiting)
authenticate (suc tries) max_idle_time password (timeout ∷ es) = returns (nothing not_authenticated)
authenticate (suc tries) max_idle_time password (read_error ∷ es) = aborts
authenticate (suc tries) max_idle_time password (received b ∷ es) =
    let again = authenticate tries max_idle_time password es in
    if same_string (entered_password b) password then serve max_idle_time 0 es else again

unfoldable pub clientsrv : Bool → ℕ → Bytes → List Event → Outcome Session
clientsrv require_password max_idle_time password es =
    if require_password then authenticate 3 max_idle_time password es else serve max_idle_time 0 es

pub record Client : Type 0 where
  pub socket : ℤ
  pub terminal : Bool

-- The slots that have a thread, and `ncli_threads`.
pub record Clients : Type 0 where
  pub slots : List (Option Client)
  pub ncli_threads : ℕ

-- The start of the server.
abbrev pub no_clients : List (Option Client) → Clients
no_clients free = record { slots = free; ncli_threads = 0 }

-- A new connection, with the socket that `accept` gave: -1 where it failed, which is only logged.
-- `created` is whether the thread could be made: if not, the slot in `cli_threads` is left undefined,
-- and read by the next search. `false` where there is no slot.
unfoldable pub accept_client : Bool → Client → Clients → Outcome (Clients × Bool)
accept_client created c s =
    if ltb (find_free s.slots) (length s.slots)
    then if created
      then returns (
        record {
          slots = set s.slots (find_free s.slots) (some c);
          ncli_threads = suc s.ncli_threads;
        },
        true,
      )
      else aborts
    else returns (s, false)

-- The loop over `client_socket`.
unfoldable pub find_client : ℤ → List (Option Client) → ℕ
find_client socket [] = 0
find_client socket (none ∷ xs) = suc (find_client socket xs)
find_client socket (some c ∷ xs) =
    let rest = suc (find_client socket xs) in if same_ℤ c.socket socket then 0 else rest

-- The end of the thread of a client.
unfoldable pub client_ends : ℤ → Clients → Outcome Clients
client_ends socket s =
    let i = find_client socket s.slots in
    if leb (length s.slots) i
    then aborts
    else returns (record { slots = set s.slots i none; ncli_threads = s.ncli_threads - 1 })
