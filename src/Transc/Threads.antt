-- ===== src/Transc/Threads.antt =====
-- `transcode_file` and its thread `_transcode_file`, with the counter `nfiletransc_threads`, and
-- `transcode_and_move_file`, which the threads of the recordings run. What a thread does between two
-- of its calls that touch shared data is one step; the steps of the threads come in any order. The
-- mutexes make each of them one. The moving of the files, and the place of a recording among those
-- that wait, are outside this state.
pub mod Counting
pub mod Invariant
pub mod Reached
pub mod Ends
use tvpvrd.Prelude.{
  ℕ, zero, suc, ◌+◌, ◌≡◌, List, [], ◌∷◌, ◌++◌, Option, none, some, Bool, true, false, set,
  get_elem?, if◌then◌else◌,
}
use tvpvrd.Prelude.Int.{ℤ, pos, negsuc, ◌+ℤ◌, ◌-ℤ◌}
use tvpvrd.Transc.Ongoing.{
  OngoingTranscoding, Ongoing, no_transcodings, record_ongoingtranscoding,
  forget_ongoingtranscoding,
}

-- A thread of `transcode_file`, or one of a recording, which the counter does not count.
pub data Job : Type 0 where
  file : Job
  recording : Job

-- What a thread is about to do: to wait for the load, to make its directory and link the file, to
-- build the command, to fork, to record the process, to forget it once it has ended, to count itself
-- out; or it is gone, with the count as it should be or not.
pub data Phase : Type 0 where
  waits : Job → Phase
  links : Phase
  builds : Job → Phase
  forks : Job → Phase
  records : Job → Phase
  watches : Job → ℕ → Phase
  leaves : Phase
  gone : Bool → Phase

-- The regular end.
abbrev pub exit : Job → Phase
exit file = leaves
exit recording = gone true

-- The answer of the call in hand: whether it succeeds, and what `record_ongoingtranscoding` is given.
pub record Answer : Type 0 where
  pub ok : Bool
  pub entry : OngoingTranscoding

pub record World : Type 0 where
  pub ongoing : Ongoing
  pub nfiletransc_threads : ℤ
  pub threads : List Phase

abbrev pub recorded : Job → ℤ → Phase
recorded job (pos i) = watches job i
recorded job (negsuc n) = exit job

-- A failing `create_ffmpeg_cmdline` ends the thread of a file at once.
unfoldable pub next_phase : Answer → Ongoing → Phase → Phase
next_phase a xs (waits file) = if a.ok then links else leaves
next_phase a xs (waits recording) = if a.ok then builds recording else gone true
next_phase a xs links = if a.ok then builds file else leaves
next_phase a xs (builds file) = if a.ok then forks file else gone false
next_phase a xs (builds recording) = if a.ok then forks recording else gone true
next_phase a xs (forks job) = if a.ok then records job else exit job
next_phase a xs (records job) = recorded job (record_ongoingtranscoding a.ok a.entry xs).0
next_phase a xs (watches job i) = exit job
next_phase a xs leaves = gone true
next_phase a xs (gone counted) = gone counted

unfoldable pub next_ongoing : Answer → Ongoing → Phase → Ongoing
next_ongoing a xs (records job) = (record_ongoingtranscoding a.ok a.entry xs).1
next_ongoing a xs (watches job i) = forget_ongoingtranscoding (pos i) xs
next_ongoing a xs (waits job) = xs
next_ongoing a xs links = xs
next_ongoing a xs (builds job) = xs
next_ongoing a xs (forks job) = xs
next_ongoing a xs leaves = xs
next_ongoing a xs (gone counted) = xs

abbrev pub next_count : Phase → ℤ → ℤ
next_count leaves n = n -ℤ pos 1
next_count (waits job) n = n
next_count links n = n
next_count (builds job) n = n
next_count (forks job) n = n
next_count (records job) n = n
next_count (watches job i) n = n
next_count (gone counted) n = n

unfoldable pub proceed : ℕ → Phase → Answer → World → World
unfolding next_phase next_ongoing
proceed i p a w = record {
  ongoing = next_ongoing a w.ongoing p;
  nfiletransc_threads = next_count p w.nfiletransc_threads;
  threads = set w.threads i (next_phase a w.ongoing p);
}

-- `transcode_file`: where `pthread_create` fails, the caller counts the thread out again.
unfoldable pub transcode_file : Bool → World → World
transcode_file created w = record {
  ongoing = w.ongoing;
  nfiletransc_threads = w.nfiletransc_threads +ℤ pos 1;
  threads = (if created then waits file else leaves) ∷ w.threads;
}

-- A recording has ended, and its thread calls `transcode_and_move_file`.
unfoldable pub transcode_and_move_file : World → World
transcode_and_move_file w = record w { threads = waits recording ∷ w.threads }

abbrev pub server_start : World
server_start = record { ongoing = no_transcodings; nfiletransc_threads = pos 0; threads = [] }

pub data Step (w : World) : World → Type 0 where
  submits : (created : Bool) → Step w (transcode_file created w)
  transcodes : Step w (transcode_and_move_file w)
  proceeds :
      (i : ℕ) (p : Phase) (a : Answer) → get_elem? w.threads i ≡ some p → Step w (proceed i p a w)

pub data Reachable : World → Type 0 where
  starts : Reachable server_start
  steps : (w w' : World) → Reachable w → Step w w' → Reachable w'
