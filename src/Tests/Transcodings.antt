-- ===== src/Tests/Transcodings.antt =====
-- The threads and queues of transc.c, on short runs.
use tvpvrd.Prelude.{List, ℕ, ◌≡◌, refl, true, false, Bool, some, [], ◌∷◌, get_elem?}
use tvpvrd.Prelude.Int.{pos}
use tvpvrd.Prelude.Text.{codes}
use tvpvrd.Transc.Ongoing.{get_num_ongoing_transcodings}
use tvpvrd.Transc.Threads.{
  file, Phase, waits, links, builds, forks, records, Answer, World, next_phase, proceed,
  transcode_file, server_start, submits, proceeds, Reachable, starts, steps,
}
use tvpvrd.Transc.Threads.Counting.{count}
use tvpvrd.Transc.Threads.Invariant.{Inv}
use tvpvrd.Transc.Threads.Reached.{Reachable-Inv, Reachable-leaks, leaked}
use tvpvrd.Transc.Threads.Ends.{Run, done, more}
use tvpvrd.Transc.Filelists.{Call, enqueue, incidx, Param}

abbrev answer : Bool → Answer
answer ok = record {
  ok = ok;
  entry = record {
    filename = codes "news.mpg";
    workingdir = codes "vtmp/news";
    cmd = codes "ffmpeg";
    start_ts = pos 1393964100;
    profile_name = codes "normal";
    pid = 4711;
  };
}

-- One file is submitted, and its thread goes on until the command is built, or to the watching.
abbrev submitted : World
submitted = transcode_file true server_start

abbrev linked : World
linked = proceed 0 links (answer true) (proceed 0 (waits file) (answer true) submitted)

abbrev forked : World
forked = proceed 0 (forks file) (answer true) (proceed 0 (builds file) (answer true) linked)

abbrev watched : World
watched = proceed 0 (records file) (answer true) forked

abbrev unbuilt : World
unbuilt = proceed 0 (builds file) (answer false) linked

onward :
    (w : World) (p : Phase) (a : Answer)
    → get_elem? w.threads 0 ≡ some p
    → Reachable w
    → Reachable (proceed 0 p a w)
onward w p a at r = steps w (proceed 0 p a w) r (proceeds 0 p a at)

linked-Reachable : Reachable linked
unfolding transcode_file proceed next_phase
linked-Reachable = onward _ links (answer true) refl (
    onward submitted (waits file) (answer true) refl
      (steps server_start submitted starts (submits true)))

watched-Reachable : Reachable watched
unfolding transcode_file proceed next_phase
watched-Reachable = onward forked (records file) (answer true) refl (
    onward _ (forks file) (answer true) refl
      (onward linked (builds file) (answer true) refl linked-Reachable))

unbuilt-Reachable : Reachable unbuilt
unfolding transcode_file proceed next_phase
unbuilt-Reachable = onward linked (builds file) (answer false) refl linked-Reachable

Reachable-Inv_example : Inv watched
Reachable-Inv_example = Reachable-Inv watched watched-Reachable

Reachable-leaks_example :
    (get_num_ongoing_transcodings unbuilt.ongoing ≡ 0)
    × (unbuilt.nfiletransc_threads ≡ pos (count leaked unbuilt.threads))
unfolding transcode_file proceed next_phase
Reachable-leaks_example = Reachable-leaks unbuilt unbuilt-Reachable (tt, tt)

-- The one thread goes on to the fork.
forking : Run 2 submitted linked
unfolding transcode_file proceed next_phase
forking =
    more 1 0 (waits file) (answer true) submitted linked refl (λ h. h)
      (more 0 0 links (answer true) _ linked refl (λ h. h) (done linked))

abbrev films : Param
films = record {
  address = 1;
  dirpath = codes "/films";
  filelist = codes "a.mpg" ∷ codes "b.mpg" ∷ [];
  profilename = codes "normal";
}

-- Another list comes and moves on, while the films are worked off.
abbrev series : Param
series = record {
  address = 2;
  dirpath = codes "/series";
  filelist = codes "1.mpg" ∷ [];
  profilename = codes "normal";
}

abbrev others : ℕ → List Call
others k = enqueue series (pos 0) ∷ incidx 2 ∷ []
