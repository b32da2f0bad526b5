-- ===== src/Server/Chkrec.antt =====
-- `chkrec`: one round of the thread's loop, which runs under `recs_mutex`. The writing of the XML
-- file, the shutdown check and the thread that records are outside the model; `time_resolution` is
-- the value after its clamp to 1 … 10. The difference of the time stamps is
-- put in an int.
pub mod Rounds
use tvpvrd.Prelude.{
  ℕ, zero, suc, ◌+◌, Bool, true, false, List, [], ◌∷◌, Option, none, some, min, if◌then◌else◌,
}
use tvpvrd.Prelude.Int.{ℤ, pos, ltb_ℤ, leb_ℤ, ◌-ℤ◌, to_int}
use tvpvrd.Recs.Entry.{Entry}
use tvpvrd.Recs.State.{Config, Recs, update}
use tvpvrd.Recs.Delete.{remove_toprec}
use tvpvrd.Recs.Next.{top}

-- `MIN(MAX(time_resolution,1),10)`
abbrev pub clamp_resolution : ℕ → ℕ
clamp_resolution r = min (if leb_ℤ (pos r) (pos 1) then 1 else r) 10

abbrev pub start_top : Config → Recs → ℕ → Entry → Recs
start_top c s video e =
    remove_toprec c (record s { ongoing_recs = update s.ongoing_recs video (some e) }) video

-- The body of the `for` loop. A recording more than ten minutes late is dropped; one that is due is
-- started, unless the stream still records.
unfoldable pub check_stream : Config → ℕ → ℤ → Recs → ℕ → Recs
check_stream c time_resolution now s video = elim (top (s.recs video)) [
  | none ↦ s
  | some e ↦
      let diff = to_int (now -ℤ e.ts_start) in
      if ltb_ℤ (pos 600) diff
      then remove_toprec c s video
      else if leb_ℤ (pos 0) (diff -ℤ (pos 0 -ℤ pos time_resolution))
      then (elim (s.ongoing_recs video) [ none ↦ start_top c s video e | some active ↦ s ])
      else s
]

-- The loop over the streams, from `video` on, with `left` to go.
unfoldable pub check_from : Config → ℕ → ℤ → ℕ → ℕ → Recs → Recs
check_from c time_resolution now zero video s = s
check_from c time_resolution now (suc left) video s =
    check_from c time_resolution now left (video + 1) (check_stream c time_resolution now s video)

unfoldable pub chkrec_round : Config → ℕ → ℤ → Recs → Recs
chkrec_round c time_resolution now s =
    check_from c (clamp_resolution time_resolution) now c.max_video 0 s
