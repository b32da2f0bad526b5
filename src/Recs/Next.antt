-- ===== src/Recs/Next.antt =====
-- `get_nextsched_rec`: the next scheduled recording over all streams.
pub mod Looked
pub mod Earliest
use tvpvrd.Prelude.{
  ℕ, zero, suc, ◌+◌, ◌-◌, Bool, true, false, List, [], ◌∷◌, Option, none, some, if◌then◌else◌, ltb,
}
use tvpvrd.Prelude.Int.{ℤ, pos, negsuc, ltb_ℤ}
use tvpvrd.Recs.Entry.{Entry}
use tvpvrd.Recs.State.{Config, Recs, Outcome, returns, aborts, ◌>>=◌}

-- The three results that are written through pointers.
pub record NextRec : Type 0 where
  pub nextrec : Option Entry
  pub nextrec_video : ℕ
  pub nextrec_ts : ℤ

-- The recording in slot 0.
abbrev pub top : List Entry → Option Entry
top [] = none
top (e ∷ es) = some e

-- The first stream from `video` on, of `left` of them, with a pending recording, and that recording.
-- Where none has any, the loop reads `num_entries[max_video]`, behind the array.
unfoldable pub first_stream : Recs → ℕ → ℕ → Outcome (ℕ × Entry)
first_stream s zero video = aborts
first_stream s (suc left) video =
    let rest = first_stream s left (video + 1) in
    elim (top (s.recs video)) [ none ↦ rest | some e ↦ returns (video, e) ]

-- One round of the `for` loop: the entry is read at the old `*nextrec_video`, before that is set.
unfoldable pub look_at : Recs → ℕ → NextRec → NextRec
look_at s video n = elim (top (s.recs video)) [
  | none ↦ n
  | some e ↦
      if ltb_ℤ e.ts_start n.nextrec_ts
      then record {
        nextrec = top (s.recs n.nextrec_video);
        nextrec_video = video;
        nextrec_ts = e.ts_start;
      }
      else n
]

unfoldable pub look_from : Recs → ℕ → ℕ → NextRec → NextRec
unfolding look_at
look_from s zero video n = n
look_from s (suc left) video n = look_from s left (video + 1) (look_at s video n)

-- 0 and the recording; -1 would be the answer for a stream that there is not.
unfoldable pub get_nextsched_rec : Config → Recs → Outcome (ℤ × NextRec)
get_nextsched_rec c s = do
  (first, e) ← first_stream s c.max_video 0
  if ltb first c.max_video
      then returns (
        pos 0,
        look_from s (c.max_video - (first + 1)) (first + 1)
            (record { nextrec = some e; nextrec_video = first; nextrec_ts = e.ts_start }),
      )
      else returns (negsuc 0, record { nextrec = none; nextrec_video = first; nextrec_ts = pos 0 })
