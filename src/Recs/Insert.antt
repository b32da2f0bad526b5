-- ===== src/Recs/Insert.antt =====
-- `insertrec`: a new recording, or a series of them, goes into the list of its stream.
pub mod Invariant
pub mod Numbers
pub mod Single
pub mod Returns
pub mod Count
pub mod Titles
use tvpvrd.Prelude.{
  ℕ, zero, suc, ◌+◌, ◌-◌, Bool, true, false, ◌||◌, List, [], ◌∷◌, ◌++◌, Option, none, some, ltb,
  ◌==◌, if◌then◌else◌, take, length,
}
use tvpvrd.Prelude.Int.{ℤ, pos, negsuc}
use tvpvrd.Datetime.{
  LibcTime, Dates, Advance, advanced, failed, exits, increcdays, adjust_initital_repeat_date,
}
use tvpvrd.Recs.Entry.{Entry, Bytes, new_entry, rec_max_ntitle, rec_max_nfilename}
use tvpvrd.Recs.State.{Config, Recs, Outcome, returns, aborts, ◌>>=◌, update, with_recs, add_slot}
use tvpvrd.Recs.Names.{rec_title_mangling}
use tvpvrd.Recs.Overlap.{isentryoverlapping, dates_of}

-- `entry->seqnbr = global_seqnbr++` and `_insertrec`, whose answer is not read.
unfoldable pub add_numbered : Config → ℕ → Entry → Recs → Recs
unfolding add_slot
add_numbered c video e s = record s {
  recs =
      update s.recs video (add_slot c video (record e { seqnbr = s.global_seqnbr }) (s.recs video));
  global_seqnbr = s.global_seqnbr + 1;
}

-- The file name cut at its first `.`, as `strchr` finds it.
abbrev cons_front : ℕ → Option (Bytes × Bytes) → Option (Bytes × Bytes)
cons_front c none = none
cons_front c (some (core, filetype)) = some (c ∷ core, filetype)

unfoldable pub split_at_dot : Bytes → Option (Bytes × Bytes)
split_at_dot [] = none
split_at_dot (c ∷ cs) = if c == b'.' then some ([], c ∷ cs) else cons_front c (split_at_dot cs)

-- What the loop over a series reads: the entry with its adjusted dates, and the parts of its file
-- name.
pub record Series : Type 0 where
  pub entry : Entry
  pub bname : Bytes
  pub bnamecore : Bytes
  pub dname : Bytes
  pub filetype : Bytes
  pub excluded : List ℕ

unfoldable pub is_excluded : ℕ → List ℕ → Bool
is_excluded n [] = false
is_excluded n (x ∷ xs) = n == x || is_excluded n xs

abbrev pub or_abort {ℓ} : {A : Type ℓ} → Option A → Outcome A
or_abort none = aborts
or_abort (some a) = returns a

-- The i-th recording of the series. A title of an unknown type of mangling is read from a buffer
-- that was never written.
unfoldable pub series_entry : Config → Recs → Series → ℕ → Dates → Outcome Entry
series_entry c s r i d = do
  let e = r.entry
  titlebuff ← or_abort (rec_title_mangling c.time e i e.title 512)
  filename_mangling ← or_abort (rec_title_mangling c.time e i r.bnamecore 256)
  let filenamebuff = take 511 (r.dname ++ (b'/' ∷ filename_mangling ++ r.filetype))
  let new =
      new_entry c.default_transcoding_profile titlebuff filenamebuff d.ts_start d.ts_end e.channel
        e.recurrence e.recurrence_type (e.recurrence_num - i) e.recurrence_mangling
        e.transcoding_profiles s.initial_recurrence_start_number
  returns (record new {
    recurrence_id = s.recurrence_id;
    recurrence_start_number = i + e.recurrence_start_number;
    recurrence_filename = take (rec_max_nfilename - 1) r.bname;
    recurrence_title = take (rec_max_ntitle - 1) e.title;
  })

-- `newrec` resets the start number for a repeated recording.
abbrev pub reset_start_number : Bool → Recs → Recs
reset_start_number true s = record s { initial_recurrence_start_number = 1 }
reset_start_number false s = s

-- What follows `increcdays` in the loop: the next round, `return 0`, or the end of the process.
abbrev pub next_round : (Dates → Outcome (Bool × Recs)) → Recs → Advance → Outcome (Bool × Recs)
next_round rest s (advanced d') = rest d'
next_round rest s failed = returns (false, s)
next_round rest s exits = aborts
next_round rest s Advance.stuck = aborts

-- The loop, from round `i`; `false` is its early `return 0`.
unfoldable pub expand : Config → ℕ → Series → ℕ → ℕ → Dates → Recs → Outcome (Bool × Recs)
expand c video r zero i d s = returns (true, s)
expand c video r (suc left) i d s =
    let skip = expand c video r left (i + 1) d s in
    let store = series_entry c s r i d >>= λ e.
    let s' = add_numbered c video e (reset_start_number r.entry.recurrence s) in
    next_round (λ d'. expand c video r left (i + 1) d' s') s'
      (increcdays c.time r.entry.recurrence_type d) in
    if is_excluded (i + r.entry.recurrence_start_number) r.excluded then skip else store

-- The value returned behind the loop.
abbrev pub finish_series : Bool × Recs → ℤ × Recs
finish_series (true, s) =
    (pos (s.global_seqnbr - 1), record s { recurrence_id = s.recurrence_id + 1 })
finish_series (false, s) = (pos 0, s)

-- What the code sets up before the loop, from the file name cut at its `.`.
abbrev pub series_of : Config → ℤ → Entry → List ℕ → Bytes → Bytes → Series
series_of c now e excluded core filetype =
    let (ret, ts_start, ts_end) =
      adjust_initital_repeat_date c.time now e.ts_start e.ts_end e.recurrence_type in
    record {
      entry = record e { ts_start = ts_start; ts_end = ts_end };
      bname = c.basename (take 255 e.filename);
      bnamecore = take 255 core;
      dname = c.dirname (take 255 e.filename);
      filetype = filetype;
      excluded = excluded;
    }

-- A name without a `.` makes `filetype - bname` a difference from a null pointer; the assertion
-- wants at least one recording.
unfoldable pub insert_series : Config → ℤ → Recs → ℕ → Entry → List ℕ → Outcome (ℤ × Recs)
insert_series c now s video e excluded =
    if ltb c.max_entries (length (s.recs video) + e.recurrence_num)
    then returns (negsuc 0, s)
    else do
      (core, filetype) ← or_abort (split_at_dot (c.basename (take 255 e.filename)))
      let r = series_of c now e excluded core filetype
      if e.recurrence_num == 0
          then aborts
          else expand c video r e.recurrence_num 0 (dates_of c.time r.entry.ts_start r.entry.ts_end)
              s
            >>= λ p. returns (finish_series p)

-- The last sequence number that was used, -1, or 0; `excluded` is empty for a null pointer.
unfoldable pub insertrec : Config → ℤ → Recs → ℕ → Entry → List ℕ → Outcome (ℤ × Recs)
insertrec c now s video e excluded = do
  hit ← isentryoverlapping c s video e
  if hit
      then returns (negsuc 0, s)
      else if e.recurrence
      then insert_series c now s video e excluded
      else returns (pos s.global_seqnbr, add_numbered c video e s)
