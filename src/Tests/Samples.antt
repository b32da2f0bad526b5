-- ===== src/Tests/Samples.antt =====
-- The settings and recordings of the tests.
use tvpvrd.Prelude.{
  ◌≤◌, ◌<◌, All, AllPairs, length, none, ℕ, zero, suc, ◌+◌, arith, [], ◌∷◌, replicate, true, false,
}
use tvpvrd.Prelude.Int.{ℤ, pos, ◌≤ℤ◌}
use tvpvrd.Datetime.Utc.{utc, utc_mktime}
use tvpvrd.Datetime.Advances.{InTime, settled}
use tvpvrd.Recs.Overlap.{dates_of}
use tvpvrd.Recs.Overlap.Decides.{DatesInTime}
use tvpvrd.Recs.Insert.Returns.{StoredInTime}
use tvpvrd.Datetime.{adjust_initital_repeat_date, Parts, Dates, totimestamp}
use tvpvrd.Freqmap.Rows.{codes}
use tvpvrd.Recs.Entry.{Entry}
use tvpvrd.Recs.Sorting.{by_insertion}
use tvpvrd.Recs.State.{Config, Recs, initrecs, update}
use tvpvrd.Recs.Sorting.{IsSorted}
use tvpvrd.Recs.Invariant.{Inv, OtherNumber}
use tvpvrd.Recs.Insert.Invariant.{update_all, update_across}

-- Two streams with room for three recordings each, in UTC.
abbrev pub settings : Config
settings = record {
  max_video = 2;
  max_entries = 3;
  default_transcoding_profile = codes "normal";
  profile_names = codes "normal" ∷ [];
  sorter = by_insertion;
  time = utc;
  basename = λ b. b;
  dirname = λ b. codes ".";
}

utc-after_1970 : (p : Parts) → pos 0 ≤ℤ totimestamp utc p
unfolding totimestamp utc_mktime
utc-after_1970 p = omega arith

pub utc-InTime : (type n : ℕ) (d : Dates) → InTime utc type n d
utc-InTime type zero d = tt
utc-InTime type (suc n) d = λ f m. (
  utc-after_1970 (f d.start),
  utc-after_1970 (f d.end),
  utc-InTime type n (settled utc (f d.start) (f d.end)),
)

pub utc-DatesInTime : (e : Entry) → DatesInTime settings e
utc-DatesInTime e =
    λ r. utc-InTime e.recurrence_type e.recurrence_num (dates_of utc e.ts_start e.ts_end)

pub utc-StoredInTime : (now : ℤ) (e : Entry) → StoredInTime settings now e
utc-StoredInTime now e =
    let (ret, ts_start, ts_end) =
      adjust_initital_repeat_date utc now e.ts_start e.ts_end e.recurrence_type in
    utc-InTime e.recurrence_type e.recurrence_num (dates_of utc ts_start ts_end)

-- A recording of an hour, once.
abbrev pub once : ℕ → Entry
once start = record {
  seqnbr = 0;
  title = codes "News";
  channel = codes "SVT1";
  filename = codes "news.mp4";
  ts_start = pos start;
  ts_end = pos (start + 3600);
  transcoding_profiles = codes "normal" ∷ replicate 4 [];
  recurrence = false;
  recurrence_type = 0;
  recurrence_num = 0;
  recurrence_mangling = 0;
  recurrence_mangling_prefix = codes "_";
  recurrence_id = 0;
  recurrence_filename = [];
  recurrence_title = [];
  recurrence_start_number = 1;
  video = 0;
}

-- Two recordings on working days, counted in the title.
abbrev pub twice : ℕ → Entry
twice start =
    let e = once start in
    record e { recurrence = true; recurrence_type = 4; recurrence_num = 2; recurrence_mangling = 1 }

pub initrecs-Inv : (c : Config) → Inv c initrecs
unfolding initrecs
initrecs-Inv c = record {
  capacity = λ v. omega arith;
  sorted = λ v. tt;
  numbered = λ v. tt;
  distinct = λ v. tt;
  across = λ v w ne. tt;
}

-- Tuesday, 2014-03-04 20:15:00.
abbrev pub tuesday_evening : ℕ
tuesday_evening = 1393964100

abbrev pub news : Entry
news = let e = once tuesday_evening in record e { seqnbr = 1 }

-- The news is pending on stream 0.
abbrev pub waiting : Recs
waiting = record {
  recs = update (λ v. []) 0 (news ∷ []);
  ongoing_recs = λ v. none;
  global_seqnbr = 2;
  recurrence_id = 1;
  initial_recurrence_start_number = 1;
  excluded_recordings = [];
}

pub waiting-Inv : Inv settings waiting
waiting-Inv = record {
  capacity =
      update_all (λ v es. length es ≤ 3) (λ v. []) 0 (news ∷ []) (omega arith) (λ v. omega arith);
  sorted = update_all (λ v. IsSorted) (λ v. []) 0 (news ∷ []) (tt, tt) (λ v. tt);
  numbered =
      update_all (λ v. All (λ e. e.seqnbr < 2)) (λ v. []) 0 (news ∷ []) (omega arith, tt) (λ v. tt);
  distinct = update_all (λ v. AllPairs OtherNumber) (λ v. []) 0 (news ∷ []) (tt, tt) (λ v. tt);
  across =
      update_across (λ xs ys. All (λ a. All (OtherNumber a) ys) xs) (λ v. []) 0 (news ∷ [])
        (λ w ne. (tt, tt)) (λ w ne. tt) (λ v w ne. tt);
}
