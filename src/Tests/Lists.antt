-- ===== src/Tests/Lists.antt =====
-- The lists of recs.c and the rounds of `chkrec`, on concrete recordings.
use tvpvrd.Prelude.{
  ℕ, ◌+◌, ◌<◌, ◌≡◌, ◌≢◌, ◌↔◌, refl, subst, arith, ◌⊎◌, inr, Bool, false, true, ◌||◌, ◌&&◌, ◌==◌, [],
  ◌∷◌, none, some, All, AllPairs, if◌then◌else◌,
}
use tvpvrd.Prelude.Int.{ℤ, pos, negsuc, ◌-ℤ◌}
use tvpvrd.Datetime.{increcdays, settle, move_days, next_weekday, skips, totimestamp, fromtimestamp}
use tvpvrd.Datetime.Utc.{utc_mktime, utc_localtime, utc_wday}
use tvpvrd.Datetime.Utc.{utc-WeekdaysStep}
use tvpvrd.Recs.Entry.{Entry}
use tvpvrd.Recs.State.{Config, Recs, returns, aborts, with_recs, drop_slot}
use tvpvrd.Recs.Invariant.{Inv}
use tvpvrd.Recs.Overlap.{
  isentryoverlapping, series_taken, taken, collides, collides_any, collides_ongoing,
}
use tvpvrd.Recs.Overlap.Exact.{Free}
use tvpvrd.Recs.Overlap.Series.{FreeDates, ProperDates, dates_wanted}
use tvpvrd.Recs.Overlap.Decides.{isentryoverlapping_decides}
use tvpvrd.Recs.Insert.{insertrec, add_numbered, split_at_dot}
use tvpvrd.Freqmap.Rows.{codes}
use tvpvrd.Recs.Insert.Single.{Disjoint, insertrec_single, insertrec-Disjoint, insertrec_full_loses}
use tvpvrd.Recs.Insert.Returns.{Repeatable, insertrec_keeps}
use tvpvrd.Recs.Insert.Count.{Grows, insertrec_series}
use tvpvrd.Recs.Exclusion.{
  add_excluded, add_excluded_from_repeated_recording, is_excluded_from_repeated_recording,
}
use tvpvrd.Recs.Exclusion.Laws.{is_excluded-add_excluded}
use tvpvrd.Recs.Delete.{Found, find_slot, find_from, find_rec, delete_one, delete_recid}
use tvpvrd.Recs.Delete.Search.{Absent}
use tvpvrd.Recs.Delete.Returns.{delete_recid_deletes}
use tvpvrd.Recs.Next.{NextRec, top, first_stream, look_at, look_from, get_nextsched_rec}
use tvpvrd.Recs.Sorting.{by_insertion, insertion_sort, insert_sorted}
use tvpvrd.Prelude.Perms.{fill_from_last}
use tvpvrd.Recs.Next.Earliest.{IsNext, get_nextsched_rec_earliest, get_nextsched_rec_stale}
use tvpvrd.Server.Chkrec.{chkrec_round, clamp_resolution}
use tvpvrd.Server.Chkrec.Rounds.{Begins, FitsInt, lateness, chkrec_round-Begins, chkrec_round-Inv}
use tvpvrd.Tests.Samples.{
  settings, utc-DatesInTime, utc-StoredInTime, once, twice, tuesday_evening, news, waiting,
  waiting-Inv,
}

abbrev before_news : ℤ
before_news = pos 1393960000

-- Two hours after the news began.
abbrev later : Entry
later = once (tuesday_evening + 7200)

abbrev series : Entry
series = twice (tuesday_evening + 7200)

series-Repeatable : Repeatable settings series
unfolding split_at_dot
series-Repeatable = record {
  mangling = omega arith;
  some_number = omega arith;
  core = codes "news";
  filetype = codes ".mp4";
  dot = refl;
}

insertrec_keeps_example :
    (answer : ℤ) × (s' : Recs) × (insertrec settings before_news waiting 0 series []
      ≡ returns (answer, s'))
    × Inv settings s'
insertrec_keeps_example =
    insertrec_keeps settings before_news waiting 0 series [] utc-WeekdaysStep
      (utc-DatesInTime series) (λ r. utc-StoredInTime before_news series)
      (λ repeated. series-Repeatable) waiting-Inv

later-Free : Free later.ts_start later.ts_end (waiting.recs 0) (waiting.ongoing_recs 0)
later-Free = ((inr (omega arith), tt), tt)

insertrec_single_example :
    (Free later.ts_start later.ts_end (waiting.recs 0) (waiting.ongoing_recs 0)
      × (insertrec settings before_news waiting 0 later []
          ≡ returns (pos 2, add_numbered settings 0 later waiting)))
    ⊎ ((¬ Free later.ts_start later.ts_end (waiting.recs 0) (waiting.ongoing_recs 0))
        × (insertrec settings before_news waiting 0 later [] ≡ returns (negsuc 0, waiting)))
insertrec_single_example =
    insertrec_single settings before_news waiting 0 later [] refl (omega arith) (omega arith, tt) tt

accepted :
    insertrec settings before_news waiting 0 later []
    ≡ returns (pos 2, add_numbered settings 0 later waiting)
unfolding insertrec isentryoverlapping taken collides_any collides_ongoing collides
accepted = refl

insertrec-Disjoint_example : AllPairs Disjoint ((add_numbered settings 0 later waiting).recs 0)
insertrec-Disjoint_example =
    insertrec-Disjoint settings before_news waiting 0 later [] refl (omega arith) (omega arith, tt)
      tt (pos 2) (add_numbered settings 0 later waiting) (tt, tt) accepted

series-ProperDates : All ProperDates (dates_wanted settings series)
unfolding increcdays settle move_days next_weekday skips totimestamp fromtimestamp utc_mktime
    utc_localtime utc_wday
series-ProperDates = (omega arith, (omega arith, tt))

isentryoverlapping_decides_example :
    (b : Bool) × (isentryoverlapping settings waiting 0 series ≡ returns b)
    × ((b ≡ false)
        ↔ All (FreeDates (waiting.recs 0) (waiting.ongoing_recs 0)) (dates_wanted settings series))
isentryoverlapping_decides_example =
    isentryoverlapping_decides settings waiting 0 series utc-WeekdaysStep (utc-DatesInTime series)
      (omega arith, tt) tt series-ProperDates

series_free : isentryoverlapping settings waiting 0 series ≡ returns false
unfolding isentryoverlapping series_taken taken collides_any collides_ongoing collides increcdays
    settle move_days next_weekday skips totimestamp fromtimestamp utc_mktime utc_localtime utc_wday
series_free = refl

insertrec_series_example :
    (s' : Recs) × (insertrec settings before_news waiting 0 series [] ≡ returns (pos 3, s'))
    × Grows 0 2 waiting s'
insertrec_series_example =
    insertrec_series settings before_news waiting 0 series utc-WeekdaysStep
      (utc-StoredInTime before_news series) refl series-Repeatable (omega arith) (omega arith)
      series_free

abbrev no_room : Config
no_room = record settings { max_entries = 1 }

insertrec_full_loses_example :
    (s' : Recs) × (insertrec no_room before_news waiting 0 later [] ≡ returns (pos 2, s'))
    × ((w : ℕ) → s'.recs w ≡ waiting.recs w)
insertrec_full_loses_example =
    insertrec_full_loses no_room before_news waiting 0 later [] refl (omega arith) (omega arith, tt)
      tt (omega arith) later-Free

abbrev excluding : Recs
excluding = record waiting {
  excluded_recordings = record { series_id = 1; excluded_items = 4 ∷ [] } ∷ [];
}

abbrev excluding_two : Recs
excluding_two = record waiting {
  excluded_recordings = record { series_id = 1; excluded_items = 4 ∷ 6 ∷ [] } ∷ [];
}

second_exclusion : add_excluded_from_repeated_recording excluding 1 6 ≡ returns excluding_two
unfolding add_excluded_from_repeated_recording add_excluded
second_exclusion = refl

is_excluded-add_excluded_example :
    is_excluded_from_repeated_recording excluding_two 1 4
    ≡ (is_excluded_from_repeated_recording excluding 1 4 || 1 == 1 && 4 == 6)
is_excluded-add_excluded_example =
    is_excluded-add_excluded excluding excluding_two 1 6 1 4 second_exclusion

delete_recid_deletes_example :
    (k : ℕ) × (s' : Recs) × (delete_recid settings waiting 1 true ≡ returns (k, s'))
    × Inv settings s'
    × (((k ≡ 0) × (s' ≡ waiting) × Absent waiting 1 2 0)
        ⊎ ((k ≡ 1) × (¬ Absent waiting 1 2 0) × ((w : ℕ) → All (λ e. e.seqnbr ≢ 1) (s'.recs w))))
delete_recid_deletes_example =
    delete_recid_deletes settings waiting 1 true (record { series = omega arith; items = tt })
      waiting-Inv

abbrev found_news : Found
found_news = record { foundvideo = 0; foundidx = 0; found = news }

find_news : find_rec settings waiting 1 ≡ some found_news
unfolding find_rec find_from find_slot
find_news = refl

abbrev nothing_left : Recs
nothing_left = with_recs waiting 0 []

delete_news : delete_recid settings waiting 1 false ≡ returns (1, nothing_left)
unfolding delete_recid find_rec find_from find_slot delete_one drop_slot fill_from_last by_insertion
    insertion_sort insert_sorted
delete_news = refl

-- The later recording on stream 0, the news on stream 1.
abbrev crossed : Recs
crossed = record waiting {
  recs = λ v. if v == 0 then later ∷ [] else if v == 1 then news ∷ [] else [];
}

-- What is handed out: the news' stream and time, but the later recording.
abbrev handed_out : NextRec
handed_out = record { nextrec = some later; nextrec_video = 1; nextrec_ts = pos 1393964100 }

next_of_crossed : get_nextsched_rec settings crossed ≡ returns (pos 0, handed_out)
unfolding get_nextsched_rec first_stream look_from look_at
next_of_crossed = refl

get_nextsched_rec_earliest_example :
    ((get_nextsched_rec settings crossed ≡ aborts) × ((w : ℕ) → w < 2 → crossed.recs w ≡ []))
    ⊎ ((n : NextRec) × (get_nextsched_rec settings crossed ≡ returns (pos 0, n))
        × IsNext settings crossed n)
get_nextsched_rec_earliest_example = get_nextsched_rec_earliest settings crossed

get_nextsched_rec_stale_example :
    (some later ≡ top (crossed.recs 1)) ↔ ((w : ℕ) → w < 1 → crossed.recs w ≡ [])
get_nextsched_rec_stale_example =
    get_nextsched_rec_stale settings crossed handed_out next_of_crossed

chkrec_round-Begins_example :
    Begins
      (clamp_resolution 3)
      (lateness (pos 1393964098))
      (news ∷ [])
      none
      ((chkrec_round settings 3 (pos 1393964098) waiting).ongoing_recs 0)
chkrec_round-Begins_example = chkrec_round-Begins settings 3 (pos 1393964098) waiting 0 (λ e first.
    let same : news ≡ e = cc first in
    subst (λ x. FitsInt (lateness (pos 1393964098) x)) same (unfold ◌-ℤ◌ in omega arith))

chkrec_round-Inv_example : Inv settings (chkrec_round settings 3 (pos 1393964098) waiting)
chkrec_round-Inv_example = chkrec_round-Inv settings 3 (pos 1393964098) waiting waiting-Inv
