-- ===== src/Recs/Insert/Titles.antt =====
-- The titles of the recordings of one series.
use tvpvrd.Prelude.{ℕ, ◌≡◌, refl, true, ◌==◌, arith}
use tvpvrd.Datetime.{LibcTime, Dates}
use tvpvrd.Recs.Entry.{Entry, Bytes, new_entry}
use tvpvrd.Recs.State.{Config, Recs, returns}
use tvpvrd.Recs.Names.{rec_title_mangling}
use tvpvrd.Recs.Insert.{Series, series_entry}
use tvpvrd.Recs.Insert.Returns.{rec_title_mangling-some}

rec_title_mangling-dated :
    (T : LibcTime) (e : Entry) (num k : ℕ) (name : Bytes) (maxlen : ℕ)
    → e.recurrence_mangling ≡ 0
    → rec_title_mangling T e num name maxlen ≡ rec_title_mangling T e k name maxlen
unfolding rec_title_mangling
rec_title_mangling-dated T e num k name maxlen dated =
    let zero : (e.recurrence_mangling == 0) ≡ true = ground arith in rw zero refl

-- With dates in the names (mangling of type 0), any two recordings of a series, whatever their
-- dates, are made with the same title and the same file name.
pub series_entry-dated :
    (c : Config) (s s2 : Recs) (r : Series) (i k : ℕ) (d d2 : Dates)
    → r.entry.recurrence_mangling ≡ 0
    → (e : Entry) × (e2 : Entry) × (series_entry c s r i d ≡ returns e)
      × (series_entry c s2 r k d2 ≡ returns e2)
      × (e.title ≡ e2.title)
      × (e.filename ≡ e2.filename)
unfolding series_entry new_entry
series_entry-dated c s s2 r i k d d2 dated =
    let e = r.entry in
    let (title, t) = rec_title_mangling-some c.time e i e.title 512 (omega (arith, dated)) in
    let (name, n) = rec_title_mangling-some c.time e i r.bnamecore 256 (omega (arith, dated)) in
    let same_t = rec_title_mangling-dated c.time e k i e.title 512 dated in
    let same_n = rec_title_mangling-dated c.time e k i r.bnamecore 256 dated in
    rw (same_t, same_n, t, n) (_, _, refl, refl, refl, refl)
