-- ===== src/Freqmap/Exact.antt =====
-- The lookups of freqmap.c find what the tables hold, in each map.
use tvpvrd.Prelude.{
  ℕ, zero, suc, ◌*◌, ◌<◌, ◌≡◌, ◌≢◌, refl, ap, inl, inr, Bool, true, false, List, [], ◌∷◌, Option,
  none, some, ◌&&◌, leb, ◌==◌, if◌then◌else◌, get_elem?, length, ==_iff, arith, Bool-cases,
  Option-cases, check_below, check_below-holds,
}
use tvpvrd.Recs.Entry.{Bytes}
use tvpvrd.Freqmap.Rows.{Freqch, xstricmp_equal, same_string, tolower}
use tvpvrd.Freqmap.{
  Freqs, Freqmap, frequence_map, table_of, ch_at_freq, getchfromfreq, freq_of_ch, getfreqfromch,
}
use tvpvrd.Freqmap.Tables.EuropeWest.{europe_west_chtable}
use tvpvrd.Freqmap.Tables.EuropeEast.{europe_east_chtable}
use tvpvrd.Freqmap.Tables.France.{france_chtable}
use tvpvrd.Freqmap.Tables.Ireland.{ireland_chtable}
use tvpvrd.Freqmap.Tables.Italy.{italy_chtable}
use tvpvrd.Freqmap.Tables.Australia.{australia_chtable}
use tvpvrd.Freqmap.Tables.Newzealand.{newzealand_chtable}
use tvpvrd.Freqmap.Tables.Usbcast.{usbcast_chtable}
use tvpvrd.Freqmap.Tables.Uscable.{uscable_chtable}
use tvpvrd.Freqmap.Tables.UscableHrc.{uscable_hrc_chtable}
use tvpvrd.Freqmap.Tables.UscableIrc.{uscable_irc_chtable}
use tvpvrd.Freqmap.Tables.JapanBcast.{japan_bcast_chtable}
use tvpvrd.Freqmap.Tables.JapanCable.{japan_cable_chtable}
use tvpvrd.Freqmap.Tables.ChinaBcast.{china_bcast_chtable}
use tvpvrd.Freqmap.Tables.Southafrica.{southafrica_chtable}
use tvpvrd.Freqmap.Tables.Argentina.{argentina_chtable}
use tvpvrd.Freqmap.Tables.AustraliaOptus.{australia_optus_chtable}

unfoldable every : (Freqch → Bool) → List Freqch → Bool
every p [] = true
every p (r ∷ rs) = p r && every p rs

every_sound :
    (p : Freqch → Bool) (t : List Freqch) (i : ℕ) (r : Freqch)
    → every p t ≡ true
    → get_elem? t i ≡ some r
    → p r ≡ true
unfolding every
every_sound p [] i r h at = cc
every_sound p (x ∷ xs) zero r h at = ground arith
every_sound p (x ∷ xs) (suc i) r h at = ground (arith, every_sound p xs i r)

-- A test of each row of each map, but for the maps `left_out`.
unfoldable every_map : (ℕ → Bool) → (List Freqch → Freqch → Bool) → ℕ → Bool
unfolding every
every_map left_out p i =
    if left_out i then true else elim (table_of i) [ none ↦ true | some t ↦ every (p t) t ]

unfoldable is_number : ℕ → Option ℕ → Bool
is_number n none = false
is_number n (some m) = m == n

starts_with_at : Bytes → Bool
starts_with_at [] = false
starts_with_at (c ∷ cs) = c == b'@'

-- The name of the row finds its frequency, which the table has in kHz with at most six digits.
unfoldable name_finds_freq : List Freqch → Freqch → Bool
unfolding is_number starts_with_at
name_finds_freq t r =
    (if starts_with_at r.ch then false else is_number (r.freq * 1000) (freq_of_ch r.ch t))
    && leb r.freq 999999

unfoldable freq_finds_name : List Freqch → Freqch → Bool
freq_finds_name t r = elim (ch_at_freq (r.freq * 1000) t) [
  | none ↦ false
  | some ch ↦ same_string ch r.ch
]

every_name : check_below 18 (every_map (λ i. false) name_finds_freq) ≡ true
unfolding check_below every_map every name_finds_freq is_number starts_with_at frequence_map
    table_of freq_of_ch xstricmp_equal same_string tolower europe_west_chtable europe_east_chtable
    france_chtable ireland_chtable italy_chtable australia_chtable newzealand_chtable
    usbcast_chtable uscable_chtable uscable_hrc_chtable uscable_irc_chtable japan_bcast_chtable
    japan_cable_chtable china_bcast_chtable southafrica_chtable argentina_chtable
    australia_optus_chtable
every_name = refl

every_freq : check_below 18 (every_map (λ i. i == 1) freq_finds_name) ≡ true
unfolding check_below every_map every freq_finds_name frequence_map table_of ch_at_freq same_string
    europe_west_chtable europe_east_chtable france_chtable ireland_chtable italy_chtable
    australia_chtable newzealand_chtable usbcast_chtable uscable_chtable uscable_hrc_chtable
    uscable_irc_chtable japan_bcast_chtable japan_cable_chtable china_bcast_chtable
    southafrica_chtable argentina_chtable australia_optus_chtable
every_freq = refl

get_elem?-lt : (ms : List Freqmap) (i : ℕ) (m : Freqmap) → get_elem? ms i ≡ some m → i < length ms
get_elem?-lt [] i m at = cc
get_elem?-lt (x ∷ xs) zero m at = omega arith
get_elem?-lt (x ∷ xs) (suc i) m at = omega (arith, get_elem?-lt xs i m at)

is_number_sound : (n : ℕ) (o : Option ℕ) → is_number n o ≡ true → o ≡ some n
unfolding is_number
is_number_sound n none h = cc
is_number_sound n (some m) h = ap some ((==_iff m n).0 h)

pub and_both : (a b : Bool) → (a && b) ≡ true → (a ≡ true) × (b ≡ true)
and_both true true h = (refl, refl)
and_both true false h = cc
and_both false b h = cc

pub same_string_sound : (xs ys : Bytes) → same_string xs ys ≡ true → xs ≡ ys
unfolding same_string
same_string_sound [] [] h = refl
same_string_sound [] (y ∷ ys) h = cc
same_string_sound (x ∷ xs) [] h = cc
same_string_sound (x ∷ xs) (y ∷ ys) h =
    rw ((==_iff x y).0 (and_both (x == y) (same_string xs ys) h).0)
      (ap (λ zs. y ∷ zs) (same_string_sound xs ys (and_both (x == y) (same_string xs ys) h).1))

not_named : ¬ (false ≡ true)
not_named e = cc

module _ (s : Freqs) (t : List Freqch) (here : table_of s.curr_fmap ≡ some t) where
  in_range : s.curr_fmap < 18
  unfolding table_of frequence_map
  in_range = elim (Option-cases (get_elem? frequence_map s.curr_fmap)) [
    | inl outside ↦ absurd (no_table (rw (outside, table_of) at here))
    | inr (m, found) ↦ get_elem?-lt frequence_map s.curr_fmap m found
  ]
    where
      no_table : Path (Option (List Freqch)) none (some t) → ⊥
      no_table e = cc

  row_ok :
      (left_out : ℕ → Bool) (p : List Freqch → Freqch → Bool)
      → check_below 18 (every_map left_out p) ≡ true
      → left_out s.curr_fmap ≡ false
      → (i : ℕ) (r : Freqch) → get_elem? t i ≡ some r
      → p t r ≡ true
  unfolding every_map
  row_ok left_out p checked kept i r at =
      every_sound (p t) t i r
        (by_map (check_below-holds 18 (every_map left_out p) s.curr_fmap checked in_range)) at
    where
      by_map : every_map left_out p s.curr_fmap ≡ true → every (p t) t ≡ true
      by_map e = rw (kept, here) at e

  by_name :
      (nch6 : Bytes) (n : ℕ) (ch : Bytes)
      → (if starts_with_at ch then false else is_number n (freq_of_ch ch t)) ≡ true
      → getfreqfromch s nch6 ch ≡ some n
  unfolding getfreqfromch starts_with_at
  by_name nch6 n [] h = rw (here, getfreqfromch) (is_number_sound n (freq_of_ch [] t) h)
  by_name nch6 n (c ∷ cs) h = elim (Bool-cases (c == b'@')) [
    | inl direct ↦ absurd (not_named (rw (direct, starts_with_at) at h))
    | inr named ↦
        rw (here, named, getfreqfromch)
          (is_number_sound n (freq_of_ch (c ∷ cs) t) (rw (named, starts_with_at) at h))
  ]

  found_name :
      (r : Freqch)
      → name_finds_freq t r ≡ true
      → (if starts_with_at r.ch then false else is_number (r.freq * 1000) (freq_of_ch r.ch t))
        ≡ true
  unfolding name_finds_freq
  found_name r h = (and_both _ (leb r.freq 999999) h).0

  -- In the map in use, whichever it is, the name of each row of its table gives a thousand times the
  -- number in the row: the frequency in Hz where the table is in kHz, and a tenth of it in the tables
  -- us-cable-irc, us-cable-hrc, japan-bcast, japan-cable, china-bcast, southafrica, argentina and
  -- australia-optus, whose numbers are in units of 10 kHz.
  pub getfreqfromch_row :
      (nch6 : Bytes) (i : ℕ) (r : Freqch)
      → get_elem? t i ≡ some r
      → getfreqfromch s nch6 r.ch ≡ some (r.freq * 1000)
  getfreqfromch_row nch6 i r at =
      by_name nch6 (r.freq * 1000) r.ch
        (found_name r (row_ok (λ i. false) name_finds_freq every_name refl i r at))

  by_freq : (r : Freqch) → freq_finds_name t r ≡ true → getchfromfreq s (r.freq * 1000) ≡ some r.ch
  unfolding getchfromfreq freq_finds_name
  by_freq r h = elim (Option-cases (ch_at_freq (r.freq * 1000) t)) [
    | inl missing ↦ absurd (not_named (rw (missing, freq_finds_name) at h))
    | inr (ch, found) ↦
        rw (here, found, getchfromfreq)
          (ap some (same_string_sound ch r.ch (rw (found, freq_finds_name) at h)))
  ]

  -- In each map but that of Eastern Europe, the frequency of each row of the table gives the
  -- name of the row.
  pub getchfromfreq_row :
      (i : ℕ) (r : Freqch)
      → s.curr_fmap ≢ 1
      → get_elem? t i ≡ some r
      → getchfromfreq s (r.freq * 1000) ≡ some r.ch
  getchfromfreq_row i r west at =
      by_freq r (row_ok (λ i. i == 1) freq_finds_name every_freq (ground arith) i r at)
