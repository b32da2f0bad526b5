-- ===== src/Freqmap/Stations.antt =====
-- `read_xawtvfile`: which stations a file gives.
use mathlib.Core.List.{append_assoc, append-nil}
use tvpvrd.Prelude.{
  ℕ, ◌+◌, ◌≤◌, ◌≡◌, refl, ◌⊎◌, inl, inr, false, true, List, [], ◌∷◌, ◌++◌, none, some, All, All-map,
  length, length-append, leb, take, Option-cases, arith,
}
use tvpvrd.Recs.Entry.{Bytes}
use tvpvrd.Recs.State.{returns}
use tvpvrd.Freqmap.{Freqs, Station, Section, getfreqfromch, read_sections}

-- The stations of the sections that set a channel.
unfoldable pub stations_in : List Section → List Station
stations_in [] = []
stations_in ((sname, none) ∷ rest) = stations_in rest
stations_in ((sname, some channel_name) ∷ rest) =
    record { name = take 31 sname; channel = take 31 channel_name } ∷ stations_in rest

-- The channel of the section, if it sets one, has a frequency in the map in use.
abbrev pub Resolves : Freqs → Bytes → Section → Type 0
Resolves s nch6 (sname, none) = Unit {0}
Resolves s nch6 (sname, some channel_name) = (f : ℕ) × (getfreqfromch s nch6 channel_name ≡ some f)

abbrev pub with_stations : Freqs → List Station → Freqs
with_stations s ms = record s { station_map = s.station_map ++ ms }

-- The stations do not matter for the channels.
module _ (s : Freqs) (ms : List Station) (nch6 : Bytes) where
  Resolves-before :
      (sec : Section) → Resolves (record s { station_map = ms }) nch6 sec → Resolves s nch6 sec
  unfolding getfreqfromch
  Resolves-before (sname, none) h = tt
  Resolves-before (sname, some channel_name) h = h

  Resolves-after :
      (sec : Section) → Resolves s nch6 sec → Resolves (record s { station_map = ms }) nch6 sec
  unfolding getfreqfromch
  Resolves-after (sname, none) h = tt
  Resolves-after (sname, some channel_name) h = h

-- Where the stations fit in the array, the call returns. It succeeds exactly when every channel
-- that the file names is in the frequency map in use; then the stations of the file are added, in
-- order, and otherwise the map in use is as it was.
pub read_sections_decides :
    (s : Freqs) (nch6 : Bytes) (secs : List Section)
    → length s.station_map + length (stations_in secs) ≤ 256
    → (All (Resolves s nch6) secs
        × (read_sections s nch6 secs ≡ returns (true, with_stations s (stations_in secs))))
      ⊎ ((¬ All (Resolves s nch6) secs)
          × ((s' : Freqs) × ((read_sections s nch6 secs ≡ returns (false, s'))
                × (s'.curr_fmap ≡ s.curr_fmap))))
unfolding read_sections stations_in
read_sections_decides s nch6 [] fits = inl (tt, rw (append-nil s.station_map) refl)
read_sections_decides s nch6 ((sname, none) ∷ rest) fits =
    elim (read_sections_decides s nch6 rest fits) [
      | inl (good, done) ↦ inl ((tt, good), done)
      | inr (bad, failed) ↦ inr ((λ h. bad h.1), failed)
    ]
read_sections_decides s nch6 ((sname, some channel_name) ∷ rest) fits =
    elim (Option-cases (getfreqfromch s nch6 channel_name)) [
      | inl missing ↦
          inr ((λ h. cc (missing, h.0.1)), (s, (rw (room, missing, read_sections) refl, refl)))
      | inr (f, found) ↦ elim (read_sections_decides s1 nch6 rest fits_still) [
        | inl (good, done) ↦ inl (
          ((f, found), All-map _ _ rest (Resolves-before s _ nch6) good),
          rw (room, found, read_sections, done, joined) refl,
        )
        | inr (bad, (s', (failed, same))) ↦ inr (
          (λ h. bad (All-map _ _ rest (Resolves-after s _ nch6) h.1)),
          (s', (rw (room, found, read_sections) failed, same)),
        )
      ]
    ]
  where
    stored : Station
    stored = record { name = take 31 sname; channel = take 31 channel_name }

    s1 : Freqs
    s1 = with_stations s (stored ∷ [])

    room : leb 256 (length s.station_map) ≡ false
    room = ground arith

    fits_still : length s1.station_map + length (stations_in rest) ≤ 256
    fits_still = omega (arith, fits, length-append s.station_map (stored ∷ []))

    joined :
        (s.station_map ++ stored ∷ []) ++ stations_in rest
        ≡ s.station_map ++ stored ∷ stations_in rest
    joined = append_assoc s.station_map (stored ∷ []) (stations_in rest)
