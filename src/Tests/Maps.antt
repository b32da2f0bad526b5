-- ===== src/Tests/Maps.antt =====
-- The frequency maps.
use tvpvrd.Prelude.{List, ◌*◌, ◌≡◌, refl, [], some, get_elem?}
use tvpvrd.Freqmap.{Freqs, getfreqfromch, table_of, frequence_map}
use tvpvrd.Prelude.{◌∷◌, none}
use tvpvrd.Freqmap.{Section}
use tvpvrd.Freqmap.Rows.{row, codes}
use tvpvrd.Freqmap.Tables.Ireland.{ireland_chtable}
use tvpvrd.Freqmap.Exact.{getfreqfromch_row}

abbrev in_ireland : Freqs
in_ireland = record { curr_fmap = 3; station_map = [] }

here : table_of in_ireland.curr_fmap ≡ some ireland_chtable
unfolding table_of frequence_map
here = refl

second_row : get_elem? ireland_chtable 1 ≡ some (row 48000 "A1")
unfolding ireland_chtable
second_row = refl

getfreqfromch_row_example : getfreqfromch in_ireland [] (codes "A1") ≡ some (48000 * 1000)
getfreqfromch_row_example =
    getfreqfromch_row in_ireland ireland_chtable here [] 1 (row 48000 "A1") second_row

abbrev file : List Section
file =
    (codes "BBC1", some (codes "a1"))
    ∷ (codes "global", none)
    ∷ (codes "RTE", some (codes "A9x"))
    ∷ []
