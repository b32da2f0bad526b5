-- ===== src/Freqmap/Tables/JapanCable.antt =====
-- The table `japan_cable_chtable` of freqmap.c.
use tvpvrd.Prelude.{List, [], ◌∷◌}
use tvpvrd.Freqmap.Rows.{Freqch, row}

unfoldable pub japan_cable_chtable : List Freqch
japan_cable_chtable =
    row 10925 "13"
    ∷ row 11525 "14"
    ∷ row 12125 "15"
    ∷ row 12725 "16"
    ∷ row 13325 "17"
    ∷ row 13925 "18"
    ∷ row 14525 "19"
    ∷ row 15125 "20"
    ∷ row 15725 "21"
    ∷ row 16525 "22"
    ∷ row 22325 "23"
    ∷ row 23125 "24"
    ∷ row 23725 "25"
    ∷ row 24325 "26"
    ∷ row 24925 "27"
    ∷ row 25325 "28"
    ∷ row 25925 "29"
    ∷ row 26525 "30"
    ∷ row 27125 "31"
    ∷ row 27725 "32"
    ∷ row 28325 "33"
    ∷ row 28925 "34"
    ∷ row 29525 "35"
    ∷ row 30125 "36"
    ∷ row 30725 "37"
    ∷ row 31325 "38"
    ∷ row 31925 "39"
    ∷ row 32525 "40"
    ∷ row 33125 "41"
    ∷ row 33725 "42"
    ∷ row 34325 "43"
    ∷ row 34925 "44"
    ∷ row 35525 "45"
    ∷ row 36125 "46"
    ∷ row 36725 "47"
    ∷ row 37325 "48"
    ∷ row 37925 "49"
    ∷ row 38525 "50"
    ∷ row 39125 "51"
    ∷ row 39725 "52"
    ∷ row 40325 "53"
    ∷ row 40925 "54"
    ∷ row 41525 "55"
    ∷ row 42125 "56"
    ∷ row 42725 "57"
    ∷ row 43325 "58"
    ∷ row 43925 "59"
    ∷ row 44525 "60"
    ∷ row 45125 "61"
    ∷ row 45725 "62"
    ∷ row 46325 "63"
    ∷ []
