-- ===== src/Freqmap/Tables/JapanBcast.antt =====
-- The table `japan_bcast_chtable` of freqmap.c.
use tvpvrd.Prelude.{List, [], ◌∷◌}
use tvpvrd.Freqmap.Rows.{Freqch, row}

unfoldable pub japan_bcast_chtable : List Freqch
japan_bcast_chtable =
    row 9125 "1"
    ∷ row 9725 "2"
    ∷ row 10325 "3"
    ∷ row 17125 "4"
    ∷ row 17725 "5"
    ∷ row 18325 "6"
    ∷ row 18925 "7"
    ∷ row 19325 "8"
    ∷ row 19925 "9"
    ∷ row 20525 "10"
    ∷ row 21125 "11"
    ∷ row 21725 "12"
    ∷ row 47125 "13"
    ∷ row 47725 "14"
    ∷ row 48325 "15"
    ∷ row 48925 "16"
    ∷ row 49525 "17"
    ∷ row 50125 "18"
    ∷ row 50725 "19"
    ∷ row 51325 "20"
    ∷ row 51925 "21"
    ∷ row 52525 "22"
    ∷ row 53125 "23"
    ∷ row 53725 "24"
    ∷ row 54325 "25"
    ∷ row 54925 "26"
    ∷ row 55525 "27"
    ∷ row 56125 "28"
    ∷ row 56725 "29"
    ∷ row 57325 "30"
    ∷ row 57925 "31"
    ∷ row 58525 "32"
    ∷ row 59125 "33"
    ∷ row 59725 "34"
    ∷ row 60325 "35"
    ∷ row 60925 "36"
    ∷ row 61525 "37"
    ∷ row 62125 "38"
    ∷ row 62725 "39"
    ∷ row 63325 "40"
    ∷ row 63925 "41"
    ∷ row 64525 "42"
    ∷ row 65125 "43"
    ∷ row 65725 "44"
    ∷ row 66325 "45"
    ∷ row 66925 "46"
    ∷ row 67525 "47"
    ∷ row 68125 "48"
    ∷ row 68725 "49"
    ∷ row 69325 "50"
    ∷ row 69925 "51"
    ∷ row 70525 "52"
    ∷ row 71125 "53"
    ∷ row 71725 "54"
    ∷ row 72325 "55"
    ∷ row 72925 "56"
    ∷ row 73525 "57"
    ∷ row 74125 "58"
    ∷ row 74725 "59"
    ∷ row 75325 "60"
    ∷ row 75925 "61"
    ∷ row 76525 "62"
    ∷ []
