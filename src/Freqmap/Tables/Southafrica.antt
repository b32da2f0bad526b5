-- ===== src/Freqmap/Tables/Southafrica.antt =====
-- The table `southafrica_chtable` of freqmap.c.
use tvpvrd.Prelude.{List, [], ◌∷◌}
use tvpvrd.Freqmap.Rows.{Freqch, row}

unfoldable pub southafrica_chtable : List Freqch
southafrica_chtable =
    row 17525 "4"
    ∷ row 18325 "5"
    ∷ row 19125 "6"
    ∷ row 19925 "7"
    ∷ row 20725 "8"
    ∷ row 21525 "9"
    ∷ row 22325 "10"
    ∷ row 23125 "11"
    ∷ row 23925 "12"
    ∷ row 24725 "13"
    ∷ row 47125 "21"
    ∷ row 47925 "22"
    ∷ row 48725 "23"
    ∷ row 49525 "24"
    ∷ row 50325 "25"
    ∷ row 51125 "26"
    ∷ row 51925 "27"
    ∷ row 52725 "28"
    ∷ row 53525 "29"
    ∷ row 54325 "30"
    ∷ row 55125 "31"
    ∷ row 55925 "32"
    ∷ row 56725 "33"
    ∷ row 57525 "34"
    ∷ row 58325 "35"
    ∷ row 59125 "36"
    ∷ row 59925 "37"
    ∷ row 60725 "38"
    ∷ row 61525 "39"
    ∷ row 62325 "40"
    ∷ row 63125 "41"
    ∷ row 63925 "42"
    ∷ row 64725 "43"
    ∷ row 65525 "44"
    ∷ row 66325 "45"
    ∷ row 67125 "46"
    ∷ row 67925 "47"
    ∷ row 68725 "48"
    ∷ row 69525 "49"
    ∷ row 70325 "50"
    ∷ row 71125 "51"
    ∷ row 71925 "52"
    ∷ row 72725 "53"
    ∷ row 73525 "54"
    ∷ row 74325 "55"
    ∷ row 75125 "56"
    ∷ row 75925 "57"
    ∷ row 76725 "58"
    ∷ row 77525 "59"
    ∷ row 78325 "60"
    ∷ row 79125 "61"
    ∷ row 79925 "62"
    ∷ row 80725 "63"
    ∷ row 81525 "64"
    ∷ row 82325 "65"
    ∷ row 83125 "66"
    ∷ row 83925 "67"
    ∷ row 84725 "68"
    ∷ row 85525 "69"
    ∷ []
