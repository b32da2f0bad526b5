-- ===== src/Freqmap/Tables/AustraliaOptus.antt =====
-- The table `australia_optus_chtable` of freqmap.c.
use tvpvrd.Prelude.{List, [], ◌∷◌}
use tvpvrd.Freqmap.Rows.{Freqch, row}

unfoldable pub australia_optus_chtable : List Freqch
australia_optus_chtable =
    row 13825 "1"
    ∷ row 14725 "2"
    ∷ row 15425 "3"
    ∷ row 16125 "4"
    ∷ row 16825 "5"
    ∷ row 17525 "6"
    ∷ row 18225 "7"
    ∷ row 18925 "8"
    ∷ row 19625 "9"
    ∷ row 20925 "10"
    ∷ row 21625 "11"
    ∷ row 22425 "12"
    ∷ row 23125 "13"
    ∷ row 23825 "14"
    ∷ row 24525 "15"
    ∷ row 25225 "16"
    ∷ row 25925 "17"
    ∷ row 26625 "18"
    ∷ row 27325 "19"
    ∷ row 28025 "20"
    ∷ row 28725 "21"
    ∷ row 29425 "22"
    ∷ row 30325 "23"
    ∷ row 31025 "24"
    ∷ row 31725 "25"
    ∷ row 32425 "26"
    ∷ row 33825 "27"
    ∷ row 34525 "28"
    ∷ row 35225 "29"
    ∷ row 35925 "30"
    ∷ row 36625 "31"
    ∷ row 37325 "32"
    ∷ row 38025 "33"
    ∷ row 38725 "34"
    ∷ row 39425 "35"
    ∷ row 40125 "36"
    ∷ row 40825 "37"
    ∷ row 41525 "38"
    ∷ row 42225 "39"
    ∷ row 42925 "40"
    ∷ row 43625 "41"
    ∷ row 44325 "42"
    ∷ row 45025 "43"
    ∷ row 45725 "44"
    ∷ row 46425 "45"
    ∷ row 47125 "46"
    ∷ row 47825 "47"
    ∷ row 48525 "48"
    ∷ row 49225 "49"
    ∷ row 49925 "50"
    ∷ row 50625 "51"
    ∷ row 51325 "52"
    ∷ row 52025 "53"
    ∷ row 52725 "54"
    ∷ row 53425 "55"
    ∷ []
