-- ===== src/Freqmap/Tables/ChinaBcast.antt =====
-- The table `china_bcast_chtable` of freqmap.c.
use tvpvrd.Prelude.{List, [], ◌∷◌}
use tvpvrd.Freqmap.Rows.{Freqch, row}

unfoldable pub china_bcast_chtable : List Freqch
china_bcast_chtable =
    row 4975 "1"
    ∷ row 5775 "2"
    ∷ row 6575 "3"
    ∷ row 7725 "4"
    ∷ row 8525 "5"
    ∷ row 11225 "6"
    ∷ row 12025 "7"
    ∷ row 12825 "8"
    ∷ row 13625 "9"
    ∷ row 14425 "10"
    ∷ row 15225 "11"
    ∷ row 16025 "12"
    ∷ row 16825 "13"
    ∷ row 17625 "14"
    ∷ row 18425 "15"
    ∷ row 19225 "16"
    ∷ row 20025 "17"
    ∷ row 20825 "18"
    ∷ row 21625 "19"
    ∷ row 22425 "20"
    ∷ row 23225 "21"
    ∷ row 24025 "22"
    ∷ row 24825 "23"
    ∷ row 25625 "24"
    ∷ row 26425 "25"
    ∷ row 27225 "26"
    ∷ row 28025 "27"
    ∷ row 28825 "28"
    ∷ row 29625 "29"
    ∷ row 30425 "30"
    ∷ row 31225 "31"
    ∷ row 32025 "32"
    ∷ row 32825 "33"
    ∷ row 33625 "34"
    ∷ row 34425 "35"
    ∷ row 35225 "36"
    ∷ row 36025 "37"
    ∷ row 36825 "38"
    ∷ row 37625 "39"
    ∷ row 38425 "40"
    ∷ row 39225 "41"
    ∷ row 40025 "42"
    ∷ row 40825 "43"
    ∷ row 41625 "44"
    ∷ row 42425 "45"
    ∷ row 43225 "46"
    ∷ row 44025 "47"
    ∷ row 44825 "48"
    ∷ row 45625 "49"
    ∷ row 46325 "50"
    ∷ row 47125 "51"
    ∷ row 47925 "52"
    ∷ row 48725 "53"
    ∷ row 49525 "54"
    ∷ row 50325 "55"
    ∷ row 51125 "56"
    ∷ row 51925 "57"
    ∷ row 52725 "58"
    ∷ row 53525 "59"
    ∷ row 54325 "60"
    ∷ row 55125 "61"
    ∷ row 55925 "62"
    ∷ row 60725 "63"
    ∷ row 61525 "64"
    ∷ row 62325 "65"
    ∷ row 63125 "66"
    ∷ row 63925 "67"
    ∷ row 64725 "68"
    ∷ row 65525 "69"
    ∷ row 66325 "70"
    ∷ row 67125 "71"
    ∷ row 67925 "72"
    ∷ row 68725 "73"
    ∷ row 69525 "74"
    ∷ row 70325 "75"
    ∷ row 71125 "76"
    ∷ row 71925 "77"
    ∷ row 72725 "78"
    ∷ row 73525 "79"
    ∷ row 74325 "80"
    ∷ row 75125 "81"
    ∷ row 75925 "82"
    ∷ row 76725 "83"
    ∷ row 77525 "84"
    ∷ row 78325 "85"
    ∷ row 79125 "86"
    ∷ row 79925 "87"
    ∷ row 80725 "88"
    ∷ row 81525 "89"
    ∷ row 82325 "90"
    ∷ row 83125 "91"
    ∷ row 83925 "92"
    ∷ row 84725 "93"
    ∷ row 85525 "94"
    ∷ []
