-- ===== src/Freqmap/Tables/UscableIrc.antt =====
-- The table `uscable_irc_chtable` of freqmap.c.
use tvpvrd.Prelude.{List, [], ◌∷◌}
use tvpvrd.Freqmap.Rows.{Freqch, row}

unfoldable pub uscable_irc_chtable : List Freqch
uscable_irc_chtable =
    row 7325 "1"
    ∷ row 5525 "2"
    ∷ row 6125 "3"
    ∷ row 6725 "4"
    ∷ row 7925 "5"
    ∷ row 8525 "6"
    ∷ row 17525 "7"
    ∷ row 18125 "8"
    ∷ row 18725 "9"
    ∷ row 19325 "10"
    ∷ row 19925 "11"
    ∷ row 20525 "12"
    ∷ row 21125 "13"
    ∷ row 12115 "14"
    ∷ row 12715 "15"
    ∷ row 13315 "16"
    ∷ row 13915 "17"
    ∷ row 14515 "18"
    ∷ row 15115 "19"
    ∷ row 15715 "20"
    ∷ row 16315 "21"
    ∷ row 16915 "22"
    ∷ row 21725 "23"
    ∷ row 22325 "24"
    ∷ row 22925 "25"
    ∷ row 23525 "26"
    ∷ row 24125 "27"
    ∷ row 24725 "28"
    ∷ row 25325 "29"
    ∷ row 25925 "30"
    ∷ row 26525 "31"
    ∷ row 27125 "32"
    ∷ row 27725 "33"
    ∷ row 28325 "34"
    ∷ row 28925 "35"
    ∷ row 29525 "36"
    ∷ row 30125 "37"
    ∷ row 30725 "38"
    ∷ row 31325 "39"
    ∷ row 31925 "40"
    ∷ row 32525 "41"
    ∷ row 33125 "42"
    ∷ row 33725 "43"
    ∷ row 34325 "44"
    ∷ row 34925 "45"
    ∷ row 35525 "46"
    ∷ row 36125 "47"
    ∷ row 36725 "48"
    ∷ row 37325 "49"
    ∷ row 37925 "50"
    ∷ row 38525 "51"
    ∷ row 39125 "52"
    ∷ row 39725 "53"
    ∷ row 40325 "54"
    ∷ row 40925 "55"
    ∷ row 41525 "56"
    ∷ row 42125 "57"
    ∷ row 42725 "58"
    ∷ row 43325 "59"
    ∷ row 43925 "60"
    ∷ row 44525 "61"
    ∷ row 45125 "62"
    ∷ row 45725 "63"
    ∷ row 46325 "64"
    ∷ row 46925 "65"
    ∷ row 47525 "66"
    ∷ row 48125 "67"
    ∷ row 48725 "68"
    ∷ row 49325 "69"
    ∷ row 49925 "70"
    ∷ row 50525 "71"
    ∷ row 51125 "72"
    ∷ row 51725 "73"
    ∷ row 52325 "74"
    ∷ row 52925 "75"
    ∷ row 53525 "76"
    ∷ row 54125 "77"
    ∷ row 54725 "78"
    ∷ row 55325 "79"
    ∷ row 55925 "80"
    ∷ row 56525 "81"
    ∷ row 57125 "82"
    ∷ row 57725 "83"
    ∷ row 58325 "84"
    ∷ row 58925 "85"
    ∷ row 59525 "86"
    ∷ row 60125 "87"
    ∷ row 60725 "88"
    ∷ row 61325 "89"
    ∷ row 61925 "90"
    ∷ row 62525 "91"
    ∷ row 63125 "92"
    ∷ row 63725 "93"
    ∷ row 64325 "94"
    ∷ row 9125 "95"
    ∷ row 9725 "96"
    ∷ row 10325 "97"
    ∷ row 10925 "98"
    ∷ row 11525 "99"
    ∷ row 64925 "100"
    ∷ row 65525 "101"
    ∷ row 66125 "102"
    ∷ row 66725 "103"
    ∷ row 67325 "104"
    ∷ row 67925 "105"
    ∷ row 68525 "106"
    ∷ row 69125 "107"
    ∷ row 69725 "108"
    ∷ row 70325 "109"
    ∷ row 70925 "110"
    ∷ row 71525 "111"
    ∷ row 72125 "112"
    ∷ row 72725 "113"
    ∷ row 73325 "114"
    ∷ row 73925 "115"
    ∷ row 74525 "116"
    ∷ row 75125 "117"
    ∷ row 75725 "118"
    ∷ row 76325 "119"
    ∷ row 76925 "120"
    ∷ row 77525 "121"
    ∷ row 78125 "122"
    ∷ row 78725 "123"
    ∷ row 79325 "124"
    ∷ row 79925 "125"
    ∷ row 825 "T7"
    ∷ row 1425 "T8"
    ∷ row 2025 "T9"
    ∷ row 2625 "T10"
    ∷ row 3225 "T11"
    ∷ row 3825 "T12"
    ∷ row 4425 "T13"
    ∷ row 5025 "T14"
    ∷ []
