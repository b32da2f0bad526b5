-- ===== src/Freqmap/Tables/UscableHrc.antt =====
-- The table `uscable_hrc_chtable` of freqmap.c.
use tvpvrd.Prelude.{List, [], ◌∷◌}
use tvpvrd.Freqmap.Rows.{Freqch, row}

unfoldable pub uscable_hrc_chtable : List Freqch
uscable_hrc_chtable =
    row 7200 "1"
    ∷ row 5400 "2"
    ∷ row 6000 "3"
    ∷ row 6600 "4"
    ∷ row 7800 "5"
    ∷ row 8400 "6"
    ∷ row 17400 "7"
    ∷ row 18000 "8"
    ∷ row 18600 "9"
    ∷ row 19200 "10"
    ∷ row 19800 "11"
    ∷ row 20400 "12"
    ∷ row 21000 "13"
    ∷ row 12000 "14"
    ∷ row 12600 "15"
    ∷ row 13200 "16"
    ∷ row 13800 "17"
    ∷ row 14400 "18"
    ∷ row 15000 "19"
    ∷ row 15600 "20"
    ∷ row 16200 "21"
    ∷ row 16800 "22"
    ∷ row 21600 "23"
    ∷ row 22200 "24"
    ∷ row 22800 "25"
    ∷ row 23400 "26"
    ∷ row 24000 "27"
    ∷ row 24600 "28"
    ∷ row 25200 "29"
    ∷ row 25800 "30"
    ∷ row 26400 "31"
    ∷ row 27000 "32"
    ∷ row 27600 "33"
    ∷ row 28200 "34"
    ∷ row 28800 "35"
    ∷ row 29400 "36"
    ∷ row 30000 "37"
    ∷ row 30600 "38"
    ∷ row 31200 "39"
    ∷ row 31800 "40"
    ∷ row 32400 "41"
    ∷ row 33000 "42"
    ∷ row 33600 "43"
    ∷ row 34200 "44"
    ∷ row 34800 "45"
    ∷ row 35400 "46"
    ∷ row 36000 "47"
    ∷ row 36600 "48"
    ∷ row 37200 "49"
    ∷ row 37800 "50"
    ∷ row 38400 "51"
    ∷ row 39000 "52"
    ∷ row 39600 "53"
    ∷ row 40200 "54"
    ∷ row 40800 "55"
    ∷ row 41400 "56"
    ∷ row 42000 "57"
    ∷ row 42600 "58"
    ∷ row 43200 "59"
    ∷ row 43800 "60"
    ∷ row 44400 "61"
    ∷ row 45000 "62"
    ∷ row 45600 "63"
    ∷ row 46200 "64"
    ∷ row 46800 "65"
    ∷ row 47400 "66"
    ∷ row 48000 "67"
    ∷ row 48600 "68"
    ∷ row 49200 "69"
    ∷ row 49800 "70"
    ∷ row 50400 "71"
    ∷ row 51000 "72"
    ∷ row 51600 "73"
    ∷ row 52200 "74"
    ∷ row 52800 "75"
    ∷ row 53400 "76"
    ∷ row 54000 "77"
    ∷ row 54600 "78"
    ∷ row 55200 "79"
    ∷ row 55800 "80"
    ∷ row 56400 "81"
    ∷ row 57000 "82"
    ∷ row 57600 "83"
    ∷ row 58200 "84"
    ∷ row 58800 "85"
    ∷ row 59400 "86"
    ∷ row 60000 "87"
    ∷ row 60600 "88"
    ∷ row 61200 "89"
    ∷ row 61800 "90"
    ∷ row 62400 "91"
    ∷ row 63000 "92"
    ∷ row 63600 "93"
    ∷ row 64200 "94"
    ∷ row 9000 "95"
    ∷ row 9600 "96"
    ∷ row 10200 "97"
    ∷ row 10800 "98"
    ∷ row 11400 "99"
    ∷ row 64800 "100"
    ∷ row 65400 "101"
    ∷ row 66000 "102"
    ∷ row 66600 "103"
    ∷ row 67200 "104"
    ∷ row 67800 "105"
    ∷ row 68400 "106"
    ∷ row 69000 "107"
    ∷ row 69600 "108"
    ∷ row 70200 "109"
    ∷ row 70800 "110"
    ∷ row 71400 "111"
    ∷ row 72000 "112"
    ∷ row 72600 "113"
    ∷ row 73200 "114"
    ∷ row 73800 "115"
    ∷ row 74400 "116"
    ∷ row 75000 "117"
    ∷ row 75600 "118"
    ∷ row 76200 "119"
    ∷ row 76800 "120"
    ∷ row 77400 "121"
    ∷ row 78000 "122"
    ∷ row 78600 "123"
    ∷ row 79200 "124"
    ∷ row 79800 "125"
    ∷ row 700 "T7"
    ∷ row 1300 "T8"
    ∷ row 1900 "T9"
    ∷ row 2500 "T10"
    ∷ row 3100 "T11"
    ∷ row 3700 "T12"
    ∷ row 4300 "T13"
    ∷ row 4900 "T14"
    ∷ []
