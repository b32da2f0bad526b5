-- ===== src/Freqmap/Tables/Usbcast.antt =====
-- The table `usbcast_chtable` of freqmap.c.
use tvpvrd.Prelude.{List, [], ◌∷◌}
use tvpvrd.Freqmap.Rows.{Freqch, row}

unfoldable pub usbcast_chtable : List Freqch
usbcast_chtable =
    row 55250 "2"
    ∷ row 61250 "3"
    ∷ row 67250 "4"
    ∷ row 77250 "5"
    ∷ row 83250 "6"
    ∷ row 175250 "7"
    ∷ row 181250 "8"
    ∷ row 187250 "9"
    ∷ row 193250 "10"
    ∷ row 199250 "11"
    ∷ row 205250 "12"
    ∷ row 211250 "13"
    ∷ row 471250 "14"
    ∷ row 477250 "15"
    ∷ row 483250 "16"
    ∷ row 489250 "17"
    ∷ row 495250 "18"
    ∷ row 501250 "19"
    ∷ row 507250 "20"
    ∷ row 513250 "21"
    ∷ row 519250 "22"
    ∷ row 525250 "23"
    ∷ row 531250 "24"
    ∷ row 537250 "25"
    ∷ row 543250 "26"
    ∷ row 549250 "27"
    ∷ row 555250 "28"
    ∷ row 561250 "29"
    ∷ row 567250 "30"
    ∷ row 573250 "31"
    ∷ row 579250 "32"
    ∷ row 585250 "33"
    ∷ row 591250 "34"
    ∷ row 597250 "35"
    ∷ row 603250 "36"
    ∷ row 609250 "37"
    ∷ row 615250 "38"
    ∷ row 621250 "39"
    ∷ row 627250 "40"
    ∷ row 633250 "41"
    ∷ row 639250 "42"
    ∷ row 645250 "43"
    ∷ row 651250 "44"
    ∷ row 657250 "45"
    ∷ row 663250 "46"
    ∷ row 669250 "47"
    ∷ row 675250 "48"
    ∷ row 681250 "49"
    ∷ row 687250 "50"
    ∷ row 693250 "51"
    ∷ row 699250 "52"
    ∷ row 705250 "53"
    ∷ row 711250 "54"
    ∷ row 717250 "55"
    ∷ row 723250 "56"
    ∷ row 729250 "57"
    ∷ row 735250 "58"
    ∷ row 741250 "59"
    ∷ row 747250 "60"
    ∷ row 753250 "61"
    ∷ row 759250 "62"
    ∷ row 765250 "63"
    ∷ row 771250 "64"
    ∷ row 777250 "65"
    ∷ row 783250 "66"
    ∷ row 789250 "67"
    ∷ row 795250 "68"
    ∷ row 801250 "69"
    ∷ row 807250 "70"
    ∷ row 813250 "71"
    ∷ row 819250 "72"
    ∷ row 825250 "73"
    ∷ row 831250 "74"
    ∷ row 837250 "75"
    ∷ row 843250 "76"
    ∷ row 849250 "77"
    ∷ row 855250 "78"
    ∷ row 861250 "79"
    ∷ row 867250 "80"
    ∷ row 873250 "81"
    ∷ row 879250 "82"
    ∷ row 885250 "83"
    ∷ []
