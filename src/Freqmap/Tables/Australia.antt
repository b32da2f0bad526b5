-- ===== src/Freqmap/Tables/Australia.antt =====
-- The table `australia_chtable` of freqmap.c.
use tvpvrd.Prelude.{List, [], ◌∷◌}
use tvpvrd.Freqmap.Rows.{Freqch, row}

unfoldable pub australia_chtable : List Freqch
australia_chtable =
    row 46250 "0"
    ∷ row 57250 "1"
    ∷ row 64250 "2"
    ∷ row 86250 "3"
    ∷ row 95250 "4"
    ∷ row 102250 "5"
    ∷ row 138250 "5A"
    ∷ row 175250 "6"
    ∷ row 182250 "7"
    ∷ row 189250 "8"
    ∷ row 196250 "9"
    ∷ row 209250 "10"
    ∷ row 216250 "11"
    ∷ row 527250 "28"
    ∷ row 534250 "29"
    ∷ row 541250 "30"
    ∷ row 548250 "31"
    ∷ row 555250 "32"
    ∷ row 562250 "33"
    ∷ row 569250 "34"
    ∷ row 576250 "35"
    ∷ row 591250 "36"
    ∷ row 604250 "39"
    ∷ row 611250 "40"
    ∷ row 618250 "41"
    ∷ row 625250 "42"
    ∷ row 632250 "43"
    ∷ row 639250 "44"
    ∷ row 646250 "45"
    ∷ row 653250 "46"
    ∷ row 660250 "47"
    ∷ row 667250 "48"
    ∷ row 674250 "49"
    ∷ row 681250 "50"
    ∷ row 688250 "51"
    ∷ row 695250 "52"
    ∷ row 702250 "53"
    ∷ row 709250 "54"
    ∷ row 716250 "55"
    ∷ row 723250 "56"
    ∷ row 730250 "57"
    ∷ row 737250 "58"
    ∷ row 744250 "59"
    ∷ row 751250 "60"
    ∷ row 758250 "61"
    ∷ row 765250 "62"
    ∷ row 772250 "63"
    ∷ row 779250 "64"
    ∷ row 786250 "65"
    ∷ row 793250 "66"
    ∷ row 800250 "67"
    ∷ row 807250 "68"
    ∷ row 814250 "69"
    ∷ []
