-- ===== src/Freqmap/Tables/France.antt =====
-- The table `france_chtable` of freqmap.c.
use tvpvrd.Prelude.{List, [], ◌∷◌}
use tvpvrd.Freqmap.Rows.{Freqch, row}

unfoldable pub france_chtable : List Freqch
france_chtable =
    row 47750 "K01"
    ∷ row 55750 "K02"
    ∷ row 60500 "K03"
    ∷ row 63750 "K04"
    ∷ row 176000 "K05"
    ∷ row 184000 "K06"
    ∷ row 192000 "K07"
    ∷ row 200000 "K08"
    ∷ row 208000 "K09"
    ∷ row 216000 "K10"
    ∷ row 116750 "KB"
    ∷ row 128750 "KC"
    ∷ row 140750 "KD"
    ∷ row 159750 "KE"
    ∷ row 164750 "KF"
    ∷ row 176750 "KG"
    ∷ row 188750 "KH"
    ∷ row 200750 "KI"
    ∷ row 212750 "KJ"
    ∷ row 224750 "KK"
    ∷ row 236750 "KL"
    ∷ row 248750 "KM"
    ∷ row 260750 "KN"
    ∷ row 272750 "KO"
    ∷ row 284750 "KP"
    ∷ row 296750 "KQ"
    ∷ row 303250 "H01"
    ∷ row 311250 "H02"
    ∷ row 319250 "H03"
    ∷ row 327250 "H04"
    ∷ row 335250 "H05"
    ∷ row 343250 "H06"
    ∷ row 351250 "H07"
    ∷ row 359250 "H08"
    ∷ row 367250 "H09"
    ∷ row 375250 "H10"
    ∷ row 383250 "H11"
    ∷ row 391250 "H12"
    ∷ row 399250 "H13"
    ∷ row 407250 "H14"
    ∷ row 415250 "H15"
    ∷ row 423250 "H16"
    ∷ row 431250 "H17"
    ∷ row 439250 "H18"
    ∷ row 447250 "H19"
    ∷ row 471250 "21"
    ∷ row 479250 "22"
    ∷ row 487250 "23"
    ∷ row 495250 "24"
    ∷ row 503250 "25"
    ∷ row 511250 "26"
    ∷ row 519250 "27"
    ∷ row 527250 "28"
    ∷ row 535250 "29"
    ∷ row 543250 "30"
    ∷ row 551250 "31"
    ∷ row 559250 "32"
    ∷ row 567250 "33"
    ∷ row 575250 "34"
    ∷ row 583250 "35"
    ∷ row 591250 "36"
    ∷ row 599250 "37"
    ∷ row 607250 "38"
    ∷ row 615250 "39"
    ∷ row 623250 "40"
    ∷ row 631250 "41"
    ∷ row 639250 "42"
    ∷ row 647250 "43"
    ∷ row 655250 "44"
    ∷ row 663250 "45"
    ∷ row 671250 "46"
    ∷ row 679250 "47"
    ∷ row 687250 "48"
    ∷ row 695250 "49"
    ∷ row 703250 "50"
    ∷ row 711250 "51"
    ∷ row 719250 "52"
    ∷ row 727250 "53"
    ∷ row 735250 "54"
    ∷ row 743250 "55"
    ∷ row 751250 "56"
    ∷ row 759250 "57"
    ∷ row 767250 "58"
    ∷ row 775250 "59"
    ∷ row 783250 "60"
    ∷ row 791250 "61"
    ∷ row 799250 "62"
    ∷ row 807250 "63"
    ∷ row 815250 "64"
    ∷ row 823250 "65"
    ∷ row 831250 "66"
    ∷ row 839250 "67"
    ∷ row 847250 "68"
    ∷ row 855250 "69"
    ∷ []
