-- ===== src/Freqmap/Tables/Italy.antt =====
-- The table `italy_chtable` of freqmap.c.
use tvpvrd.Prelude.{List, [], ◌∷◌}
use tvpvrd.Freqmap.Rows.{Freqch, row}

unfoldable pub italy_chtable : List Freqch
italy_chtable =
    row 53750 "A"
    ∷ row 62250 "B"
    ∷ row 82250 "C"
    ∷ row 175250 "D"
    ∷ row 183750 "E"
    ∷ row 192250 "F"
    ∷ row 201250 "G"
    ∷ row 210250 "H"
    ∷ row 217250 "H1"
    ∷ row 224250 "H2"
    ∷ row 471250 "21"
    ∷ row 479250 "22"
    ∷ row 487250 "23"
    ∷ row 495250 "24"
    ∷ row 503250 "25"
    ∷ row 511250 "26"
    ∷ row 519250 "27"
    ∷ row 527250 "28"
    ∷ row 535250 "29"
    ∷ row 543250 "30"
    ∷ row 551250 "31"
    ∷ row 559250 "32"
    ∷ row 567250 "33"
    ∷ row 575250 "34"
    ∷ row 583250 "35"
    ∷ row 591250 "36"
    ∷ row 599250 "37"
    ∷ row 607250 "38"
    ∷ row 615250 "39"
    ∷ row 623250 "40"
    ∷ row 631250 "41"
    ∷ row 639250 "42"
    ∷ row 647250 "43"
    ∷ row 655250 "44"
    ∷ row 663250 "45"
    ∷ row 671250 "46"
    ∷ row 679250 "47"
    ∷ row 687250 "48"
    ∷ row 695250 "49"
    ∷ row 703250 "50"
    ∷ row 711250 "51"
    ∷ row 719250 "52"
    ∷ row 727250 "53"
    ∷ row 735250 "54"
    ∷ row 743250 "55"
    ∷ row 751250 "56"
    ∷ row 759250 "57"
    ∷ row 767250 "58"
    ∷ row 775250 "59"
    ∷ row 783250 "60"
    ∷ row 791250 "61"
    ∷ row 799250 "62"
    ∷ row 807250 "63"
    ∷ row 815250 "64"
    ∷ row 823250 "65"
    ∷ row 831250 "66"
    ∷ row 839250 "67"
    ∷ row 847250 "68"
    ∷ row 855250 "69"
    ∷ []
