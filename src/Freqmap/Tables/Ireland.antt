-- ===== src/Freqmap/Tables/Ireland.antt =====
-- The table `ireland_chtable` of freqmap.c.
use tvpvrd.Prelude.{List, [], ◌∷◌}
use tvpvrd.Freqmap.Rows.{Freqch, row}

unfoldable pub ireland_chtable : List Freqch
ireland_chtable =
    row 45750 "A0"
    ∷ row 48000 "A1"
    ∷ row 53750 "A2"
    ∷ row 56000 "A3"
    ∷ row 61750 "A4"
    ∷ row 64000 "A5"
    ∷ row 175250 "A6"
    ∷ row 176000 "A7"
    ∷ row 183250 "A8"
    ∷ row 184000 "A9"
    ∷ row 191250 "A10"
    ∷ row 192000 "A11"
    ∷ row 199250 "A12"
    ∷ row 200000 "A13"
    ∷ row 207250 "A14"
    ∷ row 208000 "A15"
    ∷ row 215250 "A16"
    ∷ row 216000 "A17"
    ∷ row 224000 "A18"
    ∷ row 232000 "A19"
    ∷ row 248000 "A20"
    ∷ row 256000 "A21"
    ∷ row 264000 "A22"
    ∷ row 272000 "A23"
    ∷ row 280000 "A24"
    ∷ row 288000 "A25"
    ∷ row 296000 "A26"
    ∷ row 304000 "A27"
    ∷ row 312000 "A28"
    ∷ row 320000 "A29"
    ∷ row 344000 "A30"
    ∷ row 352000 "A31"
    ∷ row 408000 "A32"
    ∷ row 416000 "A33"
    ∷ row 448000 "A34"
    ∷ row 480000 "A35"
    ∷ row 520000 "A36"
    ∷ row 471250 "21"
    ∷ row 479250 "22"
    ∷ row 487250 "23"
    ∷ row 495250 "24"
    ∷ row 503250 "25"
    ∷ row 511250 "26"
    ∷ row 519250 "27"
    ∷ row 527250 "28"
    ∷ row 535250 "29"
    ∷ row 543250 "30"
    ∷ row 551250 "31"
    ∷ row 559250 "32"
    ∷ row 567250 "33"
    ∷ row 575250 "34"
    ∷ row 583250 "35"
    ∷ row 591250 "36"
    ∷ row 599250 "37"
    ∷ row 607250 "38"
    ∷ row 615250 "39"
    ∷ row 623250 "40"
    ∷ row 631250 "41"
    ∷ row 639250 "42"
    ∷ row 647250 "43"
    ∷ row 655250 "44"
    ∷ row 663250 "45"
    ∷ row 671250 "46"
    ∷ row 679250 "47"
    ∷ row 687250 "48"
    ∷ row 695250 "49"
    ∷ row 703250 "50"
    ∷ row 711250 "51"
    ∷ row 719250 "52"
    ∷ row 727250 "53"
    ∷ row 735250 "54"
    ∷ row 743250 "55"
    ∷ row 751250 "56"
    ∷ row 759250 "57"
    ∷ row 767250 "58"
    ∷ row 775250 "59"
    ∷ row 783250 "60"
    ∷ row 791250 "61"
    ∷ row 799250 "62"
    ∷ row 807250 "63"
    ∷ row 815250 "64"
    ∷ row 823250 "65"
    ∷ row 831250 "66"
    ∷ row 839250 "67"
    ∷ row 847250 "68"
    ∷ row 855250 "69"
    ∷ []
