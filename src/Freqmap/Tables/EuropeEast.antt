-- ===== src/Freqmap/Tables/EuropeEast.antt =====
-- The table `europe_east_chtable` of freqmap.c.
use tvpvrd.Prelude.{List, [], ◌∷◌}
use tvpvrd.Freqmap.Rows.{Freqch, row}

unfoldable pub europe_east_chtable : List Freqch
europe_east_chtable =
    row 49750 "R1"
    ∷ row 59250 "R2"
    ∷ row 77250 "R3"
    ∷ row 85250 "R4"
    ∷ row 93250 "R5"
    ∷ row 175250 "R6"
    ∷ row 183250 "R7"
    ∷ row 191250 "R8"
    ∷ row 199250 "R9"
    ∷ row 207250 "R10"
    ∷ row 215250 "R11"
    ∷ row 223250 "R12"
    ∷ row 111250 "SR1"
    ∷ row 119250 "SR2"
    ∷ row 127250 "SR3"
    ∷ row 135250 "SR4"
    ∷ row 143250 "SR5"
    ∷ row 151250 "SR6"
    ∷ row 159250 "SR7"
    ∷ row 167250 "SR8"
    ∷ row 231250 "SR11"
    ∷ row 239250 "SR12"
    ∷ row 247250 "SR13"
    ∷ row 255250 "SR14"
    ∷ row 263250 "SR15"
    ∷ row 271250 "SR16"
    ∷ row 279250 "SR17"
    ∷ row 287250 "SR18"
    ∷ row 295250 "SR19"
    ∷ row 48250 "E2"
    ∷ row 55250 "E3"
    ∷ row 62250 "E4"
    ∷ row 69250 "S01"
    ∷ row 76250 "S02"
    ∷ row 83250 "S03"
    ∷ row 175250 "E5"
    ∷ row 182250 "E6"
    ∷ row 189250 "E7"
    ∷ row 196250 "E8"
    ∷ row 203250 "E9"
    ∷ row 210250 "E10"
    ∷ row 217250 "E11"
    ∷ row 224250 "E12"
    ∷ row 105250 "SE1"
    ∷ row 112250 "SE2"
    ∷ row 119250 "SE3"
    ∷ row 126250 "SE4"
    ∷ row 133250 "SE5"
    ∷ row 140250 "SE6"
    ∷ row 147250 "SE7"
    ∷ row 154250 "SE8"
    ∷ row 161250 "SE9"
    ∷ row 168250 "SE10"
    ∷ row 231250 "SE11"
    ∷ row 238250 "SE12"
    ∷ row 245250 "SE13"
    ∷ row 252250 "SE14"
    ∷ row 259250 "SE15"
    ∷ row 266250 "SE16"
    ∷ row 273250 "SE17"
    ∷ row 280250 "SE18"
    ∷ row 287250 "SE19"
    ∷ row 294250 "SE20"
    ∷ row 303250 "S21"
    ∷ row 311250 "S22"
    ∷ row 319250 "S23"
    ∷ row 327250 "S24"
    ∷ row 335250 "S25"
    ∷ row 343250 "S26"
    ∷ row 351250 "S27"
    ∷ row 359250 "S28"
    ∷ row 367250 "S29"
    ∷ row 375250 "S30"
    ∷ row 383250 "S31"
    ∷ row 391250 "S32"
    ∷ row 399250 "S33"
    ∷ row 407250 "S34"
    ∷ row 415250 "S35"
    ∷ row 423250 "S36"
    ∷ row 431250 "S37"
    ∷ row 439250 "S38"
    ∷ row 447250 "S39"
    ∷ row 455250 "S40"
    ∷ row 463250 "S41"
    ∷ row 471250 "21"
    ∷ row 479250 "22"
    ∷ row 487250 "23"
    ∷ row 495250 "24"
    ∷ row 503250 "25"
    ∷ row 511250 "26"
    ∷ row 519250 "27"
    ∷ row 527250 "28"
    ∷ row 535250 "29"
    ∷ row 543250 "30"
    ∷ row 551250 "31"
    ∷ row 559250 "32"
    ∷ row 567250 "33"
    ∷ row 575250 "34"
    ∷ row 583250 "35"
    ∷ row 591250 "36"
    ∷ row 599250 "37"
    ∷ row 607250 "38"
    ∷ row 615250 "39"
    ∷ row 623250 "40"
    ∷ row 631250 "41"
    ∷ row 639250 "42"
    ∷ row 647250 "43"
    ∷ row 655250 "44"
    ∷ row 663250 "45"
    ∷ row 671250 "46"
    ∷ row 679250 "47"
    ∷ row 687250 "48"
    ∷ row 695250 "49"
    ∷ row 703250 "50"
    ∷ row 711250 "51"
    ∷ row 719250 "52"
    ∷ row 727250 "53"
    ∷ row 735250 "54"
    ∷ row 743250 "55"
    ∷ row 751250 "56"
    ∷ row 759250 "57"
    ∷ row 767250 "58"
    ∷ row 775250 "59"
    ∷ row 783250 "60"
    ∷ row 791250 "61"
    ∷ row 799250 "62"
    ∷ row 807250 "63"
    ∷ row 815250 "64"
    ∷ row 823250 "65"
    ∷ row 831250 "66"
    ∷ row 839250 "67"
    ∷ row 847250 "68"
    ∷ row 855250 "69"
    ∷ []
