-- ===== src/Freqmap/Tables/Uscable.antt =====
-- The table `uscable_chtable` of freqmap.c.
use tvpvrd.Prelude.{List, [], ◌∷◌}
use tvpvrd.Freqmap.Rows.{Freqch, row}

unfoldable pub uscable_chtable : List Freqch
uscable_chtable =
    row 73250 "1"
    ∷ row 55250 "2"
    ∷ row 61250 "3"
    ∷ row 67250 "4"
    ∷ row 77250 "5"
    ∷ row 83250 "6"
    ∷ row 175250 "7"
    ∷ row 181250 "8"
    ∷ row 187250 "9"
    ∷ row 193250 "10"
    ∷ row 199250 "11"
    ∷ row 205250 "12"
    ∷ row 211250 "13"
    ∷ row 121250 "14"
    ∷ row 127250 "15"
    ∷ row 133250 "16"
    ∷ row 139250 "17"
    ∷ row 145250 "18"
    ∷ row 151250 "19"
    ∷ row 157250 "20"
    ∷ row 163250 "21"
    ∷ row 169250 "22"
    ∷ row 217250 "23"
    ∷ row 223250 "24"
    ∷ row 229250 "25"
    ∷ row 235250 "26"
    ∷ row 241250 "27"
    ∷ row 247250 "28"
    ∷ row 253250 "29"
    ∷ row 259250 "30"
    ∷ row 265250 "31"
    ∷ row 271250 "32"
    ∷ row 277250 "33"
    ∷ row 283250 "34"
    ∷ row 289250 "35"
    ∷ row 295250 "36"
    ∷ row 301250 "37"
    ∷ row 307250 "38"
    ∷ row 313250 "39"
    ∷ row 319250 "40"
    ∷ row 325250 "41"
    ∷ row 331250 "42"
    ∷ row 337250 "43"
    ∷ row 343250 "44"
    ∷ row 349250 "45"
    ∷ row 355250 "46"
    ∷ row 361250 "47"
    ∷ row 367250 "48"
    ∷ row 373250 "49"
    ∷ row 379250 "50"
    ∷ row 385250 "51"
    ∷ row 391250 "52"
    ∷ row 397250 "53"
    ∷ row 403250 "54"
    ∷ row 409250 "55"
    ∷ row 415250 "56"
    ∷ row 421250 "57"
    ∷ row 427250 "58"
    ∷ row 433250 "59"
    ∷ row 439250 "60"
    ∷ row 445250 "61"
    ∷ row 451250 "62"
    ∷ row 457250 "63"
    ∷ row 463250 "64"
    ∷ row 469250 "65"
    ∷ row 475250 "66"
    ∷ row 481250 "67"
    ∷ row 487250 "68"
    ∷ row 493250 "69"
    ∷ row 499250 "70"
    ∷ row 505250 "71"
    ∷ row 511250 "72"
    ∷ row 517250 "73"
    ∷ row 523250 "74"
    ∷ row 529250 "75"
    ∷ row 535250 "76"
    ∷ row 541250 "77"
    ∷ row 547250 "78"
    ∷ row 553250 "79"
    ∷ row 559250 "80"
    ∷ row 565250 "81"
    ∷ row 571250 "82"
    ∷ row 577250 "83"
    ∷ row 583250 "84"
    ∷ row 589250 "85"
    ∷ row 595250 "86"
    ∷ row 601250 "87"
    ∷ row 607250 "88"
    ∷ row 613250 "89"
    ∷ row 619250 "90"
    ∷ row 625250 "91"
    ∷ row 631250 "92"
    ∷ row 637250 "93"
    ∷ row 643250 "94"
    ∷ row 91250 "95"
    ∷ row 97250 "96"
    ∷ row 103250 "97"
    ∷ row 109250 "98"
    ∷ row 115250 "99"
    ∷ row 649250 "100"
    ∷ row 655250 "101"
    ∷ row 661250 "102"
    ∷ row 667250 "103"
    ∷ row 673250 "104"
    ∷ row 679250 "105"
    ∷ row 685250 "106"
    ∷ row 691250 "107"
    ∷ row 697250 "108"
    ∷ row 703250 "109"
    ∷ row 709250 "110"
    ∷ row 715250 "111"
    ∷ row 721250 "112"
    ∷ row 727250 "113"
    ∷ row 733250 "114"
    ∷ row 739250 "115"
    ∷ row 745250 "116"
    ∷ row 751250 "117"
    ∷ row 757250 "118"
    ∷ row 763250 "119"
    ∷ row 769250 "120"
    ∷ row 775250 "121"
    ∷ row 781250 "122"
    ∷ row 787250 "123"
    ∷ row 793250 "124"
    ∷ row 799250 "125"
    ∷ row 8250 "T7"
    ∷ row 14250 "T8"
    ∷ row 20250 "T9"
    ∷ row 26250 "T10"
    ∷ row 32250 "T11"
    ∷ row 38250 "T12"
    ∷ row 44250 "T13"
    ∷ row 50250 "T14"
    ∷ []
