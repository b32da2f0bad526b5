-- ===== src/Freqmap/Tables/Argentina.antt =====
-- The table `argentina_chtable` of freqmap.c.
use tvpvrd.Prelude.{List, [], ◌∷◌}
use tvpvrd.Freqmap.Rows.{Freqch, row}

unfoldable pub argentina_chtable : List Freqch
argentina_chtable =
    row 5625 "001"
    ∷ row 6225 "002"
    ∷ row 6825 "003"
    ∷ row 7825 "004"
    ∷ row 8425 "005"
    ∷ row 17625 "006"
    ∷ row 18225 "007"
    ∷ row 18825 "008"
    ∷ row 19425 "009"
    ∷ row 20025 "010"
    ∷ row 20625 "011"
    ∷ row 21225 "012"
    ∷ row 12225 "013"
    ∷ row 12825 "014"
    ∷ row 13425 "015"
    ∷ row 14025 "016"
    ∷ row 14625 "017"
    ∷ row 15225 "018"
    ∷ row 15825 "019"
    ∷ row 16425 "020"
    ∷ row 17025 "021"
    ∷ row 21825 "022"
    ∷ row 22425 "023"
    ∷ row 23025 "024"
    ∷ row 23625 "025"
    ∷ row 24225 "026"
    ∷ row 24825 "027"
    ∷ row 25425 "028"
    ∷ row 26025 "029"
    ∷ row 26625 "030"
    ∷ row 27225 "031"
    ∷ row 27825 "032"
    ∷ row 28425 "033"
    ∷ row 29025 "034"
    ∷ row 29625 "035"
    ∷ row 30225 "036"
    ∷ row 30825 "037"
    ∷ row 31425 "038"
    ∷ row 32025 "039"
    ∷ row 32625 "040"
    ∷ row 33225 "041"
    ∷ row 33825 "042"
    ∷ row 34425 "043"
    ∷ row 35025 "044"
    ∷ row 35625 "045"
    ∷ row 36225 "046"
    ∷ row 36825 "047"
    ∷ row 37425 "048"
    ∷ row 38025 "049"
    ∷ row 38625 "050"
    ∷ row 39225 "051"
    ∷ row 39825 "052"
    ∷ row 40425 "053"
    ∷ row 41025 "054"
    ∷ row 41625 "055"
    ∷ row 42225 "056"
    ∷ row 42825 "057"
    ∷ row 43425 "058"
    ∷ row 44025 "059"
    ∷ row 44625 "060"
    ∷ row 45225 "061"
    ∷ row 45825 "062"
    ∷ row 46425 "063"
    ∷ row 47025 "064"
    ∷ row 47625 "065"
    ∷ row 48225 "066"
    ∷ row 48825 "067"
    ∷ row 49425 "068"
    ∷ row 50025 "069"
    ∷ row 50625 "070"
    ∷ row 51225 "071"
    ∷ row 51825 "072"
    ∷ row 52425 "073"
    ∷ row 53025 "074"
    ∷ row 53625 "075"
    ∷ row 54225 "076"
    ∷ row 54825 "077"
    ∷ row 55425 "078"
    ∷ row 56025 "079"
    ∷ row 56625 "080"
    ∷ row 57225 "081"
    ∷ row 57825 "082"
    ∷ row 58425 "083"
    ∷ row 59025 "084"
    ∷ row 59625 "085"
    ∷ row 60225 "086"
    ∷ row 60825 "087"
    ∷ row 61425 "088"
    ∷ row 62025 "089"
    ∷ row 62625 "090"
    ∷ row 63225 "091"
    ∷ row 63825 "092"
    ∷ row 64425 "093"
    ∷ []
