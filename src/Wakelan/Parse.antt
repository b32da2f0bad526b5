-- ===== src/Wakelan/Parse.antt =====
-- A MAC address that is written as usual is read as it is meant.
use tvpvrd.Prelude.{
  ℕ, zero, suc, ◌+◌, ◌-◌, ◌*◌, ◌/◌, ◌%◌, ◌<◌, ◌≤◌, ◌≡◌, refl, ap, subst, arith, Bool, true, false,
  [], ◌∷◌, ◌++◌, some, ltb, leb, Bool-cases, inl, inr, ◌&&◌, length, All, replicate, length-append,
}
use tvpvrd.Prelude.Text.{Bytes}
use tvpvrd.Utils.Url.{to_hex}
use tvpvrd.Wakelan.{
  toupper, hex_digit, second_digit, first_digit, parse_bytes, parse_mac, repeat, wakeup_packet,
}

-- Two digits for each byte, with colons between them.
unfoldable pub mac_text : Bytes → Bytes
mac_text [] = []
mac_text (b ∷ []) = to_hex (b / 16) ∷ to_hex b ∷ []
mac_text (b ∷ c ∷ bs) = to_hex (b / 16) ∷ to_hex b ∷ b':' ∷ mac_text (c ∷ bs)

toupper_digit : (r : ℕ) → r < 10 → toupper (b'0' + r) ≡ b'0' + r
toupper_digit r lt = ground arith

toupper_letter : (r : ℕ) → r < 16 → toupper (b'A' + (r - 10)) ≡ b'A' + (r - 10)
toupper_letter r lt = ground arith

digit_low : (r : ℕ) → r < 10 → hex_digit (b'0' + r) ≡ some r
unfolding hex_digit
digit_low r lt =
    let low : (leb b'0' (b'0' + r) && leb (b'0' + r) b'9') ≡ true = ground arith in
    rw low (ap some (omega arith))

digit_high : (r : ℕ) → r < 16 → 10 ≤ r → hex_digit (b'A' + (r - 10)) ≡ some r
unfolding hex_digit
digit_high r lt le =
    let low : (leb b'0' (b'A' + (r - 10)) && leb (b'A' + (r - 10)) b'9') ≡ false = ground arith in
    let high : (leb b'A' (b'A' + (r - 10)) && leb (b'A' + (r - 10)) b'F') ≡ true = ground arith in
    rw (low, high) (ap some (omega arith))

hex_digit-to_hex : (d : ℕ) → hex_digit (toupper (to_hex d)) ≡ some (d % 16)
unfolding to_hex
hex_digit-to_hex d = elim (Bool-cases (ltb (d % 16) 10)) [
  | inl low ↦ rw (low, toupper_digit (d % 16) (ground arith)) (digit_low (d % 16) (ground arith))
  | inr high ↦
      rw (high, toupper_letter (d % 16) (omega arith))
        (digit_high (d % 16) (omega arith) (ground arith))
]

byte_first :
    (b : ℕ) (colon_ok : Bool) (rest : Bytes)
    → b < 256
    → first_digit colon_ok (to_hex (b / 16) ∷ to_hex b ∷ rest) ≡ some (b, rest, false)
unfolding first_digit second_digit
byte_first b colon_ok rest lt =
    rw (first_digit, hex_digit-to_hex (b / 16))
      (rw (second_digit, hex_digit-to_hex b) (ap (λ v. some (v, rest, false)) (omega arith)))

byte_later :
    (b : ℕ) (rest : Bytes)
    → b < 256
    → first_digit false (b':' ∷ to_hex (b / 16) ∷ to_hex b ∷ rest) ≡ some (b, rest, false)
unfolding first_digit hex_digit
byte_later b rest lt = byte_first b true rest lt

-- The bytes behind the first one.
abbrev behind : Bytes → Bytes
behind [] = []
behind (b ∷ bs) = b':' ∷ mac_text (b ∷ bs)

mac_text-cons : (b : ℕ) (bs : Bytes) → mac_text (b ∷ bs) ≡ to_hex (b / 16) ∷ to_hex b ∷ behind bs
unfolding mac_text
mac_text-cons b [] = refl
mac_text-cons b (c ∷ bs) = refl

abbrev IsBytes : Bytes → Type 0
IsBytes = All (λ c. c < 256)

parse-behind : (bs : Bytes) → IsBytes bs → parse_bytes (length bs) false (behind bs) ≡ some bs
unfolding parse_bytes
parse-behind [] h = refl
parse-behind (b ∷ bs) h =
    rw (parse_bytes, mac_text-cons b bs)
      (rw (byte_later b (behind bs) h.0) (rw (parse-behind bs h.1) refl))

length-mac_text : (b : ℕ) (bs : Bytes) → length (mac_text (b ∷ bs)) ≡ length bs * 3 + 2
unfolding mac_text
length-mac_text b [] = omega arith
length-mac_text b (c ∷ bs) = omega (arith, length-mac_text c bs)

parse_bytes-mac_text :
    (b : ℕ) (bs : Bytes)
    → IsBytes (b ∷ bs)
    → parse_bytes (suc (length bs)) true (mac_text (b ∷ bs)) ≡ some (b ∷ bs)
unfolding parse_bytes
parse_bytes-mac_text b bs h =
    rw (parse_bytes, mac_text-cons b bs)
      (rw (byte_first b true (behind bs) h.0) (rw (parse-behind bs h.1) refl))

length-repeat : (n : ℕ) (mac : Bytes) → length mac ≡ 6 → length (repeat n mac) ≡ n * 6
unfolding repeat
length-repeat zero mac six = refl
length-repeat (suc n) mac six =
    omega (arith, length-append mac (repeat n mac), length-repeat n mac six, six)

-- Six bytes, written with two digits each and colons between them, make the packet of 102 bytes:
-- six of 255, and sixteen times the address.
pub wakeup_packet-mac_text :
    (b : ℕ) (bs : Bytes)
    → IsBytes (b ∷ bs)
    → length bs ≡ 5
    → (wakeup_packet (mac_text (b ∷ bs)) ≡ some (replicate 6 255 ++ repeat 16 (b ∷ bs)))
      × (length (replicate 6 255 ++ repeat 16 (b ∷ bs)) ≡ 102)
unfolding wakeup_packet parse_mac
wakeup_packet-mac_text b bs h five =
    let long : ltb (length (mac_text (b ∷ bs))) 17 ≡ false =
      (let l = length-mac_text b bs in ground arith) in
    let parsed : parse_bytes 6 true (mac_text (b ∷ bs)) ≡ some (b ∷ bs) =
      subst (λ n. parse_bytes (suc n) true (mac_text (b ∷ bs)) ≡ some (b ∷ bs)) five
        (parse_bytes-mac_text b bs h) in
    let read : parse_mac (mac_text (b ∷ bs)) ≡ some (b ∷ bs) = rw (parse_mac, long) parsed in
    (rw (wakeup_packet, read) refl, omega (arith, length-repeat 16 (b ∷ bs) (omega (arith, five))))
