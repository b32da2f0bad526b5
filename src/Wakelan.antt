-- ===== src/Wakelan.antt =====
-- tvpowerd/wakelan.c: the MAC address, and the packet that wakes the server. `toupper` is that of the
-- C locale.
pub mod Parse
use tvpvrd.Prelude.{
  ℕ, zero, suc, ◌+◌, ◌-◌, ◌*◌, ◌%◌, Bool, true, false, List, [], ◌∷◌, ◌++◌, Option, none, some, ltb,
  leb, ◌==◌, ◌&&◌, ◌||◌, if◌then◌else◌, length, replicate,
}
use tvpvrd.Prelude.Int.{ℤ, pos, negsuc}
use tvpvrd.Prelude.Text.{Bytes}

abbrev pub toupper : ℕ → ℕ
toupper c = if leb b'a' c && leb c b'z' then c - 32 else c

-- The value of a digit.
unfoldable pub hex_digit : ℕ → Option ℕ
hex_digit c =
    if leb b'0' c && leb c b'9'
    then some (c - b'0')
    else if leb b'A' c && leb c b'F'
    then some (c - b'A' + 10)
    else none

-- What the inner loop leaves: the byte, the text behind it, and the next `colon_ok`; none where the
-- text is refused.
abbrev pub Byte : Type 0
Byte = Option (ℕ × Bytes × Bool)

-- The inner loop of up to two digits, for the second one and for the first. Without `colon_ok` a colon
-- before the first digit is passed over, and then `colon_ok` is set; with it a colon ends the byte.
unfoldable pub second_digit : ℕ → Bytes → Byte
second_digit val [] = some (val, [], true)
second_digit val (c ∷ s) = elim (hex_digit (toupper c)) [
  | some d ↦ some ((val * 16 + d) % 256, s, false)
  | none ↦ if c == b':' then some (val, s, true) else none
]

unfoldable pub first_digit : Bool → Bytes → Byte
unfolding second_digit
first_digit colon_ok [] = some (0, [], true)
first_digit colon_ok (c ∷ s) = elim (hex_digit (toupper c)) [
  | some d ↦ second_digit d s
  | none ↦
      let colon = (if colon_ok then some (0, s, true) else first_digit true s) in
      if c == b':' then colon else none
]

-- The outer loop, with the number of bytes to come. Text that is left over is refused.
unfoldable pub parse_bytes : ℕ → Bool → Bytes → Option Bytes
parse_bytes zero colon_ok [] = some []
parse_bytes zero colon_ok (c ∷ s) = none
parse_bytes (suc left) colon_ok s = elim (first_digit colon_ok s) [
  | none ↦ none
  | some (val, s', ok) ↦ elim (parse_bytes left ok s') [
    | none ↦ none
    | some rest ↦ some (val ∷ rest)
  ]
]

unfoldable pub parse_mac : Bytes → Option Bytes
parse_mac s = if ltb (length s) 17 then none else parse_bytes 6 true s

unfoldable pub repeat : ℕ → Bytes → Bytes
repeat zero mac = []
repeat (suc n) mac = mac ++ repeat n mac

-- `msg`, if the address is accepted.
unfoldable pub wakeup_packet : Bytes → Option Bytes
wakeup_packet s = elim (parse_mac s) [
  | none ↦ none
  | some mac ↦ some (replicate 6 255 ++ repeat 16 mac)
]
