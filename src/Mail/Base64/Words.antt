-- ===== src/Mail/Base64/Words.antt =====
-- The bit operations of base64ed.c on bytes, as arithmetic.
use Prim.Native.Nat.{bit_and, bit_or}
use tvpvrd.Prelude.{
  ℕ, ◌+◌, ◌*◌, ◌/◌, ◌%◌, ◌<◌, ◌≡◌, refl, arith, Bool, true, false, not, ◌&&◌, ◌==◌, check_below,
  check_below-holds,
}
use tvpvrd.Mail.Base64.{b64char, base64_decodechar, index_in, first_byte, second_byte, third_byte}

-- The bit operations of the code, on the values that they get, by evaluation.
and_ok : ℕ → Bool
and_ok a = (bit_and a 3 == a % 4) && (bit_and a 15 == a % 16) && (bit_and a 63 == a % 64)

or_ok : ℕ → ℕ → Bool
or_ok p q =
    (bit_or (p * 4) (q % 4) == p * 4 + q % 4)
    && (bit_or (p * 16) (q % 16) == p * 16 + q % 16)
    && (bit_or (p * 64) q == p * 64 + q)

char_ok : ℕ → Bool
char_ok i = (base64_decodechar (b64char i) == i) && not (b64char i == b'=')

and_table : check_below 256 and_ok ≡ true
unfolding check_below and_ok
and_table = refl

or_table : check_below 64 (λ p. check_below 64 (or_ok p)) ≡ true
unfolding check_below or_ok
or_table = refl

char_table : check_below 64 char_ok ≡ true
unfolding check_below char_ok base64_decodechar index_in b64char
char_table = refl

pub and_lem :
    (a : ℕ) → a < 256 → (bit_and a 3 ≡ a % 4) × (bit_and a 15 ≡ a % 16) × (bit_and a 63 ≡ a % 64)
unfolding and_ok
and_lem a lt =
    let h = check_below-holds 256 and_ok a and_table lt in
    (ground arith, ground arith, ground arith)

or_lem :
    (p q : ℕ)
    → p < 64
    → q < 64
    → (bit_or (p * 4) (q % 4) ≡ p * 4 + q % 4)
      × (bit_or (p * 16) (q % 16) ≡ p * 16 + q % 16)
      × (bit_or (p * 64) q ≡ p * 64 + q)
unfolding or_ok
or_lem p q lt lt' =
    let h =
      check_below-holds 64 (or_ok p) q
        (check_below-holds 64 (λ p. check_below 64 (or_ok p)) p or_table lt) lt' in
    (ground arith, ground arith, ground arith)

pub char_lem :
    (i : ℕ) → i < 64 → (base64_decodechar (b64char i) ≡ i) × ((b64char i == b'=') ≡ false)
unfolding char_ok
char_lem i lt = let h = check_below-holds 64 char_ok i char_table lt in (ground arith, ground arith)

or_4 : (p q : ℕ) → p < 64 → q < 4 → bit_or (p * 4) q ≡ p * 4 + q
or_4 p q lt lt' = let small : q % 4 ≡ q = omega arith in rw small at (or_lem p q lt (omega arith)).0

or_16 : (p q : ℕ) → p < 64 → q < 16 → bit_or (p * 16) q ≡ p * 16 + q
or_16 p q lt lt' =
    let small : q % 16 ≡ q = omega arith in rw small at (or_lem p q lt (omega arith)).1

-- The four numbers below 64 that three bytes make.
abbrev pub second : ℕ → ℕ → ℕ
second x y = x % 4 * 16 + y / 16

abbrev pub third : ℕ → ℕ → ℕ
third y z = y % 16 * 4 + z / 64

pub second_lem : (x y : ℕ) → x < 256 → y < 256 → bit_or (bit_and x 3 * 16) (y / 16) ≡ second x y
second_lem x y hx hy = rw ((and_lem x hx).0) (or_16 (x % 4) (y / 16) (omega arith) (omega arith))

pub third_lem : (y z : ℕ) → y < 256 → z < 256 → bit_or (bit_and y 15 * 4) (z / 64) ≡ third y z
third_lem y z hy hz = rw ((and_lem y hy).1) (or_4 (y % 16) (z / 64) (omega arith) (omega arith))

-- What three decoded numbers give back.
pub first_back : (x y : ℕ) → x < 256 → y < 256 → first_byte (x / 4) (second x y) ≡ x
first_back x y hx hy = rw (or_4 (x / 4) (second x y / 16) (omega arith) (omega arith)) (omega arith)

pub second_back :
    (x y z : ℕ) → x < 256 → y < 256 → z < 256 → second_byte (second x y) (third y z) ≡ y
second_back x y z hx hy hz =
    rw (or_16 (second x y) (third y z / 4) (omega arith) (omega arith)) (omega arith)

pub third_back : (y z : ℕ) → y < 256 → z < 256 → third_byte (third y z) (z % 64) ≡ z
third_back y z hy hz =
    rw ((or_lem (third y z) (z % 64) (omega arith) (omega arith)).2) (omega arith)
