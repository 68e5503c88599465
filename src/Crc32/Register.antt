-- ===== src/Crc32/Register.antt =====
-- The reflected shift register of src/crc32.c, digit by digit: it stays in 32 bits, loses no
-- information, and is linear in exclusive or.
use ecu_platform.Base.{
  ℕ, zero, suc, ◌+◌, ◌*◌, ◌/◌, ◌%◌, ◌^◌, ◌<◌, ◌≡◌, refl, ap, arith, ◌==◌, if◌then◌else◌,
}
use native.Mathlib.Nat.{pow-suc}
use ecu_platform.Bits.{
  digit, digit-lt, digit-bit_xor, digit_above, digit_ext, bit_and_one, bit_xor, bit_xor-lt,
}
use ecu_platform.Crc32.{shift_bit, shift_bits, reflected_polynomial}

-- One round as arithmetic.
pub shift_bit-eq :
    (c : ℕ) → shift_bit c ≡ (if c % 2 == 0 then c / 2 else bit_xor (c / 2) reflected_polynomial)
unfolding shift_bit
shift_bit-eq c = rw (bit_and_one c) refl

pub shift_bit-lt : (c : ℕ) → c < 2 ^ 32 → shift_bit c < 2 ^ 32
shift_bit-lt c h = ground (arith, shift_bit-eq c, bit_xor-lt 32 (c / 2) reflected_polynomial)

pub shift_bits-lt : (n c : ℕ) → c < 2 ^ 32 → shift_bits n c < 2 ^ 32
unfolding shift_bits
shift_bits-lt zero c h = h
shift_bits-lt (suc n) c h = shift_bits-lt n (shift_bit c) (shift_bit-lt c h)

-- The digits move down by one, and the polynomial is added if a one falls out at the bottom.
pub digit-shift_bit :
    (c i : ℕ)
    → digit (shift_bit c) i
      ≡ (digit c (suc i) + (if c % 2 == 0 then 0 else digit reflected_polynomial i)) % 2
digit-shift_bit c i =
    ground (arith, shift_bit-eq c, digit-bit_xor (c / 2) reflected_polynomial i, digit-lt (c / 2) i)

-- The highest digit of the polynomial is one, so the digit that fell out can be told.
pub shift_bit-injective : (a b : ℕ) → a < 2 ^ 32 → b < 2 ^ 32 → shift_bit a ≡ shift_bit b → a ≡ b
shift_bit-injective a b ha hb e = digit_ext 32 a b ha hb λ i hi. at_digit i hi
  where
    same_low : a % 2 ≡ b % 2
    same_low = ground (
      arith,
      digit-shift_bit a 31,
      digit-shift_bit b 31,
      ap (λ c. digit c 31) e,
      digit_above 32 a 32 ha,
      digit_above 32 b 32 hb,
    )

    at_digit : (i : ℕ) → i < 32 → digit a i ≡ digit b i
    at_digit zero hi = same_low
    at_digit (suc i) hi = ground (
      arith,
      same_low,
      digit-shift_bit a i,
      digit-shift_bit b i,
      ap (λ c. digit c i) e,
      digit-lt a (suc i),
      digit-lt b (suc i),
    )

pub shift_bits-injective :
    (n a b : ℕ) → a < 2 ^ 32 → b < 2 ^ 32 → shift_bits n a ≡ shift_bits n b → a ≡ b
unfolding shift_bits
shift_bits-injective zero a b ha hb e = e
shift_bits-injective (suc n) a b ha hb e =
    shift_bit-injective a b ha hb
      (shift_bits-injective n (shift_bit a) (shift_bit b) (shift_bit-lt a ha) (shift_bit-lt b hb) e)

-- A round is linear in exclusive or.
pub shift_bit-bit_xor :
    (a b : ℕ)
    → a < 2 ^ 32
    → b < 2 ^ 32
    → shift_bit (bit_xor a b) ≡ bit_xor (shift_bit a) (shift_bit b)
shift_bit-bit_xor a b ha hb =
    digit_ext 32 _ _ (shift_bit-lt (bit_xor a b) (bit_xor-lt 32 a b ha hb))
      (bit_xor-lt 32 (shift_bit a) (shift_bit b) (shift_bit-lt a ha) (shift_bit-lt b hb))
      λ i hi. ground (
        arith,
        digit-shift_bit a i,
        digit-shift_bit b i,
        digit-shift_bit (bit_xor a b) i,
        digit-bit_xor (shift_bit a) (shift_bit b) i,
        digit-bit_xor a b (suc i),
        digit-bit_xor a b 0,
        digit-lt reflected_polynomial i,
        digit-lt a (suc i),
        digit-lt b (suc i),
      )

pub shift_bits-bit_xor :
    (n a b : ℕ)
    → a < 2 ^ 32
    → b < 2 ^ 32
    → shift_bits n (bit_xor a b) ≡ bit_xor (shift_bits n a) (shift_bits n b)
unfolding shift_bits
shift_bits-bit_xor zero a b ha hb = refl
shift_bits-bit_xor (suc n) a b ha hb =
    rw (shift_bit-bit_xor a b ha hb)
      (shift_bits-bit_xor n (shift_bit a) (shift_bit b) (shift_bit-lt a ha) (shift_bit-lt b hb))

-- While no one falls out, a round is a halving.
pub shift_bits_low : (n c : ℕ) → shift_bits n (c * 2 ^ n) ≡ c
unfolding shift_bits
shift_bits_low zero c = omega arith
shift_bits_low (suc n) c =
    let e : c * 2 ^ suc n ≡ c * 2 ^ n * 2 = omega (arith, ap (λ (t : ℕ). c * t) (pow-suc 2 n)) in
    let once : shift_bit (c * 2 ^ suc n) ≡ c * 2 ^ n =
      ground (arith, e, shift_bit-eq (c * 2 ^ suc n)) in
    rw once (shift_bits_low n c)
