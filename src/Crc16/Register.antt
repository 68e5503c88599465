-- ===== src/Crc16/Register.antt =====
-- The shift register of src/crc16.c, digit by digit: it stays in 16 bits, loses no information,
-- and is linear in exclusive or.
use ecu_platform.Base.{
  ℕ, zero, suc, ◌+◌, ◌-◌, ◌*◌, ◌/◌, ◌%◌, ◌^◌, ◌≤◌, ◌<◌, ◌≡◌, refl, ap, arith, ltb, if◌then◌else◌,
  u16,
}
use native.Mathlib.Nat.{pow-suc, one-le-pow}
use native.Mathlib.Decide.{dec_lt}
use ecu_platform.Bits.{
  digit, digit-lt, digit-shl, digit-shr, digit_mod, digit-pow, digit-bit_and, digit-bit_xor,
  digit_ext, bit_and, bit_xor, bit_and-le, bit_xor-lt,
}
use ecu_platform.Crc16.{shift_bit, shift_bits, process_byte, polynomial, top_bit}

-- Testing the top bit is comparing with it.
top_bit-eq : (c : ℕ) → c < 2 ^ 16 → bit_and c top_bit ≡ c / 2 ^ 15 * 2 ^ 15
top_bit-eq c h =
    digit_ext 16 (bit_and c top_bit) (c / 2 ^ 15 * 2 ^ 15) (omega (arith, bit_and-le c c top_bit))
      (omega arith)
      λ i hi.
        let back : (i - 15) + 15 ≡ (if ltb i 15 then 15 else i) = ground arith in
        ground (
          arith,
          digit-bit_and c top_bit i,
          digit-pow 15 i,
          digit-shl (c / 2 ^ 15) 15 i,
          digit-shr c 15 (i - 15),
          digit-lt c i,
          back,
        )

-- One round as arithmetic.
pub shift_bit-eq :
    (c : ℕ)
    → c < 2 ^ 16
    → shift_bit c ≡ (if ltb c (2 ^ 15) then c * 2 else bit_xor (c * 2 - 2 ^ 16) polynomial)
unfolding shift_bit
shift_bit-eq c h = ground (arith, top_bit-eq c h)

pub shift_bit-lt : (c : ℕ) → shift_bit c < 2 ^ 16
unfolding shift_bit
shift_bit-lt c = ground (arith, bit_xor-lt 16 (u16 (c * 2)) polynomial)

pub shift_bits-lt : (n c : ℕ) → c < 2 ^ 16 → shift_bits n c < 2 ^ 16
unfolding shift_bits
shift_bits-lt zero c h = h
shift_bits-lt (suc n) c h = shift_bits-lt n (shift_bit c) (shift_bit-lt c)

-- The digits move up by one, and the polynomial is added if a one falls out at the top.
pub digit-shift_bit :
    (c i : ℕ)
    → c < 2 ^ 16
    → i < 16
    → digit (shift_bit c) i
      ≡ ((if ltb i 1 then 0 else digit c (i - 1))
          + (if ltb c (2 ^ 15) then 0 else digit polynomial i))
        % 2
digit-shift_bit c i h hi = ground (
  arith,
  shift_bit-eq c h,
  digit-bit_xor (c * 2 - 2 ^ 16) polynomial i,
  digit-shl c 1 i,
  digit_mod 16 (c * 2) i,
  wrapped,
  digit-lt c (i - 1),
)
  where
    wrapped : digit (c * 2 % 2 ^ 16) i ≡ digit (if ltb c (2 ^ 15) then c * 2 else c * 2 - 2 ^ 16) i
    wrapped = ap (λ x. digit x i) (ground arith)

pub process_byte-lt : (c b : ℕ) → process_byte c b < 2 ^ 16
unfolding process_byte
process_byte-lt c b = shift_bits-lt 8 (u16 (bit_xor c (b * 2 ^ 8))) (omega arith)

-- The lowest digit of the polynomial is one, so the digit that fell out can be told.
pub shift_bit-injective : (a b : ℕ) → a < 2 ^ 16 → b < 2 ^ 16 → shift_bit a ≡ shift_bit b → a ≡ b
shift_bit-injective a b ha hb e = digit_ext 16 a b ha hb λ i hi. elim (dec_lt i 15) [
  | yes low ↦ ground (
    arith,
    same_top,
    digit-shift_bit a (i + 1) ha,
    digit-shift_bit b (i + 1) hb,
    ap (λ c. digit c (i + 1)) e,
    back i,
    digit-lt a i,
    digit-lt b i,
  )
  | no high ↦ let top : i ≡ 15 = omega arith in rw top (ground (arith, same_top))
]
  where
    back : (i : ℕ) → i + 1 - 1 ≡ i
    back i = omega arith

    same_top : ltb a (2 ^ 15) ≡ ltb b (2 ^ 15)
    same_top = ground (arith, digit-shift_bit a 0 ha, digit-shift_bit b 0 hb, ap (λ c. digit c 0) e)

pub shift_bits-injective :
    (n a b : ℕ) → a < 2 ^ 16 → b < 2 ^ 16 → shift_bits n a ≡ shift_bits n b → a ≡ b
unfolding shift_bits
shift_bits-injective zero a b ha hb e = e
shift_bits-injective (suc n) a b ha hb e =
    shift_bit-injective a b ha hb
      (shift_bits-injective n (shift_bit a) (shift_bit b) (shift_bit-lt a) (shift_bit-lt b) e)

xor_ltb_top :
    (a b : ℕ)
    → a < 2 ^ 16
    → b < 2 ^ 16
    → (if ltb (bit_xor a b) (2 ^ 15) then 0 else 1)
      ≡ ((if ltb a (2 ^ 15) then 0 else 1) + (if ltb b (2 ^ 15) then 0 else 1)) % 2
xor_ltb_top a b ha hb = ground (arith, digit-bit_xor a b 15, bit_xor-lt 16 a b ha hb)

-- A round is linear in exclusive or.
pub shift_bit-bit_xor :
    (a b : ℕ)
    → a < 2 ^ 16
    → b < 2 ^ 16
    → shift_bit (bit_xor a b) ≡ bit_xor (shift_bit a) (shift_bit b)
shift_bit-bit_xor a b ha hb =
    digit_ext 16 _ _ (shift_bit-lt (bit_xor a b))
      (bit_xor-lt 16 (shift_bit a) (shift_bit b) (shift_bit-lt a) (shift_bit-lt b))
      λ i hi. ground (
        arith,
        digit-shift_bit a i ha hi,
        digit-shift_bit b i hb hi,
        digit-shift_bit (bit_xor a b) i (bit_xor-lt 16 a b ha hb) hi,
        digit-bit_xor (shift_bit a) (shift_bit b) i,
        digit-bit_xor a b (i - 1),
        xor_ltb_top a b ha hb,
        digit-lt polynomial i,
        digit-lt a (i - 1),
        digit-lt b (i - 1),
      )

pub shift_bits-bit_xor :
    (n a b : ℕ)
    → a < 2 ^ 16
    → b < 2 ^ 16
    → shift_bits n (bit_xor a b) ≡ bit_xor (shift_bits n a) (shift_bits n b)
unfolding shift_bits
shift_bits-bit_xor zero a b ha hb = refl
shift_bits-bit_xor (suc n) a b ha hb =
    rw (shift_bit-bit_xor a b ha hb)
      (shift_bits-bit_xor n (shift_bit a) (shift_bit b) (shift_bit-lt a) (shift_bit-lt b))

-- While no one falls out, a round is a doubling.
pub shift_bits_low : (n c : ℕ) → c * 2 ^ n < 2 ^ 16 → shift_bits n c ≡ c * 2 ^ n
unfolding shift_bits
shift_bits_low zero c h = omega arith
shift_bits_low (suc n) c h =
    let e : c * 2 ^ suc n ≡ c * 2 * 2 ^ n = omega (arith, ap (λ (t : ℕ). c * t) (pow-suc 2 n)) in
    let room : c * 2 ≤ c * 2 * 2 ^ n = grind (arith, one-le-pow n 2) in
    let once : shift_bit c ≡ c * 2 = ground (arith, shift_bit-eq c) in
    rw (once, e) (shift_bits_low n (c * 2) (omega arith))
