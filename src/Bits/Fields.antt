-- ===== src/Bits/Fields.antt =====
-- Fields of a word: the low bits by a mask, and two fields joined by `|`.
use native.Mathlib.Nat.{mul-add-mod_self_right, mul-add-div_right, div-eq_of_lt, mod-eq_of_lt}
use ecu_platform.Base.{
  ℕ, ◌+◌, ◌-◌, ◌*◌, ◌/◌, ◌%◌, ◌^◌, ◌≤◌, ◌<◌, ◌≡◌, ap, ◌∙◌, arith, ltb, if◌then◌else◌,
}
use Prim.Native.Nat.{bit_and, bit_or}
use ecu_platform.Bits.Digit.{
  digit, digit-lt, digit_ext, digit-bit_and, digit-bit_or, digit_above, bit_and-le, bit_or-lt,
}
use ecu_platform.Bits.Shift.{digit-shl, digit-shr, digit_mod, digit_mask}

-- x & 0xff
pub bit_and_byte : (x : ℕ) → x < 2 ^ 16 → bit_and x 0xff ≡ x % 2 ^ 8
bit_and_byte x h =
    digit_ext 16 _ _ (omega (arith, bit_and-le x x 0xff)) (omega arith)
      λ i hi. ground (arith, digit-bit_and x 0xff i, digit_mask 8 i, digit_mod 8 x i, digit-lt x i)

-- Two fields next to each other.
pub digit_join :
    (h l n i : ℕ)
    → l < 2 ^ n
    → digit (h * 2 ^ n + l) i ≡ (if ltb i n then digit l i else digit h (i - n))
digit_join h l n i hl = ground (
  arith,
  digit_mod n (h * 2 ^ n + l) i,
  digit-shr (h * 2 ^ n + l) n (i - n),
  low,
  high,
  ap (digit (h * 2 ^ n + l)) {x = i - n + n} {y = i},
)
  where
    low : digit ((h * 2 ^ n + l) % 2 ^ n) i ≡ digit l i
    low = ap (λ x. digit x i) (mul-add-mod_self_right h (2 ^ n) l ∙ mod-eq_of_lt hl)

    pos : 1 ≤ 2 ^ n
    pos = omega arith

    high : digit ((h * 2 ^ n + l) / 2 ^ n) (i - n) ≡ digit h (i - n)
    high = ap (λ x. digit x (i - n)) (mul-add-div_right pos h l ∙ omega (arith, div-eq_of_lt hl))

-- (h << 8) | l, of two bytes.
pub bit_or_bytes : (h l : ℕ) → h < 2 ^ 8 → l < 2 ^ 8 → bit_or (h * 2 ^ 8) l ≡ h * 2 ^ 8 + l
bit_or_bytes h l hh hl =
    digit_ext 16 _ _ (bit_or-lt 16 (h * 2 ^ 8) l (omega arith) (omega arith)) (omega arith) λ i hi.
      ground (
        arith,
        digit-bit_or (h * 2 ^ 8) l i,
        digit-shl h 8 i,
        digit_join h l 8 i hl,
        digit_above 8 l i hl,
      )
