-- ===== src/BitUtils/Digits.antt =====
-- What each function of src/bitUtils.c does to every digit of the word.
use ecu_platform.Base.{
  ℕ, ◌-◌, ◌^◌, ◌<◌, ◌≡◌, Option, some, arith, ◌==◌, if◌then◌else◌, u32_not, u32_shl,
}
use ecu_platform.Bits.{
  digit, digit-lt, digit_not, digit_above, digit-bit_and, digit-bit_or, digit-bit_xor, bit_and,
  bit_or, bit_xor, bit_or-lt, bit_xor-lt, bit_and-le,
}
use ecu_platform.BitUtils.{BitUtilsStatus, success, set_bit, clear_bit, toggle_bit}
use ecu_platform.BitUtils.Mask.{digit-bit_mask}

-- `out` is a success that stores a 32-bit word whose digit at each position is `f` of it.
pub record StoresDigits (f : ℕ → ℕ) (out : BitUtilsStatus × Option ℕ) : Type 0 where
  pub word : ℕ
  pub stores : out ≡ (success, some word)
  pub fits : word < 2 ^ 32
  pub digits : (i : ℕ) → digit word i ≡ f i

module _ (value p old : ℕ) (hv : value < 2 ^ 32) (hp : p < 32) where
  pub set_bit-StoresDigits :
      StoresDigits (λ i. if i == p then 1 else digit value i) (set_bit value p (some old))
  unfolding set_bit
  set_bit-StoresDigits = record {
    word = bit_or value (u32_shl 1 p);
    stores = ground arith;
    fits = bit_or-lt 32 value (u32_shl 1 p) hv (omega arith);
    digits = λ i.
        ground (arith, digit-bit_or value (u32_shl 1 p) i, digit-bit_mask p i hp, digit-lt value i);
  }

  pub clear_bit-StoresDigits :
      StoresDigits (λ i. if i == p then 0 else digit value i) (clear_bit value p (some old))
  unfolding clear_bit
  clear_bit-StoresDigits = record {
    word = bit_and value (u32_not (u32_shl 1 p));
    stores = ground arith;
    fits = omega (arith, bit_and-le value value (u32_not (u32_shl 1 p)));
    digits = λ i. ground (
      arith,
      digit-bit_and value (u32_not (u32_shl 1 p)) i,
      digit_not 32 (u32_shl 1 p) i,
      digit-bit_mask p i hp,
      digit-lt value i,
      digit_above 32 value i hv,
    );
  }

  pub toggle_bit-StoresDigits :
      StoresDigits
        (λ i. if i == p then 1 - digit value i else digit value i)
        (toggle_bit value p (some old))
  unfolding toggle_bit
  toggle_bit-StoresDigits = record {
    word = bit_xor value (u32_shl 1 p);
    stores = ground arith;
    fits = bit_xor-lt 32 value (u32_shl 1 p) hv (omega arith);
    digits = λ i.
        ground
          (arith, digit-bit_xor value (u32_shl 1 p) i, digit-bit_mask p i hp, digit-lt value i);
  }
