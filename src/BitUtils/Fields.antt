-- ===== src/BitUtils/Fields.antt =====
-- Reading one bit, and the bit fields of src/bitUtils.c.
use native.Mathlib.Nat.{div-le_self}
use ecu_platform.Base.{
  ℕ, ◌+◌, ◌-◌, ◌/◌, ◌^◌, ◌≤◌, ◌<◌, ◌≡◌, some, arith, ltb, leb, ◌&&◌, ◌==◌, if◌then◌else◌, u32_not,
  u32_shl, Bool, ◌≢◌, ap,
}
use ecu_platform.Bits.{
  digit, digit-zero, digit-lt, digit-shr, digit_not, digit_above, digit-bit_and, digit-bit_or,
  bit_and, bit_or, bit_or-lt, bit_and-le, digit_ext,
}
use ecu_platform.BitUtils.{
  success, is_bit_set, extract_bits, insert_bits, generate_mask, insert_checked,
}
use ecu_platform.BitUtils.Mask.{digit-bit_mask, digit-field_mask, digit-u32_shl, generate_mask-eq}
use ecu_platform.BitUtils.Digits.{StoresDigits}

module _ (value p : ℕ) (hv : value < 2 ^ 32) (hp : p < 32) where
  abbrev picked : ℕ
  picked = bit_and value (u32_shl 1 p)

  digit-picked : (i : ℕ) → digit picked i ≡ (if i == p then digit value i else 0)
  digit-picked i =
      ground (arith, digit-bit_and value (u32_shl 1 p) i, digit-bit_mask p i hp, digit-lt value i)

  picked_zero : digit value p ≡ 0 → picked ≡ 0
  picked_zero h =
      digit_ext 32 picked 0 (omega (arith, bit_and-le value value (u32_shl 1 p))) (omega arith)
        λ i _. ground (arith, digit-picked i, digit-zero i, ap (digit value) {x = i} {y = p})

  picked_ne_zero : digit value p ≡ 1 → picked ≢ 0
  picked_ne_zero h e = ground (arith, digit-picked p, digit-zero p, ap (λ w. digit w p) e)

  pub is_bit_set_lem :
      (old : Bool) → is_bit_set value p (some old) ≡ (success, some (digit value p == 1))
  unfolding is_bit_set
  is_bit_set_lem old = ground (arith, picked_zero, picked_ne_zero, digit-lt value p)

module _ (value s n old : ℕ) (hv : value < 2 ^ 32) (hs : s < 32) (hn : 1 ≤ n)
    (room : n ≤ 32 - s) where
  abbrev mask : ℕ
  mask = u32_shl (generate_mask n) s

  -- For a 32-bit word and a valid bit range, the extraction succeeds with a word whose binary
  -- digits are those of the range, moved down to position 0, and zeros above.
  pub extract_bits-StoresDigits :
      StoresDigits
        (λ i. if ltb i n then digit value (i + s) else 0)
        (extract_bits value s n (some old))
  unfolding extract_bits
  extract_bits-StoresDigits = record {
    word = bit_and value mask / 2 ^ s;
    stores = ground arith;
    fits = omega (arith, bit_and-le value value mask, div-le_self (bit_and value mask) (2 ^ s));
    digits = λ i. ground (
      arith,
      digit-shr (bit_and value mask) s i,
      digit-bit_and value mask (i + s),
      digit-field_mask s n (i + s) hs room,
      digit-lt value (i + s),
    );
  }

  abbrev inserted : ℕ → ℕ
  inserted bits = bit_or (bit_and value (u32_not mask)) (bit_and (u32_shl bits s) mask)

  digit-inserted :
      (bits i : ℕ)
      → digit (inserted bits) i
        ≡ (if leb s i && ltb i (s + n) then digit bits (i - s) else digit value i)
  digit-inserted bits i = ground (
    arith,
    digit-bit_or (bit_and value (u32_not mask)) (bit_and (u32_shl bits s) mask) i,
    digit-bit_and value (u32_not mask) i,
    digit-bit_and (u32_shl bits s) mask i,
    digit_not 32 mask i,
    digit-field_mask s n i hs room,
    digit-u32_shl bits s i,
    digit-lt value i,
    digit-lt bits (i - s),
    digit_above 32 value i hv,
  )

  -- For a 32-bit word, a valid bit range and bits that fit it, the insertion succeeds with a
  -- 32-bit word whose binary digits are those of the bits inside the range and those of the old
  -- word everywhere else.
  pub insert_bits-StoresDigits :
      (bits : ℕ)
      → bits < 2 ^ n
      → StoresDigits
          (λ i. if leb s i && ltb i (s + n) then digit bits (i - s) else digit value i)
          (insert_bits value bits s n (some old))
  unfolding insert_bits insert_checked
  insert_bits-StoresDigits bits hb = record {
    word = inserted bits;
    stores = ground (arith, generate_mask-eq n);
    fits =
        bit_or-lt 32 (bit_and value (u32_not mask)) (bit_and (u32_shl bits s) mask)
          (omega (arith, bit_and-le value value (u32_not mask)))
          (omega (arith, bit_and-le (u32_shl bits s) (u32_shl bits s) mask));
    digits = digit-inserted bits;
  }
