-- ===== src/BitUtils/Mask.antt =====
-- The masks of src/bitUtils.c, digit by digit.
use native.Mathlib.Nat.{pow-le-pow_right, one-le-pow, pow-suc}
use native.Mathlib.Decide.{dec_lt}
use ecu_platform.Base.{
  ℕ, suc, ◌+◌, ◌-◌, ◌*◌, ◌^◌, ◌≤◌, ◌<◌, ◌≡◌, refl, arith, ltb, leb, ◌&&◌, ◌==◌, if◌then◌else◌,
  u32_shl,
}
use ecu_platform.Bits.{digit, digit-shl, digit_mod, digit_mask, digit-pow}
use ecu_platform.BitUtils.{generate_mask}

pub pow-lt : (n : ℕ) → n < 32 → 2 ^ n < 2 ^ 32
pow-lt n h = omega (
  arith,
  pow-le-pow_right {n = 2} (omega arith) {i = suc n} {j = 32} h,
  pow-suc 2 n,
  one-le-pow n 2,
)

pub generate_mask-eq : (n : ℕ) → n ≤ 32 → generate_mask n ≡ 2 ^ n - 1
unfolding generate_mask
generate_mask-eq n h = elim (dec_lt n 32) [
  | yes p ↦ ground (arith, pow-lt n p, one-le-pow n 2)
  | no p ↦ let e : n ≡ 32 = omega arith in rw e refl
]

pub digit-u32_shl :
    (x k i : ℕ)
    → digit (u32_shl x k) i ≡ (if ltb i 32 then (if ltb i k then 0 else digit x (i - k)) else 0)
digit-u32_shl x k i = ground (arith, digit_mod 32 (x * 2 ^ k) i, digit-shl x k i)

pub digit-bit_mask : (p i : ℕ) → p < 32 → digit (u32_shl 1 p) i ≡ (if i == p then 1 else 0)
digit-bit_mask p i h =
    let e : u32_shl 1 p ≡ 2 ^ p = omega (arith, pow-lt p h) in rw e (digit-pow p i)

-- The mask of a field of `n` bits from bit `s` on.
pub digit-field_mask :
    (s n i : ℕ)
    → s < 32
    → n ≤ 32 - s
    → digit (u32_shl (generate_mask n) s) i ≡ (if leb s i && ltb i (s + n) then 1 else 0)
digit-field_mask s n i hs hn =
    rw (generate_mask-eq n (omega arith))
      (ground (arith, digit-u32_shl (2 ^ n - 1) s i, digit_mask n (i - s)))
