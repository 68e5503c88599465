-- ===== src/Bits/Shift.antt =====
-- Shifts, low masks, single bits and complements, digit by digit.
use native.Mathlib.Nat.{pow-suc, div-add-mod, pow-succ', one-le-pow, div-div-eq-div-mul}
use ecu_platform.Base.{
  ℕ, zero, suc, ◌+◌, ◌-◌, ◌*◌, ◌/◌, ◌%◌, ◌^◌, ◌<◌, ◌≡◌, refl, ap, sym, arith, ltb, ◌==◌,
  if◌then◌else◌,
}
use ecu_platform.Bits.Digit.{digit, digit-zero}

double-pow : (x k : ℕ) → x * 2 ^ suc k ≡ 2 * (x * 2 ^ k)
double-pow x k = omega (arith, ap (λ (t : ℕ). x * t) (pow-suc 2 k))

-- x << k
pub digit-shl : (x k i : ℕ) → digit (x * 2 ^ k) i ≡ (if ltb i k then 0 else digit x (i - k))
digit-shl x zero i =
    let e : x * 2 ^ 0 ≡ x = omega arith in
    let f : i - 0 ≡ i = omega arith in rw (e, f) (ground arith)
digit-shl x (suc k) zero = ground (arith, double-pow x k)
digit-shl x (suc k) (suc i) =
    let half : x * 2 ^ suc k / 2 ≡ x * 2 ^ k = omega (arith, double-pow x k) in
    rw half (ground (arith, digit-shl x k i))

half-shr : (x k : ℕ) → x / 2 ^ suc k ≡ x / 2 / 2 ^ k
half-shr x k = rw pow-succ' (sym (div-div-eq-div-mul x 2 (2 ^ k)))

-- x >> k
pub digit-shr : (x k i : ℕ) → digit (x / 2 ^ k) i ≡ digit x (i + k)
digit-shr x zero i =
    rw ((let e : x / 2 ^ 0 ≡ x = omega arith in e), (let f : i + 0 ≡ i = omega arith in f))
digit-shr x (suc k) i =
    let f : i + suc k ≡ suc (i + k) = omega arith in rw (half-shr x k, f) (digit-shr (x / 2) k i)

-- 1 << p
pub digit-pow : (p i : ℕ) → digit (2 ^ p) i ≡ (if i == p then 1 else 0)
digit-pow zero zero = refl
digit-pow zero (suc i) = ground (arith, digit-zero i)
digit-pow (suc p) zero = ground (arith, pow-suc 2 p)
digit-pow (suc p) (suc i) =
    let half : 2 ^ suc p / 2 ≡ 2 ^ p = omega (arith, pow-suc 2 p) in
    rw half (ground (arith, digit-pow p i))

-- ~x in `w` bits
pub digit_not :
    (w x i : ℕ) → x < 2 ^ w → digit (2 ^ w - 1 - x) i ≡ (if ltb i w then 1 - digit x i else 0)
digit_not zero x i h =
    let e : 2 ^ 0 - 1 - x ≡ 0 = omega arith in rw e (ground (arith, digit-zero i))
digit_not (suc w) x zero h = ground (arith, pow-suc 2 w, one-le-pow w 2)
digit_not (suc w) x (suc i) h =
    let half : (2 ^ suc w - 1 - x) / 2 ≡ 2 ^ w - 1 - x / 2 =
      omega (arith, pow-suc 2 w, one-le-pow w 2) in
    rw half (ground (arith, pow-suc 2 w, digit_not w (x / 2) i))

-- The low `w` bits.
pub digit_mask : (w i : ℕ) → digit (2 ^ w - 1) i ≡ (if ltb i w then 1 else 0)
digit_mask w i =
    let e : 2 ^ w - 1 - 0 ≡ 2 ^ w - 1 = omega arith in
    rw (← e) (ground (arith, one-le-pow w 2, digit_not w 0 i, digit-zero i))

mod_half : (w x : ℕ) → x % 2 ^ suc w ≡ 2 * (x / 2 % 2 ^ w) + x % 2
mod_half w x = rw pow-succ' (
    omega (
      arith,
      rw (half-shr x w, pow-succ' 2 w) at (div-add-mod x (2 ^ suc w)),
      div-add-mod (x / 2) (2 ^ w),
    ))

-- A value cut to `w` bits.
pub digit_mod : (w x i : ℕ) → digit (x % 2 ^ w) i ≡ (if ltb i w then digit x i else 0)
digit_mod zero x i = let e : x % 2 ^ 0 ≡ 0 = omega arith in rw e (ground (arith, digit-zero i))
digit_mod (suc w) x zero = ground (arith, mod_half w x)
digit_mod (suc w) x (suc i) =
    let half : x % 2 ^ suc w / 2 ≡ x / 2 % 2 ^ w = omega (arith, mod_half w x) in
    rw half (ground (arith, digit_mod w (x / 2) i))
