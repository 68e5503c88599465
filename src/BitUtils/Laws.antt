-- ===== src/BitUtils/Laws.antt =====
-- How the functions of src/bitUtils.c fit together, and when they refuse.
use native.Mathlib.Nat.{one-le-pow, pow-le-pow_right}
use ecu_platform.Base.{
  ℕ, ◌+◌, ◌-◌, ◌^◌, ◌≤◌, ◌<◌, ◌≡◌, some, arith, ltb, leb, ◌&&◌, ◌||◌, ◌==◌, if◌then◌else◌, Bool, ap,
  ◌∙◌, not, ◌⊎◌,
}
use ecu_platform.Bits.{digit, digit_ext, digit-lt, digit_above}
use ecu_platform.BitUtils.{
  success, error_invalid_bit_position, error_invalid_start_bit, error_invalid_num_bits,
  error_invalid_value, set_bit, clear_bit, toggle_bit, is_bit_set, extract_bits, insert_bits,
  insert_checked,
}
use ecu_platform.BitUtils.Mask.{generate_mask-eq}
use ecu_platform.BitUtils.Digits.{
  StoresDigits, set_bit-StoresDigits, clear_bit-StoresDigits, toggle_bit-StoresDigits,
}
use ecu_platform.BitUtils.Fields.{
  is_bit_set_lem, insert_bits-StoresDigits, extract_bits-StoresDigits,
}

pow_grows : (n : ℕ) → n ≤ 32 → 2 ^ n ≤ 2 ^ 32
pow_grows n h = pow-le-pow_right {n = 2} (omega arith) h

-- For a valid bit range inside a 32-bit word and bits that fit it, the insertion succeeds, and
-- extracting the same range from the stored word gives the inserted bits back.
pub extract_bits-insert_bits :
    (value bits s n old old' : ℕ)
    → value < 2 ^ 32
    → s < 32
    → 1 ≤ n
    → n ≤ 32 - s
    → bits < 2 ^ n
    → (word : ℕ) × (insert_bits value bits s n (some old) ≡ (success, some word))
      × (extract_bits word s n (some old') ≡ (success, some bits))
extract_bits-insert_bits value bits s n old old' hv hs hn room hb =
    (i.word, i.stores, e.stores ∙ ap (λ w. (success, some w)) same)
  where
    i :
        StoresDigits
          (λ j. if leb s j && ltb j (s + n) then digit bits (j - s) else digit value j)
          (insert_bits value bits s n (some old))
    i = insert_bits-StoresDigits value s n old hv hs hn room bits hb

    e :
        StoresDigits
          (λ j. if ltb j n then digit i.word (j + s) else 0)
          (extract_bits i.word s n (some old'))
    e = extract_bits-StoresDigits i.word s n old' i.fits hs hn room

    shifted : (j : ℕ) → digit bits (j + s - s) ≡ digit bits j
    shifted j = let e : j + s - s ≡ j = omega arith in rw e

    same : e.word ≡ bits
    same =
        digit_ext 32 e.word bits e.fits (omega (arith, pow_grows n))
          λ j _. ground (arith, e.digits j, i.digits (j + s), shifted j, digit_above n bits j hb)

-- For a non-NULL result pointer, the status of an insertion is decided by the start bit, then the
-- width, then whether the bits fit the width; the word pointed at is left as it was unless the
-- status is success.
pub insert_bits_status :
    (value bits s n old : ℕ)
    → ((insert_bits value bits s n (some old)).0 ≡ (
        if leb 32 s
        then error_invalid_start_bit
        else if n == 0 || ltb 32 (s + n)
        then error_invalid_num_bits
        else if leb (2 ^ n) bits
        then error_invalid_value
        else success))
      × (((insert_bits value bits s n (some old)).0 ≡ success)
          ⊎ ((insert_bits value bits s n (some old)).1 ≡ some old))
unfolding insert_bits insert_checked
insert_bits_status value bits s n old =
    (ground (arith, generate_mask-eq n, one-le-pow n 2), ground arith)

-- A bit position of 32 or more is refused by set, clear, toggle and test, which then leave the
-- output as it was.
pub position_refused :
    (value p old : ℕ) (old' : Bool)
    → 32 ≤ p
    → (set_bit value p (some old) ≡ (error_invalid_bit_position, some old))
      × (clear_bit value p (some old) ≡ (error_invalid_bit_position, some old))
      × (toggle_bit value p (some old) ≡ (error_invalid_bit_position, some old))
      × (is_bit_set value p (some old') ≡ (error_invalid_bit_position, some old'))
unfolding set_bit clear_bit toggle_bit is_bit_set
position_refused value p old old' h = (ground arith, ground arith, ground arith, ground arith)

-- For a 32-bit word and positions p and q below 32, setting, clearing and toggling bit p succeed,
-- and the test of bit q on the three results sees bit q set, cleared or toggled where q is p, and
-- as it was where it is not.
pub is_bit_set-updates :
    (value p q old : ℕ) (old' : Bool)
    → value < 2 ^ 32
    → p < 32
    → q < 32
    → (w x y : ℕ) × (set_bit value p (some old) ≡ (success, some w))
      × (clear_bit value p (some old) ≡ (success, some x))
      × (toggle_bit value p (some old) ≡ (success, some y))
      × (is_bit_set w q (some old') ≡ (success, some ((q == p) || (digit value q == 1))))
      × (is_bit_set x q (some old') ≡ (success, some (not (q == p) && (digit value q == 1))))
      × (is_bit_set y q (some old')
          ≡ (success, some (if q == p then not (digit value q == 1) else digit value q == 1)))
is_bit_set-updates value p q old old' hv hp hq = (
  s.word,
  c.word,
  t.word,
  s.stores,
  c.stores,
  t.stores,
  ground (arith, is_bit_set_lem s.word q s.fits hq old', s.digits q),
  ground (arith, is_bit_set_lem c.word q c.fits hq old', c.digits q),
  ground (arith, is_bit_set_lem t.word q t.fits hq old', t.digits q, digit-lt value q),
)
  where
    s : StoresDigits (λ i. if i == p then 1 else digit value i) (set_bit value p (some old))
    s = set_bit-StoresDigits value p old hv hp

    c : StoresDigits (λ i. if i == p then 0 else digit value i) (clear_bit value p (some old))
    c = clear_bit-StoresDigits value p old hv hp

    t :
        StoresDigits
          (λ i. if i == p then 1 - digit value i else digit value i)
          (toggle_bit value p (some old))
    t = toggle_bit-StoresDigits value p old hv hp
