-- ===== src/Crc32/Standard.antt =====
-- The reflected byte-wise algorithm of src/crc32.c against the bit-wise model of its checksum.
use native.Mathlib.Nat.{pow-suc}
use native.Mathlib.Decide.{dec_lt}
use ecu_platform.Base.{
  ℕ, zero, suc, ◌+◌, ◌-◌, ◌*◌, ◌/◌, ◌%◌, ◌^◌, ◌≤◌, ◌<◌, ◌≡◌, refl, ap, sym, ◌∙◌, arith, ◌==◌, [],
  ◌∷◌, Bytes, IsBytes, length, some, done, slice_all, fold, fold-append,
}
use ecu_platform.Bits.{
  digit, digit-lt, digit_above, digit_ext, digit_join, digit-shl, digit-shr, digit_mod,
  digit-bit_xor, bit_xor, bit_xor-lt,
}
use ecu_platform.Crc32.{
  success, compute, shift_bit, shift_bits, process_byte, checksum, initial_value, final_xor,
  reflected_polynomial,
}
use ecu_platform.Crc32.Register.{digit-shift_bit, shift_bit-lt, shift_bit-bit_xor, shift_bits_low}
use ecu_platform.Crc32.Detect.{bit_xor_zero}
use ecu_platform.Crc32.Compute.{compute_lem}
use ecu_platform.Catalogue.{feed, low_first, digits_of, reflect, crc32_iso_hdlc}

reflect-lt : (n x : ℕ) → reflect n x < 2 ^ n
unfolding reflect
reflect-lt zero x = omega arith
reflect-lt (suc n) x =
    omega (arith, reflect-lt n (x / 2), pow-suc 2 n, flag (x % 2) (2 ^ n) (omega arith))
  where
    flag : (b p : ℕ) → b < 2 → b * p ≤ p
    flag zero p h = omega arith
    flag (suc zero) p h = omega arith
    flag (suc (suc b)) p h = absurd (omega arith)

digit-reflect : (n x i : ℕ) → i < n → digit (reflect n x) i ≡ digit x (n - 1 - i)
unfolding reflect
digit-reflect zero x i h = absurd (omega arith)
digit-reflect (suc n) x i h = elim (dec_lt i n) [
  | yes low ↦
      let index : suc n - 1 - i ≡ suc (n - 1 - i) = omega arith in
      rw index (
        ground (
          arith,
          digit_join (x % 2) (reflect n (x / 2)) n i (reflect-lt n (x / 2)),
          digit-reflect n (x / 2) i low,
        ))
  | no high ↦
      let last : i ≡ n = omega arith in
      let index : suc n - 1 - n ≡ 0 = omega arith in
      rw (last, index)
        (ground (
          arith,
          digit_join (x % 2) (reflect n (x / 2)) n n (reflect-lt n (x / 2)),
          ap (digit (x % 2)) {x = n - n} {y = 0} (omega arith),
        ))
]

abbrev generator : ℕ
generator = 0x04c11db7

abbrev step : ℕ → ℕ → ℕ
step = feed 31 generator

generator_reflected : reflect 32 generator ≡ reflected_polynomial
unfolding reflect
generator_reflected = refl

step-lt : (s b : ℕ) → step s b < 2 ^ 32
step-lt s b = ground (arith, bit_xor-lt 32 (s * 2 % 2 ^ 32) generator)

top-eq :
    (s b : ℕ)
    → s < 2 ^ 32
    → b < 2
    → (bit_xor (reflect 32 s) b % 2 == 0) ≡ ((s / 2 ^ 31 + b) % 2 == 0)
top-eq s b hs hb =
    let same : (s / 2 ^ 31 + b) % 2 ≡ bit_xor (reflect 32 s) b % 2 =
      ground (arith, digit-bit_xor (reflect 32 s) b 0, digit-reflect 32 s 0) in
    rw same refl

digit-generator : (i : ℕ) → i < 32 → digit reflected_polynomial i ≡ digit generator (31 - i)
digit-generator i h = ap (λ x. digit x i) (sym generator_reflected) ∙ digit-reflect 32 generator i h

-- A digit fed to the register is combined with the low digit of the reflected one, before a round.
reflect-step :
    (s b : ℕ) → s < 2 ^ 32 → b < 2 → reflect 32 (step s b) ≡ shift_bit (bit_xor (reflect 32 s) b)
reflect-step s b hs hb =
    let mixed : bit_xor (reflect 32 s) b < 2 ^ 32 =
      bit_xor-lt 32 (reflect 32 s) b (reflect-lt 32 s) (omega arith) in
    digit_ext 32 _ _ (reflect-lt 32 (step s b)) (shift_bit-lt (bit_xor (reflect 32 s) b) mixed)
      λ i hi. at_digit i hi
  where
    at_digit :
        (i : ℕ)
        → i < 32
        → digit (reflect 32 (step s b)) i ≡ digit (shift_bit (bit_xor (reflect 32 s) b)) i
    at_digit i hi = ground (
      arith,
      digit-reflect 32 (step s b) i hi,
      top-eq s b hs hb,
      digit-shift_bit (bit_xor (reflect 32 s) b) i,
      digit-generator i hi,
      digit-bit_xor (reflect 32 s) b (suc i),
      digit_above 1 b (suc i) hb,
      digit-reflect 32 s (suc i),
      digit_above 32 (reflect 32 s) (suc i) (reflect-lt 32 s),
      digit-bit_xor (s * 2 % 2 ^ 32) generator (31 - i),
      digit_mod 32 (s * 2) (31 - i),
      digit-shl s 1 (31 - i),
      ap (digit s) {x = 31 - suc i} {y = 31 - i - 1},
      digit-lt s (31 - i - 1),
    )

-- The lowest digit of `v` and the others.
split-eq :
    (r v : ℕ) → r < 2 ^ 32 → v < 2 ^ 32 → bit_xor r v ≡ bit_xor (bit_xor r (v % 2)) (v / 2 * 2 ^ 1)
split-eq r v hr hv =
    digit_ext 32 _ _ (bit_xor-lt 32 r v hr hv)
      (bit_xor-lt 32 _ (v / 2 * 2 ^ 1) (bit_xor-lt 32 r (v % 2) hr (omega arith)) (omega arith))
      λ i hi. ground (
        arith,
        digit-bit_xor r v i,
        digit-bit_xor (bit_xor r (v % 2)) (v / 2 * 2 ^ 1) i,
        digit-bit_xor r (v % 2) i,
        digit-shl (v / 2) 1 i,
        digit_mod 1 v i,
        digit-shr v 1 (i - 1),
        ap (digit v) {x = i - 1 + 1} {y = i},
        digit-lt r i,
        digit-lt v i,
      )

-- Feeding digits is combining them with the reflected register, and as many rounds.
feed_bits :
    (n s v : ℕ)
    → s < 2 ^ 32
    → v < 2 ^ n
    → v < 2 ^ 32
    → reflect 32 (fold step s (low_first n v)) ≡ shift_bits n (bit_xor (reflect 32 s) v)
unfolding shift_bits
feed_bits zero s v hs hn hv =
    let nothing : v ≡ 0 = omega arith in
    rw nothing (sym (bit_xor_zero (reflect 32 s) (reflect-lt 32 s)))
feed_bits (suc n) s v hs hn hv =
    let r = reflect 32 s in
    let hr = reflect-lt 32 s in
    let mixed : bit_xor r (v % 2) < 2 ^ 32 = bit_xor-lt 32 r (v % 2) hr (omega arith) in
    let once : shift_bit (v / 2 * 2 ^ 1) ≡ v / 2 = shift_bits_low 1 (v / 2) in
    rw
      (
        split-eq r v hr hv,
        shift_bit-bit_xor (bit_xor r (v % 2)) (v / 2 * 2 ^ 1) mixed (omega arith),
        once,
        ← (reflect-step s (v % 2) hs (omega arith)),
      )
      (feed_bits n (step s (v % 2)) (v / 2) (step-lt s (v % 2)) (omega (arith, pow-suc 2 n))
        (omega arith))

fold-step-lt : (bits : Bytes) (s : ℕ) → s < 2 ^ 32 → fold step s bits < 2 ^ 32
fold-step-lt [] s h = h
fold-step-lt (b ∷ bits) s h = fold-step-lt bits (step s b) (step-lt s b)

feed_message :
    (bs : Bytes) (s : ℕ)
    → IsBytes bs
    → s < 2 ^ 32
    → reflect 32 (fold step s (digits_of (low_first 8) bs)) ≡ fold process_byte (reflect 32 s) bs
unfolding process_byte
feed_message [] s h hs = refl
feed_message (b ∷ bs) s h hs =
    let after = fold step s (low_first 8 b) in
    let rest = feed_message bs after h.1 (fold-step-lt (low_first 8 b) s hs) in
    ap (reflect 32) (fold-append step s (low_first 8 b) (digits_of (low_first 8) bs))
    ∙ rest
    ∙ ap (λ r. fold process_byte r bs) (feed_bits 8 s b hs h.0 (omega (arith, h.0)))

start_reflected : reflect 32 initial_value ≡ initial_value
unfolding reflect
start_reflected = refl

-- On any message of bytes, the compute function of CRC-32, with its reflected polynomial and its
-- byte-wise rounds, gives CRC-32/ISO-HDLC as the catalogue defines it: the register fed with the
-- reflected message bit by bit under the generator 0x04c11db7, reflected and complemented at the
-- end.
pub compute-crc32_iso_hdlc :
    (message : Bytes) (old : ℕ)
    → IsBytes message
    → compute (some message) (length message) (some old)
      ≡ done (success, some (crc32_iso_hdlc message))
compute-crc32_iso_hdlc message old h =
    compute_lem message (length message) old (omega arith)
    ∙ ap (λ m. done (success, some (checksum m))) (slice_all message)
    ∙ ap (λ r. done (success, some (bit_xor r final_xor)))
        (ap (λ r. fold process_byte r message) (sym start_reflected)
          ∙ sym (feed_message message initial_value h (omega arith)))
