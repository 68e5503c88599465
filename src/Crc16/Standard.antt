-- ===== src/Crc16/Standard.antt =====
-- The byte-wise algorithm of src/crc16.c against the bit-wise model of its checksum.
use native.Mathlib.Nat.{pow-suc, one-le-pow, mod-lt, mod-add-div}
use ecu_platform.Base.{
  ℕ, zero, suc, ◌+◌, ◌-◌, ◌*◌, ◌/◌, ◌%◌, ◌^◌, ◌≤◌, ◌<◌, ◌≡◌, refl, ap, sym, ◌∙◌, arith, ltb, ◌==◌,
  [], ◌∷◌, Bytes, IsBytes, length, some, done, slice_all, fold, fold-append,
}
use ecu_platform.Bits.{
  digit, digit-zero, digit-lt, digit_ext, digit-shl, digit_mod, digit-shr, digit-bit_xor, bit_xor,
  bit_xor-lt,
}
use ecu_platform.Crc16.{
  success, compute, shift_bit, shift_bits, process_byte, checksum, initial_value, polynomial,
}
use ecu_platform.Crc16.Register.{
  shift_bit-lt, digit-shift_bit, shift_bit-bit_xor, shift_bits_low, process_byte-lt,
}
use ecu_platform.Crc16.Compute.{compute_lem}
use ecu_platform.Catalogue.{feed, high_first, digits_of, crc16_ccitt_false}

abbrev step : ℕ → ℕ → ℕ
step = feed 15 polynomial

bit_xor_zero : (c : ℕ) → c < 2 ^ 16 → bit_xor c 0 ≡ c
bit_xor_zero c h =
    digit_ext 16 _ _ (bit_xor-lt 16 c 0 h (omega arith)) h
      λ i hi. ground (arith, digit-bit_xor c 0 i, digit-zero i, digit-lt c i)

step-lt : (c b : ℕ) → step c b < 2 ^ 16
step-lt c b = ground (arith, bit_xor-lt 16 (c * 2 % 2 ^ 16) polynomial)

mixed-lt : (c b : ℕ) → c < 2 ^ 16 → b < 2 → bit_xor c (b * 2 ^ 15) < 2 ^ 16
mixed-lt c b hc hb = bit_xor-lt 16 c (b * 2 ^ 15) hc (omega arith)

top-eq :
    (c b : ℕ)
    → c < 2 ^ 16
    → b < 2
    → ltb (bit_xor c (b * 2 ^ 15)) (2 ^ 15) ≡ ((c / 2 ^ 15 + b) % 2 == 0)
top-eq c b hc hb =
    let one : b * 2 ^ 15 / 2 ^ 15 ≡ b = omega arith in
    ground (arith, one, digit-bit_xor c (b * 2 ^ 15) 15, mixed-lt c b hc hb)

-- A digit is fed by combining it with the top digit before a round.
step-eq : (c b : ℕ) → c < 2 ^ 16 → b < 2 → step c b ≡ shift_bit (bit_xor c (b * 2 ^ 15))
step-eq c b hc hb = digit_ext 16 _ _ (step-lt c b) (shift_bit-lt (bit_xor c (b * 2 ^ 15))) λ i hi.
    ground (
      arith,
      top-eq c b hc hb,
      digit-shift_bit (bit_xor c (b * 2 ^ 15)) i (mixed-lt c b hc hb) hi,
      digit-bit_xor c (b * 2 ^ 15) (i - 1),
      digit-shl b 15 (i - 1),
      digit-bit_xor (c * 2 % 2 ^ 16) polynomial i,
      digit_mod 16 (c * 2) i,
      digit-shl c 1 i,
      digit-lt c (i - 1),
    )

room : (l n m : ℕ) → l < 2 ^ n → l * 2 ^ m < 2 ^ (n + m)
room l n zero h = let index : n + 0 ≡ n = omega arith in rw index (omega arith)
room l n (suc m) h =
    let index : n + suc m ≡ suc (n + m) = omega arith in
    rw index (omega (arith, room l n m h, pow-suc 2 (n + m), ap (λ (t : ℕ). l * t) (pow-suc 2 m)))

-- The top digit of `v` and the others.
split :
    (c v n m i : ℕ)
    → n + m ≡ 15
    → v < 2 ^ suc n
    → i < 16
    → digit (bit_xor c (v * 2 ^ m)) i
      ≡ digit (bit_xor (bit_xor c (v / 2 ^ n * 2 ^ 15)) (v % 2 ^ n * 2 ^ m)) i
split c v n m i e h hi = ground (
  arith,
  digit-bit_xor c (v * 2 ^ m) i,
  digit-bit_xor (bit_xor c (v / 2 ^ n * 2 ^ 15)) (v % 2 ^ n * 2 ^ m) i,
  digit-bit_xor c (v / 2 ^ n * 2 ^ 15) i,
  digit-shl v m i,
  digit-shl (v / 2 ^ n) 15 i,
  digit-shl (v % 2 ^ n) m i,
  digit_mod n v (i - m),
  digit-shr v n (i - 15),
  ap (digit v) {x = i - 15 + n} {y = i - m},
  digit-lt c i,
  digit-lt v (i - m),
)

top_digit-lt : (v p : ℕ) → 1 ≤ p → v < p * 2 → v / p < 2
top_digit-lt v p h k = grind (arith, mod-add-div v p)

halves : (v n : ℕ) → v < 2 ^ suc n → (v / 2 ^ n < 2) × (v % 2 ^ n < 2 ^ n)
halves v n h =
    let pos : 1 ≤ 2 ^ n = omega (arith, one-le-pow n 2) in
    (top_digit-lt v (2 ^ n) pos (omega (arith, pow-suc 2 n)), mod-lt v pos)

room_at : (l n m k : ℕ) → n + m ≡ k → l < 2 ^ n → l * 2 ^ m < 2 ^ k
room_at l n m k e h = rw (← e) (room l n m h)

split-eq :
    (c v n m : ℕ)
    → n + m ≡ 15
    → c < 2 ^ 16
    → v < 2 ^ suc n
    → bit_xor c (v * 2 ^ m) ≡ bit_xor (bit_xor c (v / 2 ^ n * 2 ^ 15)) (v % 2 ^ n * 2 ^ m)
split-eq c v n m e hc hv =
    let low = room_at (v % 2 ^ n) n m 15 e (halves v n hv).1 in
    digit_ext 16 _ _ (bit_xor-lt 16 c (v * 2 ^ m) hc (room_at v (suc n) m 16 (omega arith) hv))
      (bit_xor-lt 16 _ (v % 2 ^ n * 2 ^ m) (mixed-lt c (v / 2 ^ n) hc (halves v n hv).0)
        (omega arith))
      λ i hi. split c v n m i e hv hi

-- Feeding digits is combining them with the top of the register, and as many rounds.
feed_bits :
    (n m c v : ℕ)
    → n + m ≡ 16
    → c < 2 ^ 16
    → v < 2 ^ n
    → fold step c (high_first n v) ≡ shift_bits n (bit_xor c (v * 2 ^ m))
unfolding shift_bits
feed_bits zero m c v e hc hv =
    let nothing : v * 2 ^ m ≡ 0 =
      ap (λ (t : ℕ). t * 2 ^ m) {x = v} {y = 0} (omega arith) ∙ omega arith in
    rw nothing (sym (bit_xor_zero c hc))
feed_bits (suc n) m c v e hc hv =
    let h = v / 2 ^ n in
    let l = v % 2 ^ n in
    let parts = halves v n hv in
    let low : l * 2 ^ m < 2 ^ 15 = room_at l n m 15 (omega arith) parts.1 in
    let once : shift_bit (l * 2 ^ m) ≡ l * 2 ^ suc m =
      shift_bits_low 1 (l * 2 ^ m) (omega arith)
      ∙ omega (arith, ap (λ (t : ℕ). l * t) (pow-suc 2 m)) in
    rw
      (
        split-eq c v n m (omega arith) hc hv,
        shift_bit-bit_xor (bit_xor c (h * 2 ^ 15)) (l * 2 ^ m) (mixed-lt c h hc parts.0)
            (omega arith),
        once,
        ← (step-eq c h hc parts.0),
      )
      (feed_bits n (suc m) (step c h) l (omega arith) (step-lt c h) parts.1)

feed_byte : (c b : ℕ) → c < 2 ^ 16 → b < 2 ^ 8 → fold step c (high_first 8 b) ≡ process_byte c b
unfolding process_byte
feed_byte c b hc hb =
    feed_bits 8 8 c b refl hc hb
    ∙ ap (shift_bits 8) (omega (arith, bit_xor-lt 16 c (b * 2 ^ 8) hc (omega arith)))

feed_message :
    (bs : Bytes) (c : ℕ)
    → IsBytes bs
    → c < 2 ^ 16
    → fold step c (digits_of (high_first 8) bs) ≡ fold process_byte c bs
feed_message [] c h hc = refl
feed_message (b ∷ bs) c h hc =
    fold-append step c (high_first 8 b) (digits_of (high_first 8) bs)
    ∙ rw (feed_byte c b hc h.0) (feed_message bs (process_byte c b) h.1 (process_byte-lt c b))

-- On any message of bytes, the compute function of CRC-16, with its byte-wise rounds, gives
-- CRC-16/CCITT-FALSE as the catalogue defines it: the register fed with the message bit by bit,
-- the highest first, under the generator 0x1021.
pub compute-crc16_ccitt_false :
    (message : Bytes) (old : ℕ)
    → IsBytes message
    → compute (some message) (length message) (some old)
      ≡ done (success, some (crc16_ccitt_false message))
compute-crc16_ccitt_false message old h =
    compute_lem message (length message) old (omega arith)
    ∙ ap (λ m. done (success, some (checksum m))) (slice_all message)
    ∙ ap (λ c. done (success, some c)) (sym (feed_message message initial_value h (omega arith)))
