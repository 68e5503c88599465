-- ===== src/Crc32/Detect.antt =====
-- The checksum of src/crc32.c on messages with up to four adjacent bytes changed.
use native.Mathlib.Nat.{pow-suc, one-le-pow}
use ecu_platform.Base.{
  slice_all, ℕ, zero, suc, ◌+◌, ◌*◌, ◌^◌, ◌≤◌, ◌<◌, ◌≡◌, ◌≢◌, refl, ap, ap₂, sym, ◌∙◌, arith, [],
  ◌∷◌, ◌++◌, Bytes, IsBytes, length, some, done, fold, fold-append,
}
use ecu_platform.Bits.{
  digit, digit-zero, digit-lt, digit_above, digit_join, digit-bit_xor, digit_ext, digit-shl,
  bit_xor, bit_xor-lt,
}
use ecu_platform.Crc32.{
  error_mismatch, shift_bit, shift_bits, process_byte, checksum, verify, initial_value, final_xor,
}
use ecu_platform.Crc32.Register.{
  shift_bits-lt, shift_bits-injective, shift_bits-bit_xor, shift_bits_low,
}
use ecu_platform.Crc32.Compute.{verify-checksum}

-- Up to four bytes as one number, the first lowest.
abbrev word : Bytes → ℕ
word [] = 0
word (b ∷ bs) = word bs * 2 ^ 8 + b

bit_xor-injective : (a c k : ℕ) → a < 2 ^ 32 → c < 2 ^ 32 → bit_xor a k ≡ bit_xor c k → a ≡ c
bit_xor-injective a c k ha hc e = digit_ext 32 a c ha hc λ i hi. ground (
  arith,
  digit-bit_xor a k i,
  digit-bit_xor c k i,
  ap (λ x. digit x i) e,
  digit-lt a i,
  digit-lt c i,
  digit-lt k i,
)

bit_xor_injective-right : (k a c : ℕ) → a < 2 ^ 32 → c < 2 ^ 32 → bit_xor k a ≡ bit_xor k c → a ≡ c
bit_xor_injective-right k a c ha hc e = digit_ext 32 a c ha hc λ i hi. ground (
  arith,
  digit-bit_xor k a i,
  digit-bit_xor k c i,
  ap (λ x. digit x i) e,
  digit-lt a i,
  digit-lt c i,
  digit-lt k i,
)

process_byte-lt : (c b : ℕ) → c < 2 ^ 32 → b < 2 ^ 8 → process_byte c b < 2 ^ 32
unfolding process_byte
process_byte-lt c b h k = shift_bits-lt 8 (bit_xor c b) (bit_xor-lt 32 c b h (omega arith))

fold-lt : (bs : Bytes) (c : ℕ) → IsBytes bs → c < 2 ^ 32 → fold process_byte c bs < 2 ^ 32
fold-lt [] c bytes h = h
fold-lt (b ∷ bs) c bytes h = fold-lt bs (process_byte c b) bytes.1 (process_byte-lt c b h bytes.0)

process_byte-injective :
    (a c b : ℕ) → a < 2 ^ 32 → c < 2 ^ 32 → b < 2 ^ 8 → process_byte a b ≡ process_byte c b → a ≡ c
unfolding process_byte
process_byte-injective a c b ha hc hb e = bit_xor-injective a c b ha hc (
    shift_bits-injective 8 (bit_xor a b) (bit_xor c b) (bit_xor-lt 32 a b ha (omega arith))
      (bit_xor-lt 32 c b hc (omega arith)) e)

fold-injective :
    (bs : Bytes) (a c : ℕ)
    → IsBytes bs
    → a < 2 ^ 32
    → c < 2 ^ 32
    → fold process_byte a bs ≡ fold process_byte c bs
    → a ≡ c
fold-injective [] a c bytes ha hc e = e
fold-injective (b ∷ bs) a c bytes ha hc e = process_byte-injective a c b ha hc bytes.0 (
    fold-injective bs (process_byte a b) (process_byte c b) bytes.1 (process_byte-lt a b ha bytes.0)
      (process_byte-lt c b hc bytes.0) e)

word-lt : (n : ℕ) (bs : Bytes) → IsBytes bs → length bs ≤ n → word bs < 256 ^ n
word-lt n [] bytes h = omega (arith, one-le-pow n 256)
word-lt zero (b ∷ bs) bytes h = absurd (omega arith)
word-lt (suc n) (b ∷ bs) bytes h =
    omega (arith, pow-suc 256 n, word-lt n bs bytes.1 (omega arith), bytes.0)

shift_bits-add : (m n c : ℕ) → shift_bits (m + n) c ≡ shift_bits n (shift_bits m c)
unfolding shift_bits
shift_bits-add zero n c = ap (λ k. shift_bits k c) {x = 0 + n} {y = n} (omega arith)
shift_bits-add (suc m) n c =
    ap (λ k. shift_bits k c) {x = suc m + n} {y = suc (m + n)} (omega arith)
    ∙ shift_bits-add m n (shift_bit c)

pub bit_xor_zero : (c : ℕ) → c < 2 ^ 32 → bit_xor c 0 ≡ c
bit_xor_zero c h =
    digit_ext 32 _ _ (bit_xor-lt 32 c 0 h (omega arith)) h
      λ i hi. ground (arith, digit-bit_xor c 0 i, digit-zero i, digit-lt c i)

bit_xor-word :
    (c b w : ℕ)
    → c < 2 ^ 32
    → b < 2 ^ 8
    → w * 2 ^ 8 < 2 ^ 32
    → bit_xor (bit_xor c b) (w * 2 ^ 8) ≡ bit_xor c (w * 2 ^ 8 + b)
bit_xor-word c b w hc hb hw =
    digit_ext 32 _ _
      (bit_xor-lt 32 (bit_xor c b) (w * 2 ^ 8) (bit_xor-lt 32 c b hc (omega arith)) hw)
      (bit_xor-lt 32 c (w * 2 ^ 8 + b) hc (omega arith))
      λ i hi. ground (
        arith,
        digit-bit_xor (bit_xor c b) (w * 2 ^ 8) i,
        digit-bit_xor c b i,
        digit-bit_xor c (w * 2 ^ 8 + b) i,
        digit_join w b 8 i hb,
        digit-shl w 8 i,
        digit_above 8 b i hb,
      )

-- Up to four bytes are so many rounds on a register that they were combined with at once.
fold_word :
    (bs : Bytes) (c : ℕ)
    → IsBytes bs
    → c < 2 ^ 32
    → word bs < 2 ^ 32
    → fold process_byte c bs ≡ shift_bits (length bs * 8) (bit_xor c (word bs))
unfolding process_byte shift_bits
fold_word [] c bytes hc hw = sym (bit_xor_zero c hc)
fold_word (b ∷ bs) c bytes hc hw =
    let mixed = bit_xor-lt 32 c b hc (omega (arith, bytes.0)) in
    let w = word bs in
    let both : shift_bits 8 (bit_xor c (w * 2 ^ 8 + b)) ≡ bit_xor (process_byte c b) w =
      rw
        (
          ← (bit_xor-word c b w hc bytes.0 (omega arith)),
          shift_bits-bit_xor 8 (bit_xor c b) (w * 2 ^ 8) mixed (omega arith),
          shift_bits_low 8 w,
        )
        refl in
    let rounds : suc (length bs) * 8 ≡ 8 + length bs * 8 = omega arith in
    rw (rounds, shift_bits-add 8 (length bs * 8) (bit_xor c (w * 2 ^ 8 + b)), both)
      (fold_word bs (process_byte c b) bytes.1 (process_byte-lt c b hc bytes.0) (omega arith))

word-injective :
    (xs ys : Bytes) → IsBytes xs → IsBytes ys → length xs ≡ length ys → word xs ≡ word ys → xs ≡ ys
word-injective [] [] hx hy l e = refl
word-injective [] (y ∷ ys) hx hy l e = absurd (omega arith)
word-injective (x ∷ xs) [] hx hy l e = absurd (omega arith)
word-injective (x ∷ xs) (y ∷ ys) hx hy l e =
    ap₂ (◌∷◌) (omega (arith, hx.0, hy.0))
      (word-injective xs ys hx.1 hy.1 (omega arith) (omega (arith, hx.0, hy.0)))

-- From any register, four bytes or fewer leave their trace.
segment-injective :
    (xs ys : Bytes) (c : ℕ)
    → IsBytes xs
    → IsBytes ys
    → c < 2 ^ 32
    → length xs ≡ length ys
    → length xs ≤ 4
    → fold process_byte c xs ≡ fold process_byte c ys
    → xs ≡ ys
segment-injective xs ys c hx hy hc l four e =
    let lx = word-lt 4 xs hx four in
    let ly = word-lt 4 ys hy (omega arith) in
    let mixed =
      shift_bits-injective (length xs * 8) (bit_xor c (word xs)) (bit_xor c (word ys))
        (bit_xor-lt 32 c (word xs) hc lx) (bit_xor-lt 32 c (word ys) hc ly)
        (sym (fold_word xs c hx hc lx)
          ∙ e
          ∙ fold_word ys c hy hc ly
          ∙ ap (λ n. shift_bits (n * 8) (bit_xor c (word ys))) (sym l)) in
    word-injective xs ys hx hy l (bit_xor_injective-right c (word xs) (word ys) lx ly mixed)

pub checksum_segment :
    (before after xs ys : Bytes)
    → IsBytes before
    → IsBytes after
    → IsBytes xs
    → IsBytes ys
    → length xs ≡ length ys
    → length xs ≤ 4
    → checksum (before ++ (xs ++ after)) ≡ checksum (before ++ (ys ++ after))
    → xs ≡ ys
checksum_segment before after xs ys hb ha hx hy l four e =
    segment-injective xs ys c hx hy hc l four (
      fold-injective after (fold process_byte c xs) (fold process_byte c ys) ha (fold-lt xs c hx hc)
        (fold-lt ys c hy hc) (sym (parts xs) ∙ registers ∙ parts ys))
  where
    c : ℕ
    c = fold process_byte initial_value before

    hc : c < 2 ^ 32
    hc = fold-lt before initial_value hb (omega arith)

    parts :
        (zs : Bytes)
        → fold process_byte initial_value (before ++ (zs ++ after))
          ≡ fold process_byte (fold process_byte c zs) after
    parts zs =
        fold-append process_byte initial_value before (zs ++ after)
        ∙ fold-append process_byte c zs after

    bounded :
        (zs : Bytes)
        → IsBytes zs
        → fold process_byte initial_value (before ++ (zs ++ after)) < 2 ^ 32
    bounded zs hz = rw (parts zs) (fold-lt after (fold process_byte c zs) ha (fold-lt zs c hz hc))

    registers :
        fold process_byte initial_value (before ++ (xs ++ after))
        ≡ fold process_byte initial_value (before ++ (ys ++ after))
    registers = bit_xor-injective _ _ final_xor (bounded xs hx) (bounded ys hy) e

-- If up to four adjacent bytes of a message are replaced by other bytes, at any place, CRC-32
-- verification of the changed message against the checksum of the original reports a mismatch.
pub verify-replaced :
    (before after old new : Bytes)
    → IsBytes before
    → IsBytes after
    → IsBytes old
    → IsBytes new
    → length new ≡ length old
    → length new ≤ 4
    → new ≢ old
    → let changed = before ++ (new ++ after) in
      verify (some changed) (length changed) (checksum (before ++ (old ++ after)))
      ≡ done error_mismatch
verify-replaced before after old new hb ha ho hn l four ne =
    let changed = before ++ (new ++ after) in
    let differs : checksum changed ≢ checksum (before ++ (old ++ after)) =
      λ e. ne (checksum_segment before after new old hb ha hn ho l four e) in
    rw
      (
        verify-checksum changed (length changed) (checksum (before ++ (old ++ after)))
            (omega arith),
        slice_all changed,
      )
      (ground (arith, differs))
