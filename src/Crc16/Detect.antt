-- ===== src/Crc16/Detect.antt =====
-- The checksum of src/crc16.c on changed messages, and on a message followed by its checksum.
use ecu_platform.Base.{
  slice_all, ℕ, ◌+◌, ◌-◌, ◌*◌, ◌/◌, ◌%◌, ◌^◌, ◌<◌, ◌≡◌, ◌≢◌, ◌⊎◌, ap, sym, ◌∙◌, arith, ltb,
  if◌then◌else◌, u16, [], ◌∷◌, ◌++◌, Bytes, length, some, done, fold, fold-append,
}
use ecu_platform.Bits.{
  digit, digit-lt, digit-zero, digit-shl, digit-shr, digit_mod, digit-bit_xor, digit_above,
  digit_ext, bit_xor, bit_xor-lt,
}
use ecu_platform.Crc16.{
  success, compute, error_mismatch, shift_bits, process_byte, checksum, verify, initial_value,
}
use ecu_platform.Crc16.Register.{
  shift_bits-lt, process_byte-lt, shift_bits-injective, shift_bits-bit_xor, shift_bits_low,
}
use ecu_platform.Crc16.Compute.{compute_lem, verify_lem}

-- What a byte is combined with before the eight rounds.
abbrev loaded : ℕ → ℕ → ℕ
loaded c b = u16 (bit_xor c (b * 2 ^ 8))

digit-loaded :
    (c b i : ℕ)
    → i < 16
    → digit (loaded c b) i ≡ (digit c i + (if ltb i 8 then 0 else digit b (i - 8))) % 2
digit-loaded c b i h =
    ground (
      arith,
      digit_mod 16 (bit_xor c (b * 2 ^ 8)) i,
      digit-bit_xor c (b * 2 ^ 8) i,
      digit-shl b 8 i,
    )

process_byte-injective :
    (a c b : ℕ) → a < 2 ^ 16 → c < 2 ^ 16 → process_byte a b ≡ process_byte c b → a ≡ c
unfolding process_byte
process_byte-injective a c b ha hc e =
    let same : loaded a b ≡ loaded c b =
      shift_bits-injective 8 (loaded a b) (loaded c b) (omega arith) (omega arith) e in
    digit_ext 16 a c ha hc λ i hi. ground (
      arith,
      digit-loaded a b i hi,
      digit-loaded c b i hi,
      ap (λ x. digit x i) same,
      digit-lt a i,
      digit-lt c i,
      digit-lt b (i - 8),
    )

fold-injective :
    (bs : Bytes) (a c : ℕ)
    → a < 2 ^ 16
    → c < 2 ^ 16
    → fold process_byte a bs ≡ fold process_byte c bs
    → a ≡ c
fold-injective [] a c ha hc e = e
fold-injective (b ∷ bs) a c ha hc e = process_byte-injective a c b ha hc (
    fold-injective bs (process_byte a b) (process_byte c b) (process_byte-lt a b)
      (process_byte-lt c b) e)

fold-lt : (bs : Bytes) (c : ℕ) → c < 2 ^ 16 → fold process_byte c bs < 2 ^ 16
fold-lt [] c h = h
fold-lt (b ∷ bs) c h = fold-lt bs (process_byte c b) (process_byte-lt c b)

pub checksum-lt : (bs : Bytes) → checksum bs < 2 ^ 16
checksum-lt bs = fold-lt bs initial_value (omega arith)

loaded-eq : (c b : ℕ) → c < 2 ^ 16 → b < 2 ^ 8 → loaded c b ≡ bit_xor c (b * 2 ^ 8)
loaded-eq c b hc hb = omega (arith, bit_xor-lt 16 c (b * 2 ^ 8) hc (omega arith))

-- Two bytes are two times eight rounds on a register that both were combined with.
two_bytes :
    (c x y : ℕ)
    → c < 2 ^ 16
    → x < 2 ^ 8
    → y < 2 ^ 8
    → process_byte (process_byte c x) y ≡ shift_bits 8 (shift_bits 8 (bit_xor (loaded c x) y))
unfolding process_byte
two_bytes c x y hc hx hy = rw (
  loaded-eq (shift_bits 8 (loaded c x)) y (shift_bits-lt 8 (loaded c x) (omega arith)) hy,
  shift_bits-bit_xor 8 (loaded c x) y (omega arith) (omega arith),
  shift_bits_low 8 y (omega arith),
)

two_bytes-injective :
    (c x y x' y' : ℕ)
    → c < 2 ^ 16
    → x < 2 ^ 8
    → y < 2 ^ 8
    → x' < 2 ^ 8
    → y' < 2 ^ 8
    → process_byte (process_byte c x) y ≡ process_byte (process_byte c x') y'
    → (x ≡ x') × (y ≡ y')
two_bytes-injective c x y x' y' hc hx hy hx' hy' e = (
  digit_ext 8 x x' hx hx' λ i hi. ground (
    arith,
    back i,
    both (i + 8) (omega arith),
    digit_above 8 y (i + 8) hy,
    digit_above 8 y' (i + 8) hy',
    digit-lt x i,
    digit-lt x' i,
    digit-lt c (i + 8),
  ),
  digit_ext 8 y y' hy hy'
      λ i hi. ground (arith, both i (omega arith), digit-lt y i, digit-lt y' i, digit-lt c i),
)
  where
    a : ℕ
    a = bit_xor (loaded c x) y

    a' : ℕ
    a' = bit_xor (loaded c x') y'

    ha : a < 2 ^ 16
    ha = bit_xor-lt 16 (loaded c x) y (omega arith) (omega arith)

    ha' : a' < 2 ^ 16
    ha' = bit_xor-lt 16 (loaded c x') y' (omega arith) (omega arith)

    same : a ≡ a'
    same = shift_bits-injective 8 a a' ha ha' (
        shift_bits-injective 8 (shift_bits 8 a) (shift_bits 8 a') (shift_bits-lt 8 a ha)
          (shift_bits-lt 8 a' ha')
          (sym (two_bytes c x y hc hx hy) ∙ e ∙ two_bytes c x' y' hc hx' hy'))

    back : (i : ℕ) → i + 8 - 8 ≡ i
    back i = omega arith

    both :
        (i : ℕ)
        → i < 16
        → ((digit c i + (if ltb i 8 then 0 else digit x (i - 8))) % 2 + digit y i) % 2
          ≡ ((digit c i + (if ltb i 8 then 0 else digit x' (i - 8))) % 2 + digit y' i) % 2
    both i hi = ground (
      arith,
      digit-loaded c x i hi,
      digit-loaded c x' i hi,
      digit-bit_xor (loaded c x) y i,
      digit-bit_xor (loaded c x') y' i,
      ap (λ n. digit n i) same,
    )

-- Messages that differ within two adjacent bytes have different checksums.
pub checksum_changed :
    (before after : Bytes) (x y x' y' : ℕ)
    → x < 2 ^ 8
    → y < 2 ^ 8
    → x' < 2 ^ 8
    → y' < 2 ^ 8
    → (x ≢ x') ⊎ (y ≢ y')
    → checksum (before ++ (x' ∷ y' ∷ after)) ≢ checksum (before ++ (x ∷ y ∷ after))
checksum_changed before after x y x' y' hx hy hx' hy' ne e =
    let tails =
      sym (fold-append process_byte initial_value before (x' ∷ y' ∷ after))
      ∙ e
      ∙ fold-append process_byte initial_value before (x ∷ y ∷ after) in
    let pairs =
      fold-injective after (process_byte (process_byte register x') y')
        (process_byte (process_byte register x) y) (process_byte-lt _ y') (process_byte-lt _ y)
        tails in
    let bytes =
      two_bytes-injective register x' y' x y (fold-lt before initial_value (omega arith)) hx' hy' hx
        hy pairs in
    ground (arith, bytes)
  where
    register : ℕ
    register = fold process_byte initial_value before

-- If a message is changed within two adjacent bytes, at any place, verifying the changed message
-- against the checksum of the original reports a mismatch.
pub verify_changed :
    (before after : Bytes) (x y x' y' : ℕ)
    → x < 2 ^ 8
    → y < 2 ^ 8
    → x' < 2 ^ 8
    → y' < 2 ^ 8
    → (x ≢ x') ⊎ (y ≢ y')
    → let changed = before ++ (x' ∷ y' ∷ after) in
      verify (some changed) (length changed) (checksum (before ++ (x ∷ y ∷ after)))
      ≡ done error_mismatch
verify_changed before after x y x' y' hx hy hx' hy' ne =
    let changed = before ++ (x' ∷ y' ∷ after) in
    rw
      (
        verify_lem changed (length changed) (checksum (before ++ (x ∷ y ∷ after))) (omega arith),
        slice_all changed,
      )
      (ground (arith, checksum_changed before after x y x' y' hx hy hx' hy' ne))

first_half : (c : ℕ) → c < 2 ^ 16 → process_byte c (c / 2 ^ 8) ≡ c % 2 ^ 8 * 2 ^ 8
unfolding process_byte
first_half c h = rw cleared (shift_bits_low 8 (c % 2 ^ 8) (omega arith))
  where
    cleared : loaded c (c / 2 ^ 8) ≡ c % 2 ^ 8
    cleared = digit_ext 16 _ _ (omega arith) (omega arith) λ i hi. ground (
      arith,
      digit-loaded c (c / 2 ^ 8) i hi,
      digit-shr c 8 (i - 8),
      digit_mod 8 c i,
      ap (digit c) {x = i - 8 + 8} {y = i},
      digit-lt c i,
    )

second_half : (l : ℕ) → l < 2 ^ 8 → process_byte (l * 2 ^ 8) l ≡ 0
unfolding process_byte
second_half l h = rw cleared (shift_bits_low 8 0 (omega arith))
  where
    cleared : loaded (l * 2 ^ 8) l ≡ 0
    cleared = digit_ext 16 _ _ (omega arith) (omega arith) λ i hi.
        ground (
          arith,
          digit-loaded (l * 2 ^ 8) l i hi,
          digit-shl l 8 i,
          digit-zero i,
          digit-lt l (i - 8),
        )

-- A message followed by its checksum, high byte first, has the checksum zero.
checksum_residue :
    (bs : Bytes) → checksum (bs ++ (checksum bs / 2 ^ 8 ∷ checksum bs % 2 ^ 8 ∷ [])) ≡ 0
checksum_residue bs =
    rw
      (
        fold-append process_byte initial_value bs (c / 2 ^ 8 ∷ c % 2 ^ 8 ∷ []),
        first_half c (checksum-lt bs),
      )
      (second_half (c % 2 ^ 8) (omega arith))
  where
    c : ℕ
    c = checksum bs

-- Computing over any message followed by its checksum, high byte first, gives zero.
pub compute_residue :
    (bs : Bytes) (old : ℕ)
    → let sent = bs ++ (checksum bs / 2 ^ 8 ∷ checksum bs % 2 ^ 8 ∷ []) in
      compute (some sent) (length sent) (some old) ≡ done (success, some 0)
compute_residue bs old =
    let sent = bs ++ (checksum bs / 2 ^ 8 ∷ checksum bs % 2 ^ 8 ∷ []) in
    rw (compute_lem sent (length sent) old (omega arith), slice_all sent, checksum_residue bs)
