-- ===== src/Catalogue.antt =====
-- The parametrised model by which catalogues name checksums: one register, one bit at a time. The
-- headers of src/crc16.c and src/crc32.c name their algorithms by it.
use ecu_platform.Base.{
  ℕ, zero, suc, ◌+◌, ◌*◌, ◌/◌, ◌%◌, ◌^◌, ◌==◌, if◌then◌else◌, List, [], ◌∷◌, ◌++◌, Bytes, fold,
}
use ecu_platform.Bits.{bit_xor}

-- The register moves up by one digit; the generator is subtracted if the digit that leaves it
-- differs from the digit of the message.
abbrev pub feed : ℕ → ℕ → ℕ → ℕ → ℕ
feed top generator register bit =
    let moved = register * 2 % 2 ^ suc top in
    if (register / 2 ^ top + bit) % 2 == 0 then moved else bit_xor moved generator

-- The `n` lowest digits of a number, the highest first and the lowest first.
abbrev pub high_first : ℕ → ℕ → List ℕ
high_first zero x = []
high_first (suc n) x = x / 2 ^ n ∷ high_first n (x % 2 ^ n)

abbrev pub low_first : ℕ → ℕ → List ℕ
low_first zero x = []
low_first (suc n) x = x % 2 ∷ low_first n (x / 2)

-- The digits of a message.
abbrev pub digits_of : (ℕ → List ℕ) → Bytes → List ℕ
digits_of order [] = []
digits_of order (b ∷ bs) = order b ++ digits_of order bs

-- The `n` lowest digits in the opposite order.
unfoldable pub reflect : ℕ → ℕ → ℕ
reflect zero x = 0
reflect (suc n) x = x % 2 * 2 ^ n + reflect n (x / 2)

-- CRC-16/CCITT-FALSE: generator 0x1021, from 0xffff, nothing reflected.
abbrev pub crc16_ccitt_false : Bytes → ℕ
crc16_ccitt_false message = fold (feed 15 0x1021) 0xffff (digits_of (high_first 8) message)

-- CRC-32/ISO-HDLC: generator 0x04c11db7, from 0xffffffff, input and output reflected, the output
-- complemented.
abbrev pub crc32_iso_hdlc : Bytes → ℕ
crc32_iso_hdlc message =
    bit_xor (reflect 32 (fold (feed 31 0x04c11db7) 0xffffffff (digits_of (low_first 8) message)))
      0xffffffff
