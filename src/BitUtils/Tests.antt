-- ===== src/BitUtils/Tests.antt =====
-- Bit fields of one word.
use ecu_platform.Base.{
  ℕ, ◌≡◌, List, [], ◌∷◌, some, arith, false, leb, ltb, ◌&&◌, ◌||◌, ◌==◌, if◌then◌else◌, not, ◌+◌,
  ◌-◌,
}
use ecu_platform.Bits.{digit}
use ecu_platform.BitUtils.{
  success, set_bit, clear_bit, toggle_bit, is_bit_set, extract_bits, insert_bits,
}
use ecu_platform.BitUtils.Digits.{StoresDigits}
use ecu_platform.BitUtils.Fields.{insert_bits-StoresDigits}
use ecu_platform.BitUtils.Words.{Update, set, clear, toggle, extract, insert, updates}
use ecu_platform.BitUtils.Array.{Holds, changes, updates-Holds}
use ecu_platform.BitUtils.Laws.{extract_bits-insert_bits, is_bit_set-updates}

extract_bits-insert_bits_example :
    (word : ℕ) × (insert_bits 0xdeadbeef 9 12 4 (some 0) ≡ (success, some word))
    × (extract_bits word 12 4 (some 0) ≡ (success, some 9))
extract_bits-insert_bits_example =
    extract_bits-insert_bits 0xdeadbeef 9 12 4 0 0 (omega arith) (omega arith) (omega arith)
      (omega arith) (omega arith)

insert_bits-StoresDigits_example :
    StoresDigits
      (λ i. if leb 12 i && ltb i (12 + 4) then digit 9 (i - 12) else digit 0xdeadbeef i)
      (insert_bits 0xdeadbeef 9 12 4 (some 0))
insert_bits-StoresDigits_example =
    insert_bits-StoresDigits 0xdeadbeef 12 4 0 (omega arith) (omega arith) (omega arith)
      (omega arith) 9 (omega arith)

is_bit_set-updates_example :
    (w x y : ℕ) × (set_bit 5 1 (some 0) ≡ (success, some w))
    × (clear_bit 5 1 (some 0) ≡ (success, some x))
    × (toggle_bit 5 1 (some 0) ≡ (success, some y))
    × (is_bit_set w 2 (some false) ≡ (success, some ((2 == 1) || (digit 5 2 == 1))))
    × (is_bit_set x 2 (some false) ≡ (success, some (not (2 == 1) && (digit 5 2 == 1))))
    × (is_bit_set y 2 (some false)
        ≡ (success, some (if 2 == 1 then not (digit 5 2 == 1) else digit 5 2 == 1)))
is_bit_set-updates_example =
    is_bit_set-updates 5 1 2 0 false (omega arith) (omega arith) (omega arith)

-- Two bits of a word changed, a field written and read, a position and a field refused.
abbrev program : List Update
program = set 31 ∷ clear 0 ∷ set 32 ∷ insert 9 12 4 ∷ insert 16 12 4 ∷ toggle 7 ∷ extract 4 28 ∷ []

updates-Holds_example :
    Holds (changes program (digit 0xdeadbeef)) (updates program (some 0xdeadbeef))
updates-Holds_example = updates-Holds program 0xdeadbeef (omega arith)
