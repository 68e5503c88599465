-- ===== src/BitUtils/Words.antt =====
-- The functions of src/bitUtils.c that store a word, run in place on one word of 32 bits.
use ecu_platform.Base.{ℕ, Option, none, some, List, [], ◌∷◌}
use ecu_platform.BitUtils.{
  BitUtilsStatus, set_bit, clear_bit, toggle_bit, extract_bits, insert_bits,
}

-- A call that reads the word and stores its result over it.
pub data Update : Type 0 where
  set clear toggle : ℕ → Update
  extract : ℕ → ℕ → Update
  insert : ℕ → ℕ → ℕ → Update

unfoldable pub update : Update → ℕ → BitUtilsStatus × Option ℕ
update (set position) word = set_bit word position (some word)
update (clear position) word = clear_bit word position (some word)
update (toggle position) word = toggle_bit word position (some word)
update (extract start_bit num_bits) word = extract_bits word start_bit num_bits (some word)
update (insert bits start_bit num_bits) word = insert_bits word bits start_bit num_bits (some word)

-- The statuses are not looked at: a refused call leaves the word as it was.
unfoldable pub updates : List Update → Option ℕ → Option ℕ
updates [] word = word
updates (u ∷ us) none = none
updates (u ∷ us) (some word) = updates us (update u word).1
