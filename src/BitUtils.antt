-- ===== src/BitUtils.antt =====
-- src/bitUtils.c and include/bitUtils.h: single bits and bit fields of a 32-bit word.
-- The last argument is the pointer that the result goes through: `none` for NULL, otherwise the
-- value pointed at before the call, and after it in the result.
pub mod Mask
pub mod Digits
pub mod Fields
pub mod Laws
pub mod Words
pub mod Array
mod Tests
use ecu_platform.Base.{
  ℕ, ◌-◌, ◌/◌, ◌^◌, Bool, not, ◌||◌, Option, none, some, ltb, leb, ◌==◌, if◌then◌else◌, u32_sub,
  u32_not, u32_shl,
}
use ecu_platform.Bits.{bit_and, bit_or, bit_xor}

pub data BitUtilsStatus : Type 0 where
  success error_null_pointer error_invalid_bit_position error_invalid_start_bit : BitUtilsStatus
  error_invalid_num_bits error_invalid_value : BitUtilsStatus

abbrev pub word_size_bits : ℕ
word_size_bits = 32

abbrev pub uint32_max : ℕ
uint32_max = 2 ^ 32 - 1

unfoldable pub validate_bit_position : ℕ → BitUtilsStatus
validate_bit_position position =
    if leb word_size_bits position then error_invalid_bit_position else success

unfoldable pub validate_bit_range : ℕ → ℕ → BitUtilsStatus
validate_bit_range start_bit num_bits =
    if leb word_size_bits start_bit
    then error_invalid_start_bit
    else if num_bits == 0 || ltb (word_size_bits - start_bit) num_bits
    then error_invalid_num_bits
    else success

unfoldable pub generate_mask : ℕ → ℕ
generate_mask num_bits =
    if num_bits == word_size_bits then uint32_max else u32_sub (u32_shl 1 num_bits) 1

-- `if (status != BITUTILS_SUCCESS) return status;`, and otherwise the store of `value`.
abbrev store_if_valid {ℓ} : {A : Type ℓ} → BitUtilsStatus → Option A → A → BitUtilsStatus × Option A
store_if_valid success out value = (success, some value)
store_if_valid error out value = (error, out)

pub set_bit : ℕ → ℕ → Option ℕ → BitUtilsStatus × Option ℕ
unfolding validate_bit_position
set_bit value position none = (error_null_pointer, none)
set_bit value position (some old) =
    store_if_valid (validate_bit_position position) (some old) (bit_or value (u32_shl 1 position))

pub clear_bit : ℕ → ℕ → Option ℕ → BitUtilsStatus × Option ℕ
unfolding validate_bit_position
clear_bit value position none = (error_null_pointer, none)
clear_bit value position (some old) =
    store_if_valid (validate_bit_position position) (some old)
      (bit_and value (u32_not (u32_shl 1 position)))

pub toggle_bit : ℕ → ℕ → Option ℕ → BitUtilsStatus × Option ℕ
unfolding validate_bit_position
toggle_bit value position none = (error_null_pointer, none)
toggle_bit value position (some old) =
    store_if_valid (validate_bit_position position) (some old) (bit_xor value (u32_shl 1 position))

pub is_bit_set : ℕ → ℕ → Option Bool → BitUtilsStatus × Option Bool
unfolding validate_bit_position
is_bit_set value position none = (error_null_pointer, none)
is_bit_set value position (some old) =
    store_if_valid (validate_bit_position position) (some old)
      (not (bit_and value (u32_shl 1 position) == 0))

pub extract_bits : ℕ → ℕ → ℕ → Option ℕ → BitUtilsStatus × Option ℕ
unfolding validate_bit_range
extract_bits value start_bit num_bits none = (error_null_pointer, none)
extract_bits value start_bit num_bits (some old) =
    let mask = u32_shl (generate_mask num_bits) start_bit in
    store_if_valid (validate_bit_range start_bit num_bits) (some old)
      (bit_and value mask / 2 ^ start_bit)

-- The part of `insert_bits` behind the range check.
insert_checked : ℕ → ℕ → ℕ → ℕ → ℕ → BitUtilsStatus × Option ℕ
insert_checked value bits start_bit num_bits old =
    if ltb (generate_mask num_bits) bits
    then (error_invalid_value, some old)
    else (let mask = u32_shl (generate_mask num_bits) start_bit in
        let cleared = bit_and value (u32_not mask) in
        (success, some (bit_or cleared (bit_and (u32_shl bits start_bit) mask))))

pub insert_bits : ℕ → ℕ → ℕ → ℕ → Option ℕ → BitUtilsStatus × Option ℕ
unfolding validate_bit_range insert_checked
insert_bits value bits start_bit num_bits none = (error_null_pointer, none)
insert_bits value bits start_bit num_bits (some old) =
    elim (validate_bit_range start_bit num_bits) [
      | success ↦ insert_checked value bits start_bit num_bits old
      | error ↦ (error, some old)
    ]
