-- ===== src/Crc16.antt =====
-- src/crc16.c and include/crc16.h: CRC-16-CCITT-FALSE, streaming and in one call.
-- A pointer is `none` for NULL; a result pointer carries the value pointed at.
pub mod Compute
pub mod Streaming
pub mod Register
pub mod Detect
pub mod Standard
mod Tests
use ecu_platform.Base.{
  ℕ, zero, suc, ◌*◌, ◌^◌, Option, none, some, ltb, ◌==◌, if◌then◌else◌, Bytes, Exec, done, fault,
  ◌>>=◌, fold_bytes, fold, u16,
}
use ecu_platform.Bits.{bit_and, bit_xor}

pub data Crc16Status : Type 0 where
  success error_null_pointer error_mismatch : Crc16Status

pub record Crc16Context : Type 0 where
  pub current_crc : ℕ

abbrev pub polynomial : ℕ
polynomial = 0x1021

abbrev pub initial_value : ℕ
initial_value = 0xffff

abbrev pub top_bit : ℕ
top_bit = 0x8000

-- One round of the loop over the bits.
unfoldable pub shift_bit : ℕ → ℕ
shift_bit crc =
    if bit_and crc top_bit == 0 then u16 (crc * 2) else bit_xor (u16 (crc * 2)) polynomial

unfoldable pub shift_bits : ℕ → ℕ → ℕ
shift_bits zero crc = crc
shift_bits (suc rounds) crc = shift_bits rounds (shift_bit crc)

unfoldable pub process_byte : ℕ → ℕ → ℕ
process_byte current_crc byte_in = shift_bits 8 (u16 (bit_xor current_crc (byte_in * 2 ^ 8)))

unfoldable pub validate_buffer : Option Bytes → ℕ → Crc16Status
validate_buffer none len = if ltb 0 len then error_null_pointer else success
validate_buffer (some b) len = success

pub init : Option Crc16Context → Crc16Status × Option Crc16Context
init none = (error_null_pointer, none)
init (some ctx) = (success, some (record { current_crc = initial_value }))

-- The loop over `data`. A NULL buffer gets here only with `len` 0.
update_bytes : Crc16Context → Option Bytes → ℕ → Exec Crc16Context
update_bytes ctx none zero = done ctx
update_bytes ctx none (suc n) = fault
update_bytes ctx (some b) len =
    fold_bytes process_byte len 0 b ctx.current_crc >>= λ crc. done (record { current_crc = crc })

pub update : Option Crc16Context → Option Bytes → ℕ → Exec (Crc16Status × Option Crc16Context)
unfolding update_bytes validate_buffer
update none bytes len = done (error_null_pointer, none)
update (some ctx) bytes len = elim (validate_buffer bytes len) [
  | success ↦ update_bytes ctx bytes len >>= λ ctx'. done (success, some ctx')
  | error ↦ done (error, some ctx)
]

pub get_result : Option Crc16Context → Option ℕ → Crc16Status × Option ℕ
get_result none crc = (error_null_pointer, crc)
get_result (some ctx) none = (error_null_pointer, none)
get_result (some ctx) (some old) = (success, some ctx.current_crc)

-- The context of `compute`, a local variable: its first content is overwritten by `init`.
abbrev local_context : Crc16Context
local_context = record { current_crc = 0 }

compute_with : Crc16Status × Option Crc16Context → Option ℕ → Exec (Crc16Status × Option ℕ)
compute_with (success, ctx) crc = done (get_result ctx crc)
compute_with (error, ctx) crc = done (error, crc)

unfoldable pub compute : Option Bytes → ℕ → Option ℕ → Exec (Crc16Status × Option ℕ)
unfolding init update compute_with get_result
compute bytes len none = done (error_null_pointer, none)
compute bytes len (some old) =
    let (status, ctx) = init (some local_context) in
    elim status [
      | success ↦ update ctx bytes len >>= λ out. compute_with out (some old)
      | error ↦ done (error, some old)
    ]

verify_with : Crc16Status × Option ℕ → ℕ → Crc16Status
verify_with (success, none) received = error_null_pointer
verify_with (success, some calculated) received =
    if calculated == received then success else error_mismatch
verify_with (error, crc) received = error

pub verify : Option Bytes → ℕ → ℕ → Exec Crc16Status
unfolding verify_with
verify bytes len received = compute bytes len (some 0) >>= λ out. done (verify_with out received)

-- What the module computes: the shift register fed with each byte in turn.
abbrev pub checksum : Bytes → ℕ
checksum bs = fold process_byte initial_value bs
