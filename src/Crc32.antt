-- ===== src/Crc32.antt =====
-- src/crc32.c and include/crc32.h: CRC-32/ISO-HDLC, streaming and in one call.
-- A pointer is `none` for NULL; a result pointer carries the value pointed at.
pub mod Compute
pub mod Streaming
pub mod Register
pub mod Detect
pub mod Standard
mod Tests
use ecu_platform.Base.{
  ℕ, zero, suc, ◌/◌, ◌^◌, Option, none, some, ltb, ◌==◌, if◌then◌else◌, Bytes, Exec, done, fault,
  ◌>>=◌, fold_bytes, fold,
}
use ecu_platform.Bits.{bit_and, bit_xor}

pub data Crc32Status : Type 0 where
  success error_null_pointer error_mismatch : Crc32Status

pub record Crc32Context : Type 0 where
  pub current_crc : ℕ

abbrev pub reflected_polynomial : ℕ
reflected_polynomial = 0xedb88320

abbrev pub initial_value : ℕ
initial_value = 0xffffffff

abbrev pub final_xor : ℕ
final_xor = 0xffffffff

-- One round of the loop over the bits.
unfoldable pub shift_bit : ℕ → ℕ
shift_bit crc = if bit_and crc 1 == 0 then crc / 2 else bit_xor (crc / 2) reflected_polynomial

unfoldable pub shift_bits : ℕ → ℕ → ℕ
shift_bits zero crc = crc
shift_bits (suc rounds) crc = shift_bits rounds (shift_bit crc)

unfoldable pub process_byte : ℕ → ℕ → ℕ
process_byte current_crc byte_in = shift_bits 8 (bit_xor current_crc byte_in)

unfoldable pub validate_buffer : Option Bytes → ℕ → Crc32Status
validate_buffer none len = if ltb 0 len then error_null_pointer else success
validate_buffer (some b) len = success

pub init : Option Crc32Context → Crc32Status × Option Crc32Context
init none = (error_null_pointer, none)
init (some ctx) = (success, some (record { current_crc = initial_value }))

-- The loop over `data`. A NULL buffer gets here only with `len` 0.
update_bytes : Crc32Context → Option Bytes → ℕ → Exec Crc32Context
update_bytes ctx none zero = done ctx
update_bytes ctx none (suc n) = fault
update_bytes ctx (some b) len =
    fold_bytes process_byte len 0 b ctx.current_crc >>= λ crc. done (record { current_crc = crc })

pub update : Option Crc32Context → Option Bytes → ℕ → Exec (Crc32Status × Option Crc32Context)
unfolding update_bytes validate_buffer
update none bytes len = done (error_null_pointer, none)
update (some ctx) bytes len = elim (validate_buffer bytes len) [
  | success ↦ update_bytes ctx bytes len >>= λ ctx'. done (success, some ctx')
  | error ↦ done (error, some ctx)
]

pub get_result : Option Crc32Context → Option ℕ → Crc32Status × Option ℕ
get_result none crc = (error_null_pointer, crc)
get_result (some ctx) none = (error_null_pointer, none)
get_result (some ctx) (some old) = (success, some (bit_xor ctx.current_crc final_xor))

-- The context of `compute`, a local variable: its first content is overwritten by `init`.
abbrev local_context : Crc32Context
local_context = record { current_crc = 0 }

compute_with : Crc32Status × Option Crc32Context → Option ℕ → Exec (Crc32Status × Option ℕ)
compute_with (success, ctx) crc = done (get_result ctx crc)
compute_with (error, ctx) crc = done (error, crc)

unfoldable pub compute : Option Bytes → ℕ → Option ℕ → Exec (Crc32Status × Option ℕ)
unfolding init update compute_with get_result
compute bytes len none = done (error_null_pointer, none)
compute bytes len (some old) =
    let (status, ctx) = init (some local_context) in
    elim status [
      | success ↦ update ctx bytes len >>= λ out. compute_with out (some old)
      | error ↦ done (error, some old)
    ]

verify_with : Crc32Status × Option ℕ → ℕ → Crc32Status
verify_with (success, none) received = error_null_pointer
verify_with (success, some calculated) received =
    if calculated == received then success else error_mismatch
verify_with (error, crc) received = error

pub verify : Option Bytes → ℕ → ℕ → Exec Crc32Status
unfolding verify_with
verify bytes len received = compute bytes len (some 0) >>= λ out. done (verify_with out received)

-- What the module computes: the shift register fed with each byte in turn, then complemented.
abbrev pub checksum : Bytes → ℕ
checksum bs = bit_xor (fold process_byte initial_value bs) final_xor
