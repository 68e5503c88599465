-- ===== src/PacketBuilder.antt =====
-- src/packetBuilder.c and include/packetBuilder.h: a packet written into the caller's buffer.
-- `packet_buffer` is the memory behind the pointer; `packet_length` is the number pointed at.
pub mod Stages
pub mod Build
pub mod Outcome
mod Tests
use ecu_platform.Base.{
  ℕ, ◌+◌, ◌/◌, ◌^◌, Bool, true, false, ◌&&◌, Option, none, some, ltb, if◌then◌else◌, Bytes, Exec,
  fault, done, ◌>>=◌, write_at, read_bytes, write_bytes, drop, u8, u16,
}
use ecu_platform.Bits.{bit_and}
use ecu_platform.Crc16
use ecu_platform.Crc16.{Crc16Status}
use ecu_platform.Protocol.{
  header1, header2, header_size, length_size, command_size, max_payload_size, min_packet_size,
  offset_header1, offset_header2, offset_length, offset_command, offset_payload,
}

pub data PacketBuilderStatus : Type 0 where
  success error_null_pointer error_invalid_length : PacketBuilderStatus
  error_buffer_too_small error_crc_failure : PacketBuilderStatus

unfoldable pub write_uint16_be : Bytes → ℕ → ℕ → Exec Bytes
write_uint16_be bytes offset value = do
  b ← write_at bytes offset (u8 (value / 2 ^ 8))
  write_at b (offset + 1) (u8 (bit_and value 0xff))

unfoldable pub is_null : Option Bytes → Bool
is_null none = true
is_null (some b) = false

unfoldable pub copy_payload : Bytes → Option Bytes → ℕ → Exec Bytes
copy_payload b none n = if ltb 0 n then fault else done b
copy_payload b (some payload) n =
    if ltb 0 n
    then (read_bytes payload 0 n >>= λ bytes. write_bytes b offset_payload bytes)
    else done b

-- What follows the call of `crc16Compute`.
unfoldable pub finish :
    Bytes
    → ℕ
    → ℕ
    → ℕ
    → Crc16Status × Option ℕ
    → Exec (PacketBuilderStatus × Option Bytes × Option ℕ)
finish b region_size total old (Crc16Status.success, some crc) =
    write_uint16_be b (offset_length + region_size) crc >>= λ b'.
    done (success, some b', some total)
finish b region_size total old (Crc16Status.success, none) = fault
finish b region_size total old (error, crc) = done (error_crc_failure, some b, some old)

-- The body behind the checks, for a payload of `n` bytes.
unfoldable pub build_into :
    ℕ → Option Bytes → ℕ → Bytes → ℕ → Exec (PacketBuilderStatus × Option Bytes × Option ℕ)
unfolding write_uint16_be copy_payload finish
build_into command payload n b old = do
  b1 ← write_at b offset_header1 header1
  b2 ← write_at b1 offset_header2 header2
  let declared_length = u16 (command_size + n)
  b3 ← write_uint16_be b2 offset_length declared_length
  b4 ← write_at b3 offset_command command
  b5 ← copy_payload b4 payload n
  let region_size = length_size + declared_length
  crc ← Crc16.compute (some (drop offset_length b5)) region_size (some 0)
  finish b5 region_size (min_packet_size + n) old crc

pub build_packet :
    ℕ
    → Option Bytes
    → ℕ
    → Option Bytes
    → ℕ
    → Option ℕ
    → Exec (PacketBuilderStatus × Option Bytes × Option ℕ)
unfolding is_null
build_packet command payload n none size packet_length =
    done (error_null_pointer, none, packet_length)
build_packet command payload n (some b) size none = done (error_null_pointer, some b, none)
build_packet command payload n (some b) size (some old) =
    if is_null payload && ltb 0 n
    then done (error_null_pointer, some b, some old)
    else if ltb max_payload_size n
    then done (error_invalid_length, some b, some old)
    else if ltb size (min_packet_size + n)
    then done (error_buffer_too_small, some b, some old)
    else build_into command payload n b old
