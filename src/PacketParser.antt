-- ===== src/PacketParser.antt =====
-- src/packetParser.c and include/packetParser.h: one packet decoded from a byte buffer.
pub mod Accept
pub mod Sound
pub mod RoundTrip
pub mod Framing
pub mod Wire
pub mod Chunks
mod Tests
use ecu_platform.Base.{
  ℕ, ◌+◌, ◌-◌, ◌*◌, ◌^◌, Bool, true, false, not, ◌||◌, Option, none, some, ltb, ◌==◌, if◌then◌else◌,
  Bytes, Exec, fault, done, ◌>>=◌, read_at, drop, u16,
}
use ecu_platform.Bits.{bit_or}
use ecu_platform.Crc16
use ecu_platform.Crc16.{Crc16Status}
use ecu_platform.Protocol.{
  header1, header2, header_size, length_size, command_size, crc_size, max_payload_size,
  min_packet_size, offset_header1, offset_header2, offset_length, offset_command, offset_payload,
}

pub data PacketParserStatus : Type 0 where
  success error_null_pointer error_invalid_length : PacketParserStatus
  error_invalid_header error_crc_mismatch : PacketParserStatus

-- `payload` points into the raw buffer: it is an offset there, or NULL.
pub record ParsedPacket : Type 0 where
  pub command_id : ℕ
  pub payload_length : ℕ
  pub payload : Option ℕ

unfoldable pub read_uint16_be : Bytes → ℕ → Exec ℕ
read_uint16_be bytes offset = do
  high ← read_at bytes offset
  low ← read_at bytes (offset + 1)
  done (u16 (bit_or (high * 2 ^ 8) low))

-- The second header byte is read only if the first one matches.
unfoldable pub has_header : Bytes → Exec Bool
has_header raw = do
  first ← read_at raw offset_header1
  if first == header1
      then (read_at raw offset_header2 >>= λ second. done (second == header2))
      else done false

-- From the comparison of the checksums on.
unfoldable pub accept :
    Bytes → ℕ → ParsedPacket → ℕ → ℕ → Exec (PacketParserStatus × Option ParsedPacket)
accept raw declared_length old computed_crc received_crc =
    if not (computed_crc == received_crc)
    then done (error_crc_mismatch, some old)
    else (read_at raw offset_command >>= λ command.
        let n = u16 (declared_length - command_size) in
        done (
          success,
          some (record {
            command_id = command;
            payload_length = n;
            payload = if ltb 0 n then some offset_payload else none;
          }),
        ))

unfoldable pub check_crc :
    Bytes
    → ℕ
    → ParsedPacket
    → Crc16Status × Option ℕ
    → Exec (PacketParserStatus × Option ParsedPacket)
unfolding read_uint16_be accept
check_crc raw declared_length old (Crc16Status.success, some computed_crc) =
    read_uint16_be raw (offset_length + (length_size + declared_length)) >>= λ received_crc.
    accept raw declared_length old computed_crc received_crc
check_crc raw declared_length old (Crc16Status.success, none) = fault
check_crc raw declared_length old (error, crc) = done (error_crc_mismatch, some old)

-- From the length field on.
unfoldable pub parse_body :
    Bytes → ℕ → ParsedPacket → ℕ → Exec (PacketParserStatus × Option ParsedPacket)
unfolding check_crc
parse_body raw raw_length old declared_length =
    if ltb declared_length command_size || ltb (command_size + max_payload_size) declared_length
    then done (error_invalid_length, some old)
    else if ltb raw_length (header_size + length_size + declared_length + crc_size)
    then done (error_invalid_length, some old)
    else (Crc16.compute (some (drop offset_length raw)) (length_size + declared_length) (some 0)
        >>= λ crc. check_crc raw declared_length old crc)

pub parse : Option Bytes → ℕ → Option ParsedPacket → Exec (PacketParserStatus × Option ParsedPacket)
unfolding has_header read_uint16_be parse_body
parse none raw_length packet = done (error_null_pointer, packet)
parse (some raw) raw_length none = done (error_null_pointer, none)
parse (some raw) raw_length (some old) =
    if ltb raw_length min_packet_size
    then done (error_invalid_length, some old)
    else (has_header raw >>= λ ok.
        if ok
        then (read_uint16_be raw offset_length >>= parse_body raw raw_length old)
        else done (error_invalid_header, some old))

pub get_packet_size : Option Bytes → Exec ℕ
unfolding read_uint16_be
get_packet_size none = done 0
get_packet_size (some raw) = do
  declared_length ← read_uint16_be raw offset_length
  done (header_size + length_size + declared_length + crc_size)
