-- ===== src/Protocol.antt =====
-- include/protocol.h: the wire format that src/packetBuilder.c and src/packetParser.c share, and the
-- frame that it describes.
use ecu_platform.Base.{ℕ, ◌+◌, ◌/◌, ◌%◌, ◌^◌, [], ◌∷◌, ◌++◌, Bytes, length}
use ecu_platform.Crc16.{checksum}

abbrev pub header1 : ℕ
header1 = 0xaa

abbrev pub header2 : ℕ
header2 = 0x55

abbrev pub header_size : ℕ
header_size = 2

abbrev pub length_size : ℕ
length_size = 2

abbrev pub command_size : ℕ
command_size = 1

abbrev pub crc_size : ℕ
crc_size = 2

abbrev pub max_payload_size : ℕ
max_payload_size = 255

abbrev pub min_packet_size : ℕ
min_packet_size = header_size + length_size + command_size + crc_size

-- The offsets that both source files define.
abbrev pub offset_header1 : ℕ
offset_header1 = 0

abbrev pub offset_header2 : ℕ
offset_header2 = 1

abbrev pub offset_length : ℕ
offset_length = header_size

abbrev pub offset_command : ℕ
offset_command = header_size + length_size

abbrev pub offset_payload : ℕ
offset_payload = header_size + length_size + command_size

-- The part that the checksum covers: length, command and payload.
abbrev pub covered : ℕ → Bytes → Bytes
covered command payload = let n = length payload + 1 in n / 2 ^ 8 ∷ n % 2 ^ 8 ∷ command ∷ payload

abbrev pub trailer : ℕ → Bytes
trailer crc = crc / 2 ^ 8 ∷ crc % 2 ^ 8 ∷ []

-- A packet on the wire.
abbrev pub frame : ℕ → Bytes → Bytes
frame command payload =
    header1 ∷ header2 ∷ (covered command payload ++ trailer (checksum (covered command payload)))
