-- ===== src/PacketParser/Tests.antt =====
-- Packets of two payload bytes.
use ecu_platform.Base.{
  joined, take, drop, List, IsBytes, ◌≡◌, inl, refl, none, some, [], ◌∷◌, ◌++◌, Bytes, arith, done,
  slice,
}
use ecu_platform.Crc16.{checksum}
use ecu_platform.Protocol.{covered}
use ecu_platform.PacketBuilder
use ecu_platform.PacketBuilder.{build_packet}
use ecu_platform.PacketBuilder.Stages.{payload_bytes}
use ecu_platform.PacketParser.{ParsedPacket, success, error_crc_mismatch, parse, get_packet_size}
use ecu_platform.PacketParser.Accept.{sealed}
use ecu_platform.PacketParser.Sound.{Outcome, parse-Outcome}
use ecu_platform.PacketParser.RoundTrip.{parse-build_packet, parse_corrupted}
use ecu_platform.PacketParser.Framing.{Packet, transmit, listen}
use ecu_platform.PacketParser.Wire.{wire}
use ecu_platform.PacketParser.Chunks.{listen-transmit}

abbrev payload : Bytes
payload = 0x10 ∷ 0x20 ∷ []

abbrev rest : Bytes
rest = 1 ∷ 2 ∷ 3 ∷ []

abbrev replaced : Bytes
replaced = 0 ∷ 0 ∷ 0 ∷ 0 ∷ 0 ∷ 0 ∷ 0 ∷ 0 ∷ 0 ∷ []

abbrev before : ParsedPacket
before = record { command_id = 0; payload_length = 0; payload = none }

parse-build_packet_example :
    (buffer : Bytes) × (build_packet 7 (some payload) 2 (some (replaced ++ rest)) 12 (some 0)
      ≡ done (PacketBuilder.success, some buffer, some 9))
    × (parse (some buffer) 9 (some before)
        ≡ done (success, some (record { command_id = 7; payload_length = 2; payload = some 5 })))
    × (slice buffer 5 2 ≡ payload_bytes (some payload) 2)
    × (get_packet_size (some buffer) ≡ done 9)
parse-build_packet_example =
    parse-build_packet 7 (some payload) 2 12 0 replaced rest before (omega arith) (omega arith)
      (omega arith) refl

parse_corrupted_example :
    parse
      (some (
        sealed 7 ([] ++ (0x11 ∷ 0x20 ∷ [])) (checksum (covered 7 ([] ++ (0x10 ∷ 0x20 ∷ []))))
        ++ rest))
      9
      (some before)
    ≡ done (error_crc_mismatch, some before)
parse_corrupted_example =
    parse_corrupted 7 9 0x10 0x20 0x11 0x20 [] [] rest before (omega arith) (omega arith)
      (omega arith) (omega arith) (inl (omega arith)) (omega arith) (omega arith)

bytes : IsBytes (0xaa ∷ 0x55 ∷ replaced)
bytes = (
  omega arith,
  (
    omega arith,
    (
      omega arith,
      (
        omega arith,
        (
          omega arith,
          (
            omega arith,
            (omega arith, (omega arith, (omega arith, (omega arith, (omega arith, tt))))),
          ),
        ),
      ),
    ),
  ),
)

parse-Outcome_example :
    Outcome
      (0xaa ∷ 0x55 ∷ replaced)
      11
      before
      (parse (some (0xaa ∷ 0x55 ∷ replaced)) 11 (some before))
parse-Outcome_example = parse-Outcome 11 before (0xaa ∷ 0x55 ∷ replaced) bytes (omega arith)

-- Two packets, cut inside the length field of the second one.
abbrev sent : List Packet
sent =
    record { command = 0x21; payload = 0x05 ∷ 0x06 ∷ [] }
    ∷ record { command = 0x22; payload = [] }
    ∷ []

abbrev arriving : List Bytes
arriving = take 5 (wire sent) ∷ [] ∷ take 7 (drop 5 (wire sent)) ∷ drop 12 (wire sent) ∷ []

listen-transmit_example :
    (transmit sent ≡ done (joined arriving)) × (listen [] arriving ≡ done (sent, []))
listen-transmit_example = listen-transmit sent arriving (omega arith, (omega arith, tt)) refl
