-- ===== src/PacketParser/Framing.antt =====
-- Clients of src/packetBuilder.c and src/packetParser.c: a sender that builds packets one after
-- another, and framing code as include/packetParser.h describes it, which buffers as many bytes as
-- `packetParserGetPacketSize` says before it parses.
use ecu_platform.Base.{
  ℕ, zero, suc, ◌+◌, Option, none, some, List, [], ◌∷◌, ◌++◌, Bytes, length, replicate, take, drop,
  slice, ltb, if◌then◌else◌, Exec, fault, done, ◌>>=◌,
}
use ecu_platform.Protocol.{header_size, length_size, min_packet_size}
use ecu_platform.PacketBuilder
use ecu_platform.PacketBuilder.{PacketBuilderStatus, build_packet}
use ecu_platform.PacketParser.{PacketParserStatus, success, ParsedPacket, parse, get_packet_size}

pub record Packet : Type 0 where
  pub command : ℕ
  pub payload : Bytes

-- The bytes that were built, and a fault for an unexpected status.
unfoldable pub built : PacketBuilderStatus × Option Bytes × Option ℕ → Exec Bytes
built (PacketBuilder.success, some buffer, some n) = done (take n buffer)
built _ = fault

unfoldable pub transmit : List Packet → Exec Bytes
unfolding built
transmit [] = done []
transmit (p ∷ packets) =
    let n = length p.payload in
    let size = min_packet_size + n in
    build_packet p.command (some p.payload) n (some (replicate size 0)) size (some 0)
    >>= built
    >>= λ bytes. transmit packets >>= λ later. done (bytes ++ later)

-- What the framing code finds at the start of the bytes received: too few bytes, a packet with the
-- bytes behind it, or bytes that the parser refuses.
pub data Taken : Type 0 where
  waiting : Taken
  taken : Packet → Bytes → Taken
  refused : PacketParserStatus → Taken

abbrev pub payload_at : Bytes → ℕ → Option ℕ → Bytes
payload_at bytes n none = []
payload_at bytes n (some offset) = slice bytes offset n

unfoldable pub delivered : Bytes → ℕ → PacketParserStatus × Option ParsedPacket → Taken
delivered bytes size (success, some p) =
    taken (record { command = p.command_id; payload = payload_at bytes p.payload_length p.payload })
      (drop size bytes)
delivered bytes size (status, p) = refused status

abbrev pub blank : ParsedPacket
blank = record { command_id = 0; payload_length = 0; payload = none }

unfoldable pub take_packet : Bytes → Exec Taken
unfolding delivered
take_packet pending =
    if ltb (length pending) (header_size + length_size)
    then done waiting
    else (get_packet_size (some pending) >>= λ size.
        if ltb (length pending) size
        then done waiting
        else (parse (some pending) size (some blank) >>= λ r. done (delivered pending size r)))

-- Packets are taken as long as there are any, at most `fuel` of them.
unfoldable pub receive : ℕ → Bytes → Exec (List Packet × Bytes)
unfolding take_packet
receive zero pending = done ([], pending)
receive (suc fuel) pending = take_packet pending >>= λ t. elim t [
  | waiting ↦ done ([], pending)
  | taken p rest ↦ receive fuel rest >>= λ out. done (p ∷ out.0, out.1)
  | refused status ↦ done ([], pending)
]

-- Bytes arrive in chunks; a packet has at least a byte, so that their number is fuel enough.
unfoldable pub listen : Bytes → List Bytes → Exec (List Packet × Bytes)
unfolding receive
listen pending [] = done ([], pending)
listen pending (chunk ∷ chunks) = do
  let bytes = pending ++ chunk
  now ← receive (length bytes) bytes
  later ← listen now.1 chunks
  done (now.0 ++ later.0, later.1)
