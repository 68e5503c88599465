-- ===== src/PacketParser/RoundTrip.antt =====
-- src/packetBuilder.c and src/packetParser.c together.
use ecu_platform.Base.{
  ℕ, ◌+◌, ◌^◌, ◌≤◌, ◌<◌, ◌≡◌, ◌≢◌, ◌⊎◌, ap, sym, ◌∙◌, arith, Option, none, some, ltb, if◌then◌else◌,
  ◌∷◌, ◌++◌, Bytes, length, length-append, done, slice, slice-append,
}
use mathlib.Core.List.{append_assoc}
use ecu_platform.Crc16.{checksum}
use ecu_platform.Crc16.Detect.{checksum-lt, checksum_changed}
use ecu_platform.Protocol.{covered, trailer, frame}
use ecu_platform.PacketBuilder
use ecu_platform.PacketBuilder.{build_packet}
use ecu_platform.PacketBuilder.Stages.{payload_bytes, Readable, length-payload_bytes}
use ecu_platform.PacketBuilder.Build.{build_packet-frame}
use ecu_platform.PacketParser.{success, error_crc_mismatch, ParsedPacket, parse, get_packet_size}
use ecu_platform.PacketParser.Accept.{sealed, parsed, parse-sealed, get_packet_size-sealed}

-- The frame of a packet with a payload of at most 255 bytes is accepted, with its command, its
-- payload length and its payload pointer, whatever bytes follow it, if the stated length covers
-- it.
pub parse-frame :
    (command raw_length : ℕ) (payload rest : Bytes) (old : ParsedPacket)
    → length payload ≤ 255
    → 7 + length payload ≤ raw_length
    → parse (some (frame command payload ++ rest)) raw_length (some old)
      ≡ done (success, some (parsed command payload))
parse-frame command raw_length payload rest old small fits =
    let crc = checksum (covered command payload) in
    parse-sealed command crc payload rest small (checksum-lt (covered command payload)) raw_length
      old fits
    ∙ ground arith

-- For a readable payload of n ≤ 255 bytes and a buffer whose stated size holds the 7 + n bytes of
-- the packet, the builder succeeds and stores the size 7 + n, and the parser, run on the buffer
-- that the builder left, succeeds with the same command and payload length and a payload pointer
-- (offset 5, or NULL for an empty payload) behind which the same payload bytes stand; the peeked
-- packet size is the stored one.
pub parse-build_packet :
    (command : ℕ) (payload : Option Bytes) (n size old : ℕ) (replaced rest : Bytes)
    (before : ParsedPacket)
    → Readable payload n
    → n ≤ 255
    → 7 + n ≤ size
    → length replaced ≡ 7 + n
    → (buffer : Bytes) × (build_packet command payload n (some (replaced ++ rest)) size (some old)
        ≡ done (PacketBuilder.success, some buffer, some (7 + n)))
      × (parse (some buffer) (7 + n) (some before)
          ≡ done (
            success,
            some (record {
              command_id = command;
              payload_length = n;
              payload = if ltb 0 n then some 5 else none;
            }),
          ))
      × (slice buffer 5 n ≡ payload_bytes payload n)
      × (get_packet_size (some buffer) ≡ done (7 + n))
parse-build_packet command payload n size old replaced rest before readable small fits l = (
  frame command p ++ rest,
  build_packet-frame command payload n size old replaced rest readable small fits l,
  parse-frame command (7 + n) p rest before (omega (arith, lp)) (omega (arith, lp))
      ∙ ap
          (λ k. done (
            success,
            some (record {
              command_id = command;
              payload_length = k;
              payload = if ltb 0 k then some 5 else none;
            }),
          ))
          lp,
  ap (λ m. slice m 0 n) (append_assoc p (trailer (checksum (covered command p))) rest)
      ∙ slice-append p (trailer (checksum (covered command p)) ++ rest) n (sym lp),
  get_packet_size-sealed command (checksum (covered command p)) p rest (omega (arith, lp))
        (checksum-lt (covered command p))
      ∙ ap done (omega (arith, lp)),
)
  where
    p : Bytes
    p = payload_bytes payload n

    lp : length p ≡ n
    lp = length-payload_bytes payload n readable

-- A packet of at most 255 payload bytes whose payload was changed within two adjacent bytes, at
-- any place, is refused by the parser with the CRC mismatch status, and the output is left as it
-- was.
pub parse_corrupted :
    (command raw_length x y x' y' : ℕ) (before after rest : Bytes) (old : ParsedPacket)
    → x < 2 ^ 8
    → y < 2 ^ 8
    → x' < 2 ^ 8
    → y' < 2 ^ 8
    → (x ≢ x') ⊎ (y ≢ y')
    → length (before ++ (x ∷ y ∷ after)) ≤ 255
    → 7 + length (before ++ (x ∷ y ∷ after)) ≤ raw_length
    → let sent = checksum (covered command (before ++ (x ∷ y ∷ after))) in
      parse (some (sealed command (before ++ (x' ∷ y' ∷ after)) sent ++ rest)) raw_length (some old)
      ≡ done (error_crc_mismatch, some old)
parse_corrupted command raw_length x y x' y' before after rest old hx hy hx' hy' ne small fits =
    parse-sealed command sent (before ++ (x' ∷ y' ∷ after)) rest (omega (arith, same))
      (checksum-lt (covered command (before ++ (x ∷ y ∷ after)))) raw_length old
      (omega (arith, same))
    ∙ ground (arith, differs)
  where
    sent : ℕ
    sent = checksum (covered command (before ++ (x ∷ y ∷ after)))

    same : length (before ++ (x' ∷ y' ∷ after)) ≡ length (before ++ (x ∷ y ∷ after))
    same = length-append before (x' ∷ y' ∷ after) ∙ sym (length-append before (x ∷ y ∷ after))

    reframed :
        checksum (
          trailer (length (before ++ (x ∷ y ∷ after)) + 1)
          ++ (command ∷ (before ++ (x' ∷ y' ∷ after))))
        ≡ checksum (covered command (before ++ (x' ∷ y' ∷ after)))
    reframed =
        ap (λ k. checksum (trailer (k + 1) ++ (command ∷ (before ++ (x' ∷ y' ∷ after))))) (sym same)

    differs : checksum (covered command (before ++ (x' ∷ y' ∷ after))) ≢ sent
    differs e =
        checksum_changed (trailer (length (before ++ (x ∷ y ∷ after)) + 1) ++ (command ∷ before))
          after x y x' y' hx hy hx' hy' ne (reframed ∙ e)
