-- ===== src/PacketParser/Accept.antt =====
-- `packetParserParse` of src/packetParser.c on a buffer that starts with the bytes of a packet.
use ecu_platform.Base.{
  ℕ, ◌+◌, ◌*◌, ◌/◌, ◌%◌, ◌^◌, ◌≤◌, ◌<◌, ◌≡◌, refl, ap, ◌∙◌, arith, none, some, ltb, ◌==◌,
  if◌then◌else◌, [], ◌∷◌, ◌++◌, Bytes, length, length-append, done, read_at, read_at_done, slice,
  slice-append, drop, get_or, get_or-append, true,
}
use mathlib.Core.List.{append_assoc}
use ecu_platform.Bits.{bit_or_bytes}
use ecu_platform.Crc16
use ecu_platform.Crc16.{Crc16Status, checksum}
use ecu_platform.Crc16.Compute.{compute_lem}
use ecu_platform.Protocol.{header1, header2, covered, trailer}
use ecu_platform.PacketParser.{
  success, error_crc_mismatch, ParsedPacket, read_uint16_be, has_header, accept, check_crc,
  parse_body, parse, get_packet_size,
}

read_at-append :
    (before after : Bytes) (k i : ℕ)
    → i ≡ length before + k
    → k < length after
    → read_at (before ++ after) i ≡ done (get_or after k 0)
read_at-append before after k i e h = rw e (
    ground (
      arith,
      read_at_done (before ++ after) (length before + k),
      get_or-append before after k 0,
      length-append before after,
    ))

pub read_uint16_be-append :
    (before after : Bytes) (h l o : ℕ)
    → h < 2 ^ 8
    → l < 2 ^ 8
    → o ≡ length before
    → read_uint16_be (before ++ (h ∷ l ∷ after)) o ≡ done (h * 2 ^ 8 + l)
unfolding read_uint16_be
read_uint16_be-append before after h l o hh hl ho =
    rw
      (
        read_at-append before (h ∷ l ∷ after) 0 o (omega arith) (omega arith),
        read_at-append before (h ∷ l ∷ after) 1 (o + 1) (omega arith) (omega arith),
        bit_or_bytes h l hh hl,
      )
      (ap done (omega arith))

-- A number and the two bytes that it is sent as.
read_trailer :
    (before after : Bytes) (value o : ℕ)
    → value < 2 ^ 16
    → o ≡ length before
    → read_uint16_be (before ++ (trailer value ++ after)) o ≡ done value
read_trailer before after value o hv ho =
    read_uint16_be-append before after (value / 2 ^ 8) (value % 2 ^ 8) o (omega arith) (omega arith)
      ho
    ∙ ap done (omega arith)

-- What `parse` makes of a frame whose checksum field holds `crc`.
abbrev pub sealed : ℕ → Bytes → ℕ → Bytes
sealed command payload crc = header1 ∷ header2 ∷ (covered command payload ++ trailer crc)

abbrev pub parsed : ℕ → Bytes → ParsedPacket
parsed command payload = record {
  command_id = command;
  payload_length = length payload;
  payload = if ltb 0 (length payload) then some 5 else none;
}

module _ (command crc : ℕ) (payload rest : Bytes) (small : length payload ≤ 255)
    (hc : crc < 2 ^ 16) where
  abbrev raw : Bytes
  raw = sealed command payload crc ++ rest

  abbrev declared : ℕ
  declared = length payload + 1

  raw-eq : raw ≡ (header1 ∷ header2 ∷ covered command payload) ++ (trailer crc ++ rest)
  raw-eq =
      ap (λ m. header1 ∷ header2 ∷ (trailer declared ++ (command ∷ m)))
        (append_assoc payload (trailer crc) rest)

  length-raw : length raw ≡ 7 + length payload + length rest
  length-raw = omega (arith, ap length raw-eq, length-append payload (trailer crc ++ rest))

  header_read : has_header raw ≡ done true
  unfolding has_header
  header_read = rw (
    read_at-append [] raw 0 0 refl (omega (arith, length-raw)),
    read_at-append [] raw 1 1 refl (omega (arith, length-raw)),
  )

  length_read : read_uint16_be raw 2 ≡ done declared
  length_read =
      read_trailer (header1 ∷ header2 ∷ []) (command ∷ ((payload ++ trailer crc) ++ rest)) declared
        2 (omega arith) refl

  command_read : read_at raw 4 ≡ done command
  command_read = read_at-append [] raw 4 4 refl (omega (arith, length-raw))

  crc_read : read_uint16_be raw (2 + (2 + declared)) ≡ done crc
  crc_read = rw raw-eq (
      read_trailer (header1 ∷ header2 ∷ covered command payload) rest crc (2 + (2 + declared)) hc
        (omega arith))

  computed :
      Crc16.compute (some (drop 2 raw)) (2 + declared) (some 0)
      ≡ done (Crc16Status.success, some (checksum (covered command payload)))
  computed =
      compute_lem (drop 2 raw) (2 + declared) 0 (omega (arith, length-raw))
      ∙ ap (λ m. done (Crc16Status.success, some (checksum m))) region
    where
      region : slice (drop 2 raw) 0 (2 + declared) ≡ covered command payload
      region =
          ap (λ m. slice m 0 (2 + declared)) (ap (drop 2) raw-eq)
          ∙ slice-append (covered command payload) (trailer crc ++ rest) (2 + declared)
              (omega arith)

  accept-sealed :
      (old : ParsedPacket) (sum : ℕ)
      → accept raw declared old sum crc ≡ (
          if sum == crc
          then done (success, some (parsed command payload))
          else done (error_crc_mismatch, some old))
  unfolding accept
  accept-sealed old sum = ground (arith, command_read)

  pub body-sealed :
      (raw_length : ℕ) (old : ParsedPacket)
      → 7 + length payload ≤ raw_length
      → parse_body raw raw_length old declared ≡ (
          if checksum (covered command payload) == crc
          then done (success, some (parsed command payload))
          else done (error_crc_mismatch, some old))
  unfolding parse_body check_crc
  body-sealed raw_length old fits =
      ground (arith, computed, crc_read, accept-sealed old (checksum (covered command payload)))

  pub parse-sealed :
      (raw_length : ℕ) (old : ParsedPacket)
      → 7 + length payload ≤ raw_length
      → parse (some raw) raw_length (some old) ≡ (
          if checksum (covered command payload) == crc
          then done (success, some (parsed command payload))
          else done (error_crc_mismatch, some old))
  unfolding parse
  parse-sealed raw_length old fits =
      ground (arith, header_read, length_read, body-sealed raw_length old fits)

  pub get_packet_size-sealed : get_packet_size (some raw) ≡ done (7 + length payload)
  unfolding get_packet_size
  get_packet_size-sealed = rw length_read (ap done (omega arith))
