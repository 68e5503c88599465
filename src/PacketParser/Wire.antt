-- ===== src/PacketParser/Wire.antt =====
-- The bytes of packets in a row, and what the framing code takes off their front.
use mathlib.Core.List.{append_assoc}
use ecu_platform.Base.{
  ℕ, zero, suc, ◌+◌, ◌≤◌, ◌<◌, ◌≡◌, refl, sym, ap, ap₂, ◌∙◌, arith, none, some, List, [], ◌∷◌, ◌++◌,
  Bool-cases, inl, inr, false, ltb, if◌then◌else◌, Bytes, length, length-append, drop, slice,
  slice-append, get_or, read_at, read_at_done, done,
}
use ecu_platform.Crc16.{checksum}
use ecu_platform.Crc16.Detect.{checksum-lt}
use ecu_platform.Protocol.{covered, trailer, frame}
use ecu_platform.PacketParser.{success, read_uint16_be, get_packet_size}
use ecu_platform.PacketParser.Accept.{parsed, get_packet_size-sealed}
use ecu_platform.PacketParser.RoundTrip.{parse-frame}
use ecu_platform.PacketParser.Framing.{
  Packet, payload_at, blank, waiting, taken, delivered, take_packet,
}

-- The bytes of a list of packets on the wire.
abbrev pub wire : List Packet → Bytes
wire [] = []
wire (p ∷ packets) = frame p.command p.payload ++ wire packets

-- Every payload fits a packet.
abbrev pub Sendable : List Packet → Type 0
Sendable [] = Unit {0}
Sendable (p ∷ packets) = (length p.payload ≤ 255) × Sendable packets

abbrev pub size_of : Packet → ℕ
size_of p = 7 + length p.payload

pub length-frame : (p : Packet) → length (frame p.command p.payload) ≡ size_of p
length-frame p =
    omega (arith, length-append p.payload (trailer (checksum (covered p.command p.payload))))

drop-append : (xs ys : Bytes) (n : ℕ) → n ≡ length xs → drop n (xs ++ ys) ≡ ys
drop-append [] ys zero e = refl
drop-append [] ys (suc n) e = absurd (omega arith)
drop-append (x ∷ xs) ys zero e = absurd (omega arith)
drop-append (x ∷ xs) ys (suc n) e = drop-append xs ys n (omega arith)

get_or-prefix : (xs ys : Bytes) (i : ℕ) → i < length xs → get_or (xs ++ ys) i 0 ≡ get_or xs i 0
get_or-prefix [] ys i h = absurd (omega arith)
get_or-prefix (x ∷ xs) ys zero h = refl
get_or-prefix (x ∷ xs) ys (suc i) h = get_or-prefix xs ys i (omega arith)

read_at-prefix : (xs ys : Bytes) (i : ℕ) → i < length xs → read_at (xs ++ ys) i ≡ read_at xs i
read_at-prefix xs ys i h =
    read_at_done (xs ++ ys) i (omega (arith, length-append xs ys))
    ∙ ap done (get_or-prefix xs ys i h)
    ∙ sym (read_at_done xs i h)

-- The size of a packet can be read once its first four bytes are there.
get_packet_size-prefix :
    (xs ys : Bytes) → 4 ≤ length xs → get_packet_size (some (xs ++ ys)) ≡ get_packet_size (some xs)
unfolding get_packet_size read_uint16_be
get_packet_size-prefix xs ys h =
    rw (read_at-prefix xs ys 2 (omega arith), read_at-prefix xs ys 3 (omega arith)) refl

pub take_packet_few : (bytes : Bytes) → length bytes < 4 → take_packet bytes ≡ done waiting
unfolding take_packet
take_packet_few bytes h = ground arith

module _ (p : Packet) (small : length p.payload ≤ 255) where
  get_packet_size-frame :
      (rest : Bytes) → get_packet_size (some (frame p.command p.payload ++ rest)) ≡ done (size_of p)
  get_packet_size-frame rest =
      get_packet_size-sealed p.command (checksum (covered p.command p.payload)) p.payload rest small
        (checksum-lt (covered p.command p.payload))

  -- A part of a packet is left alone.
  pub take_packet-part :
      (xs ys rest : Bytes)
      → xs ++ ys ≡ frame p.command p.payload ++ rest
      → length xs < size_of p
      → take_packet xs ≡ done waiting
  unfolding take_packet
  take_packet-part xs ys rest e h = ground (
    arith,
    get_packet_size-prefix xs ys,
    ap (λ m. get_packet_size (some m)) e,
    get_packet_size-frame rest,
  )

  payload_back :
      (rest : Bytes)
      → payload_at
          (frame p.command p.payload ++ rest)
          (length p.payload)
          (if ltb 0 (length p.payload) then some 5 else none)
        ≡ p.payload
  payload_back rest = elim (Bool-cases (ltb 0 (length p.payload))) [
    | inl e ↦ rw e (
        ap (λ m. slice m 0 (length p.payload))
          (append_assoc p.payload (trailer (checksum (covered p.command p.payload))) rest)
        ∙ slice-append p.payload (trailer (checksum (covered p.command p.payload)) ++ rest)
            (length p.payload) refl)
    | inr e ↦ rw e (empty p.payload e)
  ]
    where
      empty : (m : Bytes) → ltb 0 (length m) ≡ false → [] ≡ m
      empty [] h = refl
      empty (x ∷ m) h = absurd (ground arith)

  delivered-frame :
      (rest : Bytes)
      → delivered
          (frame p.command p.payload ++ rest)
          (size_of p)
          (success, some (parsed p.command p.payload))
        ≡ taken p rest
  unfolding delivered
  delivered-frame rest =
      ap₂ (λ m r. taken (record { command = p.command; payload = m }) r) (payload_back rest)
        (drop-append (frame p.command p.payload) rest (size_of p) (sym (length-frame p)))

  -- A whole one is taken off.
  pub take_packet-frame :
      (rest : Bytes) → take_packet (frame p.command p.payload ++ rest) ≡ done (taken p rest)
  unfolding take_packet
  take_packet-frame rest =
      let l = length-append (frame p.command p.payload) rest in
      let lf = length-frame p in
      ground (
        arith,
        get_packet_size-frame rest,
        delivered-frame rest,
        parse-frame p.command (size_of p) p.payload rest blank small (omega arith),
      )
