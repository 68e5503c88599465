-- ===== src/PacketParser/Chunks.antt =====
-- Packets that arrive in chunks of any sizes.
use native.Mathlib.Decide.{dec_lt}
use mathlib.Core.List.{append_assoc, append-nil}
use ecu_platform.Base.{
  ℕ, zero, suc, ◌≤◌, ◌<◌, ◌≡◌, refl, sym, ap, ap₂, ◌∙◌, arith, some, List, [], ◌∷◌, ◌++◌, Bytes,
  length, length-append, length-replicate, replicate, joined, drop, take-append, get_or, slice_all,
  Exec, done, ◌>>=◌,
}
use ecu_platform.Protocol.{frame}
use ecu_platform.PacketBuilder
use ecu_platform.PacketBuilder.{build_packet}
use ecu_platform.PacketBuilder.Build.{build_packet-frame}
use ecu_platform.PacketParser.Framing.{
  Packet, take_packet, waiting, taken, transmit, built, receive, listen,
}
use ecu_platform.PacketParser.Wire.{
  take_packet_few, wire, Sendable, size_of, length-frame, take_packet-part, take_packet-frame,
}

-- Two cuts of the same bytes.
cut_again :
    (xs ys front behind : Bytes)
    → xs ++ ys ≡ front ++ behind
    → length front ≤ length xs
    → (zs : Bytes) × (xs ≡ front ++ zs) × (zs ++ ys ≡ behind)
cut_again xs ys [] behind e h = (xs, refl, e)
cut_again [] ys (b ∷ front) behind e h = absurd (omega arith)
cut_again (x ∷ xs) ys (b ∷ front) behind e h =
    let (zs, f, g) = cut_again xs ys front behind (ap (drop 1) e) (omega arith) in
    (zs, ap₂ ◌∷◌ (ap (λ m. get_or m 0 0) e) f, g)

-- Less than the first of the packets, if there are any.
abbrev Short : List Packet → Bytes → Type 0
Short [] rest = rest ≡ []
Short (p ∷ packets) rest = length rest < size_of p

-- The framing code has taken the packets that are there in full, and keeps the start of the next.
record Received (packets : List Packet) (later : Bytes) (run : Exec (List Packet × Bytes))
    : Type 0 where
  now : List Packet
  to_come : List Packet
  rest : Bytes
  split : packets ≡ now ++ to_come
  returns : run ≡ done (now, rest)
  left : rest ++ later ≡ wire to_come
  short : Short to_come rest
  sendable : Sendable to_come

append_empty : (xs ys : Bytes) → xs ++ ys ≡ [] → xs ≡ []
append_empty [] ys e = refl
append_empty (x ∷ xs) ys e = absurd (omega (arith, ap length e))

receive_waiting :
    (fuel : ℕ) (bytes : Bytes)
    → take_packet bytes ≡ done waiting
    → receive fuel bytes ≡ done ([], bytes)
unfolding receive
receive_waiting zero bytes e = refl
receive_waiting (suc fuel) bytes e = rw e refl

receive-taken :
    (fuel : ℕ) (bytes behind rest : Bytes) (p : Packet) (now : List Packet)
    → take_packet bytes ≡ done (taken p behind)
    → receive fuel behind ≡ done (now, rest)
    → receive (suc fuel) bytes ≡ done (p ∷ now, rest)
unfolding receive
receive-taken fuel bytes behind rest p now e f = rw (e, f) refl

part_received :
    (p : Packet) (packets : List Packet) (fuel : ℕ) (bytes later : Bytes)
    → Sendable (p ∷ packets)
    → bytes ++ later ≡ wire (p ∷ packets)
    → length bytes < size_of p
    → Received (p ∷ packets) later (receive fuel bytes)
part_received p packets fuel bytes later h e short = record {
  now = [];
  to_come = p ∷ packets;
  rest = bytes;
  split = refl;
  returns = receive_waiting fuel bytes (take_packet-part p h.0 bytes later (wire packets) e short);
  left = e;
  short = short;
  sendable = h;
}

received :
    (packets : List Packet) (fuel : ℕ) (bytes later : Bytes)
    → Sendable packets
    → bytes ++ later ≡ wire packets
    → length bytes ≤ fuel
    → Received packets later (receive fuel bytes)
received [] fuel bytes later h e f =
    let empty = append_empty bytes later e in
    record {
      now = [];
      to_come = [];
      rest = bytes;
      split = refl;
      returns = receive_waiting fuel bytes (take_packet_few bytes (omega (arith, ap length empty)));
      left = e;
      short = empty;
      sendable = h;
    }
received (p ∷ packets) zero bytes later h e f =
    part_received p packets zero bytes later h e (omega arith)
received (p ∷ packets) (suc fuel) bytes later h e f = elim (dec_lt (length bytes) (size_of p)) [
  | yes short ↦ part_received p packets (suc fuel) bytes later h e short
  | no whole ↦
      let front = frame p.command p.payload in
      let lf = length-frame p in
      let (behind, f1, g1) = cut_again bytes later front (wire packets) e (omega arith) in
      let next =
        received packets fuel behind later h.1 g1
          (omega (arith, ap length f1, length-append front behind)) in
      record {
        now = p ∷ next.now;
        to_come = next.to_come;
        rest = next.rest;
        split = ap (◌∷◌ p) next.split;
        returns =
            receive-taken fuel bytes behind next.rest p next.now
              (ap take_packet f1 ∙ take_packet-frame p h.0 behind) next.returns;
        left = next.left;
        short = next.short;
        sendable = next.sendable;
      }
]

-- At the end of all bytes nothing is left of a packet.
none_left :
    (packets : List Packet) (rest : Bytes)
    → rest ≡ wire packets
    → Short packets rest
    → (packets ≡ []) × (rest ≡ [])
none_left [] rest e h = (refl, e)
none_left (p ∷ packets) rest e h =
    let lf = length-frame p in
    absurd (omega (arith, ap length e, length-append (frame p.command p.payload) (wire packets)))

listen-wire :
    (chunks : List Bytes) (packets : List Packet) (pending : Bytes)
    → Sendable packets
    → Short packets pending
    → pending ++ joined chunks ≡ wire packets
    → listen pending chunks ≡ done (packets, [])
unfolding listen
listen-wire [] packets pending h short e =
    let (f, g) = none_left packets pending (sym (append-nil pending) ∙ e) short in
    ap₂ (λ ps r. done (ps, r)) (sym f) g
listen-wire (chunk ∷ chunks) packets pending h short e =
    let bytes = pending ++ chunk in
    let step =
      received packets (length bytes) bytes (joined chunks) h
        (append_assoc pending chunk (joined chunks) ∙ e) (omega arith) in
    let ih = listen-wire chunks step.to_come step.rest step.sendable step.short step.left in
    rw (step.returns, ih) (ap (λ ps. done (ps, [])) (sym step.split))

built-frame :
    (p : Packet)
    → length p.payload ≤ 255
    → (build_packet p.command
          (some p.payload)
          (length p.payload)
          (some (replicate (size_of p) 0))
          (size_of p)
          (some 0)
        >>= built)
      ≡ done (frame p.command p.payload)
unfolding built
built-frame p small =
    let blank : Bytes = replicate (size_of p) 0 in
    let lb : length blank ≡ size_of p = length-replicate (size_of p) 0 in
    ap
      (λ m.
        build_packet p.command (some p.payload) (length p.payload) (some m) (size_of p) (some 0)
        >>= built)
      (sym (append-nil blank))
    ∙ ap (λ r. r >>= built)
        (build_packet-frame p.command (some p.payload) (length p.payload) (size_of p) 0 blank []
          (omega arith) small (omega arith) lb)
    ∙ ap (λ m. built (PacketBuilder.success, some (frame p.command m ++ []), some (size_of p)))
        (slice_all p.payload)
    ∙ ap done (take-append (size_of p) (frame p.command p.payload) [] (sym (length-frame p)))

transmit-wire : (packets : List Packet) → Sendable packets → transmit packets ≡ done (wire packets)
unfolding transmit
transmit-wire [] h = refl
transmit-wire (p ∷ packets) h = rw (built-frame p h.0, transmit-wire packets h.1) refl

-- For packets of payloads of at most 255 bytes, building them one after another succeeds with the
-- bytes of the packets in a row; and however these bytes are cut into chunks, framing code that
-- waits for four bytes, asks for the size of the packet, waits for that many bytes and then parses
-- gets exactly these packets, in order, without an access out of bounds, and keeps no byte at the
-- end.
pub listen-transmit :
    (packets : List Packet) (chunks : List Bytes)
    → Sendable packets
    → joined chunks ≡ wire packets
    → (transmit packets ≡ done (joined chunks)) × (listen [] chunks ≡ done (packets, []))
listen-transmit packets chunks h e = (
  transmit-wire packets h ∙ ap done (sym e),
  listen-wire chunks packets [] h (none_pending packets) e,
)
  where
    none_pending : (ps : List Packet) → Short ps []
    none_pending [] = refl
    none_pending (p ∷ ps) = omega arith
