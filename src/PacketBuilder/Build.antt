-- ===== src/PacketBuilder/Build.antt =====
-- `packetBuilderBuildPacket` as a whole: the frame that it writes.
use ecu_platform.Base.{
  ℕ, zero, suc, ◌+◌, ◌/◌, ◌%◌, ◌^◌, ◌≤◌, ◌≡◌, refl, ap, sym, ◌∙◌, arith, Option, none, some, u16,
  [], ◌∷◌, ◌++◌, Bytes, length, length-append, done, slice, slice-append,
}
use mathlib.Core.List.{append_assoc}
use ecu_platform.Crc16
use ecu_platform.Crc16.{Crc16Status, checksum}
use ecu_platform.Crc16.Compute.{compute_lem}
use ecu_platform.Crc16.Detect.{checksum-lt}
use ecu_platform.Protocol.{header1, header2, covered, trailer, frame}
use ecu_platform.PacketBuilder.{success, build_into, build_packet}
use ecu_platform.PacketBuilder.Stages.{
  payload_bytes, Readable, length-payload_bytes, write_at-append, write_uint16_be-append,
  copy_payload-append,
}

module _ (command : ℕ) (payload : Option Bytes) (n : ℕ) (readable : Readable payload n)
    (small : n ≤ 255) where
  abbrev carried : Bytes
  carried = payload_bytes payload n

  abbrev declared : ℕ
  declared = u16 (1 + n)

  declared-eq : declared ≡ length carried + 1
  declared-eq = omega (arith, length-payload_bytes payload n readable)

  computed :
      (after : Bytes)
      → Crc16.compute
          (some (trailer declared ++ (command ∷ (carried ++ after))))
          (2 + declared)
          (some 0)
        ≡ done (Crc16Status.success, some (checksum (covered command carried)))
  computed after =
      compute_lem (trailer declared ++ (command ∷ (carried ++ after))) (2 + declared) 0
        (omega (arith, declared-eq, length-append carried after))
      ∙ ap (λ m. done (Crc16Status.success, some (checksum m))) region
    where
      region :
          slice (trailer declared ++ (command ∷ (carried ++ after))) 0 (2 + declared)
          ≡ covered command carried
      region =
          rw declared-eq
            (slice-append (covered command carried) after (2 + (length carried + 1)) (omega arith))

  -- On a buffer of named bytes.
  build_into_named :
      (a b c d e f g old : ℕ) (body rest : Bytes)
      → length body ≡ n
      → build_into command payload n (a ∷ b ∷ c ∷ d ∷ e ∷ (body ++ (f ∷ g ∷ rest))) old
        ≡ done (success, some (frame command carried ++ rest), some (7 + n))
  unfolding build_into
  build_into_named a b c d e f g old body rest l =
      let tail = body ++ (f ∷ g ∷ rest) in
      rw
        (
          write_at-append [] (a ∷ b ∷ c ∷ d ∷ e ∷ tail) 0 0 header1 refl (omega arith),
          write_at-append [] (header1 ∷ b ∷ c ∷ d ∷ e ∷ tail) 1 1 header2 refl (omega arith),
          write_uint16_be-append (header1 ∷ header2 ∷ []) (e ∷ tail) c d declared 2 (omega arith)
              refl,
          write_at-append [] (header1 ∷ header2 ∷ (trailer declared ++ (e ∷ tail))) 4 4 command refl
              (omega arith),
          copy_payload-append header1 header2 (declared / 2 ^ 8) (declared % 2 ^ 8) command body
              (f ∷ g ∷ rest) payload n readable l,
          computed (f ∷ g ∷ rest),
          write_uint16_be-append (header1 ∷ header2 ∷ (trailer declared ++ (command ∷ carried)))
              rest f g (checksum (covered command carried)) (2 + (2 + declared))
              (checksum-lt (covered command carried)) (omega (arith, declared-eq)),
          declared-eq,
        )
        (ap
          (λ m. done (
            success,
            some (header1 ∷ header2 ∷ (trailer (length carried + 1) ++ (command ∷ m))),
            some (7 + n),
          ))
          (sym (append_assoc carried (trailer (checksum (covered command carried))) rest)))

-- A buffer part for `n` payload bytes, split by the fields that come to stand there.
record Fields (n : ℕ) (m : Bytes) : Type 0 where
  a : ℕ
  b : ℕ
  c : ℕ
  d : ℕ
  e : ℕ
  body : Bytes
  f : ℕ
  g : ℕ
  room : length body ≡ n
  whole : m ≡ a ∷ b ∷ c ∷ d ∷ e ∷ (body ++ (f ∷ g ∷ []))

last_two :
    (n : ℕ) (m : Bytes)
    → length m ≡ n + 2
    → (body : Bytes) × (f : ℕ) × (g : ℕ) × (length body ≡ n) × (m ≡ body ++ (f ∷ g ∷ []))
last_two zero (f ∷ g ∷ []) h = ([], f, g, refl, refl)
last_two zero [] h = absurd (omega arith)
last_two zero (f ∷ []) h = absurd (omega arith)
last_two zero (f ∷ g ∷ x ∷ m) h = absurd (omega arith)
last_two (suc n) [] h = absurd (omega arith)
last_two (suc n) (x ∷ m) h =
    let t = last_two n m (omega arith) in (x ∷ t.0, t.1, t.2, ap suc t.3, ap (◌∷◌ x) t.4)

to_fields : (n : ℕ) (m : Bytes) → length m ≡ 7 + n → Fields n m
to_fields n (a ∷ b ∷ c ∷ d ∷ e ∷ m) h =
    let t = last_two n m (omega arith) in
    record {
      a = a;
      b = b;
      c = c;
      d = d;
      e = e;
      body = t.0;
      f = t.1;
      g = t.2;
      room = t.3;
      whole = ap (λ r. a ∷ b ∷ c ∷ d ∷ e ∷ r) t.4;
    }
to_fields n [] h = absurd (omega arith)
to_fields n (a ∷ []) h = absurd (omega arith)
to_fields n (a ∷ b ∷ []) h = absurd (omega arith)
to_fields n (a ∷ b ∷ c ∷ []) h = absurd (omega arith)
to_fields n (a ∷ b ∷ c ∷ d ∷ []) h = absurd (omega arith)

-- With a readable payload of n ≤ 255 bytes and a stated buffer size of at least 7 + n, the build
-- succeeds without an access out of bounds: the frame of the packet replaces the first 7 + n bytes
-- of the buffer, what stands behind them is kept, and the length 7 + n is stored.
pub build_packet-frame :
    (command : ℕ) (payload : Option Bytes) (n size old : ℕ) (replaced rest : Bytes)
    → Readable payload n
    → n ≤ 255
    → 7 + n ≤ size
    → length replaced ≡ 7 + n
    → build_packet command payload n (some (replaced ++ rest)) size (some old)
      ≡ done (success, some (frame command (payload_bytes payload n) ++ rest), some (7 + n))
unfolding build_packet
build_packet-frame command payload n size old replaced rest readable small fits l =
    entered payload readable
    ∙ ap (λ m. build_into command payload n m old) split
    ∙ build_into_named command payload n readable small t.a t.b t.c t.d t.e t.f t.g old t.body rest
        t.room
  where
    t : Fields n replaced
    t = to_fields n replaced l

    split : replaced ++ rest ≡ t.a ∷ t.b ∷ t.c ∷ t.d ∷ t.e ∷ (t.body ++ (t.f ∷ t.g ∷ rest))
    split =
        ap (λ m. m ++ rest) t.whole
        ∙ ap (λ r. t.a ∷ t.b ∷ t.c ∷ t.d ∷ t.e ∷ r) (append_assoc t.body (t.f ∷ t.g ∷ []) rest)

    entered :
        (p : Option Bytes)
        → Readable p n
        → build_packet command p n (some (replaced ++ rest)) size (some old)
          ≡ build_into command p n (replaced ++ rest) old
    entered none h = ground arith
    entered (some p) h = ground arith
