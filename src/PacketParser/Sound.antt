-- ===== src/PacketParser/Sound.antt =====
-- `packetParserParse` of src/packetParser.c on any buffer.
use ecu_platform.Base.{
  ℕ, zero, suc, ◌+◌, ◌-◌, ◌*◌, ◌^◌, ◌≤◌, ◌<◌, ◌≡◌, ◌≢◌, ◌⊎◌, inl, inr, refl, ap, sym, arith, Option,
  some, ltb, ◌==◌, ◌&&◌, if◌then◌else◌, [], ◌∷◌, ◌++◌, Bytes, IsBytes, length, Exec, done,
  read_at_done, Bool-cases, ◌||◌,
}
use mathlib.Core.List.{append_assoc}
use native.Mathlib.Decide.{dec_lt, ℕ_discrete}
use ecu_platform.Crc16.{checksum}
use ecu_platform.Protocol.{header1, header2, covered, trailer, frame}
use ecu_platform.PacketParser.{
  PacketParserStatus, success, error_invalid_length, error_invalid_header, error_crc_mismatch,
  ParsedPacket, has_header, parse_body, parse,
}
use ecu_platform.PacketParser.Accept.{sealed, parsed, read_uint16_be-append, body-sealed}

-- The buffer starts with the frame of a packet that `raw_length` bytes hold, and the parser has
-- delivered that packet.
abbrev pub Accepted : Bytes → ℕ → Exec (PacketParserStatus × Option ParsedPacket) → Type 0
Accepted raw raw_length out =
    (command : ℕ) × (payload : Bytes) × (rest : Bytes) × (raw ≡ frame command payload ++ rest)
    × (length payload ≤ 255)
    × (7 + length payload ≤ raw_length)
    × (out ≡ done (success, some (parsed command payload)))

abbrev pub Refused : ParsedPacket → Exec (PacketParserStatus × Option ParsedPacket) → Type 0
Refused old out =
    (status : PacketParserStatus) × (status ≢ success) × (out ≡ done (status, some old))

abbrev pub Outcome :
    Bytes → ℕ → ParsedPacket → Exec (PacketParserStatus × Option ParsedPacket) → Type 0
Outcome raw raw_length old out = Accepted raw raw_length out ⊎ Refused old out

-- What follows the command byte of a frame with `n` payload bytes.
record Parts (n : ℕ) (m : Bytes) : Type 0 where
  payload : Bytes
  f : ℕ
  g : ℕ
  rest : Bytes
  whole : m ≡ payload ++ (f ∷ g ∷ rest)
  room : length payload ≡ n
  f_byte : f < 2 ^ 8
  g_byte : g < 2 ^ 8

to_parts : (n : ℕ) (m : Bytes) → n + 2 ≤ length m → IsBytes m → Parts n m
to_parts zero (f ∷ g ∷ rest) h b = record {
  payload = [];
  f = f;
  g = g;
  rest = rest;
  whole = refl;
  room = refl;
  f_byte = b.0;
  g_byte = b.1.0;
}
to_parts zero [] h b = absurd (omega arith)
to_parts zero (f ∷ []) h b = absurd (omega arith)
to_parts (suc n) [] h b = absurd (omega arith)
to_parts (suc n) (x ∷ m) h b =
    let t = to_parts n m (omega arith) b.1 in
    record {
      payload = x ∷ t.payload;
      f = t.f;
      g = t.g;
      rest = t.rest;
      whole = ap (◌∷◌ x) t.whole;
      room = ap suc t.room;
      f_byte = t.f_byte;
      g_byte = t.g_byte;
    }

abbrev declared : ℕ → ℕ → ℕ
declared c d = c * 2 ^ 8 + d

module _ (raw_length : ℕ) (old : ParsedPacket) where
  -- From the length field on, where the header is right.
  sealed-Outcome :
      (e f g : ℕ) (payload rest : Bytes)
      → length payload ≤ 255
      → f < 2 ^ 8
      → g < 2 ^ 8
      → 7 + length payload ≤ raw_length
      → let raw = sealed e payload (f * 2 ^ 8 + g) ++ rest in
        Outcome raw raw_length old (parse_body raw raw_length old (length payload + 1))
  sealed-Outcome e f g payload rest small hf hg fits =
      let run =
        body-sealed e (f * 2 ^ 8 + g) payload rest small (omega arith) raw_length old fits in
      elim (ℕ_discrete (checksum (covered e payload)) (f * 2 ^ 8 + g)) [
        | yes same ↦ inl (
          e,
          payload,
          rest,
          ap (λ c. sealed e payload c ++ rest) (sym same),
          small,
          fits,
          ground (arith, run),
        )
        | no differ ↦ inr (error_crc_mismatch, (λ q. cc), ground (arith, run))
      ]

  moved :
      (raw raw' : Bytes) (k k' : ℕ)
      → raw ≡ raw'
      → k ≡ k'
      → Outcome raw' raw_length old (parse_body raw' raw_length old k')
      → Outcome raw raw_length old (parse_body raw raw_length old k)
  moved raw raw' k k' p q h = rw (p, q) h

  complete :
      (c d e : ℕ) (m : Bytes)
      → IsBytes m
      → c < 2 ^ 8
      → d < 2 ^ 8
      → raw_length ≤ 5 + length m
      → 1 ≤ declared c d
      → declared c d ≤ 256
      → 4 + declared c d + 2 ≤ raw_length
      → let raw = header1 ∷ header2 ∷ c ∷ d ∷ e ∷ m in
        Outcome raw raw_length old (parse_body raw raw_length old (declared c d))
  complete c d e m bytes hc hd held low high fits =
      let t = to_parts (declared c d - 1) m (omega arith) bytes in
      moved (header1 ∷ header2 ∷ c ∷ d ∷ e ∷ m) (sealed e t.payload (t.f * 2 ^ 8 + t.g) ++ t.rest)
        (declared c d) (length t.payload + 1)
        (ground (
          arith,
          t.whole,
          t.room,
          t.f_byte,
          t.g_byte,
          append_assoc t.payload (trailer (t.f * 2 ^ 8 + t.g)) t.rest,
        ))
        (omega (arith, t.room))
        (sealed-Outcome e t.f t.g t.payload t.rest (omega (arith, t.room)) t.f_byte t.g_byte
          (omega (arith, t.room)))

  -- A buffer with the right header, named up to its fifth byte.
  body-Outcome :
      (c d e : ℕ) (m : Bytes)
      → IsBytes m
      → c < 2 ^ 8
      → d < 2 ^ 8
      → raw_length ≤ 5 + length m
      → let raw = header1 ∷ header2 ∷ c ∷ d ∷ e ∷ m in
        Outcome raw raw_length old (parse_body raw raw_length old (declared c d))
  unfolding parse_body
  body-Outcome c d e m bytes hc hd held =
      elim (Bool-cases (ltb (declared c d) 1 || ltb 256 (declared c d))) [
        | inl out ↦ inr (error_invalid_length, (λ q. cc), ground arith)
        | inr ranged ↦ elim (Bool-cases (ltb raw_length (4 + declared c d + 2))) [
          | inl short ↦ inr (error_invalid_length, (λ q. cc), ground arith)
          | inr enough ↦
              complete c d e m bytes hc hd held (ground arith) (ground arith) (ground arith)
        ]
      ]

  parse_named :
      (a b c d e : ℕ) (m : Bytes)
      → c < 2 ^ 8
      → d < 2 ^ 8
      → 7 ≤ raw_length
      → let raw = a ∷ b ∷ c ∷ d ∷ e ∷ m in
        parse (some raw) raw_length (some old) ≡ (
          if (a == header1) && (b == header2)
          then parse_body raw raw_length old (declared c d)
          else done (error_invalid_header, some old))
  unfolding parse has_header
  parse_named a b c d e m hc hd least =
      let raw = a ∷ b ∷ c ∷ d ∷ e ∷ m in
      ground (
        arith,
        read_at_done raw 0 (omega arith),
        read_at_done raw 1 (omega arith),
        read_uint16_be-append (a ∷ b ∷ []) (e ∷ m) c d 2 hc hd refl,
      )

  named-Outcome :
      (a b c d e : ℕ) (m : Bytes)
      → IsBytes (a ∷ b ∷ c ∷ d ∷ e ∷ m)
      → raw_length ≤ 5 + length m
      → 7 ≤ raw_length
      → let raw = a ∷ b ∷ c ∷ d ∷ e ∷ m in
        Outcome raw raw_length old (parse (some raw) raw_length (some old))
  named-Outcome a b c d e m bytes held least =
      elim (Bool-cases ((a == header1) && (b == header2))) [
        | inl right ↦
            rw (parse_named a b c d e m bytes.1.1.0 bytes.1.1.1.0 least, right)
              (moved (a ∷ b ∷ c ∷ d ∷ e ∷ m) (header1 ∷ header2 ∷ c ∷ d ∷ e ∷ m) (declared c d)
                (declared c d) (ground arith) refl
                (body-Outcome c d e m bytes.1.1.1.1.1 bytes.1.1.0 bytes.1.1.1.0 held))
        | inr wrong ↦
            rw (parse_named a b c d e m bytes.1.1.0 bytes.1.1.1.0 least, wrong)
              (inr (error_invalid_header, (λ q. cc), refl))
      ]

  short-Outcome :
      (raw : Bytes)
      → raw_length < 7
      → Outcome raw raw_length old (parse (some raw) raw_length (some old))
  unfolding parse
  short-Outcome raw h = inr (error_invalid_length, (λ q. cc), ground arith)

  -- On any bytes of which raw_length can be read, the parser returns without an access out of
  -- bounds. Either the buffer starts with the frame of a packet that raw_length bytes hold, and
  -- that packet is delivered; or the status is an error and the output is left as it was.
  pub parse-Outcome :
      (raw : Bytes)
      → IsBytes raw
      → raw_length ≤ length raw
      → Outcome raw raw_length old (parse (some raw) raw_length (some old))
  parse-Outcome (a ∷ b ∷ c ∷ d ∷ e ∷ m) bytes held = elim (dec_lt raw_length 7) [
    | yes short ↦ short-Outcome (a ∷ b ∷ c ∷ d ∷ e ∷ m) short
    | no least ↦ named-Outcome a b c d e m bytes (omega arith) (omega arith)
  ]
  parse-Outcome [] bytes held = short-Outcome [] (omega arith)
  parse-Outcome (a ∷ []) bytes held = short-Outcome (a ∷ []) (omega arith)
  parse-Outcome (a ∷ b ∷ []) bytes held = short-Outcome (a ∷ b ∷ []) (omega arith)
  parse-Outcome (a ∷ b ∷ c ∷ []) bytes held = short-Outcome (a ∷ b ∷ c ∷ []) (omega arith)
  parse-Outcome (a ∷ b ∷ c ∷ d ∷ []) bytes held = short-Outcome (a ∷ b ∷ c ∷ d ∷ []) (omega arith)
