-- ===== src/PacketBuilder/Stages.antt =====
-- The writes of `packetBuilderBuildPacket` one after the other, on a buffer whose first bytes are
-- named.
use ecu_platform.Base.{
  ℕ, ◌+◌, ◌/◌, ◌^◌, ◌≤◌, ◌<◌, ◌≡◌, refl, arith, Option, none, some, u8, [], ◌∷◌, ◌++◌, Bytes,
  length, length-append, length-slice, done, write_at, write_at_done, read_bytes_done,
  write_bytes_done, set, set-append, slice, splice-append,
}
use ecu_platform.Bits.{bit_and, bit_and_byte}
use ecu_platform.Protocol.{trailer}
use ecu_platform.PacketBuilder.{write_uint16_be, copy_payload}

-- The bytes that the payload pointer gives, and when it gives that many.
abbrev pub payload_bytes : Option Bytes → ℕ → Bytes
payload_bytes none n = []
payload_bytes (some p) n = slice p 0 n

abbrev pub Readable : Option Bytes → ℕ → Type 0
Readable none n = n ≡ 0
Readable (some p) n = n ≤ length p

pub length-payload_bytes :
    (payload : Option Bytes) (n : ℕ) → Readable payload n → length (payload_bytes payload n) ≡ n
length-payload_bytes none n h = omega arith
length-payload_bytes (some p) n h = length-slice p 0 n (omega arith)

pub write_at-append :
    (before after : Bytes) (k i v : ℕ)
    → i ≡ length before + k
    → k < length after
    → write_at (before ++ after) i v ≡ done (before ++ set after k v)
write_at-append before after k i v e h = rw e (
    ground (
      arith,
      write_at_done (before ++ after) (length before + k) v,
      set-append before after k v,
      length-append before after,
    ))

pub write_uint16_be-append :
    (before after : Bytes) (b c value o : ℕ)
    → value < 2 ^ 16
    → o ≡ length before
    → write_uint16_be (before ++ (b ∷ c ∷ after)) o value
      ≡ done (before ++ (trailer value ++ after))
unfolding write_uint16_be
write_uint16_be-append before after b c value o hv ho =
    rw
      (
        write_at-append before (b ∷ c ∷ after) 0 o (u8 (value / 2 ^ 8)) (omega arith) (omega arith),
        write_at-append before (u8 (value / 2 ^ 8) ∷ c ∷ after) 1 (o + 1) (u8 (bit_and value 0xff))
            (omega arith) (omega arith),
      )
      (ground (arith, bit_and_byte value hv))

slice-empty : (p : Bytes) → slice p 0 0 ≡ []
slice-empty [] = refl
slice-empty (x ∷ p) = refl

length-zero : (p : Bytes) → length p ≡ 0 → p ≡ []
length-zero [] h = refl
length-zero (x ∷ p) h = absurd (omega arith)

pub copy_payload-append :
    (a b c d e : ℕ) (body after : Bytes) (payload : Option Bytes) (n : ℕ)
    → Readable payload n
    → length body ≡ n
    → copy_payload (a ∷ b ∷ c ∷ d ∷ e ∷ (body ++ after)) payload n
      ≡ done (a ∷ b ∷ c ∷ d ∷ e ∷ (payload_bytes payload n ++ after))
unfolding copy_payload
copy_payload-append a b c d e [] after none n h l = ground arith
copy_payload-append a b c d e (x ∷ body) after none n h l = absurd (omega arith)
copy_payload-append a b c d e body after (some p) n h l = ground (
  arith,
  length-append body after,
  length-slice p 0 n,
  read_bytes_done p 0 n,
  write_bytes_done (a ∷ b ∷ c ∷ d ∷ e ∷ (body ++ after)) 5 (slice p 0 n),
  splice-append body after (slice p 0 n),
  slice-empty p,
  length-zero body,
)
