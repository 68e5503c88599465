-- ===== src/PacketBuilder/Outcome.antt =====
-- `packetBuilderBuildPacket` of src/packetBuilder.c for any arguments.
use native.Mathlib.Decide.{dec_lt}
use ecu_platform.Base.{
  ℕ, zero, suc, ◌+◌, ◌≤◌, ◌<◌, ◌≡◌, ◌⊎◌, inl, inr, refl, ap, sym, ◌∙◌, arith, Option, none, some,
  [], ◌∷◌, ◌++◌, Bytes, length, length-take, take, drop, Exec, done,
}
use ecu_platform.Protocol.{frame}
use ecu_platform.PacketBuilder.{
  PacketBuilderStatus, success, error_null_pointer, error_invalid_length, error_buffer_too_small,
  build_packet,
}
use ecu_platform.PacketBuilder.Stages.{payload_bytes, Readable}
use ecu_platform.PacketBuilder.Build.{build_packet-frame}

-- A pointer that is NULL or has so many bytes behind it.
abbrev pub HasBytes : Option Bytes → ℕ → Type 0
HasBytes none n = Unit {0}
HasBytes (some m) n = n ≤ length m

module _ (command : ℕ) (payload : Option Bytes) (n : ℕ) (buffer : Option Bytes) (size : ℕ)
    (packet_length : Option ℕ) where
  -- A pointer that is needed is NULL.
  abbrev pub LacksPointer : Type 0
  LacksPointer = (buffer ≡ none) ⊎ ((packet_length ≡ none) ⊎ ((payload ≡ none) × (0 < n)))

  -- Why a build is refused.
  pub data Reason : PacketBuilderStatus → Type 0 where
    null_pointer : LacksPointer → Reason error_null_pointer
    too_long : ¬ LacksPointer → 255 < n → Reason error_invalid_length
    too_small : ¬ LacksPointer → n ≤ 255 → size < 7 + n → Reason error_buffer_too_small

  -- The call has refused, and written nothing.
  pub record Refused (run : Exec (PacketBuilderStatus × Option Bytes × Option ℕ)) : Type 0 where
    pub status : PacketBuilderStatus
    pub reason : Reason status
    pub returns : run ≡ done (status, buffer, packet_length)

  -- The call has written the frame over the first bytes of the buffer, and its length.
  pub record Built (run : Exec (PacketBuilderStatus × Option Bytes × Option ℕ)) : Type 0 where
    pub old : Bytes
    pub buffer_eq : buffer ≡ some old
    pub pointers : ¬ LacksPointer
    pub short : n ≤ 255
    pub fits : 7 + n ≤ size
    pub returns :
        run
        ≡ done (
          success,
          some (frame command (payload_bytes payload n) ++ drop (7 + n) old),
          some (7 + n),
        )

readable :
    (payload : Option Bytes) (n : ℕ)
    → HasBytes payload n
    → ((payload ≡ none) × (0 < n)) ⊎ Readable payload n
readable none zero h = inr refl
readable none (suc n) h = inl (refl, omega arith)
readable (some m) n h = inr h

unread : (payload : Option Bytes) (n : ℕ) → Readable payload n → ¬ ((payload ≡ none) × (0 < n))
unread none n r x = omega (arith, x.1)
unread (some m) n r x = absurd cc

take-drop : (n : ℕ) (m : Bytes) → take n m ++ drop n m ≡ m
take-drop zero m = refl
take-drop (suc n) [] = refl
take-drop (suc n) (x ∷ m) = ap (◌∷◌ x) (take-drop n m)

module _ (command : ℕ) (payload : Option Bytes) (n size : ℕ) (b : Bytes) (old : ℕ)
    (room : size ≤ length b) where
  pointers_given : Readable payload n → ¬ LacksPointer command payload n (some b) size (some old)
  pointers_given r (inl e) = absurd cc
  pointers_given r (inr (inl e)) = absurd cc
  pointers_given r (inr (inr x)) = unread payload n r x

  built :
      Readable payload n
      → n ≤ 255
      → 7 + n ≤ size
      → Built command payload n
          (some b)
          size
          (some old)
          (build_packet command payload n (some b) size (some old))
  built r short fits = record {
    old = b;
    buffer_eq = refl;
    pointers = pointers_given r;
    short = short;
    fits = fits;
    returns =
        ap (λ m. build_packet command payload n (some m) size (some old))
          (sym (take-drop (7 + n) b))
        ∙ build_packet-frame command payload n size old (take (7 + n) b) (drop (7 + n) b) r short
            fits (omega (arith, length-take (7 + n) b));
  }

  long :
      Readable payload n
      → 255 < n
      → build_packet command payload n (some b) size (some old)
        ≡ done (error_invalid_length, some b, some old)
  unfolding build_packet ecu_platform.PacketBuilder.is_null
  long r h = ground (arith, unread payload n r)

  small :
      Readable payload n
      → n ≤ 255
      → size < 7 + n
      → build_packet command payload n (some b) size (some old)
        ≡ done (error_buffer_too_small, some b, some old)
  unfolding build_packet ecu_platform.PacketBuilder.is_null
  small r h k = ground (arith, unread payload n r)

  given :
      Readable payload n
      → Built command payload n
          (some b)
          size
          (some old)
          (build_packet command payload n (some b) size (some old))
        ⊎ Refused command payload n
            (some b)
            size
            (some old)
            (build_packet command payload n (some b) size (some old))
  given r = elim (dec_lt 255 n) [
    | yes h ↦ inr (record {
      status = error_invalid_length;
      reason = too_long (pointers_given r) h;
      returns = long r h;
    })
    | no h ↦ elim (dec_lt size (7 + n)) [
      | yes k ↦ inr (record {
        status = error_buffer_too_small;
        reason = too_small (pointers_given r) (omega arith) k;
        returns = small r (omega arith) k;
      })
      | no k ↦ inl (built r (omega arith) (omega arith))
    ]
  ]

no_payload :
    (command n size : ℕ) (b : Bytes) (old : ℕ)
    → 0 < n
    → build_packet command none n (some b) size (some old)
      ≡ done (error_null_pointer, some b, some old)
unfolding build_packet
no_payload command n size b old h = ground arith

-- For any arguments, the payload pointer being NULL or having n readable bytes behind it and the
-- buffer pointer being NULL or having the stated size, the build makes no access out of bounds and
-- ends in one of two ways. Either no needed pointer is NULL, n is at most 255 and the stated size
-- at least 7 + n; then it succeeds, the frame stands in the first 7 + n bytes, the bytes behind
-- are kept and the length 7 + n is stored. Or it is refused and nothing is written: as a NULL
-- pointer if the buffer, the length pointer or the payload of positive length is NULL, else as an
-- invalid length if n is over 255, else as a too small buffer because the stated size is below 7 +
-- n.
pub build_packet-Outcome :
    (command : ℕ) (payload : Option Bytes) (n : ℕ) (buffer : Option Bytes) (size : ℕ)
    (packet_length : Option ℕ)
    → HasBytes payload n
    → HasBytes buffer size
    → Built command payload n buffer size packet_length
        (build_packet command payload n buffer size packet_length)
      ⊎ Refused command payload n buffer size packet_length
          (build_packet command payload n buffer size packet_length)
unfolding build_packet
build_packet-Outcome command payload n none size packet_length h k =
    inr (record { status = error_null_pointer; reason = null_pointer (inl refl); returns = refl })
build_packet-Outcome command payload n (some b) size none h k =
    inr (record {
      status = error_null_pointer;
      reason = null_pointer (inr (inl refl));
      returns = refl;
    })
build_packet-Outcome command payload n (some b) size (some old) h k = elim (readable payload n h) [
  | inl x ↦ inr (record {
    status = error_null_pointer;
    reason = null_pointer (inr (inr x));
    returns = rw x.0 (no_payload command n size b old x.1);
  })
  | inr r ↦ given command payload n size b old k r
]
