-- ===== src/Crc32/Tests.antt =====
-- The check value of the algorithm's catalogue entry, and the theorems on its message.
use ecu_platform.Base.{
  none, take, drop, List, ℕ, ◌≡◌, refl, some, [], ◌∷◌, Bytes, arith, done, slice, ◌==◌,
  if◌then◌else◌,
}
use ecu_platform.Crc32.{
  Crc32Context, init, success, error_mismatch, checksum, compute, verify, process_byte,
}
use ecu_platform.Catalogue.{crc32_iso_hdlc}
use ecu_platform.Crc32.Standard.{compute-crc32_iso_hdlc}
use ecu_platform.Crc32.Detect.{verify-replaced}
use ecu_platform.Crc32.Streaming.{crc32, crc32-Agree}
use ecu_platform.Streaming.{AllReadable, Call, restart, ask, feed, Agree, stream, one_shot}

abbrev message : Bytes
message = 0x31 ∷ 0x32 ∷ 0x33 ∷ 0x34 ∷ 0x35 ∷ 0x36 ∷ 0x37 ∷ 0x38 ∷ 0x39 ∷ []

check_value : compute (some message) 9 (some 0) ≡ done (success, some 0xcbf43926)
unfolding compute process_byte ecu_platform.Base.fold_bytes ecu_platform.Base.read_at
    ecu_platform.Crc32.shift_bits ecu_platform.Crc32.shift_bit
check_value = refl

-- Asked in the middle of the message, at its end, and after a second start.
abbrev calls : List Call
calls =
    feed (some message) 4
    ∷ ask (some 0)
    ∷ feed none 0
    ∷ feed (some (drop 4 message)) 5
    ∷ ask (some 0)
    ∷ restart
    ∷ feed none 3
    ∷ feed (some message) 9
    ∷ ask none
    ∷ ask (some 0)
    ∷ []

calls-AllReadable : AllReadable calls
calls-AllReadable = (omega arith, (omega arith, (omega arith, tt)))

crc32-Agree_example :
    Agree crc32
      (stream crc32 (init (some (record { current_crc = 7 }))).1 calls)
      (one_shot crc32 [] calls)
crc32-Agree_example = crc32-Agree (record { current_crc = 7 }) calls calls-AllReadable

verify-replaced_example :
    verify (some (0x31 ∷ 0x00 ∷ 0x32 ∷ 0x34 ∷ [])) 4 (checksum (0x31 ∷ 0x32 ∷ 0x33 ∷ 0x34 ∷ []))
    ≡ done error_mismatch
verify-replaced_example =
    verify-replaced (0x31 ∷ []) (0x34 ∷ []) (0x32 ∷ 0x33 ∷ []) (0x00 ∷ 0x32 ∷ []) (omega arith, tt)
      (omega arith, tt) (omega arith, (omega arith, tt)) (omega arith, (omega arith, tt)) refl
      (omega arith) (λ e. cc)

compute-crc32_iso_hdlc_example :
    compute (some (0x31 ∷ 0x32 ∷ [])) 2 (some 9)
    ≡ done (success, some (crc32_iso_hdlc (0x31 ∷ 0x32 ∷ [])))
compute-crc32_iso_hdlc_example =
    compute-crc32_iso_hdlc (0x31 ∷ 0x32 ∷ []) 9 (omega arith, (omega arith, tt))
