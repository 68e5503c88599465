-- ===== src/Crc16/Tests.antt =====
-- The check value of the algorithm's catalogue entry, and the theorems on its message.
use ecu_platform.Base.{
  take, drop, ℕ, ◌≡◌, ◌≢◌, ◌⊎◌, inl, inr, refl, none, some, [], ◌∷◌, ◌++◌, Bytes, length, arith,
  done, List, slice, ◌==◌, if◌then◌else◌, ltb, ◌/◌, ◌%◌, ◌^◌,
}
use ecu_platform.Catalogue.{crc16_ccitt_false}
use ecu_platform.Crc16.Standard.{compute-crc16_ccitt_false}
use ecu_platform.Crc16.{
  Crc16Context, Crc16Status, success, error_mismatch, error_null_pointer, checksum, compute, verify,
  init, update, get_result, process_byte,
}
use ecu_platform.Crc16.Compute.{compute_lem}
use ecu_platform.Crc16.Streaming.{crc16, crc16-Agree}
use ecu_platform.Streaming.{AllReadable, Call, restart, ask, feed, Agree, stream, one_shot}
use ecu_platform.Crc16.Detect.{verify_changed}

abbrev message : Bytes
message = 0x31 ∷ 0x32 ∷ 0x33 ∷ 0x34 ∷ 0x35 ∷ 0x36 ∷ 0x37 ∷ 0x38 ∷ 0x39 ∷ []

checksum_check_value : compute (some message) 9 (some 0) ≡ done (success, some 0x29b1)
unfolding compute process_byte ecu_platform.Base.fold_bytes ecu_platform.Base.read_at
    ecu_platform.Crc16.shift_bits ecu_platform.Crc16.shift_bit
checksum_check_value = refl

first_four_bytes :
    compute (some message) 4 (some 0) ≡ done (success, some (checksum (slice message 0 4)))
first_four_bytes = compute_lem message 4 0 (omega arith)

-- Asked in the middle of the message, at its end, and after a second start.
abbrev calls : List Call
calls =
    feed (some message) 4
    ∷ ask (some 0)
    ∷ feed none 0
    ∷ feed (some (drop 4 message)) 5
    ∷ ask (some 0)
    ∷ restart
    ∷ feed none 3
    ∷ feed (some message) 9
    ∷ ask none
    ∷ ask (some 0)
    ∷ []

calls-AllReadable : AllReadable calls
calls-AllReadable = (omega arith, (omega arith, (omega arith, tt)))

crc16-Agree_example :
    Agree crc16
      (stream crc16 (init (some (record { current_crc = 7 }))).1 calls)
      (one_shot crc16 [] calls)
crc16-Agree_example = crc16-Agree (record { current_crc = 7 }) calls calls-AllReadable

verify_changed_example :
    verify (some (message ++ (1 ∷ 2 ∷ message))) 20 (checksum (message ++ (1 ∷ 3 ∷ message)))
    ≡ done error_mismatch
verify_changed_example =
    verify_changed message message 1 3 1 2 (omega arith) (omega arith) (omega arith) (omega arith)
      (inr (omega arith))

compute-crc16_ccitt_false_example :
    compute (some (0x31 ∷ 0x32 ∷ [])) 2 (some 9)
    ≡ done (success, some (crc16_ccitt_false (0x31 ∷ 0x32 ∷ [])))
compute-crc16_ccitt_false_example =
    compute-crc16_ccitt_false (0x31 ∷ 0x32 ∷ []) 9 (omega arith, (omega arith, tt))
