-- ===== src/Crc16/Compute.antt =====
-- The calls of src/crc16.c against the pure checksum: one call, the streaming calls, verification.
use ecu_platform.Base.{
  ℕ, ◌≤◌, ◌≡◌, refl, none, some, [], Bytes, done, slice, length, fold_bytes-eq, fold, ltb, zero,
  suc, ◌==◌, if◌then◌else◌, arith,
}
use ecu_platform.Crc16.{
  success, error_null_pointer, error_mismatch, Crc16Context, process_byte, init, update, get_result,
  compute, verify, checksum, initial_value,
}

-- `update` folds exactly the bytes given into the register.
pub update_lem :
    (ctx : Crc16Context) (b : Bytes) (len : ℕ)
    → len ≤ length b
    → update (some ctx) (some b) len
      ≡ done (
        success,
        some (record { current_crc = fold process_byte ctx.current_crc (slice b 0 len) }),
      )
unfolding update
update_lem ctx b len h = ground (arith, fold_bytes-eq process_byte len 0 b ctx.current_crc)

pub compute_lem :
    (b : Bytes) (len old : ℕ)
    → len ≤ length b
    → compute (some b) len (some old) ≡ done (success, some (checksum (slice b 0 len)))
unfolding compute
compute_lem b len old h = rw (fold_bytes-eq process_byte len 0 b initial_value (omega arith))

-- Over readable memory, verify returns success if the received number is the checksum of the first
-- len bytes, and the mismatch status if it is not.
pub verify_lem :
    (b : Bytes) (len received : ℕ)
    → len ≤ length b
    → verify (some b) len received
      ≡ done (if checksum (slice b 0 len) == received then success else error_mismatch)
unfolding verify
verify_lem b len received h = ground (arith, compute_lem b len 0 h)

-- A NULL buffer is the empty message if no byte of it is asked for, and otherwise an error that
-- leaves the result alone.
pub compute-null :
    (len old : ℕ)
    → compute none len (some old)
      ≡ done (if ltb 0 len then (error_null_pointer, some old) else (success, some (checksum [])))
unfolding compute
compute-null zero old = refl
compute-null (suc len) old = ground arith

pub init_lem :
    (ctx : Crc16Context)
    → init (some ctx) ≡ (success, some (record { current_crc = initial_value }))
unfolding init
init_lem ctx = refl

pub get_result_lem :
    (ctx : Crc16Context) (old : ℕ)
    → get_result (some ctx) (some old) ≡ (success, some (ctx.current_crc))
unfolding get_result
get_result_lem ctx old = refl

-- A NULL buffer is an error if a byte of it is asked for, and the context is left alone either way.
pub update_null :
    (ctx : Crc16Context) (len : ℕ)
    → update (some ctx) none len
      ≡ done (if ltb 0 len then error_null_pointer else success, some ctx)
unfolding update
update_null ctx zero = refl
update_null ctx (suc len) = ground arith

pub get_result_null : (ctx : Crc16Context) → get_result (some ctx) none ≡ (error_null_pointer, none)
unfolding get_result
get_result_null ctx = refl
