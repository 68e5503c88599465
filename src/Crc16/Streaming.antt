-- ===== src/Crc16/Streaming.antt =====
-- The streaming calls of src/crc16.c as an implementation of the streaming interface.
use ecu_platform.Base.{refl, ap, List, [], some, fold, fold-append}
use ecu_platform.Crc16.{
  Crc16Context, Crc16Status, success, error_null_pointer, process_byte, init, update, get_result,
  compute, initial_value,
}
use ecu_platform.Crc16.Compute.{
  init_lem, update_lem, update_null, get_result_lem, get_result_null, compute_lem,
}
use ecu_platform.Streaming.{AllReadable, Checksum, Call, Agree, stream, one_shot, stream-Agree}

abbrev pub crc16 : Checksum Crc16Context Crc16Status
crc16 = record {
  init = init;
  update = update;
  get_result = get_result;
  compute = compute;
  success = success;
  null_pointer = error_null_pointer;
  start = record { current_crc = initial_value };
  absorb = λ ctx b. record { current_crc = fold process_byte ctx.current_crc b };
  value = λ ctx. ctx.current_crc;
  inits = init_lem;
  updates = update_lem;
  updates_null = update_null;
  reads = get_result_lem;
  reads_null = get_result_null;
  computes = compute_lem;
  absorb-nil = λ ctx. refl;
  absorb-append = λ ctx xs ys.
      ap (λ c. record { current_crc = c }) (fold-append process_byte ctx.current_crc xs ys);
}

-- From any context, after init, for any sequence of further starts, updates with a readable piece
-- of any length or with a NULL buffer, and readings of the result through a pointer or NULL,
-- nothing is accessed out of bounds, an update from NULL is refused if it asks for a byte and else
-- accepted without effect, and each reading through a pointer gives the status and the checksum
-- that one compute call gives on all that was fed since the last start.
pub crc16-Agree :
    (ctx : Crc16Context) (calls : List Call)
    → AllReadable calls
    → Agree crc16 (stream crc16 (init (some ctx)).1 calls) (one_shot crc16 [] calls)
crc16-Agree ctx calls h = stream-Agree crc16 ctx calls h
