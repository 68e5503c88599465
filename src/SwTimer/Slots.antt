-- ===== src/SwTimer/Slots.antt =====
-- The well-formedness of a timer pool, and accesses to its slots.
use ecu_platform.Base.{
  ℕ, ◌^◌, ◌≤◌, ◌<◌, ◌≡◌, ◌≢◌, some, List, length, get_or, set, get_elem?-eq-get_or, false, done,
  arith, Bool-cases,
}
use ecu_platform.SwTimer.{
  TimerHandle, TimerControlBlock, SoftwareTimerPool, error_invalid_handle, is_unused, refused,
  slot_of, blank, read_slot, write_slot, validate_handle, validate_in,
}

-- `slots` is the memory behind the storage pointer: it has every slot, and the generations are
-- bytes.
pub record IsValid (p : SoftwareTimerPool) (slots : List TimerControlBlock) : Type 0 where
  pub storage_eq : p.storage ≡ some slots
  pub room : p.capacity ≤ length slots
  pub generations : (i : ℕ) → i < p.capacity → (get_or slots i blank).generation < 2 ^ 8

pub read_slot_done :
    (slots : List TimerControlBlock) (i : ℕ)
    → i < length slots
    → read_slot slots i ≡ done (get_or slots i blank)
unfolding read_slot
read_slot_done slots i h = ground (arith, get_elem?-eq-get_or slots i blank)

pub write_slot_done :
    (slots : List TimerControlBlock) (i : ℕ) (s : TimerControlBlock)
    → i < length slots
    → write_slot slots i s ≡ done (set slots i s)
unfolding write_slot
write_slot_done slots i s h = ground arith

-- A handle that leads to a slot of its generation that is in use.
pub record Names (p : SoftwareTimerPool) (slots : List TimerControlBlock) (handle : TimerHandle)
    : Type 0 where
  pub in_range : handle.index < p.capacity
  pub in_use : is_unused (get_or slots handle.index blank).state ≡ false
  pub current : (get_or slots handle.index blank).generation ≡ handle.generation

module _ {p : SoftwareTimerPool} {slots : List TimerControlBlock} (v : IsValid p slots) where
  pub validate_handle-Names :
      {handle : TimerHandle}
      → Names p slots handle
      → validate_handle (some p) handle ≡ done (slot_of slots (get_or slots handle.index blank))
  unfolding validate_handle validate_in
  validate_handle-Names {handle} n = ground (
    arith,
    v.storage_eq,
    v.room,
    n.in_range,
    n.in_use,
    n.current,
    read_slot_done slots handle.index,
  )

  -- A handle out of range, of an unused slot or of another generation.
  pub validate_handle-stale :
      (handle : TimerHandle)
      → (handle.index < p.capacity
          → is_unused (get_or slots handle.index blank).state ≡ false
          → (get_or slots handle.index blank).generation ≢ handle.generation)
      → validate_handle (some p) handle ≡ done (refused error_invalid_handle)
  unfolding validate_handle validate_in
  validate_handle-stale handle h = ground (
    arith,
    v.storage_eq,
    v.room,
    h,
    Bool-cases (is_unused (get_or slots handle.index blank).state),
    read_slot_done slots handle.index,
  )
