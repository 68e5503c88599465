-- ===== src/SwTimer.antt =====
-- src/swTimer.c and include/swTimer.h: software timers in a pool of slots, named by handles with a
-- generation. The memory behind `storage` is a list of slots; a pointer to a pool carries the pool.
pub mod Slots
pub mod Handles
pub mod Laws
pub mod Create
pub mod Delete
pub mod Tick
pub mod Reentry
pub mod Quiet
pub mod Lifetime
pub mod Fresh
pub mod Moves
pub mod Lives
pub mod Sweep
pub mod Countdown
pub mod Diagram
pub mod Calls
pub mod Rounds
pub mod History
pub mod Safety
pub mod Order
mod Tests
mod Scenario
use ecu_platform.Base.{
  ℕ, zero, suc, ◌+◌, ◌-◌, Bool, true, false, not, ◌||◌, Option, none, some, List, length, get_elem?,
  set, ltb, leb, ◌==◌, if◌then◌else◌, Exec, fault, done, ◌>>=◌, u8,
}

pub record TimerHandle : Type 0 where
  pub index : ℕ
  pub generation : ℕ

pub data SoftwareTimerState : Type 0 where
  unused stopped running : SoftwareTimerState

-- A `SoftwareTimerMode_t` holds any integer; `other_mode` is one that names no mode.
pub data SoftwareTimerMode : Type 0 where
  one_shot periodic : SoftwareTimerMode
  other_mode : ℕ → SoftwareTimerMode

pub data SoftwareTimerStatus : Type 0 where
  success error_null_pointer error_invalid_handle error_invalid_timeout : SoftwareTimerStatus
  error_invalid_mode error_invalid_capacity error_pool_full : SoftwareTimerStatus

-- `callback` and `context` are addresses.
pub record TimerControlBlock : Type 0 where
  pub state : SoftwareTimerState
  pub mode : SoftwareTimerMode
  pub timeout : ℕ
  pub remaining : ℕ
  pub callback : Option ℕ
  pub context : Option ℕ
  pub generation : ℕ

pub record SoftwareTimerPool : Type 0 where
  pub storage : Option (List TimerControlBlock)
  pub capacity : ℕ

abbrev pub is_unused : SoftwareTimerState → Bool
is_unused unused = true
is_unused stopped = false
is_unused running = false

abbrev pub is_running : SoftwareTimerState → Bool
is_running unused = false
is_running stopped = false
is_running running = true

-- `storage[i]`, read and written.
unfoldable pub read_slot : List TimerControlBlock → ℕ → Exec TimerControlBlock
read_slot slots i = elim (get_elem? slots i) [ none ↦ fault | some s ↦ done s ]

unfoldable pub write_slot :
    List TimerControlBlock → ℕ → TimerControlBlock → Exec (List TimerControlBlock)
write_slot slots i s = if ltb i (length slots) then done (set slots i s) else fault

-- The slot that a handle leads to, with the storage that it stands in; or the refusal.
pub data Validated : Type 0 where
  refused : SoftwareTimerStatus → Validated
  slot_of : List TimerControlBlock → TimerControlBlock → Validated

unfoldable pub validate_in : List TimerControlBlock → ℕ → TimerHandle → Exec Validated
validate_in slots capacity handle =
    if leb capacity handle.index
    then done (refused error_invalid_handle)
    else (read_slot slots handle.index >>= λ s.
        if is_unused s.state || not (s.generation == handle.generation)
        then done (refused error_invalid_handle)
        else done (slot_of slots s))

unfoldable pub validate_handle : Option SoftwareTimerPool → TimerHandle → Exec Validated
unfolding validate_in
validate_handle none handle = done (refused error_null_pointer)
validate_handle (some p) handle = elim p.storage [
  | none ↦ done (refused error_null_pointer)
  | some slots ↦ validate_in slots p.capacity handle
]

-- The slot that `init` writes.
abbrev pub blank : TimerControlBlock
blank = record {
  state = unused;
  mode = one_shot;
  timeout = 0;
  remaining = 0;
  callback = none;
  context = none;
  generation = 0;
}

-- The loop of `init` at slot `i`, with `left` slots to go.
unfoldable pub init_slots : ℕ → ℕ → List TimerControlBlock → Exec (List TimerControlBlock)
init_slots zero i slots = done slots
init_slots (suc left) i slots =
    write_slot slots i blank >>= λ slots'. init_slots left (i + 1) slots'

unfoldable pub init :
    Option SoftwareTimerPool
    → Option (List TimerControlBlock)
    → ℕ
    → Exec (SoftwareTimerStatus × Option SoftwareTimerPool)
unfolding init_slots
init none storage capacity = done (error_null_pointer, none)
init (some p) none capacity = done (error_null_pointer, some p)
init (some p) (some slots) capacity =
    if capacity == 0
    then done (error_invalid_capacity, some p)
    else (init_slots capacity 0 slots >>= λ slots'.
        done (success, some (record { storage = some slots'; capacity = capacity })))

-- What `create` writes into the slot that it takes.
abbrev pub created : SoftwareTimerMode → ℕ → Option ℕ → TimerControlBlock → TimerControlBlock
created mode callback context s = record s {
  state = stopped;
  mode = mode;
  timeout = 0;
  remaining = 0;
  callback = some callback;
  context = context;
}

-- The scan of `create` from slot `i` on, with `left` slots to go: the first unused slot is taken.
unfoldable pub create_from :
    SoftwareTimerMode
    → ℕ
    → Option ℕ
    → ℕ
    → ℕ
    → List TimerControlBlock
    → TimerHandle
    → Exec (SoftwareTimerStatus × List TimerControlBlock × TimerHandle)
create_from mode callback context zero i slots old = done (error_pool_full, slots, old)
create_from mode callback context (suc left) i slots old =
    let rest = create_from mode callback context left (i + 1) slots old in
    read_slot slots i >>= λ s.
    if is_unused s.state
    then (write_slot slots i (created mode callback context s) >>= λ slots'.
        done (success, slots', record { index = u8 i; generation = s.generation }))
    else rest

unfoldable pub create_valid :
    SoftwareTimerPool
    → List TimerControlBlock
    → SoftwareTimerMode
    → ℕ
    → Option ℕ
    → TimerHandle
    → Exec (SoftwareTimerStatus × Option SoftwareTimerPool × Option TimerHandle)
unfolding create_from
create_valid p slots mode callback context old =
    create_from mode callback context p.capacity 0 slots old >>= λ r.
    done (r.0, some (record p { storage = some r.1 }), some r.2)

unfoldable pub create_checked :
    SoftwareTimerPool
    → List TimerControlBlock
    → SoftwareTimerMode
    → ℕ
    → Option ℕ
    → TimerHandle
    → Exec (SoftwareTimerStatus × Option SoftwareTimerPool × Option TimerHandle)
unfolding create_valid
create_checked p slots (other_mode n) callback context old =
    done (error_invalid_mode, some p, some old)
create_checked p slots one_shot callback context old =
    create_valid p slots one_shot callback context old
create_checked p slots periodic callback context old =
    create_valid p slots periodic callback context old

unfoldable pub create :
    Option SoftwareTimerPool
    → SoftwareTimerMode
    → Option ℕ
    → Option ℕ
    → Option TimerHandle
    → Exec (SoftwareTimerStatus × Option SoftwareTimerPool × Option TimerHandle)
unfolding create_checked
create none mode callback context out = done (error_null_pointer, none, out)
create (some p) mode none context out = done (error_null_pointer, some p, out)
create (some p) mode (some c) context none = done (error_null_pointer, some p, none)
create (some p) mode (some c) context (some old) = elim p.storage [
  | none ↦ done (error_null_pointer, some p, some old)
  | some slots ↦ create_checked p slots mode c context old
]

-- The assignments to `*slot`, and the success after them. There is a pool where there is a slot.
unfoldable pub store :
    Option SoftwareTimerPool
    → List TimerControlBlock
    → ℕ
    → TimerControlBlock
    → Exec (SoftwareTimerStatus × Option SoftwareTimerPool)
store none slots i s = fault
store (some p) slots i s =
    write_slot slots i s >>= λ slots'. done (success, some (record p { storage = some slots' }))

abbrev pub started : ℕ → TimerControlBlock → TimerControlBlock
started ticks s = record s { timeout = ticks; remaining = ticks; state = running }

unfoldable pub start :
    Option SoftwareTimerPool
    → TimerHandle
    → ℕ
    → Exec (SoftwareTimerStatus × Option SoftwareTimerPool)
unfolding store
start p handle timeout_ticks = validate_handle p handle >>= λ v. elim v [
  | refused e ↦ done (e, p)
  | slot_of slots s ↦
      if timeout_ticks == 0
      then done (error_invalid_timeout, p)
      else store p slots handle.index (started timeout_ticks s)
]

abbrev pub halted : TimerControlBlock → TimerControlBlock
halted s = record s { state = stopped; remaining = 0 }

unfoldable pub stop :
    Option SoftwareTimerPool → TimerHandle → Exec (SoftwareTimerStatus × Option SoftwareTimerPool)
unfolding store
stop p handle = validate_handle p handle >>= λ v. elim v [
  | refused e ↦ done (e, p)
  | slot_of slots s ↦ store p slots handle.index (halted s)
]

abbrev pub deleted : TimerControlBlock → TimerControlBlock
deleted s = record s {
  state = unused;
  timeout = 0;
  remaining = 0;
  callback = none;
  context = none;
  generation = u8 (s.generation + 1);
}

unfoldable pub delete :
    Option SoftwareTimerPool → TimerHandle → Exec (SoftwareTimerStatus × Option SoftwareTimerPool)
unfolding store
delete p handle = validate_handle p handle >>= λ v. elim v [
  | refused e ↦ done (e, p)
  | slot_of slots s ↦ store p slots handle.index (deleted s)
]

unfoldable pub get_state :
    Option SoftwareTimerPool
    → TimerHandle
    → Option SoftwareTimerState
    → Exec (SoftwareTimerStatus × Option SoftwareTimerState)
get_state p handle none = done (error_null_pointer, none)
get_state p handle (some old) = validate_handle p handle >>= λ v. elim v [
  | refused e ↦ done (e, some old)
  | slot_of slots s ↦ done (success, some s.state)
]

unfoldable pub get_remaining_ticks :
    Option SoftwareTimerPool → TimerHandle → Option ℕ → Exec (SoftwareTimerStatus × Option ℕ)
get_remaining_ticks p handle none = done (error_null_pointer, none)
get_remaining_ticks p handle (some old) = validate_handle p handle >>= λ v. elim v [
  | refused e ↦ done (e, some old)
  | slot_of slots s ↦ done (success, some s.remaining)
]
