-- ===== src/RingBuffer.antt =====
-- src/ringBuffer.c and include/ringBuffer.h: a ring of fixed-size elements over the caller's bytes.
-- A pointer argument is `none` for NULL and otherwise the object that it points at; a function
-- returns its status with the objects that it may have changed.
pub mod Queue
pub mod Valid
pub mod Window
pub mod Steps
pub mod Refine
pub mod Query
pub mod Calls
pub mod History
mod Tests
use ecu_platform.Base.{
  ℕ, ◌+◌, ◌-◌, ◌%◌, Bool, true, false, Option, none, some, ltb, leb, ◌==◌, if◌then◌else◌, Bytes,
  Exec, done, ◌>>=◌, read_bytes, write_bytes, size_add, size_sub, size_mul,
}

pub data RingBufferStatus : Type 0 where
  success error_null_pointer error_invalid_capacity error_invalid_element_size : RingBufferStatus
  error_full error_empty : RingBufferStatus

-- `buffer` is the storage with its bytes, or NULL.
pub record RingBuffer : Type 0 where
  pub buffer : Option Bytes
  pub head : ℕ
  pub tail : ℕ
  pub capacity : ℕ
  pub element_size : ℕ

-- A capacity of 0 would divide by zero in C; `init` refuses it.
abbrev pub next_index : ℕ → ℕ → ℕ
next_index index capacity = size_add index 1 % capacity

pub init : Option RingBuffer → Option Bytes → ℕ → ℕ → RingBufferStatus × Option RingBuffer
init none buffer capacity element_size = (error_null_pointer, none)
init (some r) none capacity element_size = (error_null_pointer, some r)
init (some r) (some b) capacity element_size =
    if ltb capacity 2
    then (error_invalid_capacity, some r)
    else if ltb element_size 1
    then (error_invalid_element_size, some r)
    else (
      success,
      some (record {
        buffer = some b;
        head = 0;
        tail = 0;
        capacity = capacity;
        element_size = element_size;
      }),
    )

pub is_full : Option RingBuffer → Bool
is_full none = false
is_full (some r) = elim r.buffer [ none ↦ false | some b ↦ next_index r.head r.capacity == r.tail ]

pub is_empty : Option RingBuffer → Bool
is_empty none = true
is_empty (some r) = elim r.buffer [ none ↦ true | some b ↦ r.head == r.tail ]

push_into : RingBuffer → Option Bytes → Option Bytes → Exec (RingBufferStatus × Option RingBuffer)
push_into r none source = done (error_null_pointer, some r)
push_into r (some b) none = done (error_null_pointer, some r)
push_into r (some b) (some source) = if is_full (some r) then done (error_full, some r) else do
  element ← read_bytes source 0 r.element_size
  b' ← write_bytes b (size_mul r.head r.element_size) element
  done (success, some (record r { buffer = some b'; head = next_index r.head r.capacity }))

pub push : Option RingBuffer → Option Bytes → Exec (RingBufferStatus × Option RingBuffer)
unfolding push_into
push none source = done (error_null_pointer, none)
push (some r) source = push_into r r.buffer source

pop_from :
    RingBuffer
    → Option Bytes
    → Option Bytes
    → Exec (RingBufferStatus × Option RingBuffer × Option Bytes)
pop_from r none target = done (error_null_pointer, some r, target)
pop_from r (some b) none = done (error_null_pointer, some r, none)
pop_from r (some b) (some target) =
    if is_empty (some r) then done (error_empty, some r, some target) else do
      element ← read_bytes b (size_mul r.tail r.element_size) r.element_size
      target' ← write_bytes target 0 element
      done (success, some (record r { tail = next_index r.tail r.capacity }), some target')

pub pop :
    Option RingBuffer → Option Bytes → Exec (RingBufferStatus × Option RingBuffer × Option Bytes)
unfolding pop_from
pop none target = done (error_null_pointer, none, target)
pop (some r) target = pop_from r r.buffer target

peek_from : RingBuffer → Option Bytes → Option Bytes → Exec (RingBufferStatus × Option Bytes)
peek_from r none target = done (error_null_pointer, target)
peek_from r (some b) none = done (error_null_pointer, none)
peek_from r (some b) (some target) =
    if is_empty (some r) then done (error_empty, some target) else do
      element ← read_bytes b (size_mul r.tail r.element_size) r.element_size
      target' ← write_bytes target 0 element
      done (success, some target')

pub peek : Option RingBuffer → Option Bytes → Exec (RingBufferStatus × Option Bytes)
unfolding peek_from
peek none target = done (error_null_pointer, target)
peek (some r) target = peek_from r r.buffer target

pub clear : Option RingBuffer → RingBufferStatus × Option RingBuffer
clear none = (error_null_pointer, none)
clear (some r) = elim r.buffer [
  | none ↦ (error_null_pointer, some r)
  | some b ↦ (success, some (record r { head = 0; tail = 0 }))
]

-- A query writes its number through a pointer: the option holds the number pointed at.
get_held : Option Bytes → Option ℕ → ℕ → RingBufferStatus × Option ℕ
get_held none out value = (error_null_pointer, out)
get_held (some b) none value = (error_null_pointer, none)
get_held (some b) (some old) value = (success, some value)

pub get_size : Option RingBuffer → Option ℕ → RingBufferStatus × Option ℕ
unfolding get_held
get_size none size = (error_null_pointer, size)
get_size (some r) size = get_held r.buffer size (
    if leb r.tail r.head
    then size_sub r.head r.tail
    else size_sub r.capacity (size_sub r.tail r.head))

pub get_capacity : Option RingBuffer → Option ℕ → RingBufferStatus × Option ℕ
unfolding get_held
get_capacity none capacity = (error_null_pointer, capacity)
get_capacity (some r) capacity = get_held r.buffer capacity (size_sub r.capacity 1)

-- This one does not look at `buffer`.
pub get_available_space : Option RingBuffer → Option ℕ → RingBufferStatus × Option ℕ
get_available_space none space = (error_null_pointer, space)
get_available_space (some r) none = (error_null_pointer, none)
get_available_space (some r) (some old) =
    (success, some (size_add (size_sub (size_sub r.tail r.head) 1) r.capacity % r.capacity))
