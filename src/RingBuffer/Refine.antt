-- ===== src/RingBuffer/Refine.antt =====
-- The push, pop and peek of src/ringBuffer.c against the bounded queue.
use ecu_platform.Base.{
  ◌-◌, ◌*◌, ◌≤◌, ◌≡◌, refl, inl, inr, none, some, Bytes, length, arith, done, slice, splice, Option,
  length-slice, length-splice, Bool-cases, Exec, ◌>>=◌,
}
use ecu_platform.RingBuffer.{
  RingBuffer, RingBufferStatus, success, error_full, error_empty, is_full, is_empty, push, pop,
  pop_from, peek, peek_from,
}
use ecu_platform.RingBuffer.Queue
use ecu_platform.RingBuffer.Valid.{IsValid}
use ecu_platform.RingBuffer.Window.{count, contents, length-window, window-splice, window_of_pos}
use ecu_platform.RingBuffer.Steps.{
  pushed, popped, is_full-eq, is_empty-eq, push_full, push_room, pop_empty, pop_room,
}

pushed-IsValid :
    {r : RingBuffer} {b : Bytes} (x : Bytes)
    → IsValid r b
    → IsValid (pushed r b x) (splice b (r.head * r.element_size) x)
pushed-IsValid {r} {b} x v = ground (arith, length-splice b (r.head * r.element_size) x)

popped-IsValid : {r : RingBuffer} {b : Bytes} → IsValid r b → IsValid (popped r) b
popped-IsValid v = ground arith

-- What a run of `push` has done: it returns, without a fault, the status of the queue's `push`,
-- and a valid ring that holds the queue's elements.
pub record PushRefines (r : RingBuffer) (b source : Bytes)
    (run : Exec (RingBufferStatus × Option RingBuffer)) : Type 0 where
  pub status : RingBufferStatus
  pub ring : RingBuffer
  pub store : Bytes
  pub returns : run ≡ done (status, some ring)
  pub same_capacity : ring.capacity ≡ r.capacity
  pub same_size : ring.element_size ≡ r.element_size
  pub valid : IsValid ring store
  pub queue :
      (status, contents ring store)
      ≡ Queue.push (r.capacity - 1) (contents r b) (slice source 0 r.element_size)

-- On a valid ring buffer, a push of readable memory returns without an access out of bounds with
-- the status that the push of the bounded queue has; the ring is valid again and holds the
-- elements of the queue after that push: the new element at the end, or the same elements if the
-- queue was full.
pub push_refines :
    {r : RingBuffer} {b : Bytes} (source : Bytes)
    → IsValid r b
    → r.element_size ≤ length source
    → PushRefines r b source (push (some r) (some source))
unfolding Queue.push
push_refines {r} {b} source v h = elim (Bool-cases (is_full (some r))) [
  | inl full ↦ record {
    status = error_full;
    ring = r;
    store = b;
    returns = push_full v source full;
    same_capacity = refl;
    same_size = refl;
    valid = v;
    queue =
        ground (arith, is_full-eq v, length-window r.capacity r.element_size b r.tail (count r));
  }
  | inr room ↦ record {
    status = success;
    ring = pushed r b (slice source 0 r.element_size);
    store = splice b (r.head * r.element_size) (slice source 0 r.element_size);
    returns = push_room v source h room;
    same_capacity = refl;
    same_size = refl;
    valid = pushed-IsValid (slice source 0 r.element_size) v;
    queue = ground (
      arith,
      is_full-eq v,
      length-slice source 0 r.element_size,
      length-window r.capacity r.element_size b r.tail (count r),
      window-splice r.capacity r.element_size b (slice source 0 r.element_size) r.tail (count r)
          r.head,
    );
  }
]

-- What a pop into the memory `target` leaves there: the element at the front, if there is one.
abbrev pub delivered : Bytes → Option Bytes → Bytes
delivered target none = target
delivered target (some x) = splice target 0 x

pub record PopRefines (r : RingBuffer) (b target : Bytes)
    (run : Exec (RingBufferStatus × Option RingBuffer × Option Bytes)) : Type 0 where
  pub status : RingBufferStatus
  pub ring : RingBuffer
  pub element : Option Bytes
  pub returns : run ≡ done (status, some ring, some (delivered target element))
  pub same_capacity : ring.capacity ≡ r.capacity
  pub same_size : ring.element_size ≡ r.element_size
  pub valid : IsValid ring b
  pub queue : (status, element, contents ring b) ≡ Queue.pop (contents r b)

-- On a valid ring buffer, a pop into writable memory returns without an access out of bounds with
-- the status that the pop of the queue has; the oldest element stands in the target, which is
-- untouched if the queue was empty, and the ring is valid again and holds the elements that are
-- left.
pub pop_refines :
    {r : RingBuffer} {b : Bytes} (target : Bytes)
    → IsValid r b
    → r.element_size ≤ length target
    → PopRefines r b target (pop (some r) (some target))
unfolding Queue.pop
pop_refines {r} {b} target v h = elim (Bool-cases (is_empty (some r))) [
  | inl empty ↦ record {
    status = error_empty;
    ring = r;
    element = none;
    returns = pop_empty v target empty;
    same_capacity = refl;
    same_size = refl;
    valid = v;
    queue = ground (arith, is_empty-eq v);
  }
  | inr held ↦ record {
    status = success;
    ring = popped r;
    element = some (slice b (r.tail * r.element_size) r.element_size);
    returns = pop_room v target h held;
    same_capacity = refl;
    same_size = refl;
    valid = popped-IsValid v;
    queue =
        ground (arith, is_empty-eq v, window_of_pos r.capacity r.element_size b r.tail (count r));
  }
]

-- `peek` delivers what `pop` would, and changes nothing else.
pub peek-pop :
    (r : Option RingBuffer) (target : Option Bytes)
    → peek r target ≡ (pop r target >>= λ out. done (out.0, out.2))
unfolding peek peek_from pop pop_from
peek-pop none target = refl
peek-pop (some r) target = ground arith
