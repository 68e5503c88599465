-- ===== src/RingBuffer/Steps.antt =====
-- What one push and one pop do on each branch of a valid ring buffer.
use ecu_platform.Base.{
  ◌*◌, ◌≤◌, ◌≡◌, true, false, some, Bytes, length, arith, done, slice, splice, length-slice,
  read_bytes_done, write_bytes_done, ◌==◌,
}
use ecu_platform.RingBuffer.{
  RingBuffer, success, error_full, error_empty, is_full, is_empty, push, push_into, pop, pop_from,
}
use ecu_platform.RingBuffer.Valid.{IsValid, after, slot_in_room, offset-eq, next_index-eq}

-- The ring with `x` in the slot at `head`.
abbrev pub pushed : RingBuffer → Bytes → Bytes → RingBuffer
pushed r b x = record r {
  buffer = some (splice b (r.head * r.element_size) x);
  head = after r.head r.capacity;
}

abbrev pub popped : RingBuffer → RingBuffer
popped r = record r { tail = after r.tail r.capacity }

module _ {r : RingBuffer} {b : Bytes} (v : IsValid r b) where
  pub is_full-eq : is_full (some r) ≡ (after r.head r.capacity == r.tail)
  unfolding is_full
  is_full-eq = ground (arith, v.storage, next_index-eq v r.head v.head_in)

  pub is_empty-eq : is_empty (some r) ≡ (r.head == r.tail)
  unfolding is_empty
  is_empty-eq = ground (arith, v.storage)

  pub push_full :
      (source : Bytes)
      → is_full (some r) ≡ true
      → push (some r) (some source) ≡ done (error_full, some r)
  unfolding push push_into
  push_full source h = ground (arith, v.storage)

  pub push_room :
      (source : Bytes)
      → r.element_size ≤ length source
      → is_full (some r) ≡ false
      → push (some r) (some source)
        ≡ done (success, some (pushed r b (slice source 0 r.element_size)))
  unfolding push push_into
  push_room source h nf = ground (
    arith,
    v.storage,
    next_index-eq v r.head v.head_in,
    offset-eq v r.head v.head_in,
    slot_in_room v r.head v.head_in,
    length-slice source 0 r.element_size,
    read_bytes_done source 0 r.element_size,
    write_bytes_done b (r.head * r.element_size) (slice source 0 r.element_size),
  )

  pub pop_empty :
      (target : Bytes)
      → is_empty (some r) ≡ true
      → pop (some r) (some target) ≡ done (error_empty, some r, some target)
  unfolding pop pop_from
  pop_empty target h = ground (arith, v.storage)

  pub pop_room :
      (target : Bytes)
      → r.element_size ≤ length target
      → is_empty (some r) ≡ false
      → pop (some r) (some target)
        ≡ done (
          success,
          some (popped r),
          some (splice target 0 (slice b (r.tail * r.element_size) r.element_size)),
        )
  unfolding pop pop_from
  pop_room target h ne = ground (
    arith,
    v.storage,
    next_index-eq v r.tail v.tail_in,
    offset-eq v r.tail v.tail_in,
    slot_in_room v r.tail v.tail_in,
    length-slice b (r.tail * r.element_size) r.element_size,
    read_bytes_done b (r.tail * r.element_size) r.element_size,
    write_bytes_done target 0 (slice b (r.tail * r.element_size) r.element_size),
  )
