-- ===== src/RingBuffer/Queue.antt =====
-- What a ring buffer promises: a bounded first-in first-out queue of elements.
use ecu_platform.Base.{
  ℕ, Option, none, some, List, [], ◌∷◌, ◌++◌, Bytes, ◌==◌, if◌then◌else◌, length,
}
use ecu_platform.RingBuffer.{RingBufferStatus, success, error_full, error_empty}

abbrev pub Queue : Type 0
Queue = List Bytes

-- The arguments are the greatest number of elements, the queue and the new element.
unfoldable pub push : ℕ → Queue → Bytes → RingBufferStatus × Queue
push limit q x = if length q == limit then (error_full, q) else (success, q ++ (x ∷ []))

unfoldable pub pop : Queue → RingBufferStatus × Option Bytes × Queue
pop [] = (error_empty, none, [])
pop (x ∷ q) = (success, some x, q)
