-- ===== src/RingBuffer/Valid.antt =====
-- The well-formedness of a ring buffer, and the arithmetic that it makes safe.
use native.Mathlib.Nat.{mod-eq_of_lt}
use native.Mathlib.Decide.{dec_lt}
use ecu_platform.Base.{
  ℕ, ◌+◌, ◌*◌, ◌%◌, ◌^◌, ◌≤◌, ◌<◌, ◌≡◌, some, Bytes, length, arith, size_mul, ◌==◌, if◌then◌else◌,
}
use ecu_platform.RingBuffer.{RingBuffer, next_index}

-- `b` is the storage behind `r.buffer`: it has room for every slot, and the indices are in range.
pub record IsValid (r : RingBuffer) (b : Bytes) : Type 0 where
  pub storage : r.buffer ≡ some b
  pub room : r.capacity * r.element_size ≤ length b
  pub addressable : length b < 2 ^ 64
  pub two_slots : 2 ≤ r.capacity
  pub element_pos : 1 ≤ r.element_size
  pub head_in : r.head < r.capacity
  pub tail_in : r.tail < r.capacity

-- A slot below the capacity ends within `capacity * element_size` bytes.
pub slot_end : (i c e : ℕ) → i < c → i * e + e ≤ c * e
slot_end i c e h = grind arith

le-room : (c e n : ℕ) → 1 ≤ e → c * e ≤ n → c ≤ n
le-room c e n h k = grind arith

mod_self : (c : ℕ) → c % c ≡ 0
mod_self c = grind arith

-- The index after `i`, with the wrap written as a test.
abbrev pub after : ℕ → ℕ → ℕ
after i c = if i + 1 == c then 0 else i + 1

next_index-eq-after : (i c : ℕ) → i < c → c < 2 ^ 64 → next_index i c ≡ after i c
next_index-eq-after i c h k = elim (dec_lt (i + 1) c) [
  | yes p ↦ ground (arith, mod-eq_of_lt {n = i + 1} {m = c} p)
  | no p ↦ ground (arith, mod_self c)
]

module _ {r : RingBuffer} {b : Bytes} (v : IsValid r b) where
  pub capacity-lt : r.capacity < 2 ^ 64
  capacity-lt = omega (arith, le-room r.capacity r.element_size (length b) v.element_pos v.room)

  pub slot_in_room : (i : ℕ) → i < r.capacity → i * r.element_size + r.element_size ≤ length b
  slot_in_room i h = omega (arith, slot_end i r.capacity r.element_size h)

  -- The byte offset of a slot does not wrap.
  pub offset-eq : (i : ℕ) → i < r.capacity → size_mul i r.element_size ≡ i * r.element_size
  offset-eq i h = omega (arith, slot_in_room i h)

  pub next_index-eq : (i : ℕ) → i < r.capacity → next_index i r.capacity ≡ after i r.capacity
  next_index-eq i h = next_index-eq-after i r.capacity h capacity-lt
