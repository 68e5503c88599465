-- ===== src/RingBuffer/Query.antt =====
-- What the queries, `init` and `clear` tell of the queue that the ring buffer holds.
use native.Mathlib.Decide.{dec_lt}
use native.Mathlib.Nat.{mod-eq_of_lt}
use ecu_platform.Base.{
  ℕ, ◌+◌, ◌-◌, ◌*◌, ◌%◌, ◌^◌, ◌≤◌, ◌<◌, ◌≡◌, refl, inl, inr, Option, none, some, [], Bytes, length,
  arith, ◌==◌, size_add, size_sub, leb, ◌⊎◌, if◌then◌else◌,
}
use ecu_platform.RingBuffer.{
  RingBuffer, success, error_null_pointer, error_invalid_capacity, error_invalid_element_size,
  is_full, is_empty, init, clear, get_held, get_size, get_capacity, get_available_space,
}
use ecu_platform.RingBuffer.Valid.{IsValid, capacity-lt}
use ecu_platform.RingBuffer.Window.{count, contents, length-window}
use ecu_platform.RingBuffer.Steps.{is_full-eq, is_empty-eq}

add-mod_self : (x c : ℕ) → x < c → (x + c) % c ≡ x
add-mod_self x c h = grind arith

-- The wrapping difference that `get_available_space` takes modulo the capacity.
available-eq :
    (h t c : ℕ)
    → h < c
    → t < c
    → c ≤ 2 ^ 63
    → size_add (size_sub (size_sub t h) 1) c % c + (if leb t h then h - t else c - (t - h)) + 1 ≡ c
available-eq h t c hh ht hc = elim (dec_lt h t) [
  | yes p ↦ ground (arith, add-mod_self (t - h - 1) c)
  | no p ↦ ground (arith, mod-eq_of_lt {n = t + c - h - 1} {m = c})
]

module _ {r : RingBuffer} {b : Bytes} (v : IsValid r b) where
  abbrev held : ℕ
  held = length (contents r b)

  held-eq : held ≡ count r
  held-eq = length-window r.capacity r.element_size b r.tail (count r)

  pub get_size-eq : (old : ℕ) → get_size (some r) (some old) ≡ (success, some held)
  unfolding get_size get_held
  get_size-eq old = ground (arith, v.storage, held-eq, capacity-lt v)

  pub get_available_space-eq :
      (old : ℕ)
      → r.capacity ≤ 2 ^ 63
      → get_available_space (some r) (some old) ≡ (success, some (r.capacity - 1 - held))
  unfolding get_available_space
  get_available_space-eq old h =
      ground (arith, held-eq, available-eq r.head r.tail r.capacity v.head_in v.tail_in h)

  pub get_capacity-eq :
      (old : ℕ) → get_capacity (some r) (some old) ≡ (success, some (r.capacity - 1))
  unfolding get_capacity get_held
  get_capacity-eq old = ground (arith, v.storage, capacity-lt v)

  pub is_full-length : is_full (some r) ≡ (held == r.capacity - 1)
  is_full-length = ground (arith, is_full-eq v, held-eq)

  pub is_empty-length : is_empty (some r) ≡ (held == 0)
  is_empty-length = ground (arith, is_empty-eq v, held-eq)

  -- On a valid ring buffer of capacity at most 2 ^ 63, the size query gives the number of elements
  -- held, the capacity query capacity - 1, the space query their difference, and the ring is full
  -- or empty exactly when capacity - 1 or no elements are held.
  pub queries_agree :
      (old : ℕ)
      → r.capacity ≤ 2 ^ 63
      → (get_size (some r) (some old) ≡ (success, some (length (contents r b))))
        × (get_capacity (some r) (some old) ≡ (success, some (r.capacity - 1)))
        × (get_available_space (some r) (some old)
            ≡ (success, some (r.capacity - 1 - length (contents r b))))
        × (is_full (some r) ≡ (length (contents r b) == r.capacity - 1))
        × (is_empty (some r) ≡ (length (contents r b) == 0))
  queries_agree old h = (
    get_size-eq old,
    get_capacity-eq old,
    get_available_space-eq old h,
    is_full-length,
    is_empty-length,
  )

abbrev fresh : Bytes → ℕ → ℕ → RingBuffer
fresh b c e = record { buffer = some b; head = 0; tail = 0; capacity = c; element_size = e }

-- An init that is not refused.
pub init_done :
    (r : RingBuffer) (b : Bytes) (c e : ℕ)
    → 2 ≤ c
    → 1 ≤ e
    → c * e ≤ length b
    → length b < 2 ^ 64
    → (ring : RingBuffer) × (init (some r) (some b) c e ≡ (success, some ring))
      × IsValid ring b
      × (contents ring b ≡ [])
      × (ring.capacity ≡ c)
      × (ring.element_size ≡ e)
unfolding init
init_done r b c e two one room small = (fresh b c e, ground arith, ground arith, refl, refl, refl)

-- The memory that a pointer names, if it is not NULL, has room for the elements.
abbrev pub Room : ℕ → ℕ → Option Bytes → Type 0
Room c e none = Unit {0}
Room c e (some b) = (c * e ≤ length b) × (length b < 2 ^ 64)

pub init_lem :
    (r : Option RingBuffer) (buffer : Option Bytes) (c e : ℕ)
    → Room c e buffer
    → (((r ≡ none) ⊎ (buffer ≡ none)) × (init r buffer c e ≡ (error_null_pointer, r)))
      ⊎ ((c < 2) × (init r buffer c e ≡ (error_invalid_capacity, r)))
      ⊎ ((2 ≤ c) × (e ≡ 0) × (init r buffer c e ≡ (error_invalid_element_size, r)))
      ⊎ ((ring : RingBuffer) × (b : Bytes) × (init r buffer c e ≡ (success, some ring))
          × (buffer ≡ some b)
          × IsValid ring b
          × (contents ring b ≡ [])
          × (ring.capacity ≡ c)
          × (ring.element_size ≡ e))
unfolding init
init_lem none buffer c e h = inl (inl refl, refl)
init_lem (some r) none c e h = inl (inr refl, refl)
init_lem (some r) (some b) c e h = elim (dec_lt c 2) [
  | yes p ↦ inr (inl (p, ground arith))
  | no p ↦ elim (dec_lt e 1) [
    | yes q ↦ inr (inr (inl (omega arith, omega arith, ground arith)))
    | no q ↦
        let s = init_done r b c e (omega arith) (omega arith) h.0 h.1 in
        inr (inr (inr (s.0, b, s.1, refl, s.2, s.3, s.4, s.5)))
  ]
]

-- On a valid ring buffer, clear succeeds and leaves a valid ring of the same dimensions that holds
-- no elements.
pub clear_lem :
    {r : RingBuffer} {b : Bytes}
    → IsValid r b
    → (ring : RingBuffer) × (clear (some r) ≡ (success, some ring))
      × IsValid ring b
      × (contents ring b ≡ [])
      × (ring.capacity ≡ r.capacity)
      × (ring.element_size ≡ r.element_size)
unfolding clear
clear_lem {r} v = (
  record r { head = 0; tail = 0 },
  ground (arith, v.storage),
  ground arith,
  ground arith,
  refl,
  refl,
)
