-- ===== src/RingBuffer/Window.antt =====
-- The elements that a ring buffer holds, read off its storage slot by slot from the tail.
use ecu_platform.Base.{
  ℕ, zero, suc, ◌+◌, ◌-◌, ◌*◌, ◌≤◌, ◌<◌, ◌≡◌, ◌≢◌, refl, ap, ap₂, [], ◌∷◌, ◌++◌, Bytes, length,
  arith, slice, splice, slice-splice_self, slice-splice_before, slice-splice_after, ltb, leb,
  if◌then◌else◌,
}
use ecu_platform.RingBuffer.{RingBuffer}
use ecu_platform.RingBuffer.Queue.{Queue}
use ecu_platform.RingBuffer.Valid.{after, slot_end}

-- The slot `n` places behind `t`, where both lie below `c`.
abbrev pub position : ℕ → ℕ → ℕ → ℕ
position t n c = if ltb (t + n) c then t + n else t + n - c

abbrev pub count : RingBuffer → ℕ
count r = if leb r.tail r.head then r.head - r.tail else r.capacity - (r.tail - r.head)

-- Slots do not overlap: a write to one leaves the others alone.
slice-splice_ne :
    (b : Bytes) (h i e : ℕ) (x : Bytes)
    → h ≢ i
    → length x ≡ e
    → slice (splice b (h * e) x) (i * e) e ≡ slice b (i * e) e
slice-splice_ne b h i e x ne l = ground (
  arith,
  slot_end i h e,
  slot_end h i e,
  slice-splice_before b (h * e) (i * e) e x,
  slice-splice_after b (h * e) (i * e) e x,
)

module _ (c e : ℕ) where
  -- `n` elements from slot `t` on, going round at `c`.
  abbrev pub window : Bytes → ℕ → ℕ → Queue
  window b t zero = []
  window b t (suc n) = slice b (t * e) e ∷ window b (after t c) n

  pub length-window : (b : Bytes) (t n : ℕ) → length (window b t n) ≡ n
  length-window b t zero = refl
  length-window b t (suc n) = ap suc (length-window b (after t c) n)

  -- `window` matches on `suc`, the code tests `head == tail`.
  pub window_of_pos :
      (b : Bytes) (t n : ℕ)
      → n ≢ 0
      → window b t n ≡ slice b (t * e) e ∷ window b (after t c) (n - 1)
  window_of_pos b t zero h = absurd (h refl)
  window_of_pos b t (suc n) h = ap (λ k. window b t (suc k)) (omega arith)

  -- A write just behind a window extends it by that element.
  pub window-splice :
      (b x : Bytes) (t n h : ℕ)
      → c * e ≤ length b
      → length x ≡ e
      → t < c
      → n < c
      → h ≡ position t n c
      → window (splice b (h * e) x) t (suc n) ≡ window b t n ++ (x ∷ [])
  window-splice b x t zero h room l ht hn eh = ap (λ y. y ∷ []) same
    where
      at_tail : h ≡ t
      at_tail = ground arith

      same : slice (splice b (h * e) x) (t * e) e ≡ x
      same =
          rw at_tail
            (slice-splice_self b (t * e) e x (omega arith) (omega (arith, slot_end t c e ht)))
  window-splice b x t (suc n) h room l ht hn eh =
      ap₂ ◌∷◌ (slice-splice_ne b h t e x (ground arith) l)
        (window-splice b x (after t c) n h room l (ground arith) (omega arith) (ground arith))

abbrev pub contents : RingBuffer → Bytes → Queue
contents r b = window r.capacity r.element_size b r.tail (count r)
