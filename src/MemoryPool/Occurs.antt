-- ===== src/MemoryPool/Occurs.antt =====
-- How often a block is listed on a free stack of src/memoryPool.c.
use ecu_platform.Base.{
  ℕ, suc, ◌+◌, ◌<◌, ◌≡◌, refl, ap₂, arith, List, length, get_or, get_or-set_ne, get_or-set_self,
  set, zero, ◌≤◌, ◌==◌, if◌then◌else◌,
}

-- How often block `b` stands among the first `n` entries of a free stack.
abbrev pub occurs : ℕ → List ℕ → ℕ → ℕ
occurs b stack zero = 0
occurs b stack (suc n) = (if get_or stack n 0 == b then 1 else 0) + occurs b stack n

occurs-set :
    (b : ℕ) (stack : List ℕ) (n i k : ℕ) → n ≤ i → occurs b (set stack i k) n ≡ occurs b stack n
occurs-set b stack zero i k h = refl
occurs-set b stack (suc n) i k h =
    ap₂ (λ x y. (if x == b then 1 else 0) + y) (get_or-set_ne stack i n k 0 (omega arith))
      (occurs-set b stack n i k (omega arith))

pub occurs-push :
    (b : ℕ) (stack : List ℕ) (n k : ℕ)
    → n < length stack
    → occurs b (set stack n k) (n + 1) ≡ (if k == b then 1 else 0) + occurs b stack n
occurs-push b stack n k h =
    let e : n + 1 ≡ suc n = omega arith in
    rw e (
      ap₂ (λ x y. (if x == b then 1 else 0) + y) (get_or-set_self stack n k 0 h)
        (occurs-set b stack n n k (omega arith)))
