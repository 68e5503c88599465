-- ===== src/MemoryPool/FreeList.antt =====
-- The addresses of the blocks on the free stack of src/memoryPool.c, the top one first.
use ecu_platform.Base.{
  ℕ, zero, suc, ◌+◌, ◌-◌, ◌*◌, ◌≤◌, ◌<◌, ◌≡◌, refl, ap, ap₂, arith, List, [], ◌∷◌, length, get_or,
  set, get_or-set_ne, get_or-set_self,
}
use ecu_platform.MemoryPool.Allocator.{addresses_below}

-- The addresses of the blocks on a free stack, the top one first.
module _ (storage size : ℕ) where
  abbrev pub addresses : List ℕ → ℕ → List ℕ
  addresses stack zero = []
  addresses stack (suc k) = (storage + get_or stack k 0 * size) ∷ addresses stack k

  pub length-addresses : (stack : List ℕ) (k : ℕ) → length (addresses stack k) ≡ k
  length-addresses stack zero = refl
  length-addresses stack (suc k) = ap suc (length-addresses stack k)

  -- A write above the entries.
  pub addresses-set :
      (stack : List ℕ) (k i b : ℕ) → k ≤ i → addresses (set stack i b) k ≡ addresses stack k
  addresses-set stack zero i b h = refl
  addresses-set stack (suc k) i b h =
      ap₂ (λ x xs. (storage + x * size) ∷ xs) (get_or-set_ne stack i k b 0 (omega arith))
        (addresses-set stack k i b (omega arith))

  pub addresses_in_order :
      (stack : List ℕ) (k n : ℕ)
      → k ≤ n
      → ((j : ℕ) → j < n → get_or stack j 0 ≡ j)
      → addresses stack k ≡ addresses_below storage size k
  addresses_in_order stack zero n h e = refl
  addresses_in_order stack (suc k) n h e =
      ap₂ (λ x xs. (storage + x * size) ∷ xs) (e k (omega arith))
        (addresses_in_order stack k n (omega arith) e)

  pub addresses-top :
      (stack : List ℕ) (n : ℕ)
      → 1 ≤ n
      → addresses stack n ≡ (storage + get_or stack (n - 1) 0 * size) ∷ addresses stack (n - 1)
  addresses-top stack zero h = absurd (omega arith)
  addresses-top stack (suc k) h = let e : suc k - 1 ≡ k = omega arith in rw e

  pub addresses-push :
      (stack : List ℕ) (n b : ℕ)
      → n < length stack
      → addresses (set stack n b) (n + 1) ≡ (storage + b * size) ∷ addresses stack n
  addresses-push stack n b h =
      let e : n + 1 ≡ suc n = omega arith in
      rw e (
        ap₂ (λ x xs. (storage + x * size) ∷ xs) (get_or-set_self stack n b 0 h)
          (addresses-set stack n n b (omega arith)))
