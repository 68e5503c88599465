-- ===== src/MemoryPool/Outcomes.antt =====
-- Each operation of a valid memory pool against the set of its allocated blocks.
use mathlib.Core.Path.{subst}
use native.Mathlib.Nat.{mod-add-div, mul-mod_left, mul-div_left}
use native.Mathlib.Decide.{ℕ_discrete, dec_lt}
use ecu_platform.Base.{
  ℕ, ◌+◌, ◌-◌, ◌*◌, ◌/◌, ◌%◌, ◌≤◌, ◌<◌, ◌≡◌, ◌≢◌, ◌⊎◌, inl, inr, refl, arith, some, length, get_or,
  set, done, Option, ◌∙◌, ap, List, [], ◌∷◌, zero, suc, get_or-set_self,
}
use ecu_platform.MemoryPool.{
  MemoryPool, success, error_pool_full, error_invalid_block, block_free, block_allocated, acquire,
  release,
}
use ecu_platform.MemoryPool.Valid.{
  IsValid, count_free, allocated, released, top, allocated-IsValid, released-IsValid, top-lt,
}
use ecu_platform.MemoryPool.Steps.{
  block_at, block_end, quotient-lt, acquire_full, acquire-top, release-outside, release-misaligned,
  release-allocated, release-other,
}

-- `acquire` has handed out a block that was free.
pub record Acquired (p : MemoryPool) (out : Option ℕ) : Type 0 where
  pub block : ℕ
  pub in_range : block < p.block_count
  pub was_free : get_or p.state block 0 ≡ block_free
  pub returns :
      acquire (some p) (some out)
      ≡ done (success, some (allocated p block), some (some (block_at p block)))
  pub valid : IsValid (allocated p block)
  pub given_back :
      release (some (allocated p block)) (some (block_at p block)) ≡ done (success, some p)
  pub not_twice : release (some p) (some (block_at p block)) ≡ done (error_invalid_block, some p)

-- `acquire` has found every block allocated.
pub record Exhausted (p : MemoryPool) (out : Option ℕ) : Type 0 where
  pub none_free : (i : ℕ) → i < p.block_count → get_or p.state i 0 ≡ block_allocated
  pub returns : acquire (some p) (some out) ≡ done (error_pool_full, some p, some out)

-- `release` has taken an allocated block back.
pub record Released (p : MemoryPool) (a : ℕ) : Type 0 where
  pub block : ℕ
  pub in_range : block < p.block_count
  pub was_allocated : get_or p.state block 0 ≡ block_allocated
  pub address : a ≡ block_at p block
  pub returns : release (some p) (some a) ≡ done (success, some (released p block))
  pub valid : IsValid (released p block)

-- `release` has refused an address that is no allocated block's.
pub record Rejected (p : MemoryPool) (a : ℕ) : Type 0 where
  pub foreign :
      (b : ℕ) → b < p.block_count → get_or p.state b 0 ≡ block_allocated → a ≢ block_at p b
  pub returns : release (some p) (some a) ≡ done (error_invalid_block, some p)

set-set_back : (xs : List ℕ) (i v : ℕ) → i < length xs → set (set xs i v) i (get_or xs i 0) ≡ xs
set-set_back [] i v h = refl
set-set_back (x ∷ xs) zero v h = refl
set-set_back (x ∷ xs) (suc i) v h = ap (◌∷◌ x) (set-set_back xs i v (omega arith))

set-same : (xs : List ℕ) (i : ℕ) → set xs i (get_or xs i 0) ≡ xs
set-same [] i = refl
set-same (x ∷ xs) zero = refl
set-same (x ∷ xs) (suc i) = ap (◌∷◌ x) (set-same xs i)

count_free-none :
    (ss : List ℕ) (i : ℕ) → i < length ss → count_free ss ≡ 0 → get_or ss i 0 ≢ block_free
count_free-none [] i h e = absurd (omega arith)
count_free-none (s ∷ ss) zero h e = ground arith
count_free-none (s ∷ ss) (suc i) h e = count_free-none ss i (omega arith) (ground arith)

module _ {p : MemoryPool} (v : IsValid p) where
  -- Giving the top block back restores the pool.
  released-allocated : 1 ≤ p.free_count → released (allocated p (top p)) (top p) ≡ p
  released-allocated h = ground (
    arith,
    v.listed_free (p.free_count - 1),
    top-lt v h,
    set-set_back p.state (top p) block_allocated,
    set-same p.free_stack (p.free_count - 1),
  )

  acquired : (out : Option ℕ) → 1 ≤ p.free_count → Acquired p out
  acquired out h =
      let in_range : top p < p.block_count = omega (arith, top-lt v h, v.state_length) in
      let was_free : get_or p.state (top p) 0 ≡ block_free =
        v.listed_free (p.free_count - 1) (omega arith) in
      record {
        block = top p;
        in_range = in_range;
        was_free = was_free;
        returns = acquire-top v out h;
        valid = allocated-IsValid v h;
        given_back =
            release-allocated (allocated-IsValid v h) (top p) in_range
              (get_or-set_self p.state (top p) block_allocated 0 (top-lt v h))
            ∙ ap (λ q. done (success, some q)) (released-allocated h);
        not_twice = release-other v (top p) in_range (ground arith);
      }

  -- On a valid memory pool, acquire either hands out the address of a block that was free and
  -- marks exactly that block allocated, leaving a valid pool from which a release of that address
  -- restores the pool of before, a release that is refused when it comes without the acquire; or
  -- every block is allocated, the status says that the pool is full, and nothing changes.
  pub acquire_outcome : (out : Option ℕ) → Acquired p out ⊎ Exhausted p out
  acquire_outcome out = elim (ℕ_discrete p.free_count 0) [
    | yes e ↦ inr (record {
      none_free = λ i h.
          ground (arith, count_free-none p.state i, v.state_length, v.counted, v.encoded i h);
      returns = acquire_full v out e;
    })
    | no ne ↦ inl (acquired out (omega arith))
  ]

  outside :
      (a : ℕ) → (a < p.storage) ⊎ (p.storage + p.block_size * p.block_count ≤ a) → Rejected p a
  outside a h = record {
    foreign = λ b hb e q. ground (arith, block_end b p.block_count p.block_size hb, v.size_pos);
    returns = release-outside v a h;
  }

  misaligned :
      (o : ℕ) → o < p.block_size * p.block_count → o % p.block_size ≢ 0 → Rejected p (p.storage + o)
  misaligned o h ne = record {
    foreign = λ b hb e q. ground (arith, mul-mod_left b p.block_size);
    returns = release-misaligned v o h ne;
  }

  aligned : (b : ℕ) → b < p.block_count → Released p (block_at p b) ⊎ Rejected p (block_at p b)
  aligned b h = elim (ℕ_discrete (get_or p.state b 0) block_allocated) [
    | yes e ↦ inl (record {
      block = b;
      in_range = h;
      was_allocated = e;
      address = refl;
      returns = release-allocated v b h e;
      valid = released-IsValid b v h e;
    })
    | no ne ↦ inr (record {
      foreign = λ c hc e q. ne (ap (λ i. get_or p.state i 0) (same_block b c q) ∙ e);
      returns = release-other v b h ne;
    })
  ]
    where
      same_block : (b c : ℕ) → block_at p b ≡ block_at p c → b ≡ c
      same_block b c q =
          ground (
            arith,
            v.size_pos,
            mul-div_left b {n = p.block_size},
            mul-div_left c {n = p.block_size},
          )

  inside :
      (o : ℕ)
      → o < p.block_size * p.block_count
      → Released p (p.storage + o) ⊎ Rejected p (p.storage + o)
  inside o h = elim (ℕ_discrete (o % p.block_size) 0) [
    | yes e ↦
        subst (λ k. Released p (p.storage + k) ⊎ Rejected p (p.storage + k)) (multiple e)
          (aligned (o / p.block_size) (quotient-lt o p.block_size p.block_count v.size_pos h))
    | no ne ↦ inr (misaligned o h ne)
  ]
    where
      multiple : o % p.block_size ≡ 0 → o / p.block_size * p.block_size ≡ o
      multiple e = grind (arith, mod-add-div o p.block_size)

  sub_back : (a : ℕ) → p.storage ≤ a → p.storage + (a - p.storage) ≡ a
  sub_back a h = omega arith

  -- On a valid memory pool and any address, release either finds the address to be that of an
  -- allocated block, succeeds and leaves a valid pool in which that block is free and on top of
  -- the free stack; or the address is not that of any allocated block, and the call reports an
  -- invalid block and changes nothing.
  pub release_outcome : (a : ℕ) → Released p a ⊎ Rejected p a
  release_outcome a = elim (dec_lt a p.storage) [
    | yes h ↦ inr (outside a (inl h))
    | no h ↦ elim (dec_lt (a - p.storage) (p.block_size * p.block_count)) [
      | yes k ↦
          subst (λ x. Released p x ⊎ Rejected p x) (sub_back a (omega arith))
            (inside (a - p.storage) k)
      | no k ↦ inr (outside a (inr (omega arith)))
    ]
  ]
