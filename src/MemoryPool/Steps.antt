-- ===== src/MemoryPool/Steps.antt =====
-- What `acquire` and `release` do on each branch of a valid memory pool.
use native.Mathlib.Nat.{mul-mod_left, mul-div_left, mod-add-div}
use ecu_platform.Base.{
  ℕ, ◌+◌, ◌-◌, ◌*◌, ◌/◌, ◌%◌, ◌≤◌, ◌<◌, ◌≡◌, ◌≢◌, ◌⊎◌, ◌∙◌, if◌then◌else◌, arith, some, get_or,
  ◌==◌, done, size_mul, read_at_done, write_at_done, Option,
}
use ecu_platform.MemoryPool.{
  MemoryPool, success, error_pool_full, error_invalid_block, block_free, block_allocated, acquire,
  acquire_from, release, release_at, release_index,
}
use ecu_platform.MemoryPool.Valid.{
  IsValid, allocated, released, top, free_count-le, count_free-lt, top-lt,
}

-- The address of block `b`.
abbrev pub block_at : MemoryPool → ℕ → ℕ
block_at p b = p.storage + b * p.block_size

pub block_end : (b n e : ℕ) → b < n → b * e + e ≤ e * n
block_end b n e h = grind arith

-- The quotient by the block size of an offset inside the storage is a block's index.
pub quotient-lt : (o e n : ℕ) → 1 ≤ e → o < e * n → o / e < n
quotient-lt o e n h k = grind (arith, mod-add-div o e)

module _ {p : MemoryPool} (v : IsValid p) where
  pub acquire_full :
      (out : Option ℕ)
      → p.free_count ≡ 0
      → acquire (some p) (some out) ≡ done (error_pool_full, some p, some out)
  unfolding acquire acquire_from
  acquire_full out h = ground (arith, v.is_initialized)

  pub acquire-top :
      (out : Option ℕ)
      → 1 ≤ p.free_count
      → acquire (some p) (some out)
        ≡ done (success, some (allocated p (top p)), some (some (block_at p (top p))))
  unfolding acquire acquire_from
  acquire-top out h = ground (
    arith,
    v.is_initialized,
    free_count-le v,
    v.stack_length,
    v.addressable,
    block_end (top p) p.block_count p.block_size,
    v.listed_in (p.free_count - 1),
    top-lt v,
    read_at_done p.free_stack (p.free_count - 1),
    write_at_done p.state (top p) block_allocated,
  )

  release_index-allocated :
      (b : ℕ)
      → b < p.block_count
      → get_or p.state b 0 ≡ block_allocated
      → release_index p b ≡ done (success, some (released p b))
  unfolding release_index
  release_index-allocated b h e = ground (
    arith,
    v.state_length,
    v.stack_length,
    v.counted,
    v.count_lt,
    count_free-lt p.state b,
    read_at_done p.state b,
    write_at_done p.state b block_free,
    write_at_done p.free_stack p.free_count b,
  )

  release_index-other :
      (b : ℕ)
      → get_or p.state b 0 ≢ block_allocated
      → release_index p b ≡ done (error_invalid_block, some p)
  unfolding release_index
  release_index-other b e = ground (arith, v.state_length, read_at_done p.state b)

  total-eq : size_mul p.block_size p.block_count ≡ p.block_size * p.block_count
  total-eq = omega (arith, v.addressable)

  -- Behind the range checks, `release` looks at the quotient of the offset.
  release-inside :
      (o : ℕ)
      → o < p.block_size * p.block_count
      → release (some p) (some (p.storage + o)) ≡ (
          if o % p.block_size == 0
          then release_index p (o / p.block_size)
          else done (error_invalid_block, some p))
  unfolding release release_at
  release-inside o h = ground (arith, v.is_initialized, v.addressable, total-eq)

  pub release-outside :
      (a : ℕ)
      → (a < p.storage) ⊎ (p.storage + p.block_size * p.block_count ≤ a)
      → release (some p) (some a) ≡ done (error_invalid_block, some p)
  unfolding release release_at
  release-outside a h = ground (arith, v.is_initialized, v.addressable, total-eq)

  pub release-misaligned :
      (o : ℕ)
      → o < p.block_size * p.block_count
      → o % p.block_size ≢ 0
      → release (some p) (some (p.storage + o)) ≡ done (error_invalid_block, some p)
  release-misaligned o h ne = ground (arith, release-inside o h)

  release-block :
      (b : ℕ) → b < p.block_count → release (some p) (some (block_at p b)) ≡ release_index p b
  release-block b h = ground (
    arith,
    release-inside (b * p.block_size),
    v.size_pos,
    block_end b p.block_count p.block_size h,
    mul-mod_left b p.block_size,
    mul-div_left b {n = p.block_size},
  )

  pub release-allocated :
      (b : ℕ)
      → b < p.block_count
      → get_or p.state b 0 ≡ block_allocated
      → release (some p) (some (block_at p b)) ≡ done (success, some (released p b))
  release-allocated b h e = release-block b h ∙ release_index-allocated b h e

  pub release-other :
      (b : ℕ)
      → b < p.block_count
      → get_or p.state b 0 ≢ block_allocated
      → release (some p) (some (block_at p b)) ≡ done (error_invalid_block, some p)
  release-other b h e = release-block b h ∙ release_index-other b e
