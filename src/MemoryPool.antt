-- ===== src/MemoryPool.antt =====
-- src/memoryPool.c and include/memoryPool.h: fixed-size blocks handed out from a stack of free
-- indices. `storage` and the blocks are addresses; the two arrays are lists. A pointer is `none` for
-- NULL; the pool pointer carries the pool.
pub mod Valid
pub mod Steps
pub mod Outcomes
pub mod Start
pub mod History
pub mod Ownership
pub mod Exclusive
pub mod Occurs
pub mod Returned
pub mod Allocator
pub mod FreeList
pub mod Stands
pub mod Refine
mod Tests
use ecu_platform.Base.{
  ℕ, zero, suc, ◌+◌, ◌-◌, ◌*◌, ◌/◌, ◌%◌, ◌^◌, Bool, true, false, not, ◌||◌, Option, none, some,
  List, ltb, leb, ◌==◌, if◌then◌else◌, Exec, done, ◌>>=◌, read_at, write_at, size_max, size_add,
  size_sub, size_mul,
}

pub data MemoryPoolStatus : Type 0 where
  success error_null_pointer error_not_initialized error_already_initialized : MemoryPoolStatus
  error_invalid_block_size error_invalid_block_count error_size_overflow : MemoryPoolStatus
  error_pool_full error_invalid_block : MemoryPoolStatus

-- The encoding of a block's state in the `uint8_t` array.
abbrev pub block_free : ℕ
block_free = 0

abbrev pub block_allocated : ℕ
block_allocated = 1

pub record MemoryPool : Type 0 where
  pub storage : ℕ
  pub state : List ℕ
  pub free_stack : List ℕ
  pub block_size : ℕ
  pub block_count : ℕ
  pub free_count : ℕ
  pub initialized : Bool

unfoldable pub validate_pool : Option MemoryPool → MemoryPoolStatus
validate_pool none = error_null_pointer
validate_pool (some p) = if p.initialized then success else error_not_initialized

-- The loop of `init` at block `i`, with `left` blocks to go.
unfoldable pub fill : ℕ → ℕ → List ℕ → List ℕ → Exec (List ℕ × List ℕ)
fill zero i state stack = done (state, stack)
fill (suc left) i state stack = do
  state' ← write_at state i block_free
  stack' ← write_at stack i i
  fill left (i + 1) state' stack'

-- `init` behind the NULL checks.
unfoldable pub init_at :
    MemoryPool → ℕ → List ℕ → List ℕ → ℕ → ℕ → Exec (MemoryPoolStatus × Option MemoryPool)
init_at p storage state stack block_size block_count =
    if p.initialized
    then done (error_already_initialized, some p)
    else if block_size == 0
    then done (error_invalid_block_size, some p)
    else if block_count == 0
    then done (error_invalid_block_count, some p)
    else if ltb (size_max / block_count) block_size
    then done (error_size_overflow, some p)
    else (fill block_count 0 state stack >>= λ arrays. done (
      success,
      some (record {
        storage = storage;
        state = arrays.0;
        free_stack = arrays.1;
        block_size = block_size;
        block_count = block_count;
        free_count = block_count;
        initialized = true;
      }),
    ))

pub init :
    Option MemoryPool
    → Option ℕ
    → Option (List ℕ)
    → Option (List ℕ)
    → ℕ
    → ℕ
    → Exec (MemoryPoolStatus × Option MemoryPool)
unfolding init_at
init none storage state stack block_size block_count = done (error_null_pointer, none)
init (some p) none state stack block_size block_count = done (error_null_pointer, some p)
init (some p) (some a) none stack block_size block_count = done (error_null_pointer, some p)
init (some p) (some a) (some s) none block_size block_count = done (error_null_pointer, some p)
init (some p) (some a) (some s) (some f) block_size block_count =
    init_at p a s f block_size block_count

-- `acquire` on an initialized pool; `out` is the block pointer's old value.
unfoldable pub acquire_from :
    MemoryPool → Option ℕ → Exec (MemoryPoolStatus × Option MemoryPool × Option (Option ℕ))
acquire_from p out =
    if p.free_count == 0
    then done (error_pool_full, some p, some out)
    else (let free_count' = p.free_count - 1 in
        read_at p.free_stack free_count' >>= λ index.
        write_at p.state index block_allocated >>= λ state'. done (
          success,
          some (record p { state = state'; free_count = free_count' }),
          some (some (p.storage + size_mul index p.block_size)),
        ))

-- The second argument is the `void **`: NULL, or the pointer pointed at.
pub acquire :
    Option MemoryPool
    → Option (Option ℕ)
    → Exec (MemoryPoolStatus × Option MemoryPool × Option (Option ℕ))
unfolding validate_pool acquire_from
acquire p none = done (error_null_pointer, p, none)
acquire none (some out) = done (error_null_pointer, none, some out)
acquire (some p) (some out) = elim (validate_pool (some p)) [
  | success ↦ acquire_from p out
  | error ↦ done (error, some p, some out)
]

-- `release` from the computed index on.
unfoldable pub release_index : MemoryPool → ℕ → Exec (MemoryPoolStatus × Option MemoryPool)
release_index p index =
    if leb p.block_count index
    then done (error_invalid_block, some p)
    else (read_at p.state index >>= λ s.
        if not (s == block_allocated)
        then done (error_invalid_block, some p)
        else (write_at p.state index block_free >>= λ state'.
            write_at p.free_stack p.free_count index >>= λ stack'. done (
              success,
              some (record p {
                state = state';
                free_stack = stack';
                free_count = size_add p.free_count 1;
              }),
            )))

unfoldable pub release_at : MemoryPool → ℕ → Exec (MemoryPoolStatus × Option MemoryPool)
unfolding release_index
release_at p pointer =
    let total_size = size_mul p.block_size p.block_count in
    let storage_end = size_add p.storage total_size in
    let offset = size_sub pointer p.storage in
    if ltb (size_max - total_size) p.storage
    then done (error_invalid_block, some p)
    else if ltb pointer p.storage || leb storage_end pointer
    then done (error_invalid_block, some p)
    else if not (offset % p.block_size == 0)
    then done (error_invalid_block, some p)
    else release_index p (offset / p.block_size)

pub release : Option MemoryPool → Option ℕ → Exec (MemoryPoolStatus × Option MemoryPool)
unfolding validate_pool release_at
release none block = done (error_null_pointer, none)
release (some p) block = elim (validate_pool (some p)) [
  | success ↦ elim block [
    | none ↦ done (error_invalid_block, some p)
    | some pointer ↦ release_at p pointer
  ]
  | error ↦ done (error, some p)
]

-- A query stores `value` of the pool through `out`.
query : Option MemoryPool → Option ℕ → (MemoryPool → ℕ) → MemoryPoolStatus × Option ℕ
query p none value = (error_null_pointer, none)
query none (some old) value = (error_null_pointer, some old)
query (some p) (some old) value = elim (validate_pool (some p)) [
  | success ↦ (success, some (value p))
  | error ↦ (error, some old)
]

pub get_free_count : Option MemoryPool → Option ℕ → MemoryPoolStatus × Option ℕ
unfolding query validate_pool
get_free_count p out = query p out (λ q. q.free_count)

pub get_used_count : Option MemoryPool → Option ℕ → MemoryPoolStatus × Option ℕ
unfolding query validate_pool
get_used_count p out = query p out (λ q. size_sub q.block_count q.free_count)

pub get_capacity : Option MemoryPool → Option ℕ → MemoryPoolStatus × Option ℕ
unfolding query validate_pool
get_capacity p out = query p out (λ q. q.block_count)

pub get_block_size : Option MemoryPool → Option ℕ → MemoryPoolStatus × Option ℕ
unfolding query validate_pool
get_block_size p out = query p out (λ q. q.block_size)
