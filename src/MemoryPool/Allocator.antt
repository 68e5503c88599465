-- ===== src/MemoryPool/Allocator.antt =====
-- Every call of src/memoryPool.c, and the allocator that a pool implements: a list of the free
-- addresses, of which the last one given back is handed out first, and the addresses handed out.
use ecu_platform.Base.{
  ℕ, zero, suc, ◌+◌, ◌*◌, Option, none, some, List, [], ◌∷◌, length, ltb, if◌then◌else◌, Exec, done,
  ◌>>=◌,
}
use ecu_platform.MemoryPool.{
  MemoryPool, MemoryPoolStatus, success, error_null_pointer, error_pool_full, error_invalid_block,
  acquire, release, get_free_count, get_used_count, get_capacity, get_block_size,
}
use ecu_platform.MemoryPool.Ownership.{held, remove}

-- A call with its pointer arguments: NULL, or what they point at.
pub data Op : Type 0 where
  take : Option (Option ℕ) → Op
  give : Option ℕ → Op
  free_count used_count capacity block_size : Option ℕ → Op

pub data Reply : Type 0 where
  handed : MemoryPoolStatus → Option (Option ℕ) → Reply
  returned : MemoryPoolStatus → Reply
  counted : MemoryPoolStatus × Option ℕ → Reply

unfoldable pub call : Op → Option MemoryPool → Exec (Reply × Option MemoryPool)
call (take out) p = acquire p out >>= λ r. done (handed r.0 r.2, r.1)
call (give block) p = release p block >>= λ r. done (returned r.0, r.1)
call (free_count out) p = done (counted (get_free_count p out), p)
call (used_count out) p = done (counted (get_used_count p out), p)
call (capacity out) p = done (counted (get_capacity p out), p)
call (block_size out) p = done (counted (get_block_size p out), p)

-- The calls in order.
unfoldable pub run : List Op → Option MemoryPool → Exec (List Reply)
run [] p = done []
run (op ∷ ops) p = do now ← call op p; later ← run ops now.1; done (now.0 ∷ later)

pub record Allocator : Type 0 where
  pub free : List ℕ
  pub live : List ℕ

-- A number for a pointer that is not NULL.
abbrev pub number : Option ℕ → ℕ → Reply
number none n = counted (error_null_pointer, none)
number (some old) n = counted (success, some n)

abbrev pub take_from : List ℕ → List ℕ → Option ℕ → Reply × Allocator
take_from [] live out = (handed error_pool_full (some out), record { free = []; live = live })
take_from (a ∷ free) live out =
    (handed success (some (some a)), record { free = free; live = a ∷ live })

-- The same calls on the allocator, for `count` blocks of `size` bytes.
abbrev pub allocator_call : ℕ → ℕ → Op → Allocator → Reply × Allocator
allocator_call size count (take none) s = (handed error_null_pointer none, s)
allocator_call size count (take (some out)) s = take_from s.free s.live out
allocator_call size count (give none) s = (returned error_invalid_block, s)
allocator_call size count (give (some a)) s =
    if ltb 0 (held a s.live)
    then (returned success, record { free = a ∷ s.free; live = remove a s.live })
    else (returned error_invalid_block, s)
allocator_call size count (free_count out) s = (number out (length s.free), s)
allocator_call size count (used_count out) s = (number out (length s.live), s)
allocator_call size count (capacity out) s = (number out count, s)
allocator_call size count (block_size out) s = (number out size, s)

abbrev pub allocator_run : ℕ → ℕ → List Op → Allocator → List Reply
allocator_run size count [] s = []
allocator_run size count (op ∷ ops) s =
    let now = allocator_call size count op s in now.0 ∷ allocator_run size count ops now.1

-- The addresses of the first `count` blocks, the highest first.
abbrev pub addresses_below : ℕ → ℕ → ℕ → List ℕ
addresses_below storage size zero = []
addresses_below storage size (suc k) = (storage + k * size) ∷ addresses_below storage size k
