-- ===== src/MemoryPool/Tests.antt =====
-- A pool of two blocks of four bytes, the first one handed out.
use ecu_platform.Base.{
  ℕ, zero, suc, ◌≡◌, ◌≤◌, ◌<◌, get_or, ◌⊎◌, refl, none, some, List, [], ◌∷◌, arith, true, false,
  ◌>>=◌, done,
}
use ecu_platform.MemoryPool.{
  MemoryPool, success, error_null_pointer, error_pool_full, error_invalid_block, init,
}
use ecu_platform.MemoryPool.Valid.{IsValid}
use ecu_platform.MemoryPool.Outcomes.{
  Acquired, Exhausted, Released, Rejected, acquire_outcome, release_outcome,
}
use mathlib.Core.Quot
use ecu_platform.MemoryPool.Returned.{View, SameAddresses, release_all, release_all-View}
use ecu_platform.MemoryPool.Ownership.{session}
use ecu_platform.MemoryPool.Exclusive.{Exclusive, init-session-Exclusive}
use ecu_platform.MemoryPool.History.{get, give}
use ecu_platform.MemoryPool.Allocator
use ecu_platform.MemoryPool.Allocator.{
  Op, take, give, free_count, used_count, Reply, handed, returned, counted, allocator_run,
  addresses_below,
}
use ecu_platform.MemoryPool.Refine.{init-run-allocator_run}

abbrev pool : MemoryPool
pool = record {
  storage = 0x1000;
  state = 1 ∷ 0 ∷ [];
  free_stack = 1 ∷ 0 ∷ [];
  block_size = 4;
  block_count = 2;
  free_count = 1;
  initialized = true;
}

encoded_at : (i : ℕ) → i < 2 → get_or pool.state i 0 ≤ 1
encoded_at zero h = omega arith
encoded_at (suc zero) h = omega arith
encoded_at (suc (suc i)) h = absurd (omega arith)

listed_at :
    (i : ℕ)
    → i < 1
    → (get_or pool.free_stack i 0 < 2) × (get_or pool.state (get_or pool.free_stack i 0) 0 ≡ 0)
listed_at zero h = (omega arith, refl)
listed_at (suc i) h = absurd (omega arith)

pool-IsValid : IsValid pool
pool-IsValid = record {
  is_initialized = refl;
  size_pos = omega arith;
  addressable = omega arith;
  state_length = refl;
  stack_length = refl;
  count_lt = omega arith;
  counted = refl;
  encoded = encoded_at;
  listed_in = λ i h. (listed_at i h).0;
  listed_free = λ i h. (listed_at i h).1;
  distinct = λ i j h k e. omega arith;
}

acquire_outcome_example : Acquired pool none ⊎ Exhausted pool none
acquire_outcome_example = acquire_outcome pool-IsValid none

release_outcome_example : Released pool 0x1000 ⊎ Rejected pool 0x1000
release_outcome_example = release_outcome pool-IsValid 0x1000

abbrev blank : MemoryPool
blank = record {
  storage = 0;
  state = [];
  free_stack = [];
  block_size = 0;
  block_count = 0;
  free_count = 0;
  initialized = false;
}

init-session-Exclusive_example : Exclusive 0x1000 4 2 (
    init (some blank) (some 0x1000) (some (7 ∷ 7 ∷ [])) (some (7 ∷ 7 ∷ [])) 4 2 >>= λ r.
    session (get ∷ get ∷ give 0x1004 ∷ give 0x1004 ∷ get ∷ []) r.1 [])
init-session-Exclusive_example =
    init-session-Exclusive blank 0x1000 (7 ∷ 7 ∷ []) (7 ∷ 7 ∷ []) 4 2
      (get ∷ get ∷ give 0x1004 ∷ give 0x1004 ∷ get ∷ []) refl (omega arith) (omega arith)
      (omega arith) refl refl

-- Both blocks handed out, and given back in both orders, with a foreign address and a second try.
abbrev given_out : MemoryPool
given_out = record pool { state = 1 ∷ 1 ∷ []; free_count = 0 }

both_encoded : (i : ℕ) → i < 2 → get_or given_out.state i 0 ≤ 1
both_encoded zero h = omega arith
both_encoded (suc zero) h = omega arith
both_encoded (suc (suc i)) h = absurd (omega arith)

given_out-IsValid : IsValid given_out
given_out-IsValid = record {
  is_initialized = refl;
  size_pos = omega arith;
  addressable = omega arith;
  state_length = refl;
  stack_length = refl;
  count_lt = omega arith;
  counted = refl;
  encoded = both_encoded;
  listed_in = λ i h. absurd (omega arith);
  listed_free = λ i h. absurd (omega arith);
  distinct = λ i j h k e. absurd (omega arith);
}

abbrev upwards : List ℕ
upwards = 0x1000 ∷ 0x1001 ∷ 0x1004 ∷ []

abbrev downwards : List ℕ
downwards = 0x1004 ∷ 0x1004 ∷ 0x1000 ∷ 0x1001 ∷ []

same_addresses : SameAddresses upwards downwards
same_addresses a = ground arith

release_all-View_example :
    (q r : MemoryPool) × (release_all upwards (some given_out) ≡ done (some q))
    × (release_all downwards (some given_out) ≡ done (some r))
    × IsValid q
    × IsValid r
    × (◌≡◌ {A = View} (Quot.mk q) (Quot.mk r))
release_all-View_example = release_all-View given_out-IsValid upwards downwards same_addresses

-- Both blocks handed out, the pool exhausted, one given back twice and handed out again.
abbrev ops : List Op
ops =
    take (some none)
    ∷ take (some (some 7))
    ∷ take (some none)
    ∷ take none
    ∷ give (some 0x1000)
    ∷ give (some 0x1000)
    ∷ give none
    ∷ free_count (some 0)
    ∷ take (some none)
    ∷ used_count none
    ∷ []

answers :
    allocator_run 4 2 ops (record { free = addresses_below 0x1000 4 2; live = [] })
    ≡ handed success (some (some 0x1004))
      ∷ handed success (some (some 0x1000))
      ∷ handed error_pool_full (some none)
      ∷ handed error_null_pointer none
      ∷ returned success
      ∷ returned error_invalid_block
      ∷ returned error_invalid_block
      ∷ counted (success, some 1)
      ∷ handed success (some (some 0x1000))
      ∷ counted (error_null_pointer, none)
      ∷ []
answers = refl

init-run-allocator_run_example :
    (init (some blank) (some 0x1000) (some (7 ∷ 7 ∷ [])) (some (7 ∷ 7 ∷ [])) 4 2 >>= λ r.
    Allocator.run ops r.1)
    ≡ done (allocator_run 4 2 ops (record { free = addresses_below 0x1000 4 2; live = [] }))
init-run-allocator_run_example =
    init-run-allocator_run ops blank 0x1000 (7 ∷ 7 ∷ []) (7 ∷ 7 ∷ []) 4 2 refl (omega arith)
      (omega arith) (omega arith) refl refl
