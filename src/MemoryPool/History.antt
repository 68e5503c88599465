-- ===== src/MemoryPool/History.antt =====
-- A memory pool under any sequence of calls, and what its queries say along the way.
use ecu_platform.Base.{
  ℕ, ◌-◌, ◌≡◌, ◌∙◌, inl, inr, refl, arith, some, none, List, [], ◌∷◌, Exec, done, ◌>>=◌, Option,
}
use ecu_platform.MemoryPool.{
  MemoryPool, success, acquire, release, get_free_count, get_used_count, get_capacity,
  get_block_size,
}
use ecu_platform.MemoryPool.Valid.{IsValid, count_free, free_count-le, allocated, released}
use ecu_platform.MemoryPool.Outcomes.{acquire_outcome, release_outcome}

-- A call: for a block, or for the release of an address.
pub data Call : Type 0 where
  get : Call
  give : ℕ → Call

-- The calls in turn; the blocks that `acquire` hands out are not looked at.
unfoldable pub run : List Call → Option MemoryPool → Exec (Option MemoryPool)
run [] p = done p
run (get ∷ calls) p = acquire p (some none) >>= λ r. run calls r.1
run (give a ∷ calls) p = release p (some a) >>= λ r. run calls r.1

-- A run that has returned with a valid pool of the same blocks.
pub record Keeps (p : MemoryPool) (result : Exec (Option MemoryPool)) : Type 0 where
  pub pool : MemoryPool
  pub returns : result ≡ done (some pool)
  pub valid : IsValid pool
  pub same_storage : pool.storage ≡ p.storage
  pub same_count : pool.block_count ≡ p.block_count
  pub same_size : pool.block_size ≡ p.block_size

-- A run goes on from a pool of the same blocks.
later :
    {p : MemoryPool} {now next : Exec (Option MemoryPool)} (q : MemoryPool)
    → now ≡ next
    → q.storage ≡ p.storage
    → q.block_count ≡ p.block_count
    → q.block_size ≡ p.block_size
    → Keeps q next
    → Keeps p now
later q e a b c k = record {
  pool = k.pool;
  returns = e ∙ k.returns;
  valid = k.valid;
  same_storage = k.same_storage ∙ a;
  same_count = k.same_count ∙ b;
  same_size = k.same_size ∙ c;
}

-- From a valid memory pool, any sequence of acquire calls and of release calls with arbitrary
-- addresses runs without an access out of bounds and ends in a valid pool with the same storage,
-- block count and block size.
pub run-Keeps : (calls : List Call) {p : MemoryPool} → IsValid p → Keeps p (run calls (some p))
unfolding run
run-Keeps [] {p} v = record {
  pool = p;
  returns = refl;
  valid = v;
  same_storage = refl;
  same_count = refl;
  same_size = refl;
}
run-Keeps (get ∷ calls) {p} v = elim (acquire_outcome v none) [
  | inl a ↦
      let rest = run-Keeps calls a.valid in
      later (allocated p a.block) (ground (arith, a.returns)) refl refl refl rest
  | inr e ↦ let rest = run-Keeps calls v in later p (ground (arith, e.returns)) refl refl refl rest
]
run-Keeps (give x ∷ calls) {p} v = elim (release_outcome v x) [
  | inl a ↦
      let rest = run-Keeps calls a.valid in
      later (released p a.block) (ground (arith, a.returns)) refl refl refl rest
  | inr e ↦ let rest = run-Keeps calls v in later p (ground (arith, e.returns)) refl refl refl rest
]

-- The queries of a valid pool.
module _ {p : MemoryPool} (v : IsValid p) (old : ℕ) where
  -- On a valid memory pool, the queries give the block count, the block size, the number of blocks
  -- whose state is free, and the number of the other blocks.
  pub pool_queries_agree :
      (get_capacity (some p) (some old) ≡ (success, some p.block_count))
      × (get_block_size (some p) (some old) ≡ (success, some p.block_size))
      × (get_free_count (some p) (some old) ≡ (success, some (count_free p.state)))
      × (get_used_count (some p) (some old) ≡ (success, some (p.block_count - count_free p.state)))
  unfolding get_capacity get_block_size get_free_count get_used_count
  pool_queries_agree = (
    ground (arith, v.is_initialized),
    ground (arith, v.is_initialized),
    ground (arith, v.is_initialized, v.counted),
    ground (arith, v.is_initialized, v.counted, free_count-le v, v.count_lt),
  )
