-- ===== src/MemoryPool/Exclusive.antt =====
-- No two blocks that a client of src/memoryPool.c holds overlap.
use native.Mathlib.Decide.{ℕ_discrete, dec_lt}
use ecu_platform.Base.{
  ℕ, ◌+◌, ◌-◌, ◌*◌, ◌^◌, ◌≤◌, ◌<◌, ◌≡◌, ◌≢◌, ◌⊎◌, inl, inr, refl, ap, sym, ◌∙◌, arith, Option, some,
  none, List, [], ◌∷◌, length, get_or, Exec, done, ◌>>=◌, false,
}
use ecu_platform.MemoryPool.{MemoryPool, success, block_free, init, get_free_count}
use ecu_platform.MemoryPool.Valid.{IsValid, count_free-lt, allocated, released}
use ecu_platform.MemoryPool.Steps.{block_at, block_end}
use ecu_platform.MemoryPool.Outcomes.{acquire_outcome, release_outcome}
use ecu_platform.MemoryPool.Start.{init_starts}
use ecu_platform.MemoryPool.History.{Call, get, give}
use ecu_platform.MemoryPool.Ownership.{held, session, Owns, acquired-Owns, released-Owns}

-- A run that has returned a valid pool of the same blocks, and what the client holds of it.
record Holds (p : MemoryPool) (run : Exec (Option MemoryPool × List ℕ)) : Type 0 where
  pool : MemoryPool
  live : List ℕ
  returns : run ≡ done (some pool, live)
  valid : IsValid pool
  owns : Owns pool live
  same_storage : pool.storage ≡ p.storage
  same_size : pool.block_size ≡ p.block_size
  same_count : pool.block_count ≡ p.block_count

-- A run that goes on from a pool of the same blocks.
later :
    {p : MemoryPool} {now next : Exec (Option MemoryPool × List ℕ)} (q : MemoryPool)
    → now ≡ next
    → q.storage ≡ p.storage
    → q.block_size ≡ p.block_size
    → q.block_count ≡ p.block_count
    → Holds q next
    → Holds p now
later q e a b c k = record {
  pool = k.pool;
  live = k.live;
  returns = e ∙ k.returns;
  valid = k.valid;
  owns = k.owns;
  same_storage = k.same_storage ∙ a;
  same_size = k.same_size ∙ b;
  same_count = k.same_count ∙ c;
}

session-Holds :
    (calls : List Call) {p : MemoryPool} {live : List ℕ}
    → IsValid p
    → Owns p live
    → Holds p (session calls (some p) live)
unfolding session
session-Holds [] {p} {live} v o = record {
  pool = p;
  live = live;
  returns = refl;
  valid = v;
  owns = o;
  same_storage = refl;
  same_size = refl;
  same_count = refl;
}
session-Holds (get ∷ calls) {p} v o = elim (acquire_outcome v none) [
  | inl a ↦
      later (allocated p a.block) (rw a.returns refl) refl refl refl
        (session-Holds calls a.valid (acquired-Owns v o a.block a.in_range a.was_free))
  | inr e ↦ later p (rw e.returns refl) refl refl refl (session-Holds calls v o)
]
session-Holds (give x ∷ calls) {p} v o = elim (release_outcome v x) [
  | inl a ↦
      later (released p a.block) (rw (a.returns, a.address) refl) refl refl refl
        (session-Holds calls a.valid (released-Owns v o a.block a.in_range a.was_allocated))
  | inr e ↦ later p (rw e.returns refl) refl refl refl (session-Holds calls v o)
]

-- Blocks of `size` bytes at the addresses held: each in the storage, held once, and apart from the
-- others; the pool counts the rest as free.
pub record Exclusive (storage size count : ℕ) (run : Exec (Option MemoryPool × List ℕ))
    : Type 0 where
  pub pool : MemoryPool
  pub live : List ℕ
  pub returns : run ≡ done (some pool, live)
  pub once : (a : ℕ) → held a live ≤ 1
  pub inside : (a : ℕ) → 1 ≤ held a live → (storage ≤ a) × (a + size ≤ storage + size * count)
  pub apart :
      (a c : ℕ) → 1 ≤ held a live → 1 ≤ held c live → a ≢ c → (a + size ≤ c) ⊎ (c + size ≤ a)
  pub free :
      (old : ℕ) → get_free_count (some pool) (some old) ≡ (success, some (count - length live))

module _ {p : MemoryPool} {live : List ℕ} (v : IsValid p) (o : Owns p live) where
  pub held_once : (a : ℕ) → held a live ≤ 1
  held_once a = elim (dec_lt (held a live) 1) [
    | yes none_held ↦ omega arith
    | no some_held ↦ let b = o.only a (omega arith) in rw b.2 (ground (arith, o.blocks b.0 b.1))
  ]

  held_inside :
      (a : ℕ)
      → 1 ≤ held a live
      → (p.storage ≤ a) × (a + p.block_size ≤ p.storage + p.block_size * p.block_count)
  held_inside a h =
      let b = o.only a h in
      let e = block_end b.0 p.block_count p.block_size b.1 in
      (omega (arith, b.2), omega (arith, b.2))

  held_apart :
      (a c : ℕ)
      → 1 ≤ held a live
      → 1 ≤ held c live
      → a ≢ c
      → (a + p.block_size ≤ c) ⊎ (c + p.block_size ≤ a)
  held_apart a c ha hc ne =
      let b = o.only a ha in
      let d = o.only c hc in
      elim (dec_lt b.0 d.0) [
        | yes lower ↦ inl (omega (arith, b.2, d.2, block_end b.0 d.0 p.block_size lower))
        | no other ↦ elim (dec_lt d.0 b.0) [
          | yes higher ↦ inr (omega (arith, b.2, d.2, block_end d.0 b.0 p.block_size higher))
          | no same ↦ absurd (ne (b.2 ∙ ap (block_at p) (equal b.0 d.0 other same) ∙ sym d.2))
        ]
      ]
    where
      equal : (m n : ℕ) → ¬ (m < n) → ¬ (n < m) → m ≡ n
      equal m n h k = omega arith

  exclusive :
      {run : Exec (Option MemoryPool × List ℕ)}
      → run ≡ done (some p, live)
      → Exclusive p.storage p.block_size p.block_count run
  unfolding get_free_count
  exclusive e = record {
    pool = p;
    live = live;
    returns = e;
    once = held_once;
    inside = held_inside;
    apart = held_apart;
    free = λ old. ground (arith, v.is_initialized, o.shares);
  }

-- The pool that `init` leaves, of which nothing is held.
pub fresh-Owns : {p : MemoryPool} → IsValid p → p.free_count ≡ p.block_count → Owns p []
fresh-Owns {p} v e = record {
  blocks = λ b hb. elim (ℕ_discrete (get_or p.state b 0) block_free) [
    | yes free ↦ ground arith
    | no used ↦ absurd (
        omega (
          arith,
          v.counted,
          v.state_length,
          count_free-lt p.state b (omega (arith, v.state_length)) used,
        ))
  ];
  only = λ a h. absurd (omega arith);
  shares = omega (arith, e);
}

-- From an init of a fresh pool with a positive block size and count, storage that ends below the
-- address limit and arrays of one entry per block, a client may acquire blocks and release any
-- addresses in any order: nothing is accessed out of bounds, and of the addresses it was given and
-- has not given back, each is held once, its block lies inside the storage, two different blocks
-- do not overlap, and the free count is the block count less their number.
pub init-session-Exclusive :
    (p : MemoryPool) (storage : ℕ) (state stack : List ℕ) (size count : ℕ) (calls : List Call)
    → p.initialized ≡ false
    → 1 ≤ size
    → 1 ≤ count
    → storage + size * count < 2 ^ 64
    → length state ≡ count
    → length stack ≡ count
    → Exclusive storage size count (
        init (some p) (some storage) (some state) (some stack) size count >>= λ r.
        session calls r.1 [])
init-session-Exclusive p storage state stack size count calls fresh hs hc ha es ef =
    let s = init_starts p storage state stack size count fresh hs hc ha es ef in
    let h = session-Holds calls s.valid (fresh-Owns s.valid (s.all_free ∙ sym s.count_eq)) in
    resized (h.same_storage ∙ s.storage_eq) (h.same_size ∙ s.size_eq) (h.same_count ∙ s.count_eq)
      (exclusive h.valid h.owns (rw s.returns h.returns))
  where
    resized :
        {a b c a' b' c' : ℕ} {run : Exec (Option MemoryPool × List ℕ)}
        → a ≡ a'
        → b ≡ b'
        → c ≡ c'
        → Exclusive a b c run
        → Exclusive a' b' c' run
    resized ea eb ec x = rw (← ea, ← eb, ← ec) x
