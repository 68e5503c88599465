-- ===== src/MemoryPool/Ownership.antt =====
-- The blocks of src/memoryPool.c that a client holds, over any sequence of calls.
use mathlib.Core.Path.{subst}
use native.Mathlib.Decide.{ℕ_discrete}
use native.Mathlib.Nat.{mul-div_left}
use ecu_platform.Base.{
  ℕ, ◌+◌, ◌-◌, ◌≤◌, ◌<◌, ◌≡◌, sym, arith, Option, some, none, List, [], ◌∷◌, length, get_or, set,
  get_or-set_self, get_or-set_ne, ◌==◌, if◌then◌else◌, Exec, done, ◌>>=◌,
}
use ecu_platform.MemoryPool.{
  MemoryPool, MemoryPoolStatus, success, block_free, block_allocated, acquire, release,
}
use ecu_platform.MemoryPool.Valid.{IsValid, count_free-allocate, allocated, released}
use ecu_platform.MemoryPool.Steps.{block_at}
use ecu_platform.MemoryPool.History.{Call, get, give}

-- How often an address is held.
abbrev pub held : ℕ → List ℕ → ℕ
held a [] = 0
held a (x ∷ xs) = (if x == a then 1 else 0) + held a xs

abbrev pub remove : ℕ → List ℕ → List ℕ
remove a [] = []
remove a (x ∷ xs) = if x == a then xs else x ∷ remove a xs

-- What a client holds after an acquire, and after a release.
abbrev taken : MemoryPoolStatus → Option (Option ℕ) → List ℕ → List ℕ
taken success (some (some a)) live = a ∷ live
taken _ _ live = live

abbrev given : MemoryPoolStatus → ℕ → List ℕ → List ℕ
given success a live = remove a live
given _ a live = live

-- The calls of a client that keeps the addresses it got and has not given back.
unfoldable pub session : List Call → Option MemoryPool → List ℕ → Exec (Option MemoryPool × List ℕ)
session [] p live = done (p, live)
session (get ∷ calls) p live = acquire p (some none) >>= λ r. session calls r.1 (taken r.0 r.2 live)
session (give a ∷ calls) p live = release p (some a) >>= λ r. session calls r.1 (given r.0 a live)

held-remove :
    (a c : ℕ) (xs : List ℕ) → held a (remove c xs) ≡ (if c == a then held a xs - 1 else held a xs)
held-remove a c [] = ground arith
held-remove a c (x ∷ xs) = ground (arith, held-remove a c xs)

length-remove : (a : ℕ) (xs : List ℕ) → 1 ≤ held a xs → length (remove a xs) + 1 ≡ length xs
length-remove a [] h = absurd (omega arith)
length-remove a (x ∷ xs) h = ground (arith, length-remove a xs)

-- A client holds each allocated block once, and nothing else.
pub record Owns (p : MemoryPool) (live : List ℕ) : Type 0 where
  pub blocks :
      (b : ℕ)
      → b < p.block_count
      → held (block_at p b) live ≡ (if get_or p.state b 0 == block_allocated then 1 else 0)
  pub only : (a : ℕ) → 1 ≤ held a live → (b : ℕ) × (b < p.block_count) × (a ≡ block_at p b)
  pub shares : length live + p.free_count ≡ p.block_count

module _ {p : MemoryPool} {live : List ℕ} (v : IsValid p) (o : Owns p live) where
  same_block : (b c : ℕ) → block_at p b ≡ block_at p c → b ≡ c
  same_block b c q =
      ground
        (arith, v.size_pos, mul-div_left b {n = p.block_size}, mul-div_left c {n = p.block_size})

  pub acquired-Owns :
      (k : ℕ)
      → k < p.block_count
      → get_or p.state k 0 ≡ block_free
      → Owns (allocated p k) (block_at p k ∷ live)
  acquired-Owns k h free =
      let room : k < length p.state = omega (arith, v.state_length) in
      record {
        blocks = λ b hb. elim (ℕ_discrete k b) [
          | yes e ↦
              subst
                (λ c. held (block_at p c) (block_at p k ∷ live) ≡ (
                  if get_or (set p.state k block_allocated) c 0 == block_allocated then 1 else 0))
                e (ground (arith, o.blocks k h, get_or-set_self p.state k block_allocated 0 room))
          | no ne ↦
              ground (
                arith,
                same_block k b,
                o.blocks b hb,
                get_or-set_ne p.state k b block_allocated 0 ne,
              )
        ];
        only = λ a ha. elim (ℕ_discrete (block_at p k) a) [
          | yes e ↦ (k, h, sym e)
          | no ne ↦ o.only a (ground arith)
        ];
        shares = omega (arith, o.shares, v.counted, count_free-allocate p.state k room free);
      }

  pub released-Owns :
      (k : ℕ)
      → k < p.block_count
      → get_or p.state k 0 ≡ block_allocated
      → Owns (released p k) (remove (block_at p k) live)
  released-Owns k h used =
      let room : k < length p.state = omega (arith, v.state_length) in
      let one : held (block_at p k) live ≡ 1 = ground (arith, o.blocks k h) in
      record {
        blocks = λ b hb. ground (
          arith,
          held-remove (block_at p b) (block_at p k) live,
          o.blocks b hb,
          same_block k b,
          ℕ_discrete k b,
          get_or-set_self p.state k block_free 0 room,
          get_or-set_ne p.state k b block_free 0,
        );
        only = λ a ha. o.only a (ground (arith, held-remove a (block_at p k) live));
        shares = omega (arith, o.shares, length-remove (block_at p k) live (omega (arith, one)));
      }
