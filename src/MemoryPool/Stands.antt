-- ===== src/MemoryPool/Stands.antt =====
-- The pools of src/memoryPool.c and the allocators that they stand for; acquire and release.
use native.Mathlib.Decide.{ℕ_discrete, dec_lt}
use mathlib.Core.Path.{subst}
use ecu_platform.Base.{
  ℕ, ◌-◌, ◌≤◌, ◌<◌, ◌≡◌, inl, inr, refl, sym, ap, ap₂, ◌∙◌, arith, Option, some, [], ◌∷◌, length,
  get_or, ltb, false, true, Exec, done,
}
use ecu_platform.MemoryPool.{
  MemoryPool, success, error_pool_full, error_invalid_block, block_allocated,
}
use ecu_platform.MemoryPool.Valid.{
  IsValid, allocated, released, top, allocated-IsValid, count_free-lt,
}
use ecu_platform.MemoryPool.Steps.{block_at, acquire_full, acquire-top}
use ecu_platform.MemoryPool.Outcomes.{Released, Rejected, release_outcome}
use ecu_platform.MemoryPool.Ownership.{held, remove, Owns, acquired-Owns, released-Owns}
use ecu_platform.MemoryPool.Allocator.{
  Op, take, give, Reply, handed, returned, take_from, call, Allocator, allocator_call,
}
use ecu_platform.MemoryPool.FreeList.{addresses, length-addresses, addresses-top, addresses-push}

-- The pool stands for the allocator.
pub record Stands (p : MemoryPool) (s : Allocator) : Type 0 where
  pub valid : IsValid p
  pub owns : Owns p s.live
  pub lists : s.free ≡ addresses p.storage p.block_size p.free_stack p.free_count

-- A call that answers like the allocator, and leaves a pool of the same blocks that stands for what
-- the allocator has become.
pub record CallRefines (size count : ℕ) (op : Op) (s : Allocator)
    (run : Exec (Reply × Option MemoryPool)) : Type 0 where
  pub reply : Reply
  pub pool : MemoryPool
  pub next : Allocator
  pub returns : run ≡ done (reply, some pool)
  pub same_size : size ≡ pool.block_size
  pub same_count : count ≡ pool.block_count
  pub stands : Stands pool next
  pub agrees : (reply, next) ≡ allocator_call size count op s

module _ {p : MemoryPool} {s : Allocator} (st : Stands p s) where
  -- A call that changes nothing.
  pub kept :
      (op : Op) (reply : Reply)
      → call op (some p) ≡ done (reply, some p)
      → (reply, s) ≡ allocator_call p.block_size p.block_count op s
      → CallRefines p.block_size p.block_count op s (call op (some p))
  kept op reply e q = record {
    reply = reply;
    pool = p;
    next = s;
    returns = e;
    same_size = refl;
    same_count = refl;
    stands = st;
    agrees = q;
  }

  pub length-free : length s.free ≡ p.free_count
  length-free =
      ap length st.lists ∙ length-addresses p.storage p.block_size p.free_stack p.free_count

  take_full :
      (out : Option ℕ)
      → p.free_count ≡ 0
      → CallRefines p.block_size p.block_count (take (some out)) s (call (take (some out)) (some p))
  unfolding call
  take_full out e =
      let empty : s.free ≡ [] = st.lists ∙ ap (addresses p.storage p.block_size p.free_stack) e in
      kept (take (some out)) (handed error_pool_full (some out))
        (rw (acquire_full st.valid out e) refl)
        (ap (λ xs. (handed error_pool_full (some out), record { free = xs; live = s.live })) empty
          ∙ ap (λ xs. take_from xs s.live out) (sym empty))

  take_top :
      (out : Option ℕ)
      → 1 ≤ p.free_count
      → CallRefines p.block_size p.block_count (take (some out)) s (call (take (some out)) (some p))
  unfolding call
  take_top out h =
      let v = st.valid in
      let a = block_at p (top p) in
      let rest = addresses p.storage p.block_size p.free_stack (p.free_count - 1) in
      let cut : s.free ≡ a ∷ rest =
        st.lists ∙ addresses-top p.storage p.block_size p.free_stack p.free_count h in
      let last : p.free_count - 1 < p.free_count = omega arith in
      record {
        reply = handed success (some (some a));
        pool = allocated p (top p);
        next = record { free = rest; live = a ∷ s.live };
        returns = rw (acquire-top v out h) refl;
        same_size = refl;
        same_count = refl;
        stands = record {
          valid = allocated-IsValid v h;
          owns =
              acquired-Owns v st.owns (top p) (v.listed_in (p.free_count - 1) last)
                (v.listed_free (p.free_count - 1) last);
          lists = refl;
        };
        agrees = ap (λ xs. take_from xs s.live out) (sym cut);
      }

  held_of :
      (b : ℕ)
      → b < p.block_count
      → get_or p.state b 0 ≡ block_allocated
      → held (block_at p b) s.live ≡ 1
  held_of b h e = ground (arith, st.owns.blocks b h)

  -- An address that is not a held block's is not held.
  unheld : (a : ℕ) → Rejected p a → ltb 0 (held a s.live) ≡ false
  unheld a r = elim (dec_lt 0 (held a s.live)) [
    | yes some_held ↦ let b = st.owns.only a some_held in foreign b.0 b.1 b.2 some_held
    | no none_held ↦ ground arith
  ]
    where
      foreign :
          (b : ℕ)
          → b < p.block_count
          → a ≡ block_at p b
          → 0 < held a s.live
          → ltb 0 (held a s.live) ≡ false
      foreign b h e k = elim (ℕ_discrete (get_or p.state b 0) block_allocated) [
        | yes used ↦ absurd (r.foreign b h used e)
        | no free ↦ absurd (ground (arith, ap (λ x. held x s.live) e, st.owns.blocks b h, k))
      ]

  room :
      (b : ℕ)
      → b < p.block_count
      → get_or p.state b 0 ≡ block_allocated
      → p.free_count < length p.free_stack
  room b h e =
      let v = st.valid in
      omega (
        arith,
        count_free-lt p.state b (omega (arith, v.state_length)) (ground arith),
        v.counted,
        v.state_length,
        v.stack_length,
      )

  give_block :
      (a : ℕ) (r : Released p a)
      → CallRefines p.block_size p.block_count (give (some a)) s (call (give (some a)) (some p))
  unfolding call
  give_block a r =
      let b = r.block in
      let one : held a s.live ≡ 1 =
        ap (λ x. held x s.live) r.address ∙ held_of b r.in_range r.was_allocated in
      let is_held : ltb 0 (held a s.live) ≡ true = ground (arith, one) in
      record {
        reply = returned success;
        pool = released p b;
        next = record { free = a ∷ s.free; live = remove a s.live };
        returns = rw r.returns refl;
        same_size = refl;
        same_count = refl;
        stands = record {
          valid = r.valid;
          owns =
              subst (λ x. Owns (released p b) (remove x s.live)) (sym r.address)
                (released-Owns st.valid st.owns b r.in_range r.was_allocated);
          lists =
              ap₂ ◌∷◌ r.address st.lists
              ∙ sym (
                  addresses-push p.storage p.block_size p.free_stack p.free_count b
                    (room b r.in_range r.was_allocated));
        };
        agrees = rw is_held refl;
      }

  pub call-give :
      (a : ℕ)
      → CallRefines p.block_size p.block_count (give (some a)) s (call (give (some a)) (some p))
  unfolding call
  call-give a = elim (release_outcome st.valid a) [
    | inl r ↦ give_block a r
    | inr r ↦
        kept (give (some a)) (returned error_invalid_block) (rw r.returns refl)
          (rw (unheld a r) refl)
  ]

  pub call-take :
      (out : Option ℕ)
      → CallRefines p.block_size p.block_count (take (some out)) s (call (take (some out)) (some p))
  call-take out = elim (ℕ_discrete p.free_count 0) [
    | yes e ↦ take_full out e
    | no ne ↦ take_top out (omega arith)
  ]
