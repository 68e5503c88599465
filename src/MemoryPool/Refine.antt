-- ===== src/MemoryPool/Refine.antt =====
-- The pools of src/memoryPool.c and the allocator, over sequences of calls.
use ecu_platform.Base.{
  ℕ, ◌+◌, ◌*◌, ◌^◌, ◌≤◌, ◌<◌, ◌≡◌, refl, sym, ap, ◌∙◌, arith, none, some, List, [], ◌∷◌, length,
  size_sub, false, done, ◌>>=◌,
}
use ecu_platform.MemoryPool.{
  MemoryPool, success, error_null_pointer, error_invalid_block, init, acquire, release,
  get_free_count, get_used_count, get_capacity, get_block_size, query,
}
use ecu_platform.MemoryPool.Start.{init_starts}
use ecu_platform.MemoryPool.Exclusive.{fresh-Owns}
use ecu_platform.MemoryPool.Allocator.{
  Op, take, give, free_count, used_count, capacity, block_size, handed, returned, counted, call,
  run, Allocator, allocator_run, addresses_below,
}
use ecu_platform.MemoryPool.FreeList.{addresses_in_order}
use ecu_platform.MemoryPool.Stands.{Stands, CallRefines, kept, length-free, call-take, call-give}

module _ {p : MemoryPool} {s : Allocator} (st : Stands p s) where
  call_here : (op : Op) → CallRefines p.block_size p.block_count op s (call op (some p))
  unfolding call acquire release get_free_count get_used_count get_capacity get_block_size query
  call_here (take none) = kept st (take none) (handed error_null_pointer none) refl refl
  call_here (take (some out)) = call-take st out
  call_here (give none) =
      kept st (give none) (returned error_invalid_block) (rw st.valid.is_initialized refl) refl
  call_here (give (some a)) = call-give st a
  call_here (free_count none) =
      kept st (free_count none) (counted (error_null_pointer, none)) refl refl
  call_here (free_count (some old)) =
      kept st (free_count (some old)) (counted (success, some p.free_count))
        (rw st.valid.is_initialized refl)
        (ap (λ n. (counted (success, some n), s)) (sym (length-free st)))
  call_here (used_count none) =
      kept st (used_count none) (counted (error_null_pointer, none)) refl refl
  call_here (used_count (some old)) =
      let used = size_sub p.block_count p.free_count in
      let e : used ≡ length s.live = omega (arith, st.owns.shares, st.valid.count_lt) in
      kept st (used_count (some old)) (counted (success, some used))
        (rw st.valid.is_initialized refl) (ap (λ n. (counted (success, some n), s)) e)
  call_here (capacity none) = kept st (capacity none) (counted (error_null_pointer, none)) refl refl
  call_here (capacity (some old)) =
      kept st (capacity (some old)) _ (rw st.valid.is_initialized refl) refl
  call_here (block_size none) =
      kept st (block_size none) (counted (error_null_pointer, none)) refl refl
  call_here (block_size (some old)) =
      kept st (block_size (some old)) _ (rw st.valid.is_initialized refl) refl

run_from :
    (ops : List Op) (size count : ℕ) (p : MemoryPool) (s : Allocator)
    → size ≡ p.block_size
    → count ≡ p.block_count
    → Stands p s
    → run ops (some p) ≡ done (allocator_run size count ops s)
unfolding run
run_from [] size count p s es ec st = refl
run_from (op ∷ ops) size count p s es ec st =
    let step : CallRefines size count op s (call op (some p)) = rw (es, ec) (call_here st op) in
    let ih =
      run_from ops size count step.pool step.next step.same_size step.same_count step.stands in
    rw (step.returns, ih) (ap (λ x. done (x.0 ∷ allocator_run size count ops x.1)) step.agrees)

-- From an init of a fresh pool with a positive block size and count, storage that ends below the
-- address limit and arrays of one entry per block, any sequence of acquire, release and query
-- calls, with NULL or any address for each pointer argument, runs without an access out of bounds
-- and answers as an allocator does that keeps the free addresses, at first those of all blocks, in
-- a list with the last one returned in front, and takes back exactly the addresses that it has
-- handed out and not got back.
pub init-run-allocator_run :
    (ops : List Op) (p : MemoryPool) (storage : ℕ) (state stack : List ℕ) (size count : ℕ)
    → p.initialized ≡ false
    → 1 ≤ size
    → 1 ≤ count
    → storage + size * count < 2 ^ 64
    → length state ≡ count
    → length stack ≡ count
    → (init (some p) (some storage) (some state) (some stack) size count >>= λ r. run ops r.1)
      ≡ done (
          allocator_run size count ops
            (record { free = addresses_below storage size count; live = [] }))
init-run-allocator_run ops p storage state stack size count fresh hs hc ha es ef =
    let s = init_starts p storage state stack size count fresh hs hc ha es ef in
    let start : Stands s.pool (record { free = addresses_below storage size count; live = [] }) =
      record {
        valid = s.valid;
        owns = fresh-Owns s.valid (s.all_free ∙ sym s.count_eq);
        lists =
            rw (s.storage_eq, s.size_eq, s.all_free)
              (sym (
                addresses_in_order storage size s.pool.free_stack count count (omega arith)
                  s.in_order));
      } in
    rw s.returns (run_from ops size count s.pool _ (sym s.size_eq) (sym s.count_eq) start)
