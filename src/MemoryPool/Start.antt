-- ===== src/MemoryPool/Start.antt =====
-- `memoryPoolInit` of src/memoryPool.c, its loop included.
use native.Mathlib.Nat.{div-add-mod, mod-lt}
use ecu_platform.Base.{
  ℕ, zero, suc, ◌+◌, ◌*◌, ◌/◌, ◌%◌, ◌^◌, ◌≤◌, ◌<◌, ◌≡◌, ◌∙◌, refl, sym, arith, some, List, [], ◌∷◌,
  true, false, Option, length, get_or, set, length-set, get_or-set, write_at_done, Exec, done,
  size_max, ltb,
}
use ecu_platform.MemoryPool.{MemoryPool, MemoryPoolStatus, success, fill, init, init_at, block_free}
use ecu_platform.MemoryPool.Valid.{IsValid, count_free}

-- What the loop of `init` has done once it has been through the blocks from `i` to `n`.
pub record Filled (i n : ℕ) (state stack : List ℕ) (result : Exec (List ℕ × List ℕ)) : Type 0 where
  pub marks : List ℕ
  pub indices : List ℕ
  pub returns : result ≡ done (marks, indices)
  pub marks_length : length marks ≡ length state
  pub indices_length : length indices ≡ length stack
  pub marked : (j : ℕ) → i ≤ j → j < n → get_or marks j 0 ≡ block_free
  pub listed : (j : ℕ) → i ≤ j → j < n → get_or indices j 0 ≡ j
  pub kept :
      (j : ℕ)
      → j < i
      → (get_or marks j 0 ≡ get_or state j 0) × (get_or indices j 0 ≡ get_or stack j 0)

fill-Filled :
    (left i n : ℕ) (state stack : List ℕ)
    → i + left ≡ n
    → n ≤ length state
    → n ≤ length stack
    → Filled i n state stack (fill left i state stack)
unfolding fill
fill-Filled zero i n state stack e hs hf = record {
  marks = state;
  indices = stack;
  returns = refl;
  marks_length = refl;
  indices_length = refl;
  marked = λ j h k. absurd (omega arith);
  listed = λ j h k. absurd (omega arith);
  kept = λ j h. (refl, refl);
}
fill-Filled (suc left) i n state stack e hs hf =
    let state' = set state i block_free in
    let stack' = set stack i i in
    let rest =
      fill-Filled left (i + 1) n state' stack' (omega arith)
        (omega (arith, length-set state i block_free)) (omega (arith, length-set stack i i)) in
    record {
      marks = rest.marks;
      indices = rest.indices;
      returns =
          ground (arith, write_at_done state i block_free, write_at_done stack i i, rest.returns);
      marks_length = rest.marks_length ∙ length-set state i block_free;
      indices_length = rest.indices_length ∙ length-set stack i i;
      marked =
          λ j h k. ground (arith, rest.marked j, rest.kept j, get_or-set state i j block_free 0);
      listed = λ j h k. ground (arith, rest.listed j, rest.kept j, get_or-set stack i j i 0);
      kept = λ j h. (
        ground (arith, rest.kept j, get_or-set state i j block_free 0),
        ground (arith, rest.kept j, get_or-set stack i j i 0),
      );
    }

all_free :
    (ss : List ℕ)
    → ((j : ℕ) → j < length ss → get_or ss j 0 ≡ block_free)
    → count_free ss ≡ length ss
all_free [] h = refl
all_free (s ∷ ss) h =
    ground (arith, h 0 (omega arith), all_free ss (λ j k. h (suc j) (omega arith)))

-- The pool that `init` leaves.
pub record Started (storage size count : ℕ) (result : Exec (MemoryPoolStatus × Option MemoryPool))
    : Type 0 where
  pub pool : MemoryPool
  pub returns : result ≡ done (success, some pool)
  pub valid : IsValid pool
  pub storage_eq : pool.storage ≡ storage
  pub size_eq : pool.block_size ≡ size
  pub count_eq : pool.block_count ≡ count
  pub all_free : pool.free_count ≡ count
  pub in_order : (j : ℕ) → j < count → get_or pool.free_stack j 0 ≡ j

quotient-le : (e n m q r : ℕ) → m ≡ n * q + r → r < n → e * n ≤ m → e ≤ q
quotient-le e n m q r h k l = grind arith

size_fits : (e n : ℕ) → 1 ≤ n → e * n < 2 ^ 64 → ltb (size_max / n) e ≡ false
size_fits e n h k = ground (
  arith,
  quotient-le e n size_max (size_max / n) (size_max % n) (sym (div-add-mod size_max n))
      (mod-lt size_max h) (omega arith),
)

-- On a pool not initialized, with a positive block size and count, storage that ends below the
-- address limit and arrays of one entry per block, init succeeds without an access out of bounds
-- and leaves a valid pool of the given storage and dimensions with every block free.
pub init_starts :
    (p : MemoryPool) (storage : ℕ) (state stack : List ℕ) (size count : ℕ)
    → p.initialized ≡ false
    → 1 ≤ size
    → 1 ≤ count
    → storage + size * count < 2 ^ 64
    → length state ≡ count
    → length stack ≡ count
    → Started storage size count (init (some p) (some storage) (some state) (some stack) size count)
unfolding init init_at
init_starts p storage state stack size count fresh hs hc ha es ef =
    let f = fill-Filled count 0 count state stack (omega arith) (omega arith) (omega arith) in
    record {
      pool = record {
        storage = storage;
        state = f.marks;
        free_stack = f.indices;
        block_size = size;
        block_count = count;
        free_count = count;
        initialized = true;
      };
      returns = ground (arith, size_fits size count hc (omega arith), f.returns);
      valid = record {
        is_initialized = refl;
        size_pos = hs;
        addressable = ha;
        state_length = f.marks_length ∙ es;
        stack_length = f.indices_length ∙ ef;
        count_lt = below size count hs (omega arith);
        counted =
            all_free f.marks (λ j h. f.marked j (omega arith) (omega (arith, f.marks_length)))
            ∙ f.marks_length
            ∙ es;
        encoded = λ i h. ground (arith, f.marked i);
        listed_in = λ i h. ground (arith, f.listed i);
        listed_free = λ i h. ground (arith, f.listed i, f.marked i);
        distinct = λ i j h k e. ground (arith, f.listed i, f.listed j);
      };
      storage_eq = refl;
      size_eq = refl;
      count_eq = refl;
      all_free = refl;
      in_order = λ j h. f.listed j (omega arith) h;
    }
  where
    below : (e n : ℕ) → 1 ≤ e → e * n < 2 ^ 64 → n < 2 ^ 64
    below e n h k = grind arith
