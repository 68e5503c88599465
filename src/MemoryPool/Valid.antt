-- ===== src/MemoryPool/Valid.antt =====
-- The well-formedness of a memory pool: the free stack lists free blocks, each once, and as many as
-- the state array marks free.
use ecu_platform.Base.{
  ℕ, zero, suc, ◌+◌, ◌-◌, ◌*◌, ◌^◌, ◌≤◌, ◌<◌, ◌≡◌, ◌≢◌, arith, List, [], ◌∷◌, true, length, get_or,
  set, ◌==◌, if◌then◌else◌, get_or-set, length-set, ◌∙◌,
}
use ecu_platform.MemoryPool.{MemoryPool, block_free, block_allocated}

abbrev pub count_free : List ℕ → ℕ
count_free [] = 0
count_free (s ∷ ss) = (if s == block_free then 1 else 0) + count_free ss

pub count_free-le : (ss : List ℕ) → count_free ss ≤ length ss
count_free-le [] = omega arith
count_free-le (s ∷ ss) = ground (arith, count_free-le ss)

-- A block that is not free leaves room on the stack.
pub count_free-lt :
    (ss : List ℕ) (i : ℕ) → i < length ss → get_or ss i 0 ≢ block_free → count_free ss < length ss
count_free-lt [] i h ne = absurd (omega arith)
count_free-lt (s ∷ ss) zero h ne = ground (arith, count_free-le ss)
count_free-lt (s ∷ ss) (suc i) h ne = ground (arith, count_free-lt ss i)

pub count_free-allocate :
    (ss : List ℕ) (i : ℕ)
    → i < length ss
    → get_or ss i 0 ≡ block_free
    → count_free (set ss i block_allocated) + 1 ≡ count_free ss
count_free-allocate [] i h e = absurd (omega arith)
count_free-allocate (s ∷ ss) zero h e = ground arith
count_free-allocate (s ∷ ss) (suc i) h e =
    let ih = count_free-allocate ss i (omega arith) e in omega arith

pub count_free-release :
    (ss : List ℕ) (i : ℕ)
    → i < length ss
    → get_or ss i 0 ≡ block_allocated
    → count_free (set ss i block_free) ≡ count_free ss + 1
count_free-release [] i h e = absurd (omega arith)
count_free-release (s ∷ ss) zero h e = ground arith
count_free-release (s ∷ ss) (suc i) h e =
    let ih = count_free-release ss i (omega arith) e in omega arith

pub record IsValid (p : MemoryPool) : Type 0 where
  pub is_initialized : p.initialized ≡ true
  pub size_pos : 1 ≤ p.block_size
  pub addressable : p.storage + p.block_size * p.block_count < 2 ^ 64
  pub state_length : length p.state ≡ p.block_count
  pub stack_length : length p.free_stack ≡ p.block_count
  pub count_lt : p.block_count < 2 ^ 64
  pub counted : count_free p.state ≡ p.free_count
  pub encoded : (i : ℕ) → i < p.block_count → get_or p.state i 0 ≤ block_allocated
  pub listed_in : (i : ℕ) → i < p.free_count → get_or p.free_stack i 0 < p.block_count
  pub listed_free :
      (i : ℕ) → i < p.free_count → get_or p.state (get_or p.free_stack i 0) 0 ≡ block_free
  pub distinct :
      (i j : ℕ)
      → i < p.free_count
      → j < p.free_count
      → get_or p.free_stack i 0 ≡ get_or p.free_stack j 0
      → i ≡ j

-- The pool after block `b`, from the top of the stack, was handed out.
abbrev pub allocated : MemoryPool → ℕ → MemoryPool
allocated p b = record p { state = set p.state b block_allocated; free_count = p.free_count - 1 }

-- The pool after block `b` came back.
abbrev pub released : MemoryPool → ℕ → MemoryPool
released p b = record p {
  state = set p.state b block_free;
  free_stack = set p.free_stack p.free_count b;
  free_count = p.free_count + 1;
}

abbrev pub top : MemoryPool → ℕ
top p = get_or p.free_stack (p.free_count - 1) 0

pub free_count-le : {p : MemoryPool} → IsValid p → p.free_count ≤ p.block_count
free_count-le {p} v = omega (arith, v.counted, v.state_length, count_free-le p.state)

pub top-lt : {p : MemoryPool} → IsValid p → 1 ≤ p.free_count → top p < length p.state
top-lt {p} v h = omega (arith, v.listed_in (p.free_count - 1) (omega arith), v.state_length)

-- Block `b` marked `s`, and the state of block `i` afterwards.
marked :
    {p : MemoryPool}
    → IsValid p
    → (b i s : ℕ) → b < p.block_count
    → get_or (set p.state b s) i 0 ≡ (if b == i then s else get_or p.state i 0)
marked {p} v b i s h = get_or-set p.state b i s 0 (omega (arith, v.state_length))

pub allocated-IsValid :
    {p : MemoryPool} → IsValid p → 1 ≤ p.free_count → IsValid (allocated p (top p))
allocated-IsValid {p} v h =
    let last = p.free_count - 1 in
    let in_range : last < p.free_count = omega arith in
    record {
      is_initialized = v.is_initialized;
      size_pos = v.size_pos;
      addressable = v.addressable;
      state_length = length-set p.state (top p) block_allocated ∙ v.state_length;
      stack_length = v.stack_length;
      count_lt = v.count_lt;
      counted = omega (
        arith,
        count_free-allocate p.state (top p) (top-lt v h) (v.listed_free last in_range),
        v.counted,
      );
      encoded = λ i hi.
          ground
            (arith, marked v (top p) i block_allocated (v.listed_in last in_range), v.encoded i hi);
      listed_in = λ i hi. v.listed_in i (omega arith);
      listed_free = λ i hi. ground (
        arith,
        marked v (top p) (get_or p.free_stack i 0) block_allocated (v.listed_in last in_range),
        v.listed_free i,
        v.distinct last i in_range,
      );
      distinct = λ i j hi hj e. v.distinct i j (omega arith) (omega arith) e;
    }

pub released-IsValid :
    {p : MemoryPool} (b : ℕ)
    → IsValid p
    → b < p.block_count
    → get_or p.state b 0 ≡ block_allocated
    → IsValid (released p b)
released-IsValid {p} b v hb e = record {
  is_initialized = v.is_initialized;
  size_pos = v.size_pos;
  addressable = v.addressable;
  state_length = length-set p.state b block_free ∙ v.state_length;
  stack_length = length-set p.free_stack p.free_count b ∙ v.stack_length;
  count_lt = v.count_lt;
  counted =
      omega (arith, count_free-release p.state b (omega (arith, v.state_length)) e, v.counted);
  encoded = λ i hi. ground (arith, marked v b i block_free hb, v.encoded i hi);
  listed_in = λ i hi. ground (arith, pushed i, v.listed_in i);
  listed_free = λ i hi. ground (
    arith,
    pushed i,
    marked v b (get_or (set p.free_stack p.free_count b) i 0) block_free hb,
    v.listed_free i,
  );
  distinct = λ i j hi hj q.
      ground (arith, pushed i, pushed j, v.distinct i j, v.listed_free i, v.listed_free j);
}
  where
    room : p.free_count < length p.free_stack
    room = omega (
      arith,
      count_free-lt p.state b (omega (arith, v.state_length)) (ground arith),
      v.counted,
      v.state_length,
      v.stack_length,
    )

    pushed :
        (i : ℕ)
        → get_or (set p.free_stack p.free_count b) i 0
          ≡ (if p.free_count == i then b else get_or p.free_stack i 0)
    pushed i = get_or-set p.free_stack p.free_count i b 0 room
