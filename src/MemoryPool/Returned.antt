-- ===== src/MemoryPool/Returned.antt =====
-- Blocks given back to a pool of src/memoryPool.c, whatever the order: the pool up to the order of
-- its free stack.
use native.Mathlib.Nat.{mul-div_left}
use native.Mathlib.Decide.{dec_lt}
use mathlib.Core.Quot
use mathlib.Core.Quot.{Quot}
use ecu_platform.Base.{
  ℕ, suc, ◌+◌, ◌*◌, ◌<◌, ◌≡◌, refl, ◌∙◌, sym, ap, ap₂, arith, inl, inr, Option, some, List, [], ◌∷◌,
  length, get_or, get_or-set, ltb, ◌&&◌, ◌==◌, ◌||◌, Bool, false, if◌then◌else◌, Exec, done, ◌>>=◌,
}
use ecu_platform.MemoryPool.{MemoryPool, MemoryPoolStatus, release, block_free, block_allocated}
use ecu_platform.MemoryPool.Valid.{IsValid, count_free, count_free-lt, released}
use ecu_platform.MemoryPool.Occurs.{occurs, occurs-push}
use ecu_platform.MemoryPool.Steps.{block_at}
use ecu_platform.MemoryPool.Outcomes.{release_outcome}

-- Two pools that differ in the order of the blocks on their free stacks, and above them, at most.
pub record SameBlocks (p q : MemoryPool) : Type 0 where
  pub storage_eq : p.storage ≡ q.storage
  pub size_eq : p.block_size ≡ q.block_size
  pub count_eq : p.block_count ≡ q.block_count
  pub state_eq : p.state ≡ q.state
  pub free_eq : p.free_count ≡ q.free_count
  pub stack_eq : (b : ℕ) → occurs b p.free_stack p.free_count ≡ occurs b q.free_stack q.free_count
  pub initialized_eq : p.initialized ≡ q.initialized

abbrev pub View : Type 0
View = Quot SameBlocks

-- The addresses given back in order, refused ones among them or not.
pub release_all : List ℕ → Option MemoryPool → Exec (Option MemoryPool)
release_all [] p = done p
release_all (a ∷ addresses) p = release p (some a) >>= λ r. release_all addresses r.1

abbrev pub listed : ℕ → List ℕ → Bool
listed a [] = false
listed a (b ∷ bs) = (a == b) || listed a bs

-- How often the addresses bring block `b` back onto the free stack.
abbrev gain : MemoryPool → List ℕ → ℕ → ℕ
gain p addresses b =
    if ltb b p.block_count
      && (listed (block_at p b) addresses && (get_or p.state b 0 == block_allocated))
    then 1
    else 0

-- The pool q is p with the blocks of the addresses free.
record After (p : MemoryPool) (addresses : List ℕ) (q : MemoryPool) : Type 0 where
  valid : IsValid q
  same_storage : q.storage ≡ p.storage
  same_size : q.block_size ≡ p.block_size
  same_count : q.block_count ≡ p.block_count
  states :
      (j : ℕ)
      → j < p.block_count
      → get_or q.state j 0
        ≡ (if listed (block_at p j) addresses then block_free else get_or p.state j 0)
  stacked :
      (b : ℕ)
      → occurs b q.free_stack q.free_count ≡ gain p addresses b + occurs b p.free_stack p.free_count

block_at_inj : {p : MemoryPool} → IsValid p → (b c : ℕ) → block_at p b ≡ block_at p c → b ≡ c
block_at_inj {p} v b c q =
    ground (arith, v.size_pos, mul-div_left b {n = p.block_size}, mul-div_left c {n = p.block_size})

-- A block that was handed out leaves room on the stack.
room :
    {p : MemoryPool}
    → IsValid p
    → (b : ℕ) → b < p.block_count
    → get_or p.state b 0 ≡ block_allocated
    → p.free_count < length p.free_stack
room {p} v b h e = omega (
  arith,
  count_free-lt p.state b (omega (arith, v.state_length)) (ground arith),
  v.counted,
  v.state_length,
  v.stack_length,
)

record Step (p : MemoryPool) (a : ℕ) : Type 0 where
  pool : MemoryPool
  status : MemoryPoolStatus
  returns : release (some p) (some a) ≡ done (status, some pool)
  after : After p (a ∷ []) pool

step : {p : MemoryPool} → IsValid p → (a : ℕ) → Step p a
step {p} v a = elim (release_outcome v a) [
  | inl r ↦ record {
    pool = released p r.block;
    status = _;
    returns = r.returns;
    after = record {
      valid = r.valid;
      same_storage = refl;
      same_size = refl;
      same_count = refl;
      states = λ j h. ground (
        arith,
        r.address,
        block_at_inj v r.block j,
        get_or-set p.state r.block j block_free 0 (omega (arith, r.in_range, v.state_length)),
      );
      stacked = λ b.
          occurs-push b p.free_stack p.free_count r.block
            (room v r.block r.in_range r.was_allocated)
          ∙ ap (λ n. n + occurs b p.free_stack p.free_count)
              (ground (arith, r.address, r.in_range, r.was_allocated, block_at_inj v b r.block));
    };
  }
  | inr r ↦ record {
    pool = p;
    status = _;
    returns = r.returns;
    after = record {
      valid = v;
      same_storage = refl;
      same_size = refl;
      same_count = refl;
      states = λ j h. ground (arith, r.foreign j h, v.encoded j h);
      stacked = λ b. ground (arith, r.foreign b);
    };
  }
]

-- What the first address brings back, and what the others do.
gain-both :
    {p q : MemoryPool}
    → IsValid p
    → (a : ℕ) (addresses : List ℕ) (b : ℕ) → After p (a ∷ []) q
    → gain q addresses b + gain p (a ∷ []) b ≡ gain p (a ∷ addresses) b
gain-both {p} {q} v a addresses b x = elim (dec_lt b p.block_count) [
  | yes h ↦
      ground (arith, x.same_count, x.states b h, ap₂ (λ s n. s + b * n) x.same_storage x.same_size)
  | no h ↦ ground (arith, x.same_count)
]

record AllReturned (p : MemoryPool) (addresses : List ℕ) : Type 0 where
  pool : MemoryPool
  returns : release_all addresses (some p) ≡ done (some pool)
  after : After p addresses pool

all_returned : (addresses : List ℕ) (p : MemoryPool) → IsValid p → AllReturned p addresses
unfolding release_all
all_returned [] p v = record {
  pool = p;
  returns = refl;
  after = record {
    valid = v;
    same_storage = refl;
    same_size = refl;
    same_count = refl;
    states = λ j h. refl;
    stacked = λ b. ground arith;
  };
}
all_returned (a ∷ addresses) p v =
    let one = step v a in
    let rest = all_returned addresses one.pool one.after.valid in
    record {
      pool = rest.pool;
      returns = rw one.returns rest.returns;
      after = record {
        valid = rest.after.valid;
        same_storage = rest.after.same_storage ∙ one.after.same_storage;
        same_size = rest.after.same_size ∙ one.after.same_size;
        same_count = rest.after.same_count ∙ one.after.same_count;
        states = λ j h. ground (
          arith,
          one.after.states j h,
          rest.after.states j (omega (arith, one.after.same_count)),
          ap (λ x. x + j * one.pool.block_size) one.after.same_storage,
          ap (λ x. p.storage + j * x) one.after.same_size,
        );
        stacked = λ b.
            rest.after.stacked b
            ∙ omega (arith, one.after.stacked b, gain-both v a addresses b one.after);
      };
    }

-- Lists of one length are equal if their entries are.
list_ext :
    (xs ys : List ℕ)
    → length xs ≡ length ys
    → ((j : ℕ) → j < length xs → get_or xs j 0 ≡ get_or ys j 0)
    → xs ≡ ys
list_ext [] [] l h = refl
list_ext [] (y ∷ ys) l h = absurd (omega arith)
list_ext (x ∷ xs) [] l h = absurd (omega arith)
list_ext (x ∷ xs) (y ∷ ys) l h =
    ap₂ ◌∷◌ (h 0 (omega arith)) (list_ext xs ys (omega arith) (λ j k. h (suc j) (omega arith)))

-- Two lists of the same addresses.
abbrev pub SameAddresses : List ℕ → List ℕ → Type 0
SameAddresses xs ys = (a : ℕ) → listed a xs ≡ listed a ys

module _ {p : MemoryPool} (v : IsValid p) where
  same_states :
      (xs ys : List ℕ) (q r : MemoryPool)
      → SameAddresses xs ys
      → After p xs q
      → After p ys r
      → q.state ≡ r.state
  same_states xs ys q r same x y =
      list_ext q.state r.state
        (omega (arith, x.valid.state_length, y.valid.state_length, x.same_count, y.same_count))
        (λ j h.
          let k : j < p.block_count = omega (arith, x.valid.state_length, x.same_count) in
          ground (arith, x.states j k, y.states j k, same (block_at p j)))

  same_blocks :
      (xs ys : List ℕ) (q r : MemoryPool)
      → SameAddresses xs ys
      → After p xs q
      → After p ys r
      → SameBlocks q r
  same_blocks xs ys q r same x y =
      let e = same_states xs ys q r same x y in
      record {
        storage_eq = x.same_storage ∙ sym y.same_storage;
        size_eq = x.same_size ∙ sym y.same_size;
        count_eq = x.same_count ∙ sym y.same_count;
        state_eq = e;
        stack_eq = λ b.
            x.stacked b
            ∙ ap₂
                (λ l n.
                  (if ltb b p.block_count && (l && (get_or p.state b 0 == block_allocated))
                    then 1
                    else 0)
                  + n)
                (same (block_at p b)) refl
            ∙ sym (y.stacked b);
        free_eq = sym x.valid.counted ∙ ap count_free e ∙ y.valid.counted;
        initialized_eq = x.valid.is_initialized ∙ sym y.valid.is_initialized;
      }

  -- From a valid pool, two lists of the same addresses, in any order and with any repetitions,
  -- whether they are those of blocks or not, are released without an access out of bounds, both to
  -- valid pools. The two are equal in the quotient that forgets the order of the free stack: in
  -- it, pools are one if they agree in everything else and have every block equally often among
  -- the entries of their free stacks.
  pub release_all-View :
      (xs ys : List ℕ)
      → SameAddresses xs ys
      → (q r : MemoryPool) × (release_all xs (some p) ≡ done (some q))
        × (release_all ys (some p) ≡ done (some r))
        × IsValid q
        × IsValid r
        × (◌≡◌ {A = View} (Quot.mk q) (Quot.mk r))
  release_all-View xs ys same =
      let x = all_returned xs p v in
      let y = all_returned ys p v in
      (
        x.pool,
        y.pool,
        x.returns,
        y.returns,
        x.after.valid,
        y.after.valid,
        Quot.sound (same_blocks xs ys x.pool y.pool same x.after y.after),
      )
