-- ===== src/SwTimer/Fresh.antt =====
-- `softwareTimerInit` of src/swTimer.c, its loop included.
use native.Mathlib.Decide.{ℕ_discrete}
use ecu_platform.Base.{
  ℕ, zero, suc, ◌+◌, ◌≤◌, ◌<◌, ◌≡◌, refl, Option, some, List, length, set, length-set, get_or,
  get_or-set_self, get_or-set_ne, Exec, done, arith, ◌∙◌, ap,
}
use ecu_platform.SwTimer.{
  TimerControlBlock, SoftwareTimerPool, SoftwareTimerStatus, success, blank, init_slots, init,
}
use ecu_platform.SwTimer.Slots.{IsValid, write_slot_done}

record Cleared (i n : ℕ) (slots : List TimerControlBlock) (run : Exec (List TimerControlBlock))
    : Type 0 where
  store : List TimerControlBlock
  returns : run ≡ done store
  size : length store ≡ length slots
  inside : (j : ℕ) → i ≤ j → j < n → get_or store j blank ≡ blank
  before : (j : ℕ) → j < i → get_or store j blank ≡ get_or slots j blank

init_slots-Cleared :
    (left i n : ℕ) (slots : List TimerControlBlock)
    → i + left ≡ n
    → n ≤ length slots
    → Cleared i n slots (init_slots left i slots)
unfolding init_slots
init_slots-Cleared zero i n slots e h = record {
  store = slots;
  returns = refl;
  size = refl;
  inside = λ j a b. absurd (omega arith);
  before = λ j a. refl;
}
init_slots-Cleared (suc left) i n slots e h =
    let rest =
      init_slots-Cleared left (i + 1) n (set slots i blank) (omega arith)
        (omega (arith, length-set slots i blank)) in
    record {
      store = rest.store;
      returns = rw (write_slot_done slots i blank (omega arith)) rest.returns;
      size = rest.size ∙ length-set slots i blank;
      inside = λ j a b. elim (ℕ_discrete i j) [
        | yes q ↦
            rest.before j (omega arith)
            ∙ rw (← q) (get_or-set_self slots i blank blank (omega arith))
        | no ne ↦ rest.inside j (omega arith) b
      ];
      before = λ j a.
          rest.before j (omega arith)
          ∙ get_or-set_ne slots i j blank blank (λ q. absurd (omega arith));
    }

-- A run of `init` that leaves a valid pool of blank slots.
pub record Fresh (capacity : ℕ) (run : Exec (SoftwareTimerStatus × Option SoftwareTimerPool))
    : Type 0 where
  pub pool : SoftwareTimerPool
  pub slots : List TimerControlBlock
  pub returns : run ≡ done (success, some pool)
  pub valid : IsValid pool slots
  pub capacity_eq : pool.capacity ≡ capacity
  pub all_blank : (j : ℕ) → j < capacity → get_or slots j blank ≡ blank

-- With a positive capacity and storage of at least that many slots, init succeeds without an
-- access out of bounds and leaves a valid pool of that capacity whose slots are all unused with
-- generation 0.
pub init-Fresh :
    (p : SoftwareTimerPool) (slots : List TimerControlBlock) (capacity : ℕ)
    → 1 ≤ capacity
    → capacity ≤ length slots
    → Fresh capacity (init (some p) (some slots) capacity)
unfolding init
init-Fresh p slots capacity h room =
    let c = init_slots-Cleared capacity 0 capacity slots (omega arith) room in
    record {
      pool = record { storage = some c.store; capacity = capacity };
      slots = c.store;
      returns = ground (arith, c.returns);
      valid = record {
        storage_eq = refl;
        room = omega (arith, c.size);
        generations = λ j k. omega (arith, ap (λ s. s.generation) (c.inside j (omega arith) k));
      };
      capacity_eq = refl;
      all_blank = λ j k. c.inside j (omega arith) k;
    }
