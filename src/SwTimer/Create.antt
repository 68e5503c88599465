-- ===== src/SwTimer/Create.antt =====
-- `softwareTimerCreate` of src/swTimer.c: the scan for a slot, and the whole call.
use mathlib.Core.Path.{subst}
use native.Mathlib.Nat.{mod-eq_of_lt}
use native.Mathlib.Decide.{dec_lt, ℕ_discrete}
use ecu_platform.Base.{
  ℕ, zero, suc, ◌+◌, ◌^◌, ◌≤◌, ◌<◌, ◌≡◌, ◌⊎◌, inl, inr, refl, Option, some, List, length, get_or,
  set, get_or-set_self, get_or-set_ne, true, false, Exec, done, arith, u8, ◌∙◌, ap, sym, Bool-cases,
}
use ecu_platform.SwTimer.{
  TimerHandle, TimerControlBlock, SoftwareTimerPool, SoftwareTimerStatus, SoftwareTimerMode,
  one_shot, periodic, success, error_pool_full, stopped, is_unused, blank, created, create_from,
  create_valid, create_checked, create,
}
use ecu_platform.SwTimer.Slots.{IsValid, read_slot_done, write_slot_done}
use ecu_platform.SwTimer.Handles.{with_slot}
use ecu_platform.SwTimer.Laws.{Leaves, leaves}

module _ (mode : SoftwareTimerMode) (callback : ℕ) (context : Option ℕ) where
  -- The scan over the slots from `i` to `n` has stopped at the first unused one.
  pub record Found (i n : ℕ) (slots : List TimerControlBlock)
      (run : Exec (SoftwareTimerStatus × List TimerControlBlock × TimerHandle)) : Type 0 where
    pub index : ℕ
    pub from : i ≤ index
    pub below : index < n
    pub free : is_unused (get_or slots index blank).state ≡ true
    pub passed : (j : ℕ) → i ≤ j → j < index → is_unused (get_or slots j blank).state ≡ false
    pub returns :
        run
        ≡ done (
          success,
          set slots index (created mode callback context (get_or slots index blank)),
          record { index = u8 index; generation = (get_or slots index blank).generation },
        )

  pub record Nothing (i n : ℕ) (slots : List TimerControlBlock) (old : TimerHandle)
      (run : Exec (SoftwareTimerStatus × List TimerControlBlock × TimerHandle)) : Type 0 where
    pub all_used : (j : ℕ) → i ≤ j → j < n → is_unused (get_or slots j blank).state ≡ false
    pub returns : run ≡ done (error_pool_full, slots, old)

  pub scan :
      (left i n : ℕ) (slots : List TimerControlBlock) (old : TimerHandle)
      → i + left ≡ n
      → n ≤ length slots
      → Found i n slots (create_from mode callback context left i slots old)
        ⊎ Nothing i n slots old (create_from mode callback context left i slots old)
  unfolding create_from
  scan zero i n slots old e h =
      inr (record { all_used = λ j a b. absurd (omega arith); returns = refl })
  scan (suc left) i n slots old e h = elim (Bool-cases (is_unused (get_or slots i blank).state)) [
    | inl free ↦ inl (record {
      index = i;
      from = omega arith;
      below = omega arith;
      free = free;
      passed = λ j a b. absurd (omega arith);
      returns = ground (
        arith,
        read_slot_done slots i,
        write_slot_done slots i (created mode callback context (get_or slots i blank)),
      );
    })
    | inr used ↦ elim (scan left (i + 1) n slots old (omega arith) h) [
      | inl f ↦ inl (record {
        index = f.index;
        from = omega (arith, f.from);
        below = f.below;
        free = f.free;
        passed = λ j a b. elim (dec_lt i j) [
          | yes p ↦ f.passed j (omega arith) b
          | no p ↦ ap (λ k. is_unused (get_or slots k blank).state) (same j a p) ∙ used
        ];
        returns = skip used ∙ f.returns;
      })
      | inr g ↦ inr (record {
        all_used = λ j a b. elim (dec_lt i j) [
          | yes p ↦ g.all_used j (omega arith) b
          | no p ↦ ap (λ k. is_unused (get_or slots k blank).state) (same j a p) ∙ used
        ];
        returns = skip used ∙ g.returns;
      })
    ]
  ]
    where
      same : (j : ℕ) → i ≤ j → ¬ (i < j) → j ≡ i
      same j a b = omega arith

      skip :
          is_unused (get_or slots i blank).state ≡ false
          → create_from mode callback context (suc left) i slots old
            ≡ create_from mode callback context left (i + 1) slots old
      skip used = ground (arith, read_slot_done slots i)

-- The modes that `create` does not refuse.
abbrev pub Allowed : SoftwareTimerMode → Type 0
Allowed mode = (mode ≡ one_shot) ⊎ (mode ≡ periodic)

-- `create` has taken the first unused slot; its handle names the new timer, which is stopped with
-- no ticks, and the other slots are seen as before.
pub record Created (p : SoftwareTimerPool) (slots : List TimerControlBlock)
    (run : Exec (SoftwareTimerStatus × Option SoftwareTimerPool × Option TimerHandle))
    : Type 0 where
  pub handle : TimerHandle
  pub stored : Exec (SoftwareTimerStatus × Option SoftwareTimerPool)
  pub leaves : Leaves p handle stopped 0 stored
  pub in_range : handle.index < p.capacity
  pub was_unused : is_unused (get_or slots handle.index blank).state ≡ true
  pub first : (j : ℕ) → j < handle.index → is_unused (get_or slots j blank).state ≡ false
  pub returns : run ≡ done (success, some leaves.pool, some handle)
  pub generations :
      (j : ℕ) → (get_or leaves.slots j blank).generation ≡ (get_or slots j blank).generation

-- `create` has found every slot in use.
pub record Occupied (p : SoftwareTimerPool) (slots : List TimerControlBlock) (old : TimerHandle)
    (run : Exec (SoftwareTimerStatus × Option SoftwareTimerPool × Option TimerHandle))
    : Type 0 where
  pub all_used : (j : ℕ) → j < p.capacity → is_unused (get_or slots j blank).state ≡ false
  pub returns : run ≡ done (error_pool_full, some p, some old)

module _ {p : SoftwareTimerPool} {slots : List TimerControlBlock} (v : IsValid p slots)
    (small : p.capacity ≤ 2 ^ 8) (mode : SoftwareTimerMode) (callback : ℕ) (context : Option ℕ)
    (old : TimerHandle) where
  -- What the scan of a mode that `create` allows comes to.
  abbrev scanned : Exec (SoftwareTimerStatus × List TimerControlBlock × TimerHandle)
  scanned = create_from mode callback context p.capacity 0 slots old

  abbrev pub Outcome :
      Exec (SoftwareTimerStatus × Option SoftwareTimerPool × Option TimerHandle) → Type 0
  Outcome run = Created p slots run ⊎ Occupied p slots old run

  from_Found :
      Found mode callback context 0 p.capacity slots scanned
      → Created p slots (create_valid p slots mode callback context old)
  unfolding create_valid
  from_Found f =
      let s = created mode callback context (get_or slots f.index blank) in
      let handle : TimerHandle = record {
        index = f.index;
        generation = (get_or slots f.index blank).generation;
      } in
      record {
        handle = handle;
        stored = done (success, some (with_slot p slots f.index s));
        leaves =
            leaves v {handle = handle} s f.below refl refl (v.generations f.index f.below) refl;
        in_range = f.below;
        was_unused = f.free;
        first = λ j h. f.passed j (omega arith) h;
        returns = ground (arith, f.returns, f.below, mod-eq_of_lt {n = f.index} {m = 2 ^ 8});
        generations = λ j. ground (
          arith,
          ℕ_discrete f.index j,
          f.below,
          v.room,
          get_or-set_self slots f.index s blank,
          get_or-set_ne slots f.index j s blank,
        );
      }

  from_Nothing :
      Nothing mode callback context 0 p.capacity slots old scanned
      → Occupied p slots old (create_valid p slots mode callback context old)
  unfolding create_valid
  from_Nothing g = record {
    all_used = λ j h. g.all_used j (omega arith) h;
    returns = ground (arith, g.returns, v.storage_eq);
  }

  create_valid-Outcome : Outcome (create_valid p slots mode callback context old)
  create_valid-Outcome =
      elim (scan mode callback context p.capacity 0 p.capacity slots old (omega arith) v.room) [
        | inl f ↦ inl (from_Found f)
        | inr g ↦ inr (from_Nothing g)
      ]

  -- On a valid pool of at most 256 slots and with a mode that is one-shot or periodic, create
  -- either takes the first unused slot and stores a handle that names the new timer, seen to be
  -- stopped with no ticks, the pool being valid, the generations as before and the other slots
  -- seen as before; or every slot is in use, the status says that the pool is full, and neither
  -- the pool nor the handle changes.
  pub create-Outcome :
      Allowed mode → Outcome (create (some p) mode (some callback) context (some old))
  unfolding create create_checked
  create-Outcome h = subst Outcome (sym entered) create_valid-Outcome
    where
      entered :
          create (some p) mode (some callback) context (some old)
          ≡ create_valid p slots mode callback context old
      entered = ground (arith, v.storage_eq)
