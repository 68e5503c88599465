-- ===== src/SwTimer/Reentry.antt =====
-- `softwareTimerTick` of src/swTimer.c with callbacks that change the timers.
use ecu_platform.Base.{
  ℕ, zero, suc, ◌+◌, ◌≤◌, ◌<◌, ◌≡◌, refl, Option, none, some, List, length, set, length-set, get_or,
  ◌==◌, Exec, done, arith, u8, Bool-cases, inl, inr, ◌∙◌,
}
use ecu_platform.SwTimer.{
  TimerHandle, TimerControlBlock, SoftwareTimerPool, SoftwareTimerStatus, success, blank,
  is_running,
}
use ecu_platform.SwTimer.Slots.{read_slot_done, write_slot_done}
use ecu_platform.SwTimer.Tick.{counted_down, expired, call_back, fire, tick_slot, tick_slots, tick}

module _ {ℓ} {W : Type ℓ}
    (invoke : ℕ → TimerHandle → Option ℕ → List TimerControlBlock × W → List TimerControlBlock × W)
    (keeps_storage : (c : ℕ) (h : TimerHandle) (x : Option ℕ) (world : List TimerControlBlock × W)
      → length (invoke c h x world).0 ≡ length world.0) where
  -- A run that has returned with storage of `n` slots.
  pub record Stays (n : ℕ) (run : Exec (List TimerControlBlock × W)) : Type ℓ where
    pub slots : List TimerControlBlock
    pub world : W
    pub returns : run ≡ done (slots, world)
    pub size : length slots ≡ n

  call_back-length :
      (c : Option ℕ) (h : TimerHandle) (x : Option ℕ) (world : List TimerControlBlock × W)
      → length (call_back invoke c h x world).0 ≡ length world.0
  unfolding call_back
  call_back-length none h x world = refl
  call_back-length (some c) h x world = keeps_storage c h x world

  fire-Stays :
      (i : ℕ) (s : TimerControlBlock) (slots : List TimerControlBlock) (w : W)
      → i < length slots
      → Stays (length slots) (fire invoke i s (slots, w))
  unfolding fire
  fire-Stays i s slots w h = elim (Bool-cases (s.remaining == 0)) [
    | inl z ↦
        let after =
          call_back invoke s.callback (record { index = u8 i; generation = s.generation }) s.context
            (set slots i (expired s), w) in
        record {
          slots = after.0;
          world = after.1;
          returns = ground (arith, write_slot_done slots i (expired s));
          size =
              call_back-length s.callback _ s.context (set slots i (expired s), w)
              ∙ length-set slots i (expired s);
        }
    | inr z ↦ record {
      slots = set slots i s;
      world = w;
      returns = ground (arith, write_slot_done slots i s);
      size = length-set slots i s;
    }
  ]

  tick_slot-Stays :
      (i : ℕ) (slots : List TimerControlBlock) (w : W)
      → i < length slots
      → Stays (length slots) (tick_slot invoke i (slots, w))
  unfolding tick_slot
  tick_slot-Stays i slots w h =
      let s = get_or slots i blank in
      elim (Bool-cases (is_running s.state)) [
        | inl r ↦
            let f = fire-Stays i (counted_down s) slots w h in
            record {
              slots = f.slots;
              world = f.world;
              returns = ground (arith, read_slot_done slots i, f.returns);
              size = f.size;
            }
        | inr r ↦ record {
          slots = slots;
          world = w;
          returns = ground (arith, read_slot_done slots i);
          size = refl;
        }
      ]

  tick_slots-Stays :
      (left i : ℕ) (slots : List TimerControlBlock) (w : W)
      → i + left ≤ length slots
      → Stays (length slots) (tick_slots invoke left i (slots, w))
  unfolding tick_slots
  tick_slots-Stays zero i slots w h = record {
    slots = slots;
    world = w;
    returns = refl;
    size = refl;
  }
  tick_slots-Stays (suc left) i slots w h =
      let t = tick_slot-Stays i slots w (omega arith) in
      let rest = tick_slots-Stays left (i + 1) t.slots t.world (omega (arith, t.size)) in
      record {
        slots = rest.slots;
        world = rest.world;
        returns = rw t.returns rest.returns;
        size = rest.size ∙ t.size;
      }

  -- A tick that has returned with success and storage of the same size.
  pub record Ticks (p : SoftwareTimerPool) (slots : List TimerControlBlock)
      (run : Exec (SoftwareTimerStatus × Option SoftwareTimerPool × W)) : Type ℓ where
    pub pool : SoftwareTimerPool
    pub store : List TimerControlBlock
    pub world : W
    pub returns : run ≡ done (success, some pool, world)
    pub storage_eq : pool.storage ≡ some store
    pub same_size : length store ≡ length slots
    pub same_capacity : pool.capacity ≡ p.capacity

  -- Whatever the callbacks do to the timers, if they keep the number of slots in memory, tick on a
  -- pool whose storage holds its capacity returns success without an access out of bounds, with
  -- storage of the same number of slots and the same capacity.
  pub tick-Ticks :
      {p : SoftwareTimerPool} {slots : List TimerControlBlock} (w : W)
      → p.storage ≡ some slots
      → p.capacity ≤ length slots
      → Ticks p slots (tick invoke (some p, w))
  unfolding tick
  tick-Ticks {p} {slots} w e h =
      let t = tick_slots-Stays p.capacity 0 slots w (omega arith) in
      record {
        pool = record p { storage = some t.slots };
        store = t.slots;
        world = t.world;
        returns = rw (e, t.returns) refl;
        storage_eq = refl;
        same_size = t.size;
        same_capacity = refl;
      }
