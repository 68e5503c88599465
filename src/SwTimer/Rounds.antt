-- ===== src/SwTimer/Rounds.antt =====
-- `softwareTimerTick` of src/swTimer.c with callbacks that call the timers' functions.
use ecu_platform.Base.{
  ℕ, zero, suc, ◌+◌, ◌≤◌, ◌<◌, ◌≡◌, refl, ◌∙◌, Option, none, some, List, length, set, get_or, ◌==◌,
  Bool, true, Exec, done, arith, u8, Bool-cases, inl, inr,
}
use ecu_platform.SwTimer.{
  TimerHandle, TimerControlBlock, SoftwareTimerPool, SoftwareTimerStatus, success, blank,
  is_running,
}
use ecu_platform.SwTimer.Slots.{IsValid, read_slot_done, write_slot_done}
use ecu_platform.SwTimer.Tick.{counted_down, expired, call_back, fire, tick_slot, tick_slots, tick}
use ecu_platform.SwTimer.Countdown.{
  not_running, expired-Expires, counted_down-callback, counted-Visit,
}
use ecu_platform.SwTimer.Sweep.{
  Expires-Move, Visit, passes, fires, Sweep, swept, visits, Visit-Lives,
}
use ecu_platform.SwTimer.Lives.{Lives, Lives-refl, Lives-set, nowhere, Lives-IsValid, over}

-- On a valid pool of that capacity, a callback does to the slots only what calls of the timers' functions do; unless
-- `free`, calls that delete nothing.
abbrev pub IsClient {ℓ} :
    {W : Type ℓ}
    → Bool
    → (ℕ → TimerHandle → Option ℕ → List TimerControlBlock × W → List TimerControlBlock × W)
    → ℕ
    → Type ℓ
IsClient {W = W} free invoke capacity =
    (c : ℕ) (h : TimerHandle) (x : Option ℕ) (slots : List TimerControlBlock) (w : W)
    → IsValid (record { storage = some slots; capacity = capacity }) slots
    → Lives free nowhere slots (invoke c h x (slots, w)).0

module _ {ℓ} {W : Type ℓ} where
  -- A run at slot `i` that has returned, and what the scan did there.
  record Round (free : Bool) (i : ℕ) (slots : List TimerControlBlock)
      (run : Exec (List TimerControlBlock × W)) : Type ℓ where
    after : List TimerControlBlock
    world : W
    returns : run ≡ done (after, world)
    visit : Visit free i slots after

  -- A run over the slots from `i` on, `left` of them.
  record Rounds (free : Bool) (i left : ℕ) (slots : List TimerControlBlock)
      (run : Exec (List TimerControlBlock × W)) : Type ℓ where
    after : List TimerControlBlock
    world : W
    returns : run ≡ done (after, world)
    sweep : Sweep free i left slots after

  -- A tick that has returned with success, and has scanned all slots of the pool.
  pub record Ticked (free : Bool) (p : SoftwareTimerPool) (slots : List TimerControlBlock)
      (run : Exec (SoftwareTimerStatus × Option SoftwareTimerPool × W)) : Type ℓ where
    pub after : List TimerControlBlock
    pub world : W
    pub returns : run ≡ done (success, some (over p after), world)
    pub sweep : Sweep free 0 p.capacity slots after

module _ {ℓ} {W : Type ℓ}
    (invoke : ℕ → TimerHandle → Option ℕ → List TimerControlBlock × W → List TimerControlBlock × W)
    (p : SoftwareTimerPool) (free : Bool) (client : IsClient free invoke p.capacity) where
  call_back-Lives :
      (c : Option ℕ) (h : TimerHandle) (x : Option ℕ) (slots : List TimerControlBlock) (w : W)
      → IsValid (over p slots) slots
      → Lives free nowhere slots (call_back invoke c h x (slots, w)).0
  unfolding call_back
  call_back-Lives none h x slots w v = Lives-refl free slots
  call_back-Lives (some c) h x slots w v = client c h x slots w v

  call_back-none :
      (c : Option ℕ) (h : TimerHandle) (x : Option ℕ) (world : List TimerControlBlock × W)
      → c ≡ none
      → (call_back invoke c h x world).0 ≡ world.0
  unfolding call_back
  call_back-none none h x world e = refl
  call_back-none (some c) h x world e = absurd cc

  fire-Round :
      (i : ℕ) (slots : List TimerControlBlock) (w : W)
      → IsValid (over p slots) slots
      → i < p.capacity
      → is_running (get_or slots i blank).state ≡ true
      → Round free i slots (fire invoke i (counted_down (get_or slots i blank)) (slots, w))
  unfolding fire
  fire-Round i slots w v h r =
      let old = get_or slots i blank in
      let s = counted_down old in
      let room : i < length slots = omega (arith, v.room) in
      elim (Bool-cases (s.remaining == 0)) [
        | inl z ↦
            let e = expired-Expires old r (ground arith) in
            let moved =
              Lives-set free nowhere slots i (expired s) room (omega arith) (Expires-Move e) in
            let handle : TimerHandle = record { index = u8 i; generation = s.generation } in
            let world : List TimerControlBlock × W = (set slots i (expired s), w) in
            record {
              after = (call_back invoke s.callback handle s.context world).0;
              world = (call_back invoke s.callback handle s.context world).1;
              returns = ground (arith, write_slot_done slots i (expired s));
              visit =
                  fires e
                    (λ c.
                      call_back-none s.callback handle s.context world
                        (counted_down-callback old r ∙ c))
                    (call_back-Lives s.callback handle s.context (set slots i (expired s)) w
                      (Lives-IsValid v moved));
            }
        | inr z ↦ record {
          after = set slots i s;
          world = w;
          returns = ground (arith, write_slot_done slots i s);
          visit = counted-Visit free i slots r (λ e. ground arith);
        }
      ]

  tick_slot-Round :
      (i : ℕ) (slots : List TimerControlBlock) (w : W)
      → IsValid (over p slots) slots
      → i < p.capacity
      → Round free i slots (tick_slot invoke i (slots, w))
  unfolding tick_slot
  tick_slot-Round i slots w v h =
      let s = get_or slots i blank in
      let found = read_slot_done slots i (omega (arith, v.room)) in
      elim (Bool-cases (is_running s.state)) [
        | inl r ↦
            let f = fire-Round i slots w v h r in
            record {
              after = f.after;
              world = f.world;
              returns = ground (arith, found, f.returns);
              visit = f.visit;
            }
        | inr r ↦ record {
          after = slots;
          world = w;
          returns = ground (arith, found);
          visit = passes (λ e. absurd (not_running s.state r e));
        }
      ]

  tick_slots-Rounds :
      (left i : ℕ) (slots : List TimerControlBlock) (w : W)
      → IsValid (over p slots) slots
      → i + left ≤ p.capacity
      → Rounds free i left slots (tick_slots invoke left i (slots, w))
  unfolding tick_slots
  tick_slots-Rounds zero i slots w v h = record {
    after = slots;
    world = w;
    returns = refl;
    sweep = swept;
  }
  tick_slots-Rounds (suc left) i slots w v h =
      let one = tick_slot-Round i slots w v (omega arith) in
      let lived = Visit-Lives (omega (arith, v.room)) one.visit in
      let rest =
        tick_slots-Rounds left (i + 1) one.after one.world (Lives-IsValid v lived) (omega arith) in
      record {
        after = rest.after;
        world = rest.world;
        returns = rw one.returns rest.returns;
        sweep = visits one.visit rest.sweep;
      }

  pub tick-Ticked :
      {slots : List TimerControlBlock} (w : W)
      → IsValid p slots
      → Ticked free p slots (tick invoke (some p, w))
  unfolding tick
  tick-Ticked {slots} w v = finish (
      tick_slots-Rounds p.capacity 0 slots w (Lives-IsValid v (Lives-refl free slots))
        (omega arith))
    where
      finish :
          Rounds free 0 p.capacity slots (tick_slots invoke p.capacity 0 (slots, w))
          → Ticked free p slots (tick invoke (some p, w))
      finish t = record {
        after = t.after;
        world = t.world;
        returns = ground (arith, v.storage_eq, t.returns);
        sweep = t.sweep;
      }
