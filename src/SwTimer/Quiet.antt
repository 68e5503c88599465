-- ===== src/SwTimer/Quiet.antt =====
-- `softwareTimerTick` of src/swTimer.c with callbacks that leave the timers alone.
use ecu_platform.Base.{
  ℕ, zero, suc, ◌+◌, ◌≤◌, ◌<◌, ◌≡◌, refl, Option, none, some, List, length, set, length-set, get_or,
  get_or-set_self, get_or-set_ne, [], ◌∷◌, ◌==◌, if◌then◌else◌, Exec, done, arith, u8, Bool-cases,
  inl, inr, ◌∙◌, ap,
}
use native.Mathlib.Decide.{ℕ_discrete}
use ecu_platform.SwTimer.{
  TimerHandle, TimerControlBlock, SoftwareTimerPool, SoftwareTimerStatus, success, blank,
  is_running,
}
use ecu_platform.SwTimer.Slots.{IsValid, read_slot_done, write_slot_done}
use ecu_platform.SwTimer.Tick.{counted_down, expired, call_back, fire, tick_slot, tick_slots, tick}

-- What one tick makes of one slot.
abbrev pub ticked : TimerControlBlock → TimerControlBlock
ticked s =
    let c = counted_down s in
    if is_running s.state then (if c.remaining == 0 then expired c else c) else s

module _ {ℓ} {W : Type ℓ}
    (invoke : ℕ → TimerHandle → Option ℕ → List TimerControlBlock × W → List TimerControlBlock × W)
    (quiet : (c : ℕ) (h : TimerHandle) (x : Option ℕ) (world : List TimerControlBlock × W)
      → (invoke c h x world).0 ≡ world.0) where
  call_back-quiet :
      (c : Option ℕ) (h : TimerHandle) (x : Option ℕ) (world : List TimerControlBlock × W)
      → (call_back invoke c h x world).0 ≡ world.0
  unfolding call_back
  call_back-quiet none h x world = refl
  call_back-quiet (some c) h x world = quiet c h x world

  -- A run that has stepped the slots from `i` to `n` and no other.
  pub record Stepped (i n : ℕ) (slots : List TimerControlBlock)
      (run : Exec (List TimerControlBlock × W)) : Type ℓ where
    pub store : List TimerControlBlock
    pub world : W
    pub returns : run ≡ done (store, world)
    pub size : length store ≡ length slots
    pub inside : (j : ℕ) → i ≤ j → j < n → get_or store j blank ≡ ticked (get_or slots j blank)
    pub before : (j : ℕ) → j < i → get_or store j blank ≡ get_or slots j blank
    pub behind : (j : ℕ) → n ≤ j → get_or store j blank ≡ get_or slots j blank

  fire-set :
      (i : ℕ) (s : TimerControlBlock) (slots : List TimerControlBlock) (w : W)
      → i < length slots
      → (w' : W) × (fire invoke i s (slots, w)
          ≡ done (set slots i (if s.remaining == 0 then expired s else s), w'))
  unfolding fire
  fire-set i s slots w h = elim (Bool-cases (s.remaining == 0)) [
    | inl z ↦
        let handle : TimerHandle = record { index = u8 i; generation = s.generation } in
        (
          (call_back invoke s.callback handle s.context (set slots i (expired s), w)).1,
          ground (
            arith,
            write_slot_done slots i (expired s),
            call_back-quiet s.callback handle s.context (set slots i (expired s), w),
          ),
        )
    | inr z ↦ (w, ground (arith, write_slot_done slots i s))
  ]

  -- The slot `i` replaced by its step.
  stepped_at :
      (i : ℕ) (slots : List TimerControlBlock) (w : W)
      → i < length slots
      → (w' : W) × (tick_slot invoke i (slots, w)
          ≡ done (set slots i (ticked (get_or slots i blank)), w'))
  unfolding tick_slot
  stepped_at i slots w h =
      let s = get_or slots i blank in
      elim (Bool-cases (is_running s.state)) [
        | inl r ↦
            let f = fire-set i (counted_down s) slots w h in
            (f.0, ground (arith, read_slot_done slots i, f.1))
        | inr r ↦ (w, ground (arith, read_slot_done slots i, set-same slots i))
      ]
    where
      set-same : (xs : List TimerControlBlock) (k : ℕ) → set xs k (get_or xs k blank) ≡ xs
      set-same [] k = refl
      set-same (x ∷ xs) zero = refl
      set-same (x ∷ xs) (suc k) = ap (◌∷◌ x) (set-same xs k)

  tick_slots-Stepped :
      (left i n : ℕ) (slots : List TimerControlBlock) (w : W)
      → i + left ≡ n
      → n ≤ length slots
      → Stepped i n slots (tick_slots invoke left i (slots, w))
  unfolding tick_slots
  tick_slots-Stepped zero i n slots w e h = record {
    store = slots;
    world = w;
    returns = refl;
    size = refl;
    inside = λ j a b. absurd (omega arith);
    before = λ j a. refl;
    behind = λ j a. refl;
  }
  tick_slots-Stepped (suc left) i n slots w e h =
      let s = ticked (get_or slots i blank) in
      let one = stepped_at i slots w (omega arith) in
      let rest =
        tick_slots-Stepped left (i + 1) n (set slots i s) one.0 (omega arith)
          (omega (arith, length-set slots i s)) in
      record {
        store = rest.store;
        world = rest.world;
        returns = rw one.1 rest.returns;
        size = rest.size ∙ length-set slots i s;
        inside = λ j a b. elim (ℕ_discrete i j) [
          | yes q ↦
              rest.before j (omega arith) ∙ rw (← q) (get_or-set_self slots i s blank (omega arith))
          | no ne ↦ rest.inside j (omega arith) b ∙ ap ticked (get_or-set_ne slots i j s blank ne)
        ];
        before = λ j a.
            rest.before j (omega arith)
            ∙ get_or-set_ne slots i j s blank (λ q. absurd (omega arith));
        behind =
            λ j a. rest.behind j a ∙ get_or-set_ne slots i j s blank (λ q. absurd (omega arith));
      }

  -- One tick on a pool: each of its slots has stepped.
  pub record Advances (p : SoftwareTimerPool) (slots : List TimerControlBlock)
      (run : Exec (SoftwareTimerStatus × Option SoftwareTimerPool × W)) : Type ℓ where
    pub pool : SoftwareTimerPool
    pub store : List TimerControlBlock
    pub world : W
    pub returns : run ≡ done (success, some pool, world)
    pub valid : IsValid pool store
    pub same_capacity : pool.capacity ≡ p.capacity
    pub steps : (j : ℕ) → j < p.capacity → get_or store j blank ≡ ticked (get_or slots j blank)
    pub behind : (j : ℕ) → p.capacity ≤ j → get_or store j blank ≡ get_or slots j blank

  ticked-generation : (s : TimerControlBlock) → (ticked s).generation ≡ s.generation
  ticked-generation s = ground arith

  -- With callbacks that leave the timers alone, tick on a valid pool succeeds and leaves a valid
  -- pool in which every slot within the capacity has made one step of the countdown, and the
  -- memory behind them is as it was.
  pub tick-Advances :
      {p : SoftwareTimerPool} {slots : List TimerControlBlock} (w : W)
      → IsValid p slots
      → Advances p slots (tick invoke (some p, w))
  unfolding tick
  tick-Advances {p} {slots} w v =
      let t = tick_slots-Stepped p.capacity 0 p.capacity slots w (omega arith) v.room in
      record {
        pool = record p { storage = some t.store };
        store = t.store;
        world = t.world;
        returns = rw (v.storage_eq, t.returns) refl;
        valid = record {
          storage_eq = refl;
          room = omega (arith, v.room, t.size);
          generations = λ j h. omega (
            arith,
            v.generations j h,
            ap (λ s. s.generation) (t.inside j (omega arith) h),
            ticked-generation (get_or slots j blank),
          );
        };
        same_capacity = refl;
        steps = λ j h. t.inside j (omega arith) h;
        behind = t.behind;
      }
