-- ===== src/SwTimer/Order.antt =====
-- The order in which `softwareTimerTick` of src/swTimer.c calls the callbacks.
use mathlib.Core.Path.{subst}
use native.Mathlib.Nat.{mod-eq_of_lt}
use ecu_platform.Base.{
  ℕ, zero, suc, ◌+◌, ◌^◌, ◌≤◌, ◌<◌, ◌≡◌, refl, Option, none, some, List, [], ◌∷◌, ◌++◌, length, set,
  length-set, get_or, get_or-set_ne, ltb, leb, ◌==◌, ◌&&◌, if◌then◌else◌, true, Exec, done, arith,
  u8, Bool-cases, inl, inr, ◌∙◌, ap, ap₂,
}
use ecu_platform.SwTimer.{
  TimerHandle, TimerControlBlock, SoftwareTimerPool, SoftwareTimerStatus, success, blank,
  is_running,
}
use ecu_platform.SwTimer.Slots.{IsValid, read_slot_done, write_slot_done}
use ecu_platform.SwTimer.Tick.{counted_down, expired, call_back, fire, tick_slot, tick_slots, tick}

-- The call of a callback.
pub record Firing : Type 0 where
  pub callback : ℕ
  pub handle : TimerHandle
  pub context : Option ℕ

abbrev call_of : TimerHandle → Option ℕ → Option ℕ → List Firing
call_of handle context none = []
call_of handle context (some c) = record { callback = c; handle = handle; context = context } ∷ []

abbrev handle_at : ℕ → TimerControlBlock → TimerHandle
handle_at i s = record { index = i; generation = s.generation }

-- The call that slot `i` is due for: that of a timer that runs and has one tick to go.
abbrev pub due_at : ℕ → TimerControlBlock → List Firing
due_at i s =
    if is_running s.state && leb s.remaining 1
    then call_of (handle_at i s) s.context s.callback
    else []

-- The calls of a tick on the slots from `i` on, `left` of them, in their order.
abbrev pub due : ℕ → ℕ → List TimerControlBlock → List Firing
due zero i slots = []
due (suc left) i slots = due_at i (get_or slots i blank) ++ due left (i + 1) slots

due-same :
    (left i : ℕ) (a b : List TimerControlBlock)
    → ((j : ℕ) → i ≤ j → get_or a j blank ≡ get_or b j blank)
    → due left i a ≡ due left i b
due-same zero i a b h = refl
due-same (suc left) i a b h =
    ap₂ ◌++◌ (ap (due_at i) (h i (omega arith)))
      (due-same left (i + 1) a b (λ j k. h j (omega arith)))

-- `effect` says what a callback that leaves the timers alone does to the application's world.
module _ {ℓ} {W : Type ℓ} (effect : ℕ → TimerHandle → Option ℕ → W → W) where
  abbrev pub leaving :
      ℕ → TimerHandle → Option ℕ → List TimerControlBlock × W → List TimerControlBlock × W
  leaving c h x world = (world.0, effect c h x world.1)

  -- The calls one after the other.
  abbrev pub play : List Firing → W → W
  play [] w = w
  play (f ∷ fs) w = play fs (effect f.callback f.handle f.context w)

  play-append : (fs gs : List Firing) (w : W) → play (fs ++ gs) w ≡ play gs (play fs w)
  play-append [] gs w = refl
  play-append (f ∷ fs) gs w = play-append fs gs (effect f.callback f.handle f.context w)

  -- A run that has left the slots behind `i` alone and played `calls`.
  record Plays (i : ℕ) (slots : List TimerControlBlock) (w : W) (calls : List Firing)
      (run : Exec (List TimerControlBlock × W)) : Type ℓ where
    after : List TimerControlBlock
    size : length after ≡ length slots
    behind : (j : ℕ) → i < j → get_or after j blank ≡ get_or slots j blank
    returns : run ≡ done (after, play calls w)

  call_back-play :
      (i : ℕ) (s : TimerControlBlock) (c : Option ℕ) (slots : List TimerControlBlock) (w : W)
      → i < 2 ^ 8
      → call_back leaving c
          (record { index = u8 i; generation = s.generation })
          s.context
          (slots, w)
        ≡ (slots, play (call_of (handle_at i s) s.context c) w)
  unfolding call_back
  call_back-play i s none slots w h = refl
  call_back-play i s (some c) slots w h = rw (mod-eq_of_lt {n = i} {m = 2 ^ 8} h) refl

  fire-Plays :
      (i : ℕ) (s : TimerControlBlock) (slots : List TimerControlBlock) (w : W)
      → i < length slots
      → i < 2 ^ 8
      → Plays i slots w
          (if s.remaining == 0 then call_of (handle_at i s) s.context s.callback else [])
          (fire leaving i s (slots, w))
  unfolding fire
  fire-Plays i s slots w h b = elim (Bool-cases (s.remaining == 0)) [
    | inl z ↦ record {
      after = set slots i (expired s);
      size = length-set slots i (expired s);
      behind = λ j k. get_or-set_ne slots i j (expired s) blank (λ q. absurd (omega arith));
      returns =
          rw
            (
              z,
              write_slot_done slots i (expired s) h,
              call_back-play i s s.callback (set slots i (expired s)) w b,
            )
            refl;
    }
    | inr z ↦ record {
      after = set slots i s;
      size = length-set slots i s;
      behind = λ j k. get_or-set_ne slots i j s blank (λ q. absurd (omega arith));
      returns = rw (z, write_slot_done slots i s h) refl;
    }
  ]

  -- Counting down first makes no difference to the call.
  due_counted :
      (i : ℕ) (s : TimerControlBlock)
      → is_running s.state ≡ true
      → (let c = counted_down s in
          if c.remaining == 0 then call_of (handle_at i c) c.context c.callback else [])
        ≡ due_at i s
  due_counted i s r = elim (Bool-cases (ltb 0 s.remaining)) [
    | inl e ↦ rw (e, r) (ground arith)
    | inr e ↦ rw (e, r) (ground arith)
  ]

  tick_slot-Plays :
      (i : ℕ) (slots : List TimerControlBlock) (w : W)
      → i < length slots
      → i < 2 ^ 8
      → Plays i slots w (due_at i (get_or slots i blank)) (tick_slot leaving i (slots, w))
  unfolding tick_slot
  tick_slot-Plays i slots w h b =
      let s = get_or slots i blank in
      elim (Bool-cases (is_running s.state)) [
        | inl r ↦
            let f = fire-Plays i (counted_down s) slots w h b in
            record {
              after = f.after;
              size = f.size;
              behind = f.behind;
              returns =
                  subst (λ calls. tick_slot leaving i (slots, w) ≡ done (f.after, play calls w))
                    (due_counted i s r) (rw (read_slot_done slots i h, r) f.returns);
            }
        | inr r ↦ record {
          after = slots;
          size = refl;
          behind = λ j k. refl;
          returns = rw (read_slot_done slots i h, r) refl;
        }
      ]

  -- A loop that has played `calls`.
  record Played (w : W) (calls : List Firing) (run : Exec (List TimerControlBlock × W))
      : Type ℓ where
    after : List TimerControlBlock
    returns : run ≡ done (after, play calls w)

  tick_slots-Played :
      (left i : ℕ) (slots : List TimerControlBlock) (w : W)
      → i + left ≤ length slots
      → i + left ≤ 2 ^ 8
      → Played w (due left i slots) (tick_slots leaving left i (slots, w))
  unfolding tick_slots
  tick_slots-Played zero i slots w h b = record { after = slots; returns = refl }
  tick_slots-Played (suc left) i slots w h b =
      let s = get_or slots i blank in
      let one = tick_slot-Plays i slots w (omega arith) (omega arith) in
      let then_on = play (due_at i s) w in
      let rest =
        tick_slots-Played left (i + 1) one.after then_on (omega (arith, one.size)) (omega arith) in
      let same = due-same left (i + 1) one.after slots (λ j k. one.behind j (omega arith)) in
      record {
        after = rest.after;
        returns =
            rw (one.returns, play-append (due_at i s) (due left (i + 1) slots) w)
              (rest.returns ∙ ap (λ fs. done (rest.after, play fs then_on)) same);
      }

  -- A tick that has succeeded and played `calls`.
  pub record Fires (p : SoftwareTimerPool) (w : W) (calls : List Firing)
      (run : Exec (SoftwareTimerStatus × Option SoftwareTimerPool × W)) : Type ℓ where
    pub after : List TimerControlBlock
    pub returns : run ≡ done (success, some (record p { storage = some after }), play calls w)

  -- On a valid pool of at most 256 slots and with callbacks that leave the timers alone, what tick
  -- does to the world of the application is to make, in ascending order of the slots, one call for
  -- every running timer with at most one tick to go that has a callback, each with the handle and
  -- the context of its timer.
  pub tick-Fires :
      {p : SoftwareTimerPool} {slots : List TimerControlBlock} (w : W)
      → IsValid p slots
      → p.capacity ≤ 2 ^ 8
      → Fires p w (due p.capacity 0 slots) (tick leaving (some p, w))
  unfolding tick
  tick-Fires {p} {slots} w v small =
      finish (tick_slots-Played p.capacity 0 slots w (omega (arith, v.room)) (omega arith))
    where
      finish :
          Played w (due p.capacity 0 slots) (tick_slots leaving p.capacity 0 (slots, w))
          → Fires p w (due p.capacity 0 slots) (tick leaving (some p, w))
      finish t = record { after = t.after; returns = ground (arith, v.storage_eq, t.returns) }
