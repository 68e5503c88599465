-- ===== src/SwTimer/Lifetime.antt =====
-- A started timer over any number of ticks, with callbacks that leave the timers alone.
use native.Mathlib.Nat.{suc-mod, mod-lt, mod-eq_of_lt, mod_self}
use native.Mathlib.Decide.{dec_lt}
use ecu_platform.Base.{
  ℕ, zero, suc, ◌+◌, ◌-◌, ◌%◌, ◌≤◌, ◌<◌, ◌≡◌, refl, false, Option, some, List, get_or,
  get_or-set_self, ltb, ◌==◌, if◌then◌else◌, Exec, done, ◌>>=◌, arith, ◌∙◌, ap,
}
use ecu_platform.SwTimer.{
  TimerHandle, TimerControlBlock, SoftwareTimerPool, SoftwareTimerState, one_shot, periodic,
  running, stopped, success, blank, is_unused, started, start, get_state, get_remaining_ticks,
}
use ecu_platform.SwTimer.Slots.{IsValid, Names}
use ecu_platform.SwTimer.Handles.{
  start-eq, with_slot-IsValid, get_state-Names, get_remaining_ticks-Names,
}
use ecu_platform.SwTimer.Tick.{tick}
use ecu_platform.SwTimer.Quiet.{ticked, tick-Advances}

abbrev pub ticked_times : ℕ → TimerControlBlock → TimerControlBlock
ticked_times zero s = s
ticked_times (suc n) s = ticked (ticked_times n s)

-- A one-shot timer of `t` ticks after `n` of them.
abbrev one_shot_life : ℕ → TimerControlBlock → ℕ → TimerControlBlock
one_shot_life t s n = record (started t s) {
  state = if ltb n t then running else stopped;
  remaining = t - n;
}

abbrev periodic_life : ℕ → TimerControlBlock → ℕ → TimerControlBlock
periodic_life t s n = record (started t s) { remaining = t - n % t }

one_shot_step :
    (t n : ℕ) (s : TimerControlBlock)
    → s.mode ≡ one_shot
    → ticked (one_shot_life t s n) ≡ one_shot_life t s (suc n)
one_shot_step t n s m = ground arith

mod-suc : (n t : ℕ) → 1 ≤ t → suc n % t ≡ (if n % t + 1 == t then 0 else n % t + 1)
mod-suc n t h = elim (dec_lt (suc (n % t)) t) [
  | yes p ↦ suc-mod n t ∙ ground (arith, mod-eq_of_lt {n = suc (n % t)} {m = t} p)
  | no p ↦ suc-mod n t ∙ ground (arith, mod-lt n {m = t}, mod_self t)
]

periodic_step :
    (t n : ℕ) (s : TimerControlBlock)
    → 1 ≤ t
    → s.mode ≡ periodic
    → ticked (periodic_life t s n) ≡ periodic_life t s (suc n)
periodic_step t n s h m = ground (arith, mod-suc n t h, mod-lt n {m = t})

one_shot_times :
    (t n : ℕ) (s : TimerControlBlock)
    → 1 ≤ t
    → s.mode ≡ one_shot
    → ticked_times n (started t s) ≡ one_shot_life t s n
one_shot_times t zero s h m = ground arith
one_shot_times t (suc n) s h m = ap ticked (one_shot_times t n s h m) ∙ one_shot_step t n s m

periodic_times :
    (t n : ℕ) (s : TimerControlBlock)
    → 1 ≤ t
    → s.mode ≡ periodic
    → ticked_times n (started t s) ≡ periodic_life t s n
periodic_times t zero s h m = ground (arith, mod-eq_of_lt {n = 0} {m = t})
periodic_times t (suc n) s h m = ap ticked (periodic_times t n s h m) ∙ periodic_step t n s h m

module _ {ℓ} {W : Type ℓ}
    (invoke : ℕ
      → TimerHandle
      → Option ℕ
      → List TimerControlBlock × W
      → List TimerControlBlock × W) where
  -- The application's periodic call of the tick, `n` times.
  unfoldable pub run_ticks : ℕ → Option SoftwareTimerPool × W → Exec (Option SoftwareTimerPool × W)
  run_ticks zero world = done world
  run_ticks (suc n) world = run_ticks n world >>= λ r. tick invoke r >>= λ t. done (t.1, t.2)

module _ {ℓ} {W : Type ℓ}
    (invoke : ℕ → TimerHandle → Option ℕ → List TimerControlBlock × W → List TimerControlBlock × W)
    (quiet : (c : ℕ) (h : TimerHandle) (x : Option ℕ) (world : List TimerControlBlock × W)
      → (invoke c h x world).0 ≡ world.0) where
  record Ran (n : ℕ) (p : SoftwareTimerPool) (slots : List TimerControlBlock)
      (run : Exec (Option SoftwareTimerPool × W)) : Type ℓ where
    pool : SoftwareTimerPool
    store : List TimerControlBlock
    world : W
    returns : run ≡ done (some pool, world)
    valid : IsValid pool store
    same_capacity : pool.capacity ≡ p.capacity
    steps : (j : ℕ) → j < p.capacity → get_or store j blank ≡ ticked_times n (get_or slots j blank)

  run_ticks-Ran :
      (n : ℕ) {p : SoftwareTimerPool} {slots : List TimerControlBlock} (w : W)
      → IsValid p slots
      → Ran n p slots (run_ticks invoke n (some p, w))
  unfolding run_ticks
  run_ticks-Ran zero {p} {slots} w v = record {
    pool = p;
    store = slots;
    world = w;
    returns = refl;
    valid = v;
    same_capacity = refl;
    steps = λ j h. refl;
  }
  run_ticks-Ran (suc n) {p} {slots} w v =
      let r = run_ticks-Ran n w v in
      let t = tick-Advances invoke quiet r.world r.valid in
      record {
        pool = t.pool;
        store = t.store;
        world = t.world;
        returns = rw (r.returns, t.returns) refl;
        valid = t.valid;
        same_capacity = t.same_capacity ∙ r.same_capacity;
        steps = λ j h. t.steps j (omega (arith, r.same_capacity)) ∙ ap ticked (r.steps j h);
      }

  -- A run after which the queries through `handle` answer `state` and `remaining`.
  pub record Shows (handle : TimerHandle) (state : SoftwareTimerState) (remaining : ℕ)
      (run : Exec (Option SoftwareTimerPool × W)) : Type ℓ where
    pub pool : SoftwareTimerPool
    pub world : W
    pub returns : run ≡ done (some pool, world)
    pub sees_state :
        (old : SoftwareTimerState)
        → get_state (some pool) handle (some old) ≡ done (success, some state)
    pub sees_remaining :
        (old : ℕ)
        → get_remaining_ticks (some pool) handle (some old) ≡ done (success, some remaining)

  module _ {p : SoftwareTimerPool} {slots : List TimerControlBlock} (v : IsValid p slots)
      {handle : TimerHandle} (n : Names p slots handle) (ticks count : ℕ) (h : 1 ≤ ticks)
      (w : W) where
    abbrev timer : TimerControlBlock
    timer = get_or slots handle.index blank

    -- The run of `count` ticks after the start, when the slot has come to `s` by then.
    shows :
        (s : TimerControlBlock)
        → ticked_times count (started ticks timer) ≡ s
        → is_unused s.state ≡ false
        → s.generation ≡ timer.generation
        → Shows handle s.state s.remaining
            (start (some p) handle ticks >>= λ r. run_ticks invoke count (r.1, w))
    shows s e used g =
        let begun = started ticks timer in
        let valid =
          with_slot-IsValid v handle.index begun n.in_range
            (v.generations handle.index n.in_range) in
        let r = run_ticks-Ran count w valid in
        let at : get_or r.store handle.index blank ≡ s =
          r.steps handle.index n.in_range
          ∙ ap (ticked_times count)
              (get_or-set_self slots handle.index begun blank (omega (arith, v.room, n.in_range)))
          ∙ e in
        let names : Names r.pool r.store handle = record {
          in_range = omega (arith, r.same_capacity, n.in_range);
          in_use = ap (λ t. is_unused t.state) at ∙ used;
          current = ap (λ t. t.generation) at ∙ g ∙ n.current;
        } in
        record {
          pool = r.pool;
          world = r.world;
          returns = rw (start-eq v ticks n h, r.returns) refl;
          sees_state =
              λ old. get_state-Names r.valid old names ∙ ap (λ t. done (success, some t.state)) at;
          sees_remaining = λ old.
              get_remaining_ticks-Names r.valid old names
              ∙ ap (λ t. done (success, some t.remaining)) at;
        }

    -- With callbacks that leave the timers alone: from a valid pool, a one-shot timer that its
    -- handle names, started with a positive number of ticks, is seen after any number of calls of
    -- tick to run with the ticks that are left as long as there are any, and after that to be
    -- stopped with none left.
    pub one_shot-Shows :
        timer.mode ≡ one_shot
        → Shows handle
            (if ltb count ticks then running else stopped)
            (ticks - count)
            (start (some p) handle ticks >>= λ r. run_ticks invoke count (r.1, w))
    one_shot-Shows m =
        shows (one_shot_life ticks timer count) (one_shot_times ticks count timer h m)
          (ground arith) refl

    -- With callbacks that leave the timers alone: from a valid pool, a periodic timer that its
    -- handle names, started with a positive number of ticks, is seen after any number of calls of
    -- tick to run, with the started number less the calls since the last reload as its remaining
    -- ticks.
    pub periodic-Shows :
        timer.mode ≡ periodic
        → Shows handle running
            (ticks - count % ticks)
            (start (some p) handle ticks >>= λ r. run_ticks invoke count (r.1, w))
    periodic-Shows m =
        shows (periodic_life ticks timer count) (periodic_times ticks count timer h m) refl refl
