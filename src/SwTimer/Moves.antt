-- ===== src/SwTimer/Moves.antt =====
-- The life of one slot of src/swTimer.c, as the state machine of `SoftwareTimerState_t`.
use ecu_platform.Base.{
  ℕ, ◌+◌, ◌-◌, ◌%◌, ◌^◌, ◌≤◌, ◌<◌, ◌≡◌, ◌≢◌, refl, ap, Option, none, some, true, false, arith,
}
use ecu_platform.SwTimer.{
  TimerControlBlock, SoftwareTimerState, SoftwareTimerMode, periodic, is_unused, is_running, unused,
  stopped, running, blank,
}
use ecu_platform.SwTimer.Create.{Allowed}

-- A slot behind each transition, field by field.
module _ (s : TimerControlBlock) where
  abbrev pub taken_slot : SoftwareTimerMode → ℕ → Option ℕ → TimerControlBlock
  taken_slot mode callback context = record {
    state = stopped;
    mode = mode;
    timeout = 0;
    remaining = 0;
    callback = some callback;
    context = context;
    generation = s.generation;
  }

  abbrev pub begun_slot : ℕ → TimerControlBlock
  begun_slot ticks = record {
    state = running;
    mode = s.mode;
    timeout = ticks;
    remaining = ticks;
    callback = s.callback;
    context = s.context;
    generation = s.generation;
  }

  abbrev pub removed_slot : TimerControlBlock
  removed_slot = record {
    state = unused;
    mode = s.mode;
    timeout = 0;
    remaining = 0;
    callback = none;
    context = none;
    generation = (s.generation + 1) % 2 ^ 8;
  }

  -- With so many ticks to go, in that state; nothing else changes.
  abbrev pub with_ticks : SoftwareTimerState → ℕ → TimerControlBlock
  with_ticks state remaining = record {
    state = state;
    mode = s.mode;
    timeout = s.timeout;
    remaining = remaining;
    callback = s.callback;
    context = s.context;
    generation = s.generation;
  }

-- One transition, with the number of deletes that it is.
pub data Move : TimerControlBlock → ℕ → TimerControlBlock → Type 0 where
  taken :
      {s : TimerControlBlock} (mode : SoftwareTimerMode) (callback : ℕ) (context : Option ℕ)
      → Allowed mode
      → s.state ≡ unused
      → Move s 0 (taken_slot s mode callback context)
  begun :
      {s : TimerControlBlock} (ticks : ℕ)
      → 1 ≤ ticks
      → s.state ≢ unused
      → Move s 0 (begun_slot s ticks)
  ended : {s : TimerControlBlock} → s.state ≢ unused → Move s 0 (with_ticks s stopped 0)
  removed : {s : TimerControlBlock} → s.state ≢ unused → Move s 1 (removed_slot s)
  counted :
      {s : TimerControlBlock}
      → s.state ≡ running
      → 2 ≤ s.remaining
      → Move s 0 (with_ticks s running (s.remaining - 1))
  reloaded :
      {s : TimerControlBlock}
      → s.state ≡ running
      → s.remaining ≤ 1
      → s.mode ≡ periodic
      → Move s 0 (with_ticks s running s.timeout)
  lapsed :
      {s : TimerControlBlock}
      → s.state ≡ running
      → s.remaining ≤ 1
      → s.mode ≢ periodic
      → Move s 0 (with_ticks s stopped 0)

-- Transitions in a row, with the number of deletes among them.
pub data Moves (s : TimerControlBlock) : ℕ → TimerControlBlock → Type 0 where
  still : Moves s 0 s
  next : {k n : ℕ} {t u : TimerControlBlock} → Moves s k t → Move t n u → Moves s (k + n) u

pub Moves-append :
    {s t u : TimerControlBlock} {k n : ℕ}
    → Moves s k t
    → Moves t n u
    → (m : ℕ) × (m ≡ k + n) × Moves s m u
Moves-append {k = k} a still = (k, omega arith, a)
Moves-append {k = k} a (next {k = n} {n = l} b m) =
    let rest = Moves-append a b in (rest.0 + l, omega (arith, rest.1), next rest.2 m)

Move-generation :
    {s t : TimerControlBlock} {n : ℕ}
    → Move s n t
    → s.generation < 2 ^ 8
    → t.generation ≡ (s.generation + n) % 2 ^ 8
Move-generation (taken mode callback context a h) g = omega arith
Move-generation (begun ticks h u) g = omega arith
Move-generation (ended u) g = omega arith
Move-generation (removed u) g = omega arith
Move-generation (counted r h) g = omega arith
Move-generation (reloaded r h m) g = omega arith
Move-generation (lapsed r h m) g = omega arith

-- A generation counts the deletes of its slot modulo 256.
pub Moves-generation :
    {s t : TimerControlBlock} {k : ℕ}
    → Moves s k t
    → s.generation < 2 ^ 8
    → t.generation ≡ (s.generation + k) % 2 ^ 8
Moves-generation still g = omega arith
Moves-generation (next {k = k} {n = n} a m) g =
    let before = Moves-generation a g in
    omega (arith, before, Move-generation m (omega (arith, before)))

-- What a slot never loses: a timer has a callback, one that runs has ticks to go, at most as many
-- as it was started with, and one that does not run has none.
pub record IsSound (s : TimerControlBlock) : Type 0 where
  pub has_callback : is_unused s.state ≡ false → s.callback ≢ none
  pub has_mode : is_unused s.state ≡ false → Allowed s.mode
  pub to_go : is_running s.state ≡ true → 1 ≤ s.remaining
  pub within : is_running s.state ≡ true → s.remaining ≤ s.timeout
  pub at_rest : is_running s.state ≡ false → s.remaining ≡ 0

pub blank-IsSound : IsSound blank
blank-IsSound = record {
  has_callback = λ e. absurd cc;
  has_mode = λ e. absurd cc;
  to_go = λ e. absurd cc;
  within = λ e. absurd cc;
  at_rest = λ e. refl;
}

-- The tests of the state, as equations.
pub unused_eq : (x : SoftwareTimerState) → is_unused x ≡ true → x ≡ unused
unused_eq unused e = refl
unused_eq stopped e = absurd cc
unused_eq running e = absurd cc

pub used_ne : (x : SoftwareTimerState) → is_unused x ≡ false → x ≢ unused
used_ne x e q = absurd cc

is_used : (x : SoftwareTimerState) → x ≢ unused → is_unused x ≡ false
is_used unused n = absurd (n refl)
is_used stopped n = refl
is_used running n = refl

pub running_eq : (x : SoftwareTimerState) → is_running x ≡ true → x ≡ running
running_eq unused e = absurd cc
running_eq stopped e = absurd cc
running_eq running e = refl

Move-IsSound : {s t : TimerControlBlock} {n : ℕ} → Move s n t → IsSound s → IsSound t
Move-IsSound (taken mode callback context a h) v = record {
  has_callback = λ e q. cc;
  has_mode = λ e. a;
  to_go = λ e. absurd cc;
  within = λ e. absurd cc;
  at_rest = λ e. refl;
}
Move-IsSound (begun {s = s} ticks h u) v = record {
  has_callback = λ e. v.has_callback (is_used s.state u);
  has_mode = λ e. v.has_mode (is_used s.state u);
  to_go = λ e. h;
  within = λ e. omega arith;
  at_rest = λ e. absurd cc;
}
Move-IsSound (ended {s = s} u) v = record {
  has_callback = λ e. v.has_callback (is_used s.state u);
  has_mode = λ e. v.has_mode (is_used s.state u);
  to_go = λ e. absurd cc;
  within = λ e. absurd cc;
  at_rest = λ e. refl;
}
Move-IsSound (removed u) v = record {
  has_callback = λ e. absurd cc;
  has_mode = λ e. absurd cc;
  to_go = λ e. absurd cc;
  within = λ e. absurd cc;
  at_rest = λ e. refl;
}
Move-IsSound (counted {s = s} r h) v = record {
  has_callback = λ e. v.has_callback (ap is_unused r);
  has_mode = λ e. v.has_mode (ap is_unused r);
  to_go = λ e. omega arith;
  within = λ e. omega (arith, v.within (ap is_running r));
  at_rest = λ e. absurd cc;
}
Move-IsSound (reloaded {s = s} r h m) v = record {
  has_callback = λ e. v.has_callback (ap is_unused r);
  has_mode = λ e. v.has_mode (ap is_unused r);
  to_go = λ e. omega (arith, v.to_go (ap is_running r), v.within (ap is_running r));
  within = λ e. omega arith;
  at_rest = λ e. absurd cc;
}
Move-IsSound (lapsed {s = s} r h m) v = record {
  has_callback = λ e. v.has_callback (ap is_unused r);
  has_mode = λ e. v.has_mode (ap is_unused r);
  to_go = λ e. absurd cc;
  within = λ e. absurd cc;
  at_rest = λ e. refl;
}

pub Moves-IsSound : {s t : TimerControlBlock} {n : ℕ} → Moves s n t → IsSound s → IsSound t
Moves-IsSound still v = v
Moves-IsSound (next a m) v = Move-IsSound m (Moves-IsSound a v)
