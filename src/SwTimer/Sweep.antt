-- ===== src/SwTimer/Sweep.antt =====
-- The scan of `softwareTimerTick` of src/swTimer.c over the slots, with callbacks that call the
-- timers' functions.
use ecu_platform.Base.{
  ℕ, suc, ◌+◌, ◌-◌, ◌≤◌, ◌<◌, ◌≡◌, ◌≢◌, none, List, length, set, get_or, Bool, arith,
}
use ecu_platform.SwTimer.{TimerControlBlock, periodic, running, stopped, blank}
use ecu_platform.SwTimer.Moves.{Move, with_ticks, counted, reloaded, lapsed}
use ecu_platform.SwTimer.Lives.{Lives, Lives-refl, Lives-trans, Lives-set, nowhere}

-- A timer that runs out: a periodic one starts again, another one stops.
pub data Expires : TimerControlBlock → TimerControlBlock → Type 0 where
  reloads :
      {s : TimerControlBlock}
      → s.state ≡ running
      → s.remaining ≤ 1
      → s.mode ≡ periodic
      → Expires s (with_ticks s running s.timeout)
  lapses :
      {s : TimerControlBlock}
      → s.state ≡ running
      → s.remaining ≤ 1
      → s.mode ≢ periodic
      → Expires s (with_ticks s stopped 0)

pub Expires-Move : {s t : TimerControlBlock} → Expires s t → Move s 0 t
Expires-Move (reloads r h m) = reloaded r h m
Expires-Move (lapses r h m) = lapsed r h m

-- The scan at slot `i`: the slot is passed over, counts down, or runs out. In the last case its
-- callback, if it has one, does to the slots what calls of the timers' functions do.
pub data Visit (free : Bool) : ℕ → List TimerControlBlock → List TimerControlBlock → Type 0 where
  passes :
      {i : ℕ} {slots : List TimerControlBlock}
      → (get_or slots i blank).state ≢ running
      → Visit free i slots slots
  counts :
      {i : ℕ} {slots : List TimerControlBlock}
      → (get_or slots i blank).state ≡ running
      → 2 ≤ (get_or slots i blank).remaining
      → Visit free i slots (
          set slots i
            (with_ticks (get_or slots i blank) running ((get_or slots i blank).remaining - 1)))
  fires :
      {i : ℕ} {slots after : List TimerControlBlock} {t : TimerControlBlock}
      → Expires (get_or slots i blank) t
      → ((get_or slots i blank).callback ≡ none → after ≡ set slots i t)
      → Lives free nowhere (set slots i t) after
      → Visit free i slots after

-- The scan from slot `i` on, of so many slots.
pub data Sweep (free : Bool)
    : ℕ → ℕ → List TimerControlBlock → List TimerControlBlock → Type 0 where
  swept : {i : ℕ} {slots : List TimerControlBlock} → Sweep free i 0 slots slots
  visits :
      {i left : ℕ} {slots between after : List TimerControlBlock}
      → Visit free i slots between
      → Sweep free (i + 1) left between after
      → Sweep free i (suc left) slots after

pub Visit-Lives :
    {free : Bool} {i : ℕ} {slots after : List TimerControlBlock}
    → i < length slots
    → Visit free i slots after
    → Lives free nowhere slots after
Visit-Lives {free} {slots = slots} h (passes n) = Lives-refl free slots
Visit-Lives {free} {slots = slots} h (counts {i = i} r k) =
    Lives-set free nowhere slots i _ h (omega arith) (counted r k)
Visit-Lives {free} {slots = slots} h (fires {i = i} e c l) =
    Lives-trans (Lives-set free nowhere slots i _ h (omega arith) (Expires-Move e)) l

pub Sweep-Lives :
    {free : Bool} {i left : ℕ} {slots after : List TimerControlBlock}
    → i + left ≤ length slots
    → Sweep free i left slots after
    → Lives free nowhere slots after
Sweep-Lives {free} {slots = slots} h swept = Lives-refl free slots
Sweep-Lives {free} h (visits v s) =
    let one = Visit-Lives (omega arith) v in
    Lives-trans one (Sweep-Lives (omega (arith, one.same_size)) s)
