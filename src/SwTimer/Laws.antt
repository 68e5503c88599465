-- ===== src/SwTimer/Laws.antt =====
-- What a client of the timers sees: after a start, a stop and a delete, through the handle used and
-- through any other.
use ecu_platform.Base.{
  ℕ, ◌^◌, ◌≤◌, ◌<◌, ◌≡◌, ◌≢◌, refl, Option, some, List, get_or, set, length-set, get_or-set_self,
  get_or-set_ne, false, Exec, done, arith, ◌∙◌, ap,
}
use ecu_platform.SwTimer.{
  TimerHandle, TimerControlBlock, SoftwareTimerPool, SoftwareTimerStatus, success,
  error_invalid_handle, SoftwareTimerState, running, stopped, is_unused, blank, started, start,
  halted, stop, delete, get_state, get_remaining_ticks, validate_handle, validate_in,
}
use ecu_platform.SwTimer.Slots.{IsValid, Names, read_slot_done, validate_handle-stale}
use ecu_platform.SwTimer.Handles.{
  with_slot, with_slot-IsValid, get_state-Names, get_remaining_ticks-Names, start-eq, stop-eq,
}

-- The queries through `k` answer for `q` as they do for `p`.
abbrev pub SeenSame : SoftwareTimerPool → SoftwareTimerPool → TimerHandle → Type 0
SeenSame p q k =
    ((old : SoftwareTimerState) → get_state (some q) k (some old) ≡ get_state (some p) k (some old))
    × ((old : ℕ)
        → get_remaining_ticks (some q) k (some old) ≡ get_remaining_ticks (some p) k (some old))

-- Every call through `k` is refused, and changes nothing.
pub record Stale (p : SoftwareTimerPool) (k : TimerHandle) : Type 0 where
  pub no_start : (ticks : ℕ) → start (some p) k ticks ≡ done (error_invalid_handle, some p)
  pub no_stop : stop (some p) k ≡ done (error_invalid_handle, some p)
  pub no_delete : delete (some p) k ≡ done (error_invalid_handle, some p)
  pub no_state :
      (old : SoftwareTimerState)
      → get_state (some p) k (some old) ≡ done (error_invalid_handle, some old)
  pub no_remaining :
      (old : ℕ) → get_remaining_ticks (some p) k (some old) ≡ done (error_invalid_handle, some old)

-- A call through `handle` has left its timer in `state` with `remaining` ticks; the other slots are
-- seen as before.
pub record Leaves (p : SoftwareTimerPool) (handle : TimerHandle) (state : SoftwareTimerState)
    (remaining : ℕ) (run : Exec (SoftwareTimerStatus × Option SoftwareTimerPool)) : Type 0 where
  pub pool : SoftwareTimerPool
  pub slots : List TimerControlBlock
  pub returns : run ≡ done (success, some pool)
  pub valid : IsValid pool slots
  pub names : Names pool slots handle
  pub sees_state :
      (old : SoftwareTimerState)
      → get_state (some pool) handle (some old) ≡ done (success, some state)
  pub sees_remaining :
      (old : ℕ) → get_remaining_ticks (some pool) handle (some old) ≡ done (success, some remaining)
  pub others : (k : TimerHandle) → k.index ≢ handle.index → SeenSame p pool k

module _ {p : SoftwareTimerPool} {slots : List TimerControlBlock} (v : IsValid p slots) where
  pub others_same :
      (i : ℕ) (s : TimerControlBlock) (k : TimerHandle)
      → k.index ≢ i
      → SeenSame p (with_slot p slots i s) k
  unfolding get_state get_remaining_ticks validate_handle validate_in
  others_same i s k ne = (
    λ old. ground (
      arith,
      v.storage_eq,
      v.room,
      length-set slots i s,
      read_slot_done slots k.index,
      read_slot_done (set slots i s) k.index,
      get_or-set_ne slots i k.index s blank,
    ),
    λ old. ground (
      arith,
      v.storage_eq,
      v.room,
      length-set slots i s,
      read_slot_done slots k.index,
      read_slot_done (set slots i s) k.index,
      get_or-set_ne slots i k.index s blank,
    ),
  )

  written :
      (handle : TimerHandle) (s : TimerControlBlock)
      → handle.index < p.capacity
      → get_or (set slots handle.index s) handle.index blank ≡ s
  written handle s h = get_or-set_self slots handle.index s blank (omega (arith, v.room))

  -- The slot of a handle replaced by one that is in use and of the same generation.
  pub leaves :
      {handle : TimerHandle} {run : Exec (SoftwareTimerStatus × Option SoftwareTimerPool)}
      (s : TimerControlBlock)
      → handle.index < p.capacity
      → is_unused s.state ≡ false
      → s.generation ≡ handle.generation
      → s.generation < 2 ^ 8
      → run ≡ done (success, some (with_slot p slots handle.index s))
      → Leaves p handle s.state s.remaining run
  leaves {handle} s h used g byte e =
      let w = written handle s h in
      let valid = with_slot-IsValid v handle.index s h byte in
      let names : Names (with_slot p slots handle.index s) (set slots handle.index s) handle =
        record {
          in_range = h;
          in_use = ap (λ t. is_unused t.state) w ∙ used;
          current = ap (λ t. t.generation) w ∙ g;
        } in
      record {
        pool = with_slot p slots handle.index s;
        slots = set slots handle.index s;
        returns = e;
        valid = valid;
        names = names;
        sees_state =
            λ old. get_state-Names valid old names ∙ ap (λ t. done (success, some t.state)) w;
        sees_remaining = λ old.
            get_remaining_ticks-Names valid old names
            ∙ ap (λ t. done (success, some t.remaining)) w;
        others = others_same handle.index s;
      }

  -- On a valid pool, start with a positive number of ticks through a handle that names a timer
  -- succeeds; the pool is valid, the handle still names the timer, which is seen to run with that
  -- many ticks remaining, and the other slots are seen as before.
  pub start-Leaves :
      {handle : TimerHandle} (ticks : ℕ)
      → Names p slots handle
      → 1 ≤ ticks
      → Leaves p handle running ticks (start (some p) handle ticks)
  start-Leaves {handle} ticks n h =
      leaves (started ticks (get_or slots handle.index blank)) n.in_range refl n.current
        (v.generations handle.index n.in_range) (start-eq v ticks n h)

  -- On a valid pool, stop through a handle that names a timer succeeds; the pool is valid, the
  -- handle still names the timer, which is seen to be stopped with no ticks remaining, and the
  -- other slots are seen as before.
  pub stop-Leaves :
      {handle : TimerHandle}
      → Names p slots handle
      → Leaves p handle stopped 0 (stop (some p) handle)
  stop-Leaves {handle} n =
      leaves (halted (get_or slots handle.index blank)) n.in_range refl n.current
        (v.generations handle.index n.in_range) (stop-eq v n)

  pub stale :
      (k : TimerHandle)
      → (k.index < p.capacity
          → is_unused (get_or slots k.index blank).state ≡ false
          → (get_or slots k.index blank).generation ≢ k.generation)
      → Stale p k
  unfolding start stop delete get_state get_remaining_ticks
  stale k h =
      let e = validate_handle-stale v k h in
      record {
        no_start = λ ticks. rw e refl;
        no_stop = rw e refl;
        no_delete = rw e refl;
        no_state = λ old. rw e refl;
        no_remaining = λ old. rw e refl;
      }
