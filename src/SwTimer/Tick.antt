-- ===== src/SwTimer/Tick.antt =====
-- `softwareTimerTick`: the loop over the slots. The callbacks are code of the application: `invoke`
-- says what the call of one does to the slots and to a world of the application's own. Callbacks
-- may start, stop, delete and create timers; the capacity and the storage pointer, which only
-- `init` writes, stay.
use ecu_platform.Base.{
  ℕ, zero, suc, ◌+◌, ◌-◌, Bool, true, false, Option, none, some, List, ltb, ◌==◌, if◌then◌else◌,
  Exec, done, ◌>>=◌, u8,
}
use ecu_platform.SwTimer.{
  TimerHandle, TimerControlBlock, SoftwareTimerPool, SoftwareTimerStatus, SoftwareTimerMode,
  one_shot, periodic, other_mode, success, error_null_pointer, stopped, is_running, read_slot,
  write_slot,
}

abbrev pub is_periodic : SoftwareTimerMode → Bool
is_periodic one_shot = false
is_periodic periodic = true
is_periodic (other_mode n) = false

-- `if (slot->remaining > 0U) { slot->remaining--; }`
abbrev pub counted_down : TimerControlBlock → TimerControlBlock
counted_down s = if ltb 0 s.remaining then record s { remaining = s.remaining - 1 } else s

-- The reload or the stop of a timer that has expired.
abbrev pub expired : TimerControlBlock → TimerControlBlock
expired s =
    if is_periodic s.mode then record s { remaining = s.timeout } else record s { state = stopped }

module _ {ℓ} {W : Type ℓ}
    (invoke : ℕ
      → TimerHandle
      → Option ℕ
      → List TimerControlBlock × W
      → List TimerControlBlock × W) where
  unfoldable pub call_back :
      Option ℕ → TimerHandle → Option ℕ → List TimerControlBlock × W → List TimerControlBlock × W
  call_back none handle context world = world
  call_back (some c) handle context world = invoke c handle context world

  -- The body of the loop for a slot that runs: `s` is the slot counted down.
  unfoldable pub fire :
      ℕ → TimerControlBlock → List TimerControlBlock × W → Exec (List TimerControlBlock × W)
  unfolding call_back
  fire i s world =
      if s.remaining == 0
      then (write_slot world.0 i (expired s) >>= λ slots. done (
          call_back s.callback (record { index = u8 i; generation = s.generation }) s.context
            (slots, world.1)))
      else (write_slot world.0 i s >>= λ slots. done (slots, world.1))

  unfoldable pub tick_slot : ℕ → List TimerControlBlock × W → Exec (List TimerControlBlock × W)
  unfolding fire
  tick_slot i world = read_slot world.0 i >>= λ s.
      if is_running s.state then fire i (counted_down s) world else done world

  -- The loop at slot `i`, with `left` slots to go.
  unfoldable pub tick_slots : ℕ → ℕ → List TimerControlBlock × W → Exec (List TimerControlBlock × W)
  unfolding tick_slot
  tick_slots zero i world = done world
  tick_slots (suc left) i world = tick_slot i world >>= tick_slots left (i + 1)

  unfoldable pub tick :
      Option SoftwareTimerPool × W → Exec (SoftwareTimerStatus × Option SoftwareTimerPool × W)
  unfolding tick_slots
  tick (none, w) = done (error_null_pointer, none, w)
  tick (some p, w) = elim p.storage [
    | none ↦ done (error_null_pointer, some p, w)
    | some slots ↦ tick_slots p.capacity 0 (slots, w) >>= λ r.
        done (success, some (record p { storage = some r.0 }), r.1)
  ]
