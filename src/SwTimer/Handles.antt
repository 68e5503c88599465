-- ===== src/SwTimer/Handles.antt =====
-- What start, stop and delete do through a handle, what the queries see afterwards, and who else
-- sees a difference.
use ecu_platform.Base.{
  ℕ, ◌^◌, ◌≤◌, ◌<◌, ◌≡◌, refl, some, List, get_or, set, length-set, get_or-set_self, get_or-set_ne,
  done, arith,
}
use ecu_platform.SwTimer.{
  TimerHandle, TimerControlBlock, SoftwareTimerPool, success, SoftwareTimerState, blank, store,
  started, start, halted, stop, deleted, delete, get_state, get_remaining_ticks,
}
use ecu_platform.SwTimer.Slots.{IsValid, Names, write_slot_done, validate_handle-Names}

abbrev pub with_slot :
    SoftwareTimerPool → List TimerControlBlock → ℕ → TimerControlBlock → SoftwareTimerPool
with_slot p slots i s = record p { storage = some (set slots i s) }

module _ {p : SoftwareTimerPool} {slots : List TimerControlBlock} (v : IsValid p slots) where
  pub with_slot-IsValid :
      (i : ℕ) (s : TimerControlBlock)
      → i < p.capacity
      → s.generation < 2 ^ 8
      → IsValid (with_slot p slots i s) (set slots i s)
  with_slot-IsValid i s h g = record {
    storage_eq = refl;
    room = omega (arith, v.room, length-set slots i s);
    generations = λ j k. ground (
      arith,
      v.room,
      v.generations j k,
      get_or-set_self slots i s blank,
      get_or-set_ne slots i j s blank,
    );
  }

  -- A query through a handle that names a slot, and through one that does not.
  pub get_state-Names :
      {handle : TimerHandle} (old : SoftwareTimerState)
      → Names p slots handle
      → get_state (some p) handle (some old)
        ≡ done (success, some (get_or slots handle.index blank).state)
  unfolding get_state
  get_state-Names old n = rw (validate_handle-Names v n)

  pub get_remaining_ticks-Names :
      {handle : TimerHandle} (old : ℕ)
      → Names p slots handle
      → get_remaining_ticks (some p) handle (some old)
        ≡ done (success, some (get_or slots handle.index blank).remaining)
  unfolding get_remaining_ticks
  get_remaining_ticks-Names old n = rw (validate_handle-Names v n)

  store-eq :
      (i : ℕ) (s : TimerControlBlock)
      → i < p.capacity
      → store (some p) slots i s ≡ done (success, some (with_slot p slots i s))
  unfolding store
  store-eq i s h = ground (arith, v.room, write_slot_done slots i s)

  pub start-eq :
      {handle : TimerHandle} (ticks : ℕ)
      → Names p slots handle
      → 1 ≤ ticks
      → start (some p) handle ticks
        ≡ done (
          success,
          some (with_slot p slots handle.index (started ticks (get_or slots handle.index blank))),
        )
  unfolding start
  start-eq {handle} ticks n h = ground (
    arith,
    validate_handle-Names v n,
    store-eq handle.index (started ticks (get_or slots handle.index blank)) n.in_range,
  )

  pub stop-eq :
      {handle : TimerHandle}
      → Names p slots handle
      → stop (some p) handle
        ≡ done (
          success,
          some (with_slot p slots handle.index (halted (get_or slots handle.index blank))),
        )
  unfolding stop
  stop-eq {handle} n = ground (
    arith,
    validate_handle-Names v n,
    store-eq handle.index (halted (get_or slots handle.index blank)) n.in_range,
  )

  pub delete-eq :
      {handle : TimerHandle}
      → Names p slots handle
      → delete (some p) handle
        ≡ done (
          success,
          some (with_slot p slots handle.index (deleted (get_or slots handle.index blank))),
        )
  unfolding delete
  delete-eq {handle} n = ground (
    arith,
    validate_handle-Names v n,
    store-eq handle.index (deleted (get_or slots handle.index blank)) n.in_range,
  )
