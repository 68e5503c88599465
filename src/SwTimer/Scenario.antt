-- ===== src/SwTimer/Scenario.antt =====
-- An application with two timers, whose callbacks start the timer that fired again.
use ecu_platform.Base.{
  ℕ, zero, suc, ◌<◌, ◌≡◌, refl, Option, none, some, List, [], ◌∷◌, get_or, Bool, true, false, Exec,
  fault, done, arith, ◌>>=◌,
}
use ecu_platform.SwTimer.{
  TimerHandle, TimerControlBlock, SoftwareTimerPool, SoftwareTimerStatus, one_shot, periodic,
  running, stopped, blank, init, start, delete,
}
use ecu_platform.SwTimer.Slots.{IsValid, Names}
use ecu_platform.SwTimer.Tick.{tick}
use ecu_platform.SwTimer.Calls.{start-Lived}
use ecu_platform.SwTimer.Rounds.{IsClient}
use ecu_platform.SwTimer.Diagram.{Call, creates, starts, stops, deletes, ticks, Does-Lives}
use ecu_platform.SwTimer.History.{run, Lasts, run-Lasts}
use ecu_platform.SwTimer.Safety.{Forgets, delete-run-Forgets, Secures, init-run-Secures}
use ecu_platform.SwTimer.Order.{due, play, leaving, Fires, tick-Fires}

abbrev timer : TimerControlBlock
timer = record {
  state = running;
  mode = one_shot;
  timeout = 1;
  remaining = 1;
  callback = some 0x100;
  context = none;
  generation = 255;
}

abbrev slots : List TimerControlBlock
slots = timer ∷ record timer { mode = periodic; callback = some 0x200; generation = 9 } ∷ []

abbrev pool : SoftwareTimerPool
pool = record { storage = some slots; capacity = 2 }

generation_at : (i : ℕ) → i < 2 → (get_or slots i blank).generation < 256
generation_at zero h = omega arith
generation_at (suc zero) h = omega arith
generation_at (suc (suc i)) h = absurd (omega arith)

pool-IsValid : IsValid pool slots
pool-IsValid = record { storage_eq = refl; room = omega arith; generations = generation_at }

abbrev first : TimerHandle
first = record { index = 0; generation = 255 }

first-Names : Names pool slots first
first-Names = record { in_range = omega arith; in_use = refl; current = refl }

abbrev stored : List TimerControlBlock → Option SoftwareTimerPool → List TimerControlBlock
stored old none = old
stored old (some p) = elim p.storage [ none ↦ old | some now ↦ now ]

abbrev slots_after :
    List TimerControlBlock
    → Exec (SoftwareTimerStatus × Option SoftwareTimerPool)
    → List TimerControlBlock
slots_after old fault = old
slots_after old (done r) = stored old r.1

-- The callback calls softwareTimerStart with the handle that it is given; the world counts.
abbrev restarting :
    ℕ → TimerHandle → Option ℕ → List TimerControlBlock × ℕ → List TimerControlBlock × ℕ
restarting c h x world = (
  slots_after world.0 (start (some (record { storage = some world.0; capacity = 2 })) h 3),
  suc world.1,
)

restarting-IsClient : (free : Bool) → IsClient free restarting 2
restarting-IsClient free c h x now w v =
    let l = start-Lived free v h 3 in rw (l.returns, l.pool_eq) (Does-Lives v l.does)

abbrev calls : List Call
calls =
    ticks
    ∷ deletes first
    ∷ creates one_shot (some 0x300) none (some first)
    ∷ starts first 0
    ∷ stops (record { index = 7; generation = 0 })
    ∷ ticks
    ∷ []

run-Lasts_example : Lasts false calls pool slots (run restarting calls (some pool, 0))
run-Lasts_example = run-Lasts restarting pool false (restarting-IsClient false) calls 0 pool-IsValid

delete-run-Forgets_example :
    Forgets first (delete (some pool) first >>= λ r. run restarting calls (r.1, 0))
delete-run-Forgets_example =
    delete-run-Forgets restarting pool (restarting-IsClient false) calls 0 pool-IsValid first-Names
      (omega arith)

init-run-Secures_example :
    Secures 2 (init (some pool) (some slots) 2 >>= λ r. run restarting calls (r.1, 0))
init-run-Secures_example =
    init-run-Secures restarting pool slots 2 (omega arith) (omega arith) (restarting-IsClient true)
      calls 0

-- A world that notes the callbacks in the order of their calls, the last one first.
abbrev noting : ℕ → TimerHandle → Option ℕ → List ℕ → List ℕ
noting c h x w = c ∷ w

both_play : play noting (due 2 0 slots) [] ≡ 0x200 ∷ 0x100 ∷ []
both_play = refl

tick-Fires_example : Fires noting pool [] (due 2 0 slots) (tick (leaving noting) (some pool, []))
tick-Fires_example = tick-Fires noting [] pool-IsValid (omega arith)

-- A callback that starts the timer behind its own one: the same tick counts that one down.
abbrev waking : ℕ → TimerHandle → Option ℕ → List TimerControlBlock × ℕ → List TimerControlBlock × ℕ
waking c h x world = (
  slots_after world.0 (
      start (some (record { storage = some world.0; capacity = 2 }))
        (record { index = 1; generation = 9 }) 1),
  suc world.1,
)

abbrev callbacks_made : Exec (SoftwareTimerStatus × Option SoftwareTimerPool × ℕ) → ℕ
callbacks_made fault = 0
callbacks_made (done r) = r.2

abbrev asleep : List TimerControlBlock
asleep = timer ∷ record timer { state = stopped; remaining = 0; generation = 9 } ∷ []

same_tick :
    callbacks_made (tick waking (some (record { storage = some asleep; capacity = 2 }), 0)) ≡ 2
unfolding tick start ecu_platform.SwTimer.read_slot ecu_platform.SwTimer.write_slot
    ecu_platform.SwTimer.validate_handle
same_tick = refl
