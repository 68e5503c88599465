-- ===== src/SwTimer/Tests.antt =====
-- A pool of three slots: a one-shot timer and a periodic one, both stopped, and an unused slot.
use ecu_platform.Base.{
  ℕ, zero, suc, ◌<◌, ◌⊎◌, inr, refl, Option, none, some, List, [], ◌∷◌, arith, get_or, ltb,
  if◌then◌else◌, ◌>>=◌, ◌-◌, ◌%◌,
}
use ecu_platform.SwTimer.{
  TimerHandle, TimerControlBlock, SoftwareTimerPool, one_shot, periodic, running, stopped, blank,
  create, start,
}
use ecu_platform.SwTimer.Slots.{IsValid, Names}
use ecu_platform.SwTimer.Create.{Created, Occupied, create-Outcome}
use ecu_platform.SwTimer.Tick.{tick}
use ecu_platform.SwTimer.Reentry.{Ticks, tick-Ticks}
use ecu_platform.SwTimer.Lifetime.{run_ticks, Shows, one_shot-Shows, periodic-Shows}

abbrev timer : TimerControlBlock
timer = record {
  state = stopped;
  mode = one_shot;
  timeout = 0;
  remaining = 0;
  callback = some 0x100;
  context = none;
  generation = 3;
}

abbrev slots : List TimerControlBlock
slots = timer ∷ record timer { mode = periodic; generation = 255 } ∷ blank ∷ []

abbrev pool : SoftwareTimerPool
pool = record { storage = some slots; capacity = 3 }

generation_at : (i : ℕ) → i < 3 → (get_or slots i blank).generation < 256
generation_at zero h = omega arith
generation_at (suc zero) h = omega arith
generation_at (suc (suc zero)) h = omega arith
generation_at (suc (suc (suc i))) h = absurd (omega arith)

pool-IsValid : IsValid pool slots
pool-IsValid = record { storage_eq = refl; room = omega arith; generations = generation_at }

abbrev first : TimerHandle
first = record { index = 0; generation = 3 }

first-Names : Names pool slots first
first-Names = record { in_range = omega arith; in_use = refl; current = refl }

abbrev second : TimerHandle
second = record { index = 1; generation = 255 }

second-Names : Names pool slots second
second-Names = record { in_range = omega arith; in_use = refl; current = refl }

-- A callback of the application that counts its calls.
abbrev counting :
    ℕ → TimerHandle → Option ℕ → List TimerControlBlock × ℕ → List TimerControlBlock × ℕ
counting c h x world = (world.0, suc world.1)

create-Outcome_example :
    Created pool slots (create (some pool) periodic (some 0x200) none (some first))
    ⊎ Occupied pool slots first (create (some pool) periodic (some 0x200) none (some first))
create-Outcome_example =
    create-Outcome pool-IsValid (omega arith) periodic 0x200 none first (inr refl)

tick-Ticks_example : Ticks counting (λ c h x world. refl) pool slots (tick counting (some pool, 7))
tick-Ticks_example = tick-Ticks counting (λ c h x world. refl) 7 refl (omega arith)

one_shot-Shows_example :
    Shows counting
      (λ c h x world. refl)
      first
      (if ltb 6 4 then running else stopped)
      (4 - 6)
      (start (some pool) first 4 >>= λ r. run_ticks counting 6 (r.1, 0))
one_shot-Shows_example =
    one_shot-Shows counting (λ c h x world. refl) pool-IsValid first-Names 4 6 (omega arith) 0 refl

periodic-Shows_example :
    Shows counting
      (λ c h x world. refl)
      second
      running
      (4 - 6 % 4)
      (start (some pool) second 4 >>= λ r. run_ticks counting 6 (r.1, 0))
periodic-Shows_example =
    periodic-Shows counting (λ c h x world. refl) pool-IsValid second-Names 4 6 (omega arith) 0 refl
