-- ===== src/Logger/Macros.antt =====
-- The macros of include/logger.h: what the build's level and the runtime threshold let through.
use ecu_platform.Base.{
  ℕ, ◌≤◌, ◌<◌, ◌≡◌, ◌⊎◌, inl, inr, refl, arith, Option, some, List, leb, if◌then◌else◌, Bytes, Exec,
  done, true, Bool-cases,
}
use ecu_platform.Logger.{
  LoggerLevel, Logger, success, level_error, level_warn, level_info, level_debug,
}
use ecu_platform.Logger.Write.{Argument, write, log_at, log_error, log_warn, log_info, log_debug}
use ecu_platform.Logger.Deliver.{severity_done, above}

-- The four macros by name, and their levels.
pub data Macro : Type 0 where
  error warn info debug : Macro

abbrev pub severity : Macro → LoggerLevel
severity error = level_error
severity warn = level_warn
severity info = level_info
severity debug = level_debug

module _ {ℓ κ} {A : Type ℓ} {W : Type κ}
    (format : Bytes → ℕ → Bytes → List (Argument A) → Bytes × Option ℕ)
    (backend : ℕ → Bytes → ℕ → Option ℕ → W → W) (max_length : ℕ)
    (compile_time_level : LoggerLevel) where
  pub call :
      Macro
      → Option Logger
      → Option Bytes
      → Option Bytes
      → (W → List (Argument A) × W)
      → Bytes
      → W
      → Exec W
  unfolding log_error log_warn log_info log_debug
  call error = log_error format backend max_length compile_time_level
  call warn = log_warn format backend max_length compile_time_level
  call info = log_info format backend max_length compile_time_level
  call debug = log_debug format backend max_length compile_time_level

module _ {ℓ κ} {A : Type ℓ} {W : Type κ}
    (format : Bytes → ℕ → Bytes → List (Argument A) → Bytes × Option ℕ)
    (backend : ℕ → Bytes → ℕ → Option ℕ → W → W) (max_length : ℕ) where
  -- A call above the runtime threshold does nothing, whatever its pointers are.
  pub write_filtered :
      (l : Logger) (level : LoggerLevel) (name fmt : Option Bytes) (args : List (Argument A))
      (stack : Bytes) (world : W)
      → level_error ≤ level
      → level ≤ level_debug
      → l.runtime_threshold < level
      → write format backend max_length (some l) level name fmt args stack world
        ≡ done (success, world)
  unfolding write
  write_filtered l level name fmt args stack world h k p =
      rw (severity_done level h k, above level l.runtime_threshold p, write) refl

  module _ (compile_time_level : LoggerLevel) (l : Logger) (name fmt : Option Bytes)
      (arguments : W → List (Argument A) × W) (stack : Bytes) (world : W) where
    -- The world after a macro of a severity that does not reach a backend.
    abbrev pub evaluated : LoggerLevel → W
    evaluated level = if leb level compile_time_level then (arguments world).1 else world

    abbrev pub Blocked : LoggerLevel → Type 0
    Blocked level = (compile_time_level < level) ⊎ (l.runtime_threshold < level)

    runtime :
        (level : LoggerLevel)
        → leb level compile_time_level ≡ true
        → Blocked level
        → l.runtime_threshold < level
    runtime level e blocked = ground arith

    log_at-Blocked :
        (level : LoggerLevel)
        → level_error ≤ level
        → level ≤ level_debug
        → Blocked level
        → log_at format backend max_length compile_time_level level
            (some l)
            name
            fmt
            arguments
            stack
            world
          ≡ done (evaluated level)
    unfolding log_at
    log_at-Blocked level h k blocked = elim (Bool-cases (leb level compile_time_level)) [
      | inl e ↦
          rw
            (
              e,
              write_filtered l level name fmt (arguments world).0 stack (arguments world).1 h k
                  (runtime level e blocked),
            )
            refl
      | inr e ↦ rw e refl
    ]

    -- A logging macro of a severity that the build's level or the runtime threshold excludes makes
    -- no call of the backend: the world is as before if the build excludes it, and else as the
    -- evaluation of the macro's arguments leaves it.
    pub macro-Blocked :
        (m : Macro)
        → Blocked (severity m)
        → call format backend max_length compile_time_level m
            (some l)
            name
            fmt
            arguments
            stack
            world
          ≡ done (evaluated (severity m))
    unfolding call
    macro-Blocked error = log_at-Blocked level_error (omega arith) (omega arith)
    macro-Blocked warn = log_at-Blocked level_warn (omega arith) (omega arith)
    macro-Blocked info = log_at-Blocked level_info (omega arith) (omega arith)
    macro-Blocked debug = log_at-Blocked level_debug (omega arith) (omega arith)
