-- ===== src/Logger/Outcome.antt =====
-- How a call of `loggerWrite` ends, whatever it is given.
use mathlib.Core.Path.{subst}
use native.Mathlib.Decide.{dec_lt}
use ecu_platform.Base.{
  ℕ, ◌^◌, ◌≤◌, ◌<◌, ◌≡◌, ◌≢◌, ◌⊎◌, inl, inr, refl, sym, arith, Option, none, some, List, ◌++◌,
  length, Bytes, Exec, done, Option-cases,
}
use ecu_platform.Logger.{
  LoggerLevel, LoggerStatus, Logger, success, error_null_pointer, error_no_backend,
  error_invalid_level, level_error, level_debug,
}
use ecu_platform.Logger.Write.{Argument, write_unfiltered, write}
use ecu_platform.Logger.Format.{Formats, or_empty, prefix_text}
use ecu_platform.Logger.Deliver.{
  Delivers, emit-Delivers, entered, severity_done, severity_off, severity_over, above,
}

module _ {ℓ κ} {A : Type ℓ} {W : Type κ}
    {format : Bytes → ℕ → Bytes → List (Argument A) → Bytes × Option ℕ} (f : Formats format)
    (backend : ℕ → Bytes → ℕ → Option ℕ → W → W) (max_length : ℕ) (least : 2 ≤ max_length)
    (small : max_length < 2 ^ 64) where
  -- A call that has reached the backend, with the conditions on which it does.
  pub record Sends (logger : Option Logger) (level : LoggerLevel) (name fmt : Option Bytes)
      (args : List (Argument A)) (world : W) (run : Exec (LoggerStatus × W)) : Type (ℓ ⊔ κ) where
    pub settings : Logger
    pub address : ℕ
    pub module_name : Bytes
    pub format_string : Bytes
    pub logger_eq : logger ≡ some settings
    pub backend_eq : settings.backend ≡ some address
    pub name_eq : name ≡ some module_name
    pub fmt_eq : fmt ≡ some format_string
    pub severity : level_error ≤ level
    pub valid : level ≤ level_debug
    pub passes : level ≤ settings.runtime_threshold
    pub delivers :
        Delivers f backend max_length least small address settings.backend_context
          (prefix_text f max_length least small level module_name
            ++ or_empty (f.text format_string args))
          world
          run

  -- A call that has not: nothing has happened, and it counts as a success only if the threshold
  -- filtered it.
  pub record Silent (logger : Option Logger) (level : LoggerLevel) (world : W)
      (run : Exec (LoggerStatus × W)) : Type κ where
    pub status : LoggerStatus
    pub returns : run ≡ done (status, world)
    pub filtered :
        status ≡ success
        → (l : Logger) × (logger ≡ some l) × (l.runtime_threshold < level) × (level ≤ level_debug)

  -- A silent run with an error.
  error-Silent :
      (logger : Option Logger) (level : LoggerLevel) (world : W) (status : LoggerStatus)
      (run : Exec (LoggerStatus × W))
      → status ≢ success
      → run ≡ done (status, world)
      → Silent logger level world run
  error-Silent logger level world status run ne e = record {
    status = status;
    returns = e;
    filtered = λ q. absurd (ne q);
  }

  module _ (l : Logger) (level : LoggerLevel) (args : List (Argument A)) (stack : Bytes) (world : W)
      (room : length stack ≡ max_length) where
    abbrev Outcome : Option Bytes → Option Bytes → Exec (LoggerStatus × W) → Type (ℓ ⊔ κ)
    Outcome name fmt run =
        Sends (some l) level name fmt args world run ⊎ Silent (some l) level world run

    unfiltered-Outcome :
        (name fmt : Option Bytes)
        → level_error ≤ level
        → level ≤ level_debug
        → level ≤ l.runtime_threshold
        → Outcome name fmt
            (write_unfiltered format backend max_length l level name fmt args stack world)
    unfolding write_unfiltered
    unfiltered-Outcome none fmt h k p =
        inr (error-Silent (some l) level world error_null_pointer _ (λ q. cc) refl)
    unfiltered-Outcome (some name) none h k p =
        inr (error-Silent (some l) level world error_null_pointer _ (λ q. cc) refl)
    unfiltered-Outcome (some name) (some fmt) h k p = elim (Option-cases l.backend) [
      | inl e ↦ inr (error-Silent (some l) level world error_no_backend _ (λ q. cc) (rw e refl))
      | inr (address, e) ↦ inl (record {
        settings = l;
        address = address;
        module_name = name;
        format_string = fmt;
        logger_eq = refl;
        backend_eq = e;
        name_eq = refl;
        fmt_eq = refl;
        severity = h;
        valid = k;
        passes = p;
        delivers = rw e (
            emit-Delivers f backend max_length least small address l.backend_context level name fmt
              args stack world room);
      })
    ]

    write-some-Outcome :
        (name fmt : Option Bytes)
        → Outcome name fmt
            (write format backend max_length (some l) level name fmt args stack world)
    unfolding write
    write-some-Outcome name fmt = elim (dec_lt level level_error) [
      | yes off ↦ inr (
          error-Silent (some l) level world error_invalid_level _ (λ q. cc)
            (rw (severity_off level off, write) refl))
      | no h ↦ elim (dec_lt level_debug level) [
        | yes over ↦ inr (
            error-Silent (some l) level world error_invalid_level _ (λ q. cc)
              (rw (severity_over level over, write) refl))
        | no k ↦ elim (dec_lt l.runtime_threshold level) [
          | yes p ↦ inr (record {
            status = success;
            returns =
                rw
                  (
                    severity_done level (omega arith) (omega arith),
                    above level l.runtime_threshold p,
                    write,
                  )
                  refl;
            filtered = λ q. (l, refl, p, omega arith);
          })
          | no p ↦
              subst (Outcome name fmt)
                (sym (
                  entered f backend max_length least small l level name fmt args stack world
                    (omega arith) (omega arith) (omega arith)))
                (unfiltered-Outcome name fmt (omega arith) (omega arith) (omega arith))
        ]
      ]
    ]

  -- Any call of write returns without an access out of bounds. Either there are a logger, a
  -- backend, a module name and a format, the severity is one of the four and at most the
  -- threshold, and the backend is called once with the prefix and the message text, cut to fit and
  -- terminated, and with its length; or nothing happens to the world, and the status is a success
  -- only if the threshold filtered the call.
  pub write-Outcome :
      (logger : Option Logger) (level : LoggerLevel) (name fmt : Option Bytes)
      (args : List (Argument A)) (stack : Bytes) (world : W)
      → length stack ≡ max_length
      → Sends logger level name fmt args world
          (write format backend max_length logger level name fmt args stack world)
        ⊎ Silent logger level world
            (write format backend max_length logger level name fmt args stack world)
  unfolding write
  write-Outcome none level name fmt args stack world room =
      inr (error-Silent none level world error_null_pointer _ (λ q. cc) refl)
  write-Outcome (some l) level name fmt args stack world room =
      write-some-Outcome l level args stack world room name fmt
