-- ===== src/Logger/Turns.antt =====
-- `loggerWrite` of src/logger.c in steps, so that calls can take turns.
use native.Mathlib.Decide.{ℕ_discrete}
use mathlib.Core.Logic.{ite}
use ecu_platform.Base.{
  ℕ, Option, none, some, List, [], ◌∷◌, ltb, if◌then◌else◌, Bytes, Exec, done, ◌>>=◌, size_add,
}
use ecu_platform.Logger.{
  LoggerLevel, LoggerStatus, Logger, success, error_null_pointer, error_no_backend,
  validate_message_level,
}
use ecu_platform.Logger.Write.{Argument, write_prefix, write_message, write}

-- The arguments of one call, and what its local buffer holds at first.
pub record Call {ℓ} (A : Type ℓ) : Type ℓ where
  pub logger : Option Logger
  pub level : LoggerLevel
  pub name : Option Bytes
  pub fmt : Option Bytes
  pub args : List (Argument A)
  pub stack : Bytes

-- Where a call has got to, with its locals.
pub data Stage : Type 0 where
  ready : Stage
  admitted : ℕ → Option ℕ → Bytes → Bytes → Stage
  prefixed : ℕ → Option ℕ → Bytes → Bytes → ℕ → Stage
  formatted : ℕ → Option ℕ → Bytes → ℕ → Stage
  finished : LoggerStatus → Stage

-- The checks that come once the severity passed, in their order.
unfoldable pub admit_unfiltered : Logger → Option Bytes → Option Bytes → Stage
admit_unfiltered l none fmt = finished error_null_pointer
admit_unfiltered l (some name) none = finished error_null_pointer
admit_unfiltered l (some name) (some fmt) = elim l.backend [
  | none ↦ finished error_no_backend
  | some address ↦ admitted address l.backend_context name fmt
]

-- The checks at the start of a call: it is over, or goes on with a backend.
unfoldable pub admit : Option Logger → LoggerLevel → Option Bytes → Option Bytes → Stage
unfolding admit_unfiltered
admit none level name fmt = finished error_null_pointer
admit (some l) level name fmt = elim (validate_message_level level) [
  | success ↦
      if ltb l.runtime_threshold level then finished success else admit_unfiltered l name fmt
  | error ↦ finished error
]

module _ {ℓ κ} {A : Type ℓ} {W : Type κ}
    (format : Bytes → ℕ → Bytes → List (Argument A) → Bytes × Option ℕ)
    (backend : ℕ → Bytes → ℕ → Option ℕ → W → W) (max_length : ℕ) where
  -- The next step of a call: the checks, the prefix, the message, the call of the backend.
  unfoldable pub advance : Call A → Stage → W → Exec (Stage × W)
  advance c ready world = done (admit c.logger c.level c.name c.fmt, world)
  advance c (admitted address context name fmt) world =
      write_prefix format max_length c.stack c.level name >>= λ p.
      done (prefixed address context fmt p.0 p.1, world)
  advance c (prefixed address context fmt buffer used) world =
      write_message format max_length buffer used fmt c.args >>= λ m.
      done (formatted address context m.0 (size_add used m.1), world)
  advance c (formatted address context buffer total) world =
      done (finished success, backend address buffer total context world)
  advance c (finished status) world = done (finished status, world)

  -- A whole call.
  abbrev pub whole : Call A → W → Exec (LoggerStatus × W)
  whole c = write format backend max_length c.logger c.level c.name c.fmt c.args c.stack

  module _ (calls : ℕ → Call A) where
    -- The calls take turns as the schedule says, each from the stage it has got to.
    unfoldable pub interleave : List ℕ → (ℕ → Stage) → W → Exec ((ℕ → Stage) × W)
    interleave [] stages world = done (stages, world)
    interleave (i ∷ schedule) stages world = do
      r ← advance (calls i) (stages i) world
      interleave schedule (λ j. ite (ℕ_discrete i j) r.0 (stages j)) r.1

    -- Whole calls, one after another.
    unfoldable pub in_turn : List ℕ → W → Exec W
    in_turn [] world = done world
    in_turn (i ∷ order) world = do r ← whole (calls i) world; in_turn order r.1
