-- ===== src/Logger/Write.antt =====
-- `loggerWrite` of src/logger.c and the macros of include/logger.h. Of the C library it uses
-- `snprintf` and `vsnprintf`, of the application the backends: they are parameters.
use ecu_platform.Base.{
  ℕ, Option, none, some, List, [], ◌∷◌, ◌++◌, length, ltb, leb, if◌then◌else◌, Bytes, literal, Exec,
  fault, done, ◌>>=◌, take, drop, write_at, size_add, size_sub,
}
use ecu_platform.Logger.{
  LoggerLevel, LoggerStatus, Logger, success, error_null_pointer, error_no_backend, level_error,
  level_warn, level_info, level_debug, validate_message_level, level_to_string,
}

-- An argument of a format: a string, or another value of the caller's.
pub data Argument {ℓ} (A : Type ℓ) : Type ℓ where
  string : Bytes → Argument A
  other : A → Argument A

abbrev pub prefix_format : Bytes
prefix_format = literal "[%s][%s] "

-- `format m size fmt args` is what `vsnprintf(p, size, fmt, args)` makes of the memory `m` behind
-- `p`, and its result: `none` for a negative one. `max_length` is LOGGER_MAX_MESSAGE_LENGTH.
module _ {ℓ} {A : Type ℓ} (format : Bytes → ℕ → Bytes → List (Argument A) → Bytes × Option ℕ)
    (max_length : ℕ) where
  -- The call is defined only if the memory has `size` bytes.
  unfoldable pub print_to : Bytes → ℕ → Bytes → List (Argument A) → Exec (Bytes × Option ℕ)
  print_to m size fmt args = if leb size (length m) then done (format m size fmt args) else fault

  -- `buffer` and `used` after the prefix was written.
  unfoldable pub clamp_prefix : Bytes × Option ℕ → Exec (Bytes × ℕ)
  clamp_prefix (b, none) = write_at b 0 0 >>= λ b'. done (b', 0)
  clamp_prefix (b, some prefix_len) =
      if ltb prefix_len max_length then done (b, prefix_len) else done (b, size_sub max_length 1)

  unfoldable pub write_prefix : Bytes → LoggerLevel → Bytes → Exec (Bytes × ℕ)
  unfolding print_to clamp_prefix
  write_prefix buffer level name =
      print_to buffer max_length prefix_format (string (level_to_string level) ∷ string name ∷ [])
      >>= clamp_prefix

  -- `buffer` and `msgWritten` after the message was written behind the prefix.
  unfoldable pub clamp_message : Bytes → ℕ → ℕ → Bytes × Option ℕ → Exec (Bytes × ℕ)
  clamp_message b used remaining (rest, none) =
      write_at (take used b ++ rest) used 0 >>= λ b'. done (b', 0)
  clamp_message b used remaining (rest, some msg_len) =
      if ltb msg_len remaining
      then done (take used b ++ rest, msg_len)
      else done (take used b ++ rest, size_sub remaining 1)

  unfoldable pub write_message : Bytes → ℕ → Bytes → List (Argument A) → Exec (Bytes × ℕ)
  unfolding print_to clamp_message
  write_message b used fmt args =
      let remaining = size_sub max_length used in
      print_to (drop used b) remaining fmt args >>= clamp_message b used remaining

-- `backend` says what the call of a backend with a message, a length and a context does to a world
-- of the application's.
module _ {ℓ κ} {A : Type ℓ} {W : Type κ}
    (format : Bytes → ℕ → Bytes → List (Argument A) → Bytes × Option ℕ)
    (backend : ℕ → Bytes → ℕ → Option ℕ → W → W) (max_length : ℕ) where
  -- From the prefix on: `stack` is what the local buffer holds at first.
  unfoldable pub emit :
      ℕ
      → Option ℕ
      → LoggerLevel
      → Bytes
      → Bytes
      → List (Argument A)
      → Bytes
      → W
      → Exec (LoggerStatus × W)
  emit address context level name fmt args stack world = do
    prefixed ← write_prefix format max_length stack level name
    written ← write_message format max_length prefixed.0 prefixed.1 fmt args
    done (success, backend address written.0 (size_add prefixed.1 written.1) context world)

  -- A call that passed the threshold.
  unfoldable pub write_unfiltered :
      Logger
      → LoggerLevel
      → Option Bytes
      → Option Bytes
      → List (Argument A)
      → Bytes
      → W
      → Exec (LoggerStatus × W)
  unfolding emit
  write_unfiltered l level none fmt args stack world = done (error_null_pointer, world)
  write_unfiltered l level (some name) none args stack world = done (error_null_pointer, world)
  write_unfiltered l level (some name) (some fmt) args stack world = elim l.backend [
    | none ↦ done (error_no_backend, world)
    | some address ↦ emit address l.backend_context level name fmt args stack world
  ]

  unfoldable pub write :
      Option Logger
      → LoggerLevel
      → Option Bytes
      → Option Bytes
      → List (Argument A)
      → Bytes
      → W
      → Exec (LoggerStatus × W)
  unfolding write_unfiltered
  write none level name fmt args stack world = done (error_null_pointer, world)
  write (some l) level name fmt args stack world = elim (validate_message_level level) [
    | success ↦
        if ltb l.runtime_threshold level
        then done (success, world)
        else write_unfiltered l level name fmt args stack world
    | error ↦ done (error, world)
  ]

  -- LOGGER_ERROR and its like, in a build with LOGGER_COMPILE_TIME_LEVEL at `compile_time_level`.
  -- `arguments` evaluates the arguments, with their effects; the status is dropped.
  module _ (compile_time_level : LoggerLevel) where
    unfoldable pub log_at :
        LoggerLevel
        → Option Logger
        → Option Bytes
        → Option Bytes
        → (W → List (Argument A) × W)
        → Bytes
        → W
        → Exec W
    log_at level logger name fmt arguments stack world =
        if leb level compile_time_level
        then (let (args, world') = arguments world in
            write logger level name fmt args stack world' >>= λ r. done r.1)
        else done world

    unfoldable pub log_error :
        Option Logger
        → Option Bytes
        → Option Bytes
        → (W → List (Argument A) × W)
        → Bytes
        → W
        → Exec W
    unfolding log_at
    log_error = log_at level_error

    unfoldable pub log_warn :
        Option Logger
        → Option Bytes
        → Option Bytes
        → (W → List (Argument A) × W)
        → Bytes
        → W
        → Exec W
    unfolding log_at
    log_warn = log_at level_warn

    unfoldable pub log_info :
        Option Logger
        → Option Bytes
        → Option Bytes
        → (W → List (Argument A) × W)
        → Bytes
        → W
        → Exec W
    unfolding log_at
    log_info = log_at level_info

    unfoldable pub log_debug :
        Option Logger
        → Option Bytes
        → Option Bytes
        → (W → List (Argument A) × W)
        → Bytes
        → W
        → Exec W
    unfolding log_at
    log_debug = log_at level_debug
