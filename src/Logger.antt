-- ===== src/Logger.antt =====
-- src/logger.c and include/logger.h: the logger's settings and their functions.
-- A `LoggerLevel_t` is a number, since a caller can pass any: its type has no negative enumerators
-- and is unsigned. A pointer is `none` for NULL; `backend` and its context are addresses.
pub mod Write
pub mod Format
pub mod Deliver
pub mod Outcome
pub mod Macros
pub mod Settings
pub mod Session
pub mod Promises
pub mod Turns
pub mod Course
pub mod Interleave
mod Tests
mod Scenario
use ecu_platform.Base.{ℕ, Option, none, some, ◌||◌, ltb, if◌then◌else◌, Bytes, literal, ◌==◌}

abbrev pub LoggerLevel : Type 0
LoggerLevel = ℕ

abbrev pub level_off : LoggerLevel
level_off = 0

abbrev pub level_error : LoggerLevel
level_error = 1

abbrev pub level_warn : LoggerLevel
level_warn = 2

abbrev pub level_info : LoggerLevel
level_info = 3

abbrev pub level_debug : LoggerLevel
level_debug = 4

pub data LoggerStatus : Type 0 where
  success error_null_pointer error_no_backend error_invalid_level : LoggerStatus

pub record Logger : Type 0 where
  pub backend : Option ℕ
  pub backend_context : Option ℕ
  pub runtime_threshold : LoggerLevel

unfoldable pub validate_logger : Option Logger → LoggerStatus
validate_logger none = error_null_pointer
validate_logger (some l) = success

unfoldable pub validate_threshold_level : LoggerLevel → LoggerStatus
validate_threshold_level level =
    if ltb level level_off || ltb level_debug level then error_invalid_level else success

unfoldable pub validate_message_level : LoggerLevel → LoggerStatus
validate_message_level level =
    if ltb level level_error || ltb level_debug level then error_invalid_level else success

unfoldable pub level_to_string : LoggerLevel → Bytes
level_to_string level =
    if level == level_error
    then literal "ERROR"
    else if level == level_warn
    then literal "WARN"
    else if level == level_info
    then literal "INFO"
    else if level == level_debug
    then literal "DEBUG"
    else literal "UNKNOWN"

unfoldable pub init : Option Logger → LoggerLevel → LoggerStatus × Option Logger
unfolding validate_logger validate_threshold_level
init logger initial_threshold = elim (validate_logger logger) [
  | success ↦ elim (validate_threshold_level initial_threshold) [
    | success ↦ (
      success,
      some (record {
        backend = none;
        backend_context = none;
        runtime_threshold = initial_threshold;
      }),
    )
    | error ↦ (error, logger)
  ]
  | error ↦ (error, logger)
]

unfoldable pub set_backend : Option Logger → Option ℕ → Option ℕ → LoggerStatus × Option Logger
unfolding validate_logger
set_backend none backend context = (validate_logger none, none)
set_backend (some l) none context = (error_null_pointer, some l)
set_backend (some l) (some b) context =
    (success, some (record l { backend = some b; backend_context = context }))

unfoldable pub clear_backend : Option Logger → LoggerStatus × Option Logger
unfolding validate_logger
clear_backend none = (validate_logger none, none)
clear_backend (some l) = (success, some (record l { backend = none; backend_context = none }))

unfoldable pub set_level : Option Logger → LoggerLevel → LoggerStatus × Option Logger
unfolding validate_logger validate_threshold_level
set_level none threshold = (validate_logger none, none)
set_level (some l) threshold = elim (validate_threshold_level threshold) [
  | success ↦ (success, some (record l { runtime_threshold = threshold }))
  | error ↦ (error, some l)
]

unfoldable pub get_level : Option Logger → Option LoggerLevel → LoggerStatus × Option LoggerLevel
unfolding validate_logger
get_level none out = (validate_logger none, out)
get_level (some l) none = (error_null_pointer, none)
get_level (some l) (some old) = (success, some l.runtime_threshold)
