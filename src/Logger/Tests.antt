-- ===== src/Logger/Tests.antt =====
-- A format of two strings and a format without arguments, in a buffer of sixteen bytes.
use ecu_platform.Base.{
  false, ℕ, ◌≡◌, ◌⊎◌, inr, refl, arith, Option, none, some, List, [], ◌∷◌, ◌++◌, length, take,
  splice, ◌-◌, Bytes, literal, done,
}
use ecu_platform.Logger.{
  LoggerLevel, LoggerStatus, Logger, success, error_null_pointer, error_no_backend,
  error_invalid_level, get_level, level_warn, level_info,
}
use ecu_platform.Logger.Write.{Argument, string, other, write}
use ecu_platform.Logger.Format.{Formats, expand}
use ecu_platform.Logger.Deliver.{Delivers, bracketed, write-Delivers}
use ecu_platform.Logger.Outcome.{Sends, Silent, write-Outcome}
use ecu_platform.Logger.Macros.{debug, call, macro-Blocked}

abbrev printed : Bytes → ℕ → Option Bytes → Bytes × Option ℕ
printed m size none = (m, none)
printed m size (some t) = (splice m 0 (take (size - 1) t ++ (0 ∷ [])), some (length t))

abbrev pub toy : Bytes → ℕ → Bytes → List (Argument (Unit {0})) → Bytes × Option ℕ
toy m size fmt args = printed m size (expand false fmt args)

abbrev pub toy-Formats : Formats toy
toy-Formats = record {
  text = expand false;
  writes = λ m size fmt args t h k e. rw e refl;
  fails = λ m size fmt args k e. (rw e refl, rw e refl);
  prints_strings = λ fmt args t e h. e;
}

-- A backend that keeps what it was called with.
abbrev pub collecting : ℕ → Bytes → ℕ → Option ℕ → List (Bytes × ℕ) → List (Bytes × ℕ)
collecting address message n context calls = (message, n) ∷ calls

abbrev pub stack : Bytes
stack = 7 ∷ 7 ∷ 7 ∷ 7 ∷ 7 ∷ 7 ∷ 7 ∷ 7 ∷ 7 ∷ 7 ∷ 7 ∷ 7 ∷ 7 ∷ 7 ∷ 7 ∷ 7 ∷ []

abbrev pub logger : Logger
logger = record { backend = some 0x400; backend_context = none; runtime_threshold = level_info }

delivered_text :
    write toy collecting 16
      (some logger)
      level_warn
      (some (literal "M"))
      (some (literal "hello world"))
      []
      stack
      []
    ≡ done (success, (literal "[WARN][M] hello" ++ (0 ∷ []), 15) ∷ [])
unfolding write ecu_platform.Logger.validate_message_level ecu_platform.Logger.level_to_string
    ecu_platform.Logger.Write.write_prefix ecu_platform.Logger.Write.write_message
delivered_text = refl

write-Delivers_example :
    Delivers toy-Formats collecting 16
      (omega arith)
      (omega arith)
      0x400
      none
      (bracketed level_warn (literal "M") ++ literal "hello world")
      []
      (write toy collecting 16
        (some logger)
        level_warn
        (some (literal "M"))
        (some (literal "hello world"))
        []
        stack
        [])
write-Delivers_example =
    write-Delivers toy-Formats collecting 16 (omega arith) (omega arith) logger 0x400 level_warn
      (literal "M") (literal "hello world") [] stack [] refl (omega arith) (omega arith)
      (omega arith) (omega arith) refl

write-Outcome_example :
    Sends toy-Formats collecting 16
      (omega arith)
      (omega arith)
      (some logger)
      9
      none
      none
      []
      []
      (write toy collecting 16 (some logger) 9 none none [] stack [])
    ⊎ Silent toy-Formats collecting 16
        (omega arith)
        (omega arith)
        (some logger)
        9
        []
        (write toy collecting 16 (some logger) 9 none none [] stack [])
write-Outcome_example =
    write-Outcome toy-Formats collecting 16 (omega arith) (omega arith) (some logger) 9 none none []
      stack [] refl

macro-Blocked_example :
    call toy collecting 16 4 debug
      (some logger)
      none
      none
      (λ w. ([], (literal "arguments", 0) ∷ w))
      stack
      []
    ≡ done ((literal "arguments", 0) ∷ [])
macro-Blocked_example =
    macro-Blocked toy collecting 16 4 logger none none (λ w. ([], (literal "arguments", 0) ∷ w))
      stack [] debug (inr (omega arith))
