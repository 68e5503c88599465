-- ===== src/Logger/Scenario.antt =====
-- Two tasks that log at the same time, and a client that uses every function of the logger.
use ecu_platform.Base.{
  ℕ, zero, suc, ◌≡◌, refl, arith, Option, none, some, List, [], ◌∷◌, ◌++◌, length, take, Bytes,
  literal, done,
}
use ecu_platform.Logger.{
  LoggerLevel, LoggerStatus, Logger, success, error_null_pointer, error_no_backend,
  error_invalid_level, get_level, level_warn, level_info,
}
use ecu_platform.Logger.Write.{Argument, string, other, write}
use native.Mathlib.Decide.{ℕ_discrete}
use ecu_platform.Logger.Turns.{Call, Stage, ready, interleave, in_turn}
use ecu_platform.Logger.Session
use ecu_platform.Logger.Session.{
  Reads, Request, configure, log, query, Answer, replied, told, promises, AllHaveRoom,
}
use ecu_platform.Logger.Promises.{run-promises}
use ecu_platform.Logger.Interleave.{finishing, interleave-eq-in_turn}
use ecu_platform.Logger.Settings.{initialize, register, settings}
use ecu_platform.Logger.Tests.{toy, toy-Formats, collecting, stack, logger}

-- Two tasks: each turn of the schedule lets one of them go on by a step.
abbrev task : ℕ → Call (Unit {0})
task zero = record {
  logger = some logger;
  level = level_warn;
  name = some (literal "M");
  fmt = some (literal "hello world");
  args = [];
  stack = stack;
}
task (suc i) = record {
  logger = some logger;
  level = level_info;
  name = some (literal "N");
  fmt = some (literal "bye");
  args = [];
  stack = stack;
}

task_room : (i : ℕ) → length (task i).stack ≡ 16
task_room zero = refl
task_room (suc i) = refl

abbrev turns : List ℕ
turns = 0 ∷ 1 ∷ 1 ∷ 0 ∷ 0 ∷ 1 ∷ 1 ∷ 0 ∷ []

in_order_of_the_backend :
    in_turn toy collecting 16 task (1 ∷ 0 ∷ []) []
    ≡ done (
        (literal "[WARN][M] hello" ++ (0 ∷ []), 15)
        ∷ (literal "[INFO][N] bye" ++ (0 ∷ 7 ∷ 7 ∷ []), 13)
        ∷ [])
unfolding in_turn write ecu_platform.Logger.validate_message_level
    ecu_platform.Logger.level_to_string ecu_platform.Logger.Write.write_prefix
    ecu_platform.Logger.Write.write_message
in_order_of_the_backend = refl

finishing_order : finishing turns (λ _. 0) ≡ 1 ∷ 0 ∷ []
unfolding ℕ_discrete
finishing_order = refl

interleave-eq-in_turn_example :
    (stages : ℕ → Stage) × (outcome : List (Bytes × ℕ)) × (interleave toy collecting 16 task turns
        (λ _. ready)
        []
      ≡ done (stages, outcome))
    × (in_turn toy collecting 16 task (finishing turns (λ _. 0)) [] ≡ done outcome)
interleave-eq-in_turn_example =
    interleave-eq-in_turn toy-Formats collecting 16 (omega arith) (omega arith) task task_room turns
      []

-- A backend that keeps the text that it was called with.
abbrev quoting : ℕ → Bytes → ℕ → Option ℕ → List Bytes → List Bytes
quoting address message n context texts = take n message ∷ texts

abbrev quoting-Reads : Reads quoting
quoting-Reads = record {
  hears = λ address text context texts. text ∷ texts;
  reads = λ address message n context texts. refl;
}

abbrev requests : List (Request (Unit {0}))
requests =
    configure (initialize 9)
    ∷ configure (initialize 2)
    ∷ log 1 (some (literal "M")) (some (literal "lost")) [] stack
    ∷ configure (register (some 0x400) none)
    ∷ log 1 (some (literal "M")) (some (literal "hello world")) [] stack
    ∷ log 3 none none [] stack
    ∷ log 0 none none [] stack
    ∷ log 2 (some (literal "M")) none [] stack
    ∷ query (some 0)
    ∷ []

requests-AllHaveRoom : AllHaveRoom 16 requests
requests-AllHaveRoom = (tt, (tt, (refl, (tt, (refl, (refl, (refl, (refl, (tt, tt)))))))))

abbrev promised_answers : List Answer × List Bytes
promised_answers =
    promises toy-Formats quoting-Reads 16 (omega arith) (omega arith) requests (settings logger) []

answers : promised_answers ≡ (
  replied error_invalid_level
      ∷ replied success
      ∷ replied error_no_backend
      ∷ replied success
      ∷ replied success
      ∷ replied success
      ∷ replied error_invalid_level
      ∷ replied error_null_pointer
      ∷ told (success, some 2)
      ∷ [],
  literal "[ERROR][M] hell" ∷ [],
)
unfolding ecu_platform.Logger.level_to_string
answers = refl

run-promises_example : Session.run toy quoting 16 requests (some logger) [] ≡ done promised_answers
run-promises_example =
    run-promises toy-Formats quoting-Reads 16 (omega arith) (omega arith) requests logger []
      (record { is_level = omega arith; no_stale_context = λ e. refl }) requests-AllHaveRoom
