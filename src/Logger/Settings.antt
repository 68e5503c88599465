-- ===== src/Logger/Settings.antt =====
-- The logger's settings under any sequence of calls: the threshold stays a level, and the last
-- accepted calls count.
use ecu_platform.Base.{
  ℕ, ◌≤◌, ◌≡◌, refl, ◌∙◌, arith, Option, none, some, List, [], ◌∷◌, ltb, if◌then◌else◌, Bool-cases,
  inl, inr, ap,
}
use ecu_platform.Logger.{
  LoggerLevel, LoggerStatus, Logger, success, error_invalid_level, level_debug, init, set_backend,
  clear_backend, set_level, get_level,
}

-- A call that changes settings, with its arguments.
pub data Change : Type 0 where
  initialize : LoggerLevel → Change
  register : Option ℕ → Option ℕ → Change
  unregister : Change
  threshold : LoggerLevel → Change

unfoldable pub apply : Change → Option Logger → LoggerStatus × Option Logger
apply (initialize level) l = init l level
apply (register backend context) l = set_backend l backend context
apply unregister l = clear_backend l
apply (threshold level) l = set_level l level

pub run : List Change → Option Logger → Option Logger
run [] l = l
run (c ∷ cs) l = run cs (apply c l).1

-- What a client sees of the settings: the level, and the backend with the context that it gets.
pub record Settings : Type 0 where
  pub level : LoggerLevel
  pub sink : Option (ℕ × Option ℕ)

-- Each change as the header promises it: a level that is none, and a NULL backend, change nothing.
abbrev pub change : Change → Settings → Settings
change (initialize k) s = if ltb level_debug k then s else record { level = k; sink = none }
change (register none context) s = s
change (register (some b) context) s = record s { sink = some (b, context) }
change unregister s = record s { sink = none }
change (threshold k) s = if ltb level_debug k then s else record s { level = k }

abbrev pub changes : List Change → Settings → Settings
changes [] s = s
changes (c ∷ cs) s = changes cs (change c s)

abbrev pub sink_of : Option ℕ → Option ℕ → Option (ℕ × Option ℕ)
sink_of none context = none
sink_of (some b) context = some (b, context)

abbrev pub settings : Logger → Settings
settings l = record { level = l.runtime_threshold; sink = sink_of l.backend l.backend_context }

-- The threshold is one of the five levels, and no context is left behind without a backend.
pub record IsValid (l : Logger) : Type 0 where
  pub is_level : l.runtime_threshold ≤ level_debug
  pub no_stale_context : l.backend ≡ none → l.backend_context ≡ none

pub record Configured (s : Settings) (result : Option Logger) : Type 0 where
  pub logger : Logger
  pub returns : result ≡ some logger
  pub valid : IsValid logger
  pub refines : settings logger ≡ s

-- Both functions that take a threshold, with one test.
init-eq :
    (l : Logger) (k : LoggerLevel)
    → init (some l) k ≡ (
        if ltb level_debug k then (error_invalid_level, some l) else (
          success,
          some (record { backend = none; backend_context = none; runtime_threshold = k }),
        ))
unfolding init
init-eq l k = ground arith

set_level-eq :
    (l : Logger) (k : LoggerLevel)
    → set_level (some l) k ≡ (
        if ltb level_debug k
        then (error_invalid_level, some l)
        else (success, some (record l { runtime_threshold = k })))
unfolding set_level
set_level-eq l k = ground arith

kept : (l : Logger) → IsValid l → Configured (settings l) (some l)
kept l v = record { logger = l; returns = refl; valid = v; refines = refl }

pub apply-Configured :
    (c : Change) (l : Logger) → IsValid l → Configured (change c (settings l)) (apply c (some l)).1
unfolding apply set_backend clear_backend
apply-Configured (initialize k) l v = elim (Bool-cases (ltb level_debug k)) [
  | inl over ↦ rw (init-eq l k, over) (kept l v)
  | inr fits ↦
      rw (init-eq l k, fits)
        (record {
          logger = record { backend = none; backend_context = none; runtime_threshold = k };
          returns = refl;
          valid = record { is_level = ground arith; no_stale_context = λ e. refl };
          refines = refl;
        })
]
apply-Configured (register none context) l v = kept l v
apply-Configured (register (some b) context) l v = record {
  logger = record l { backend = some b; backend_context = context };
  returns = refl;
  valid = record { is_level = v.is_level; no_stale_context = λ e. cc };
  refines = refl;
}
apply-Configured unregister l v = record {
  logger = record l { backend = none; backend_context = none };
  returns = refl;
  valid = record { is_level = v.is_level; no_stale_context = λ e. refl };
  refines = refl;
}
apply-Configured (threshold k) l v = elim (Bool-cases (ltb level_debug k)) [
  | inl over ↦ rw (set_level-eq l k, over) (kept l v)
  | inr fits ↦
      rw (set_level-eq l k, fits)
        (record {
          logger = record l { runtime_threshold = k };
          returns = refl;
          valid = record { is_level = ground arith; no_stale_context = v.no_stale_context };
          refines = refl;
        })
]

run_from :
    (cs : List Change) (l : Logger)
    → IsValid l
    → Configured (changes cs (settings l)) (run cs (some l))
unfolding run
run_from [] l v = kept l v
run_from (c ∷ cs) l v =
    let now = apply-Configured c l v in
    let rest = run_from cs now.logger now.valid in
    record {
      logger = rest.logger;
      returns = rw now.returns rest.returns;
      valid = rest.valid;
      refines = rest.refines ∙ ap (changes cs) now.refines;
    }

-- From valid logger settings, any sequence of init, set_backend, clear_backend and set_level calls
-- keeps the settings valid and refines the documented ones, in which a level that is none and a
-- NULL backend change nothing and clearing drops the context too; get_level then gives the level
-- of those.
pub run-Configured :
    (cs : List Change) (l : Logger)
    → IsValid l
    → Configured (changes cs (settings l)) (run cs (some l))
      × ((old : LoggerLevel)
          → get_level (run cs (some l)) (some old)
            ≡ (success, some (changes cs (settings l)).level))
unfolding get_level
run-Configured cs l v =
    let last = run_from cs l v in
    (last, λ old. rw last.returns (ap (λ s. (success, some s.level)) last.refines))
