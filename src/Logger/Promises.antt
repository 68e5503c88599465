-- ===== src/Logger/Promises.antt =====
-- Loggers of src/logger.c and the promises of include/logger.h, over sequences of calls.
use native.Mathlib.Decide.{dec_lt}
use ecu_platform.Base.{
  ℕ, ◌-◌, ◌^◌, ◌≤◌, ◌<◌, ◌≡◌, refl, ap, ap₂, ◌∙◌, arith, Option, none, some, List, [], ◌∷◌, length,
  take, take-append, Option-cases, inl, inr, Bytes, Exec, done,
}
use ecu_platform.Logger.{
  LoggerLevel, Logger, success, error_null_pointer, level_error, level_debug, get_level, init,
  set_backend, clear_backend, set_level,
}
use ecu_platform.Logger.Write.{Argument, emit, write_unfiltered, write}
use ecu_platform.Logger.Format.{Formats}
use ecu_platform.Logger.Deliver.{
  emit-Delivers, entered, severity_done, severity_off, severity_over, above,
}
use ecu_platform.Logger.Settings.{
  Change, initialize, register, unregister, threshold, apply, Settings, settings, sink_of, IsValid,
  apply-Configured,
}
use ecu_platform.Logger.Session.{
  Reads, Request, configure, log, query, Answer, replied, told, perform, run, change_status,
  full_text, sent, logged, promised, promises, HasRoom, AllHaveRoom,
}

apply-status : (c : Change) (l : Logger) → (apply c (some l)).0 ≡ change_status c
unfolding apply init set_backend clear_backend set_level
apply-status (initialize k) l = ground arith
apply-status (register none context) l = refl
apply-status (register (some b) context) l = refl
apply-status unregister l = refl
apply-status (threshold k) l = ground arith

module _ {ℓ κ} {A : Type ℓ} {W : Type κ}
    {format : Bytes → ℕ → Bytes → List (Argument A) → Bytes × Option ℕ} (f : Formats format)
    {backend : ℕ → Bytes → ℕ → Option ℕ → W → W} (b : Reads backend) (max_length : ℕ)
    (least : 2 ≤ max_length) (small : max_length < 2 ^ 64) where
  module _ (l : Logger) (level : LoggerLevel) (args : List (Argument A)) (stack : Bytes) (world : W)
      (room : length stack ≡ max_length) where
    emitted :
        (address : ℕ) (context : Option ℕ) (name fmt : Bytes)
        → emit format backend max_length address context level name fmt args stack world
          ≡ done (
              sent f b max_length least small
                (some (address, context))
                level
                (some name)
                (some fmt)
                args
                world)
    emitted address context name fmt =
        let d =
          emit-Delivers f backend max_length least small address context level name fmt args stack
            world room in
        let text =
          take (max_length - 1) (full_text f b max_length least small level name fmt args) in
        let heard : take (length text) d.message ≡ text =
          ap (take (length text)) d.holds ∙ take-append (length text) text (0 ∷ d.behind) refl in
        d.returns
        ∙ ap (λ w. done (success, w))
            (b.reads address d.message (length text) context world
              ∙ ap (λ t. b.hears address t context world) heard)

    unfiltered-eq :
        (name fmt : Option Bytes)
        → write_unfiltered format backend max_length l level name fmt args stack world
          ≡ done (
              sent f b max_length least small
                (sink_of l.backend l.backend_context)
                level
                name
                fmt
                args
                world)
    unfolding write_unfiltered
    unfiltered-eq none fmt = refl
    unfiltered-eq (some name) none = refl
    unfiltered-eq (some name) (some fmt) = elim (Option-cases l.backend) [
      | inl e ↦ rw e refl
      | inr (address, e) ↦ rw e (emitted address l.backend_context name fmt)
    ]

    write-logged :
        (name fmt : Option Bytes)
        → write format backend max_length (some l) level name fmt args stack world
          ≡ done (logged f b max_length least small (settings l) level name fmt args world)
    unfolding write
    write-logged name fmt = elim (dec_lt level level_error) [
      | yes off ↦ rw (severity_off level off, write) (ground arith)
      | no h ↦ elim (dec_lt level_debug level) [
        | yes over ↦ rw (severity_over level over, write) (ground arith)
        | no k ↦ elim (dec_lt l.runtime_threshold level) [
          | yes p ↦
              rw
                (
                  severity_done level (omega arith) (omega arith),
                  above level l.runtime_threshold p,
                  write,
                )
                (ground arith)
          | no p ↦
              entered f backend max_length least small l level name fmt args stack world
                (omega arith) (omega arith) (omega arith)
              ∙ unfiltered-eq name fmt
              ∙ ground arith
        ]
      ]
    ]

  record Performed (r : Request A) (s : Settings) (world : W)
      (run : Exec (Answer × Option Logger × W)) : Type κ where
    answer : Answer
    logger : Logger
    outcome : W
    returns : run ≡ done (answer, some logger, outcome)
    valid : IsValid logger
    refines : (answer, settings logger, outcome) ≡ promised f b max_length least small r s world

  performed :
      (r : Request A) (l : Logger) (world : W)
      → IsValid l
      → HasRoom max_length r
      → Performed r (settings l) world (perform format backend max_length r (some l) world)
  unfolding perform get_level
  performed (configure c) l world v h =
      let now = apply-Configured c l v in
      record {
        answer = replied (apply c (some l)).0;
        logger = now.logger;
        outcome = world;
        returns = ap (λ x. done (replied (apply c (some l)).0, x, world)) now.returns;
        valid = now.valid;
        refines = ap₂ (λ x s. (replied x, s, world)) (apply-status c l) now.refines;
      }
  performed (log level name fmt args stack) l world v h =
      let r = logged f b max_length least small (settings l) level name fmt args world in
      record {
        answer = replied r.0;
        logger = l;
        outcome = r.1;
        returns = rw (write-logged l level args stack world h name fmt) refl;
        valid = v;
        refines = refl;
      }
  performed (query none) l world v h = record {
    answer = told (error_null_pointer, none);
    logger = l;
    outcome = world;
    returns = refl;
    valid = v;
    refines = refl;
  }
  performed (query (some old)) l world v h = record {
    answer = told (success, some l.runtime_threshold);
    logger = l;
    outcome = world;
    returns = refl;
    valid = v;
    refines = refl;
  }

  -- With backends that look at nothing but the text that they are given: from valid settings, any
  -- sequence of init, set_backend, clear_backend, set_level, get_level and write calls, with NULL
  -- or any value for each argument and a local buffer of the maximal length for each message, runs
  -- without an access out of bounds, with the statuses and levels that the header promises, and
  -- the backends have heard, with the registered context and in order, the texts of exactly those
  -- messages that the level, the arguments and the registered backend let through, cut to one byte
  -- less than the maximal length.
  pub run-promises :
      (requests : List (Request A)) (l : Logger) (world : W)
      → IsValid l
      → AllHaveRoom max_length requests
      → run format backend max_length requests (some l) world
        ≡ done (promises f b max_length least small requests (settings l) world)
  unfolding run
  run-promises [] l world v h = refl
  run-promises (r ∷ requests) l world v h =
      let now = performed r l world v h.0 in
      let ih = run-promises requests now.logger now.outcome now.valid h.1 in
      rw (now.returns, ih)
        (ap
          (λ x.
            let later = promises f b max_length least small requests x.1 x.2 in
            done (x.0 ∷ later.0, later.1))
          now.refines)
