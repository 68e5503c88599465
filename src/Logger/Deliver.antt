-- ===== src/Logger/Deliver.antt =====
-- What `loggerWrite` hands to the backend, and when it does.
use ecu_platform.Base.{
  ℕ, ◌-◌, ◌^◌, ◌≤◌, ◌<◌, ◌≡◌, refl, ap, ap₂, sym, ◌∙◌, arith, Option, some, List, ◌∷◌, ◌++◌, [],
  zero, suc, length-append, length, ltb, true, false, Bytes, literal, Exec, done, take, length-take,
  take-append-take,
}
use ecu_platform.Logger.{
  LoggerLevel, LoggerStatus, Logger, success, error_invalid_level, level_error, level_debug,
  level_to_string, validate_message_level,
}
use ecu_platform.Logger.Write.{Argument, string, prefix_format, emit, write_unfiltered, write}
use ecu_platform.Logger.Format.{
  Formats, or_empty, prefix_text, write_prefix-Prefixed, write_message-Messaged,
}

-- The names of the levels of include/logger.h, from ERROR to DEBUG.
abbrev pub level_name : ℕ → Bytes
level_name (suc zero) = literal "ERROR"
level_name (suc (suc zero)) = literal "WARN"
level_name (suc (suc (suc zero))) = literal "INFO"
level_name (suc (suc (suc (suc zero)))) = literal "DEBUG"
level_name _ = []

-- "[LEVEL][MODULE] "
abbrev pub bracketed : ℕ → Bytes → Bytes
bracketed level name = literal "[" ++ (level_name level ++ (literal "][" ++ (name ++ literal "] ")))

pub severity_done :
    (level : LoggerLevel)
    → level_error ≤ level
    → level ≤ level_debug
    → validate_message_level level ≡ success
unfolding validate_message_level
severity_done level h k = ground arith

pub severity_off :
    (level : LoggerLevel) → level < level_error → validate_message_level level ≡ error_invalid_level
unfolding validate_message_level
severity_off level h = ground arith

pub severity_over :
    (level : LoggerLevel) → level_debug < level → validate_message_level level ≡ error_invalid_level
unfolding validate_message_level
severity_over level h = ground arith

pub above : (level threshold : LoggerLevel) → threshold < level → ltb threshold level ≡ true
above level threshold h = ground arith

pub not_above : (level threshold : LoggerLevel) → level ≤ threshold → ltb threshold level ≡ false
not_above level threshold h = ground arith

module _ {ℓ κ} {A : Type ℓ} {W : Type κ}
    {format : Bytes → ℕ → Bytes → List (Argument A) → Bytes × Option ℕ} (f : Formats format)
    (backend : ℕ → Bytes → ℕ → Option ℕ → W → W) (max_length : ℕ) (least : 2 ≤ max_length)
    (small : max_length < 2 ^ 64) where
  -- The run calls the backend once, with `text` cut to fit and terminated within a buffer of
  -- `max_length` bytes, and with the length of the text that is left.
  pub record Delivers (address : ℕ) (context : Option ℕ) (text : Bytes) (world : W)
      (run : Exec (LoggerStatus × W)) : Type κ where
    pub message : Bytes
    pub behind : Bytes
    pub room : length message ≡ max_length
    pub holds : message ≡ take (max_length - 1) text ++ (0 ∷ behind)
    pub returns :
        run
        ≡ done
            (success, backend address message (length (take (max_length - 1) text)) context world)

  pub emit-Delivers :
      (address : ℕ) (context : Option ℕ) (level : LoggerLevel) (name fmt : Bytes)
      (args : List (Argument A)) (stack : Bytes) (world : W)
      → length stack ≡ max_length
      → Delivers address context
          (prefix_text f max_length least small level name ++ or_empty (f.text fmt args))
          world
          (emit format backend max_length address context level name fmt args stack world)
  unfolding emit
  emit-Delivers address context level name fmt args stack world room =
      let p = write_prefix-Prefixed f max_length least small stack level name room in
      let before = prefix_text f max_length least small level name in
      let t = or_empty (f.text fmt args) in
      let lp = length-take (max_length - 1) before in
      let m =
        write_message-Messaged f max_length least small p.buffer p.used (omega (arith, p.used_eq))
          p.room fmt args in
      let cut : take p.used p.buffer ++ take (max_length - p.used - 1) t
          ≡ take (max_length - 1) (before ++ t) =
        ap₂ (λ x n. x ++ take n t) p.starts
          (room_left p.used (length (take (max_length - 1) before)) p.used_eq)
        ∙ sym (take-append-take (max_length - 1) before t) in
      record {
        message = m.buffer;
        behind = m.behind;
        room = m.room;
        holds = m.holds ∙ ap (λ x. x ++ (0 ∷ m.behind)) cut;
        returns =
            rw (p.returns, m.returns)
              (ap (λ n. done (success, backend address m.buffer n context world))
                (omega
                  (arith, m.length_eq, ap length cut, length-take (max_length - 1) (before ++ t))));
      }
    where
      room_left : (u n : ℕ) → u ≡ n → max_length - u - 1 ≡ max_length - 1 - n
      room_left u n e = omega arith

  -- A call that passes the checks and the threshold.
  pub entered :
      (l : Logger) (level : LoggerLevel) (name fmt : Option Bytes) (args : List (Argument A))
      (stack : Bytes) (world : W)
      → level_error ≤ level
      → level ≤ level_debug
      → level ≤ l.runtime_threshold
      → write format backend max_length (some l) level name fmt args stack world
        ≡ write_unfiltered format backend max_length l level name fmt args stack world
  unfolding write
  entered l level name fmt args stack world h k p =
      rw (severity_done level h k, not_above level l.runtime_threshold p, write) refl

level_to_string-eq :
    (level : LoggerLevel)
    → level_error ≤ level
    → level ≤ level_debug
    → level_to_string level ≡ level_name level
unfolding level_to_string
level_to_string-eq zero h k = absurd (omega arith)
level_to_string-eq (suc zero) h k = refl
level_to_string-eq (suc (suc zero)) h k = refl
level_to_string-eq (suc (suc (suc zero))) h k = refl
level_to_string-eq (suc (suc (suc (suc zero)))) h k = refl
level_to_string-eq (suc (suc (suc (suc (suc n))))) h k = absurd (omega arith)

level_name-le : (level : ℕ) → length (level_name level) ≤ 5
level_name-le zero = omega arith
level_name-le (suc zero) = omega arith
level_name-le (suc (suc zero)) = omega arith
level_name-le (suc (suc (suc zero))) = omega arith
level_name-le (suc (suc (suc (suc zero)))) = omega arith
level_name-le (suc (suc (suc (suc (suc n))))) = omega arith

bracketed-lt :
    (level : ℕ) (name : Bytes) → length name < 2 ^ 29 → length (bracketed level name) < 2 ^ 31
bracketed-lt level name h = omega (
  arith,
  level_name-le level,
  length-append (level_name level) (literal "][" ++ (name ++ literal "] ")),
  length-append name (literal "] "),
)

module _ {ℓ κ} {A : Type ℓ} {W : Type κ}
    {format : Bytes → ℕ → Bytes → List (Argument A) → Bytes × Option ℕ} (f : Formats format)
    (backend : ℕ → Bytes → ℕ → Option ℕ → W → W) (max_length : ℕ) (least : 2 ≤ max_length)
    (small : max_length < 2 ^ 64) where
  prefix_text-eq :
      (level : LoggerLevel) (name : Bytes)
      → level_error ≤ level
      → level ≤ level_debug
      → length name < 2 ^ 29
      → prefix_text f max_length least small level name ≡ bracketed level name
  prefix_text-eq level name h k short = rw (level_to_string-eq level h k) (
      ap or_empty (
        f.prints_strings prefix_format (string (level_name level) ∷ string name ∷ [])
          (bracketed level name) refl (bracketed-lt level name short)))

  -- A message of a severity from ERROR to DEBUG at most the threshold, with a backend and a module
  -- name of fewer than 2 ^ 29 bytes, reaches the backend as "[LEVEL][MODULE] ", with the name
  -- ERROR, WARN, INFO or DEBUG of the level, followed by the formatted text, cut to one byte less
  -- than the maximal length and terminated, together with the length that is left and the
  -- registered context.
  pub write-Delivers :
      (l : Logger) (address : ℕ) (level : LoggerLevel) (name fmt : Bytes) (args : List (Argument A))
      (stack : Bytes) (world : W)
      → l.backend ≡ some address
      → level_error ≤ level
      → level ≤ level_debug
      → level ≤ l.runtime_threshold
      → length name < 2 ^ 29
      → length stack ≡ max_length
      → Delivers f backend max_length least small address l.backend_context
          (bracketed level name ++ or_empty (f.text fmt args))
          world
          (write format backend max_length (some l) level (some name) (some fmt) args stack world)
  unfolding write_unfiltered emit
  write-Delivers l address level name fmt args stack world b h k p short room =
      let sent =
        emit-Delivers f backend max_length least small address l.backend_context level name fmt args
          stack world room in
      let text =
        ap (λ x. take (max_length - 1) (x ++ or_empty (f.text fmt args)))
          (prefix_text-eq level name h k short) in
      record {
        message = sent.message;
        behind = sent.behind;
        room = sent.room;
        holds = sent.holds ∙ ap (λ x. x ++ (0 ∷ sent.behind)) text;
        returns =
            entered f backend max_length least small l level (some name) (some fmt) args stack world
              h k p
            ∙ rw b sent.returns
            ∙ ap
                (λ x.
                  done (success, backend address sent.message (length x) l.backend_context world))
                text;
      }
