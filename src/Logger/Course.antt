-- ===== src/Logger/Course.antt =====
-- The stages that one call of `loggerWrite` of src/logger.c goes through.
use ecu_platform.Base.{
  ℕ, ◌^◌, ◌≤◌, ◌<◌, ◌≡◌, refl, ◌∙◌, arith, inl, inr, Option, none, some, List, length, length-take,
  ◌-◌, Bytes, done, size_add, Option-cases, Bool-cases, ltb,
}
use ecu_platform.Logger.{
  LoggerLevel, LoggerStatus, Logger, success, error_null_pointer, error_no_backend,
  validate_message_level,
}
use ecu_platform.Logger.Write.{Argument, write, write_unfiltered, emit}
use ecu_platform.Logger.Format.{Formats, prefix_text, write_prefix-Prefixed, write_message-Messaged}
use ecu_platform.Logger.Turns.{
  Call, Stage, ready, admitted, prefixed, formatted, finished, admit_unfiltered, admit, advance,
  whole,
}

module _ {ℓ κ} {A : Type ℓ} {W : Type κ}
    {format : Bytes → ℕ → Bytes → List (Argument A) → Bytes × Option ℕ} (f : Formats format)
    (backend : ℕ → Bytes → ℕ → Option ℕ → W → W) (max_length : ℕ) (least : 2 ≤ max_length)
    (small : max_length < 2 ^ 64) where
  -- The stages of a call on its own, the status that it ends with, and what it does to the world.
  pub record Course (c : Call A) : Type (ℓ ⊔ κ) where
    pub first : Stage
    pub second : Stage
    pub third : Stage
    pub status : LoggerStatus
    pub effect : W → W
    pub step_one : (w : W) → advance format backend max_length c ready w ≡ done (first, w)
    pub step_two : (w : W) → advance format backend max_length c first w ≡ done (second, w)
    pub step_three : (w : W) → advance format backend max_length c second w ≡ done (third, w)
    pub step_four :
        (w : W) → advance format backend max_length c third w ≡ done (finished status, effect w)
    pub sequential : (w : W) → whole format backend max_length c w ≡ done (status, effect w)

  module _ (c : Call A) (room : length c.stack ≡ max_length) where
    over :
        (status : LoggerStatus)
        → admit c.logger c.level c.name c.fmt ≡ finished status
        → ((w : W) → whole format backend max_length c w ≡ done (status, w))
        → Course c
    unfolding advance
    over status e s = record {
      first = finished status;
      second = finished status;
      third = finished status;
      status = status;
      effect = λ w. w;
      step_one = λ w. rw e refl;
      step_two = λ w. refl;
      step_three = λ w. refl;
      step_four = λ w. refl;
      sequential = s;
    }

    sent :
        (address : ℕ) (context : Option ℕ) (name fmt : Bytes)
        → admit c.logger c.level c.name c.fmt ≡ admitted address context name fmt
        → ((w : W)
            → whole format backend max_length c w
              ≡ emit format backend max_length address context c.level name fmt c.args c.stack w)
        → Course c
    unfolding advance emit
    sent address context name fmt e s =
        let p = write_prefix-Prefixed f max_length least small c.stack c.level name room in
        let lp = length-take (max_length - 1) (prefix_text f max_length least small c.level name) in
        let m =
          write_message-Messaged f max_length least small p.buffer p.used (omega (arith, p.used_eq))
            p.room fmt c.args in
        record {
          first = admitted address context name fmt;
          second = prefixed address context fmt p.buffer p.used;
          third = formatted address context m.buffer (size_add p.used m.written);
          status = success;
          effect = backend address m.buffer (size_add p.used m.written) context;
          step_one = λ w. rw e refl;
          step_two = λ w. rw p.returns refl;
          step_three = λ w. rw m.returns refl;
          step_four = λ w. refl;
          sequential = λ w. s w ∙ rw (p.returns, m.returns) refl;
        }

  course-unfiltered :
      (l : Logger) (level : LoggerLevel) (name fmt : Option Bytes) (args : List (Argument A))
      (stack : Bytes) (room : length stack ≡ max_length)
      → admit (some l) level name fmt ≡ admit_unfiltered l name fmt
      → ((w : W)
          → write format backend max_length (some l) level name fmt args stack w
            ≡ write_unfiltered format backend max_length l level name fmt args stack w)
      → Course (record {
        logger = some l;
        level = level;
        name = name;
        fmt = fmt;
        args = args;
        stack = stack;
      })
  unfolding admit_unfiltered write_unfiltered
  course-unfiltered l level none fmt args stack room e s = over _ room error_null_pointer e s
  course-unfiltered l level (some name) none args stack room e s =
      over _ room error_null_pointer e s
  course-unfiltered l level (some name) (some fmt) args stack room e s =
      elim (Option-cases l.backend) [
        | inl b ↦ over _ room error_no_backend (rw (e, b) refl) (λ w. rw (s w, b) refl)
        | inr (address, b) ↦
            sent _ room address l.backend_context name fmt (rw (e, b) refl) (λ w. rw (s w, b) refl)
      ]

  course-some :
      (l : Logger) (level : LoggerLevel) (name fmt : Option Bytes) (args : List (Argument A))
      (stack : Bytes) (room : length stack ≡ max_length) (v : LoggerStatus)
      → validate_message_level level ≡ v
      → Course (record {
        logger = some l;
        level = level;
        name = name;
        fmt = fmt;
        args = args;
        stack = stack;
      })
  unfolding admit write
  course-some l level name fmt args stack room success e =
      elim (Bool-cases (ltb l.runtime_threshold level)) [
        | inl t ↦ over _ room success (rw (e, t, admit) refl) (λ w. rw (e, t, write) refl)
        | inr t ↦
            course-unfiltered l level name fmt args stack room (rw (e, t, admit) refl)
              (λ w. rw (e, t, write) refl)
      ]
  course-some l level name fmt args stack room error e =
      over _ room error (rw (e, admit) refl) (λ w. rw (e, write) refl)

  course-at :
      (logger : Option Logger) (level : LoggerLevel) (name fmt : Option Bytes)
      (args : List (Argument A)) (stack : Bytes)
      → length stack ≡ max_length
      → Course (record {
        logger = logger;
        level = level;
        name = name;
        fmt = fmt;
        args = args;
        stack = stack;
      })
  unfolding admit write
  course-at none level name fmt args stack room = over _ room error_null_pointer refl (λ w. refl)
  course-at (some l) level name fmt args stack room =
      course-some l level name fmt args stack room _ refl

  pub course : (c : Call A) → length c.stack ≡ max_length → Course c
  course c room = course-at c.logger c.level c.name c.fmt c.args c.stack room
