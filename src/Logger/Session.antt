-- ===== src/Logger/Session.antt =====
-- Everything that a client does with a logger of src/logger.c, in any order: settings, messages and
-- the reading of the level, and what include/logger.h promises of it.
use ecu_platform.Base.{
  ℕ, ◌-◌, ◌^◌, ◌≤◌, ◌<◌, ◌≡◌, Option, none, some, List, [], ◌∷◌, ◌++◌, length, take, ltb, ◌==◌,
  ◌||◌, if◌then◌else◌, Bytes, Exec, done, ◌>>=◌,
}
use ecu_platform.Logger.{
  LoggerLevel, LoggerStatus, Logger, success, error_null_pointer, error_no_backend,
  error_invalid_level, level_off, level_debug, get_level,
}
use ecu_platform.Logger.Write.{Argument, write}
use ecu_platform.Logger.Format.{Formats, or_empty, prefix_text}
use ecu_platform.Logger.Settings.{
  Change, initialize, register, unregister, threshold, apply, Settings, change,
}

-- A backend that looks at the text that it is given and at nothing behind it.
pub record Reads {κ} {W : Type κ} (backend : ℕ → Bytes → ℕ → Option ℕ → W → W) : Type κ where
  pub hears : ℕ → Bytes → Option ℕ → W → W
  pub reads :
      (address : ℕ) (message : Bytes) (n : ℕ) (context : Option ℕ) (world : W)
      → backend address message n context world ≡ hears address (take n message) context world

-- A call, with its arguments; a message comes with what its local buffer holds at first.
pub data Request {ℓ} (A : Type ℓ) : Type ℓ where
  configure : Change → Request A
  log : LoggerLevel → Option Bytes → Option Bytes → List (Argument A) → Bytes → Request A
  query : Option LoggerLevel → Request A

pub data Answer : Type 0 where
  replied : LoggerStatus → Answer
  told : LoggerStatus × Option LoggerLevel → Answer

module _ {ℓ κ} {A : Type ℓ} {W : Type κ}
    (format : Bytes → ℕ → Bytes → List (Argument A) → Bytes × Option ℕ)
    (backend : ℕ → Bytes → ℕ → Option ℕ → W → W) (max_length : ℕ) where
  unfoldable pub perform : Request A → Option Logger → W → Exec (Answer × Option Logger × W)
  perform (configure c) l world = done (replied (apply c l).0, (apply c l).1, world)
  perform (log level name fmt args stack) l world =
      write format backend max_length l level name fmt args stack world >>= λ r.
      done (replied r.0, l, r.1)
  perform (query out) l world = done (told (get_level l out), l, world)

  unfoldable pub run : List (Request A) → Option Logger → W → Exec (List Answer × W)
  unfolding perform
  run [] l world = done ([], world)
  run (r ∷ requests) l world = do
    now ← perform r l world
    later ← run requests now.1 now.2
    done (now.0 ∷ later.0, later.1)

-- The status of a change of the settings.
abbrev pub change_status : Change → LoggerStatus
change_status (initialize k) = if ltb level_debug k then error_invalid_level else success
change_status (register none context) = error_null_pointer
change_status (register (some b) context) = success
change_status unregister = success
change_status (threshold k) = if ltb level_debug k then error_invalid_level else success

abbrev pub level_answer : Settings → Option LoggerLevel → LoggerStatus × Option LoggerLevel
level_answer s none = (error_null_pointer, none)
level_answer s (some old) = (success, some s.level)

module _ {ℓ κ} {A : Type ℓ} {W : Type κ}
    {format : Bytes → ℕ → Bytes → List (Argument A) → Bytes × Option ℕ} (f : Formats format)
    {backend : ℕ → Bytes → ℕ → Option ℕ → W → W} (b : Reads backend) (max_length : ℕ)
    (least : 2 ≤ max_length) (small : max_length < 2 ^ 64) where
  -- The text of a message, before it is cut.
  abbrev pub full_text : LoggerLevel → Bytes → Bytes → List (Argument A) → Bytes
  full_text level name fmt args =
      prefix_text f max_length least small level name ++ or_empty (f.text fmt args)

  -- What becomes of a message that passed the threshold.
  abbrev pub sent :
      Option (ℕ × Option ℕ)
      → LoggerLevel
      → Option Bytes
      → Option Bytes
      → List (Argument A)
      → W
      → LoggerStatus × W
  sent sink level none fmt args world = (error_null_pointer, world)
  sent sink level (some name) none args world = (error_null_pointer, world)
  sent none level (some name) (some fmt) args world = (error_no_backend, world)
  sent (some (address, context)) level (some name) (some fmt) args world = (
    success,
    b.hears address (take (max_length - 1) (full_text level name fmt args)) context world,
  )

  -- What becomes of a message.
  abbrev pub logged :
      Settings
      → LoggerLevel
      → Option Bytes
      → Option Bytes
      → List (Argument A)
      → W
      → LoggerStatus × W
  logged s level name fmt args world =
      if level == level_off || ltb level_debug level
      then (error_invalid_level, world)
      else if ltb s.level level
      then (success, world)
      else sent s.sink level name fmt args world

  -- What the header promises for a call, and for calls in order.
  abbrev pub promised : Request A → Settings → W → Answer × Settings × W
  promised (configure c) s world = (replied (change_status c), change c s, world)
  promised (log level name fmt args stack) s world =
      let r = logged s level name fmt args world in (replied r.0, s, r.1)
  promised (query out) s world = (told (level_answer s out), s, world)

  abbrev pub promises : List (Request A) → Settings → W → List Answer × W
  promises [] s world = ([], world)
  promises (r ∷ requests) s world =
      let now = promised r s world in
      let later = promises requests now.1 now.2 in (now.0 ∷ later.0, later.1)

module _ {ℓ} {A : Type ℓ} (max_length : ℕ) where
  -- A local buffer has the maximal length.
  abbrev pub HasRoom : Request A → Type 0
  HasRoom (log level name fmt args stack) = length stack ≡ max_length
  HasRoom _ = Unit {0}

  abbrev pub AllHaveRoom : List (Request A) → Type 0
  AllHaveRoom [] = Unit {0}
  AllHaveRoom (r ∷ requests) = HasRoom r × AllHaveRoom requests
