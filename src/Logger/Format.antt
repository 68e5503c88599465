-- ===== src/Logger/Format.antt =====
-- What the logger relies on of `vsnprintf`, and what its two calls leave in the buffer.
use mathlib.Core.List.{append_assoc, append-nil}
use ecu_platform.Base.{
  ℕ, ◌+◌, ◌-◌, ◌^◌, ◌≤◌, ◌<◌, ◌≡◌, refl, ◌∙◌, arith, Option, none, some, List, [], ◌∷◌, ◌++◌, Bool,
  true, false, ◌==◌, length, length-append, Bytes, Exec, done, take, drop, splice, set,
  write_at_done, size_sub, length-take, length-drop, take-append, splice-zero, length-set,
  length-splice, Option-cases, inl, inr, sym, take-nil, set-append_at,
}
use ecu_platform.Logger.{LoggerLevel, level_to_string}
use ecu_platform.Logger.Write.{
  Argument, string, prefix_format, print_to, clamp_prefix, write_prefix, clamp_message,
  write_message,
}

-- A piece of text, printed in front of the rest.
abbrev printing : Bytes → Option Bytes → Option Bytes
printing s none = none
printing s (some t) = some (s ++ t)

-- The text of a format of which each conversion is "%s" or "%%": "%s" prints the next argument, a
-- string, and "%%" a percent sign; arguments that are left are ignored. `behind` is true behind the
-- percent sign of a conversion. `none` for any other format.
abbrev pub expand {ℓ} : {A : Type ℓ} → (behind : Bool) → Bytes → List (Argument A) → Option Bytes
expand false [] args = some []
expand true [] args = none
expand false (c ∷ fmt) args = elim (c == 0x25) [
  | true ↦ expand true fmt args
  | false ↦ printing (c ∷ []) (expand false fmt args)
]
expand true (c ∷ fmt) (string s ∷ args) = elim (c == 0x73) [
  | true ↦ printing s (expand false fmt args)
  | false ↦ elim (c == 0x25) [
    | true ↦ printing (c ∷ []) (expand false fmt (string s ∷ args))
    | false ↦ none
  ]
]
expand true (c ∷ fmt) args = elim (c == 0x25) [
  | true ↦ printing (c ∷ []) (expand false fmt args)
  | false ↦ none
]

-- The C standard on `vsnprintf`. `text` is the text of a format, `none` if its conversion fails. The
-- text is written as far as it fits, and terminated; its whole length is the result. A failed
-- conversion has a negative result and writes within the memory it was given. Formats of strings
-- print as `expand` says, if the length of the text is an `int`.
pub record Formats {ℓ} {A : Type ℓ}
    (format : Bytes → ℕ → Bytes → List (Argument A) → Bytes × Option ℕ) : Type ℓ where
  pub text : Bytes → List (Argument A) → Option Bytes
  pub writes :
      (m : Bytes) (size : ℕ) (fmt : Bytes) (args : List (Argument A)) (t : Bytes)
      → 1 ≤ size
      → size ≤ length m
      → text fmt args ≡ some t
      → format m size fmt args ≡ (splice m 0 (take (size - 1) t ++ (0 ∷ [])), some (length t))
  pub fails :
      (m : Bytes) (size : ℕ) (fmt : Bytes) (args : List (Argument A))
      → size ≤ length m
      → text fmt args ≡ none
      → ((format m size fmt args).1 ≡ none) × (length (format m size fmt args).0 ≡ length m)
  pub prints_strings :
      (fmt : Bytes) (args : List (Argument A)) (t : Bytes)
      → expand false fmt args ≡ some t
      → length t < 2 ^ 31
      → text fmt args ≡ some t

-- The text, empty if the conversion fails.
abbrev pub or_empty : Option Bytes → Bytes
or_empty none = []
or_empty (some t) = t

module _ {ℓ} {A : Type ℓ} {format : Bytes → ℕ → Bytes → List (Argument A) → Bytes × Option ℕ}
    (f : Formats format) (max_length : ℕ) (least : 2 ≤ max_length)
    (small : max_length < 2 ^ 64) where
  abbrev pub prefix_text : LoggerLevel → Bytes → Bytes
  prefix_text level name =
      or_empty (f.text prefix_format (string (level_to_string level) ∷ string name ∷ []))

  -- The buffer starts with `start`, and is as long as it was.
  pub record Prefixed (start : Bytes) (run : Exec (Bytes × ℕ)) : Type 0 where
    pub buffer : Bytes
    pub used : ℕ
    pub returns : run ≡ done (buffer, used)
    pub room : length buffer ≡ max_length
    pub starts : take used buffer ≡ start
    pub used_eq : used ≡ length start

  prefix_done :
      (stack : Bytes) (level : LoggerLevel) (name t : Bytes)
      → length stack ≡ max_length
      → f.text prefix_format (string (level_to_string level) ∷ string name ∷ []) ≡ some t
      → Prefixed (take (max_length - 1) t) (write_prefix format max_length stack level name)
  unfolding write_prefix print_to clamp_prefix
  prefix_done stack level name t room e =
      let kept = take (max_length - 1) t in
      let l = length-take (max_length - 1) t in
      let printed = kept ++ (0 ∷ []) in
      let lp = length-append kept (0 ∷ []) in
      record {
        buffer = splice stack 0 printed;
        used = length kept;
        returns = ground (
          arith,
          f.writes stack max_length prefix_format
              (string (level_to_string level) ∷ string name ∷ []) t (omega arith) (omega arith) e,
        );
        room = length-splice stack 0 printed ∙ room;
        starts =
            rw
              (
                splice-zero stack printed (omega arith),
                append_assoc kept (0 ∷ []) (drop (length printed) stack),
              )
              (take-append (length kept) kept ((0 ∷ []) ++ drop (length printed) stack) refl);
        used_eq = refl;
      }

  prefix_failed :
      (stack : Bytes) (level : LoggerLevel) (name : Bytes)
      → length stack ≡ max_length
      → f.text prefix_format (string (level_to_string level) ∷ string name ∷ []) ≡ none
      → Prefixed [] (write_prefix format max_length stack level name)
  unfolding write_prefix print_to clamp_prefix
  prefix_failed stack level name room e =
      let args = string (level_to_string level) ∷ string name ∷ [] in
      let b = (format stack max_length prefix_format args).0 in
      let failed = f.fails stack max_length prefix_format args (omega arith) e in
      record {
        buffer = set b 0 0;
        used = 0;
        returns = ground (arith, failed.0, failed.1, write_at_done b 0 0);
        room = length-set b 0 0 ∙ failed.1 ∙ room;
        starts = refl;
        used_eq = refl;
      }

  pub write_prefix-Prefixed :
      (stack : Bytes) (level : LoggerLevel) (name : Bytes)
      → length stack ≡ max_length
      → Prefixed
          (take (max_length - 1) (prefix_text level name))
          (write_prefix format max_length stack level name)
  write_prefix-Prefixed stack level name room =
      elim (Option-cases
        (f.text prefix_format (string (level_to_string level) ∷ string name ∷ []))) [
          | inl e ↦ rw (e, take-nil (max_length - 1)) (prefix_failed stack level name room e)
          | inr (t, e) ↦ rw e (prefix_done stack level name t room e)
        ]

  -- The buffer holds `message`, `written` bytes of it behind the first `used`, and a terminator.
  pub record Messaged (used : ℕ) (message : Bytes) (run : Exec (Bytes × ℕ)) : Type 0 where
    pub buffer : Bytes
    pub written : ℕ
    pub behind : Bytes
    pub returns : run ≡ done (buffer, written)
    pub room : length buffer ≡ max_length
    pub holds : buffer ≡ message ++ (0 ∷ behind)
    pub length_eq : used + written ≡ length message

  module _ (b : Bytes) (used : ℕ) (fits : used < max_length) (room : length b ≡ max_length)
      (fmt : Bytes) (args : List (Argument A)) where
    abbrev space : ℕ
    space = max_length - used

    message_done :
        (t : Bytes)
        → f.text fmt args ≡ some t
        → Messaged used
            (take used b ++ take (space - 1) t)
            (write_message format max_length b used fmt args)
    unfolding write_message print_to clamp_message
    message_done t e =
        let kept = take (space - 1) t in
        let l = length-take (space - 1) t in
        let printed = kept ++ (0 ∷ []) in
        let lp = length-append kept (0 ∷ []) in
        let ld = length-drop used b in
        let lt = length-take used b in
        let tail = drop (length printed) (drop used b) in
        let wrapped : size_sub max_length used ≡ space = omega arith in
        record {
          buffer = take used b ++ splice (drop used b) 0 printed;
          written = length kept;
          behind = tail;
          returns = ground (
            arith,
            wrapped,
            f.writes (drop used b) space fmt args t (omega arith) (omega arith) e,
          );
          room = omega (
            arith,
            length-append (take used b) (splice (drop used b) 0 printed),
            length-splice (drop used b) 0 printed,
          );
          holds =
              rw (splice-zero (drop used b) printed (omega arith), append_assoc kept (0 ∷ []) tail)
                (sym (append_assoc (take used b) kept (0 ∷ tail)));
          length_eq = omega (arith, length-append (take used b) kept);
        }

    message_failed :
        f.text fmt args ≡ none
        → Messaged used (take used b) (write_message format max_length b used fmt args)
    unfolding write_message print_to clamp_message
    message_failed e =
        let rest = (format (drop used b) space fmt args).0 in
        let ld = length-drop used b in
        let lt = length-take used b in
        let failed = f.fails (drop used b) space fmt args (omega arith) e in
        let wrapped : size_sub max_length used ≡ space = omega arith in
        let whole = length-append (take used b) rest in
        record {
          buffer = set (take used b ++ rest) used 0;
          written = 0;
          behind = drop 1 rest;
          returns =
              ground
                (arith, wrapped, failed.0, failed.1, write_at_done (take used b ++ rest) used 0);
          room = omega (arith, length-set (take used b ++ rest) used 0, failed.1);
          holds = set-append_at used (take used b) rest 0 (omega arith) (omega (arith, failed.1));
          length_eq = omega arith;
        }

    pub write_message-Messaged :
        Messaged used
          (take used b ++ take (space - 1) (or_empty (f.text fmt args)))
          (write_message format max_length b used fmt args)
    write_message-Messaged = elim (Option-cases (f.text fmt args)) [
      | inl e ↦ rw (e, take-nil (space - 1), append-nil (take used b)) (message_failed e)
      | inr (t, e) ↦ rw e (message_done t e)
    ]
