-- ===== src/SwTimer/Lives.antt =====
-- A whole pool of src/swTimer.c as its slots' lives.
use native.Mathlib.Decide.{ℕ_discrete}
use ecu_platform.Base.{
  ℕ, ◌+◌, ◌≤◌, ◌<◌, ◌≡◌, refl, some, List, length, set, length-set, get_or, get_or-set_self,
  get_or-set_ne, Bool, false, arith, ◌∙◌, ◌==◌, if◌then◌else◌,
}
use ecu_platform.SwTimer.{TimerControlBlock, SoftwareTimerPool, blank}
use ecu_platform.SwTimer.Slots.{IsValid}
use ecu_platform.SwTimer.Moves.{Move, Moves, still, next, Moves-append, Moves-generation}

-- How many deletes a slot can have had.
abbrev pub nowhere : ℕ → ℕ
nowhere j = 0

abbrev pub once_at : ℕ → ℕ → ℕ
once_at i j = if i == j then 1 else 0

-- From one storage to another of the same size, every slot has lived; unless `free`, with at most
-- `bound j` deletes of slot `j`.
pub record Lives (free : Bool) (bound : ℕ → ℕ) (before after : List TimerControlBlock)
    : Type 0 where
  pub same_size : length after ≡ length before
  pub life :
      (j : ℕ)
      → (k : ℕ) × (free ≡ false → k ≤ bound j)
        × Moves (get_or before j blank) k (get_or after j blank)

pub Lives-refl : (free : Bool) (slots : List TimerControlBlock) → Lives free nowhere slots slots
Lives-refl free slots = record { same_size = refl; life = λ j. (0, λ e. omega arith, still) }

pub Lives-trans :
    {free : Bool} {m n : ℕ → ℕ} {a b c : List TimerControlBlock}
    → Lives free m a b
    → Lives free n b c
    → Lives free (λ j. m j + n j) a c
Lives-trans x y = record {
  same_size = y.same_size ∙ x.same_size;
  life = λ j.
      let first = x.life j in
      let second = y.life j in
      let both = Moves-append first.2 second.2 in
      (both.0, λ e. omega (arith, both.1, first.1 e, second.1 e), both.2);
}

-- One slot has made one transition.
pub Lives-set :
    {k : ℕ} (free : Bool) (bound : ℕ → ℕ) (slots : List TimerControlBlock) (i : ℕ)
    (s : TimerControlBlock)
    → i < length slots
    → k ≤ bound i
    → Move (get_or slots i blank) k s
    → Lives free bound slots (set slots i s)
Lives-set {k} free bound slots i s h b m = record {
  same_size = length-set slots i s;
  life = λ j. elim (ℕ_discrete i j) [
    | yes e ↦ rw (← e, get_or-set_self slots i s blank h) (0 + k, λ q. omega arith, next still m)
    | no ne ↦ rw (get_or-set_ne slots i j s blank ne) (0, λ q. omega arith, still)
  ];
}

abbrev pub over : SoftwareTimerPool → List TimerControlBlock → SoftwareTimerPool
over p slots = record p { storage = some slots }

pub Lives-IsValid :
    {p : SoftwareTimerPool} {free : Bool} {bound : ℕ → ℕ} {slots after : List TimerControlBlock}
    → IsValid p slots
    → Lives free bound slots after
    → IsValid (over p after) after
Lives-IsValid v l = record {
  storage_eq = refl;
  room = omega (arith, v.room, l.same_size);
  generations = λ j h. omega (arith, Moves-generation (l.life j).2 (v.generations j h));
}
