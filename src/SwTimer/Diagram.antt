-- ===== src/SwTimer/Diagram.antt =====
-- What a call of a function of src/swTimer.c does to the slots.
use ecu_platform.Base.{
  ℕ, ◌≤◌, ◌<◌, ◌≡◌, ◌≢◌, ◌⊎◌, refl, Option, none, some, List, [], ◌∷◌, set, get_or, Bool, Exec,
  done, arith,
}
use ecu_platform.SwTimer.{
  TimerHandle, TimerControlBlock, SoftwareTimerPool, SoftwareTimerMode, unused, stopped, blank,
}
use ecu_platform.SwTimer.Slots.{IsValid, Names}
use ecu_platform.SwTimer.Create.{Allowed}
use ecu_platform.SwTimer.Moves.{
  taken_slot, begun_slot, removed_slot, with_ticks, taken, begun, ended, removed, still, used_ne,
}
use ecu_platform.SwTimer.Sweep.{Sweep, Sweep-Lives}
use ecu_platform.SwTimer.Lives.{Lives, Lives-refl, Lives-set, nowhere, once_at, over}

-- A call of the application's, with its arguments.
pub data Call : Type 0 where
  creates : SoftwareTimerMode → Option ℕ → Option ℕ → Option TimerHandle → Call
  starts : TimerHandle → ℕ → Call
  stops deletes : TimerHandle → Call
  ticks : Call

-- The deletes that a call asks for slot `i`.
abbrev pub asked_by : Call → ℕ → ℕ
asked_by (deletes h) = once_at h.index
asked_by _ = nowhere

module _ (free : Bool) (p : SoftwareTimerPool) where
  -- What a call makes of the slots: a call through a handle that names a timer changes that slot
  -- alone, a create the first unused one, and a call that is to be refused none; a tick scans all
  -- slots of the pool.
  pub data Does : Call → List TimerControlBlock → List TimerControlBlock → Type 0 where
    creates_first :
        {slots : List TimerControlBlock} {mode : SoftwareTimerMode} {callback : ℕ}
        {context : Option ℕ} {old : TimerHandle} (i : ℕ)
        → Allowed mode
        → i < p.capacity
        → (get_or slots i blank).state ≡ unused
        → ((j : ℕ) → j < i → (get_or slots j blank).state ≢ unused)
        → Does
            (creates mode (some callback) context (some old))
            slots
            (set slots i (taken_slot (get_or slots i blank) mode callback context))
    creates_none :
        {slots : List TimerControlBlock} {mode : SoftwareTimerMode} {callback context : Option ℕ}
        {out : Option TimerHandle}
        → ((callback ≡ none) ⊎ (out ≡ none))
          ⊎ (¬ Allowed mode ⊎ ((j : ℕ) → j < p.capacity → (get_or slots j blank).state ≢ unused))
        → Does (creates mode callback context out) slots slots
    starts_named :
        {slots : List TimerControlBlock} {handle : TimerHandle} {n : ℕ}
        → Names p slots handle
        → 1 ≤ n
        → Does
            (starts handle n)
            slots
            (set slots handle.index (begun_slot (get_or slots handle.index blank) n))
    starts_none :
        {slots : List TimerControlBlock} {handle : TimerHandle} {n : ℕ}
        → (Names p slots handle → n ≡ 0)
        → Does (starts handle n) slots slots
    stops_named :
        {slots : List TimerControlBlock} {handle : TimerHandle}
        → Names p slots handle
        → Does
            (stops handle)
            slots
            (set slots handle.index (with_ticks (get_or slots handle.index blank) stopped 0))
    stops_none :
        {slots : List TimerControlBlock} {handle : TimerHandle}
        → ¬ Names p slots handle
        → Does (stops handle) slots slots
    deletes_named :
        {slots : List TimerControlBlock} {handle : TimerHandle}
        → Names p slots handle
        → Does
            (deletes handle)
            slots
            (set slots handle.index (removed_slot (get_or slots handle.index blank)))
    deletes_none :
        {slots : List TimerControlBlock} {handle : TimerHandle}
        → ¬ Names p slots handle
        → Does (deletes handle) slots slots
    elapsed :
        {slots after : List TimerControlBlock}
        → Sweep free 0 p.capacity slots after
        → Does ticks slots after

  -- A list of calls, one after another.
  pub data Follows : List Call → List TimerControlBlock → List TimerControlBlock → Type 0 where
    idle : {slots : List TimerControlBlock} → Follows [] slots slots
    onward :
        {call : Call} {calls : List Call} {slots between after : List TimerControlBlock}
        → Does call slots between
        → Follows calls between after
        → Follows (call ∷ calls) slots after

-- Whatever a call does, every slot has lived.
pub Does-Lives :
    {free : Bool} {p : SoftwareTimerPool} {call : Call} {slots after : List TimerControlBlock}
    → IsValid p slots
    → Does free p call slots after
    → Lives free (asked_by call) slots after
Does-Lives {free} {slots = slots} v (creates_first i a h e f) =
    Lives-set free nowhere slots i _ (omega (arith, v.room)) (omega arith) (taken _ _ _ a e)
Does-Lives {free} {slots = slots} v (creates_none r) = Lives-refl free slots
Does-Lives {free} {slots = slots} v (starts_named {handle = h} n k) =
    Lives-set free nowhere slots h.index _ (omega (arith, n.in_range, v.room)) (omega arith)
      (begun _ k (used_ne _ n.in_use))
Does-Lives {free} {slots = slots} v (starts_none r) = Lives-refl free slots
Does-Lives {free} {slots = slots} v (stops_named {handle = h} n) =
    Lives-set free nowhere slots h.index _ (omega (arith, n.in_range, v.room)) (omega arith)
      (ended (used_ne _ n.in_use))
Does-Lives {free} {slots = slots} v (stops_none r) = Lives-refl free slots
Does-Lives {free} {slots = slots} v (deletes_named {handle = h} n) =
    Lives-set free (once_at h.index) slots h.index _ (omega (arith, n.in_range, v.room))
      (ground arith) (removed (used_ne _ n.in_use))
Does-Lives {free} {slots = slots} v (deletes_none r) = record {
  same_size = refl;
  life = λ j. (0, λ q. omega arith, still);
}
Does-Lives v (elapsed s) = Sweep-Lives (omega (arith, v.room)) s

module _ {p : SoftwareTimerPool} {x : List TimerControlBlock} where
  Names-over :
      {slots : List TimerControlBlock} {handle : TimerHandle}
      → Names (over p x) slots handle
      → Names p slots handle
  Names-over n = record { in_range = n.in_range; in_use = n.in_use; current = n.current }

  Names-under :
      {slots : List TimerControlBlock} {handle : TimerHandle}
      → Names p slots handle
      → Names (over p x) slots handle
  Names-under n = record { in_range = n.in_range; in_use = n.in_use; current = n.current }

  -- Only the capacity of the pool matters.
  pub Does-over :
      {free : Bool} {call : Call} {slots after : List TimerControlBlock}
      → Does free (over p x) call slots after
      → Does free p call slots after
  Does-over (creates_first i a h e f) = creates_first i a h e f
  Does-over (creates_none r) = creates_none r
  Does-over (starts_named n k) = starts_named (Names-over n) k
  Does-over (starts_none r) = starts_none (λ n. r (Names-under n))
  Does-over (stops_named n) = stops_named (Names-over n)
  Does-over (stops_none r) = stops_none (λ n. r (Names-under n))
  Does-over (deletes_named n) = deletes_named (Names-over n)
  Does-over (deletes_none r) = deletes_none (λ n. r (Names-under n))
  Does-over (elapsed l) = elapsed l

-- A run of a call that has returned, and what it did.
pub record Lived {ℓ} {A : Type ℓ} (pool_of : A → Option SoftwareTimerPool) (free : Bool)
    (call : Call) (p : SoftwareTimerPool) (slots : List TimerControlBlock) (run : Exec A)
    : Type ℓ where
  pub result : A
  pub after : List TimerControlBlock
  pub returns : run ≡ done result
  pub pool_eq : pool_of result ≡ some (over p after)
  pub does : Does free p call slots after
