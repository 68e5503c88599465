-- ===== src/SwTimer/Calls.antt =====
-- What every function of src/swTimer.c but `softwareTimerInit` and the tick makes of the slots,
-- through whatever handle.
use mathlib.Core.Path.{subst}
use native.Mathlib.Decide.{dec_lt, ℕ_discrete}
use ecu_platform.Base.{
  ℕ, ◌≡◌, ◌⊎◌, refl, Option, none, some, List, set, get_or, Bool, arith, ap, sym, inl, inr,
  Bool-cases, Exec, done, u8,
}
use ecu_platform.SwTimer.{
  TimerHandle, TimerControlBlock, SoftwareTimerPool, SoftwareTimerStatus, SoftwareTimerMode,
  one_shot, periodic, other_mode, success, error_null_pointer, error_invalid_handle,
  error_invalid_mode, error_invalid_timeout, error_pool_full, is_unused, blank, created, started,
  halted, deleted, validate_handle, refused, create, create_checked, create_valid, start, stop,
  delete,
}
use ecu_platform.SwTimer.Slots.{IsValid, Names, validate_handle-Names, validate_handle-stale}
use ecu_platform.SwTimer.Handles.{with_slot, start-eq, stop-eq, delete-eq}
use ecu_platform.SwTimer.Create.{Allowed, scan}
use ecu_platform.SwTimer.Moves.{unused_eq, used_ne}
use ecu_platform.SwTimer.Lives.{over}
use ecu_platform.SwTimer.Diagram.{
  Call, creates, starts, stops, deletes, Does, creates_first, creates_none, starts_named,
  starts_none, stops_named, stops_none, deletes_named, deletes_none, Lived,
}

module _ {p : SoftwareTimerPool} {slots : List TimerControlBlock} (free : Bool)
    (v : IsValid p slots) where
  pub same_pool : some p ≡ some (over p slots)
  same_pool = ap (λ s. some (record p { storage = s })) v.storage_eq

  -- A handle names a timer, or it is refused.
  handle-cases :
      (handle : TimerHandle)
      → Names p slots handle
        ⊎ ((¬ Names p slots handle)
            × (validate_handle (some p) handle ≡ done (refused error_invalid_handle)))
  handle-cases handle =
      let s = get_or slots handle.index blank in
      elim (dec_lt handle.index p.capacity) [
        | no far ↦
            inr (λ n. far n.in_range, validate_handle-stale v handle (λ h u e. absurd (far h)))
        | yes near ↦ elim (Bool-cases (is_unused s.state)) [
          | inl free ↦ inr (λ n. absurd cc, validate_handle-stale v handle (λ h u e. absurd cc))
          | inr used ↦ elim (ℕ_discrete s.generation handle.generation) [
            | yes current ↦ inl (record { in_range = near; in_use = used; current = current })
            | no other ↦ inr (λ n. other n.current, validate_handle-stale v handle (λ h u. other))
          ]
        ]
      ]

  abbrev pub pool_part : SoftwareTimerStatus × Option SoftwareTimerPool → Option SoftwareTimerPool
  pool_part r = r.1

  -- A call that has refused, and one that has written the slot of its handle.
  unmoved :
      {call : Call} (status : SoftwareTimerStatus)
      {run : Exec (SoftwareTimerStatus × Option SoftwareTimerPool)}
      → Does free p call slots slots
      → run ≡ done (status, some p)
      → Lived pool_part free call p slots run
  unmoved status d e = record {
    result = (status, some p);
    after = slots;
    returns = e;
    pool_eq = same_pool;
    does = d;
  }

  moved :
      {call : Call} (handle : TimerHandle) (s : TimerControlBlock)
      {run : Exec (SoftwareTimerStatus × Option SoftwareTimerPool)}
      → Does free p call slots (set slots handle.index s)
      → run ≡ done (success, some (with_slot p slots handle.index s))
      → Lived pool_part free call p slots run
  moved handle s d e = record {
    result = (success, some (with_slot p slots handle.index s));
    after = set slots handle.index s;
    returns = e;
    pool_eq = refl;
    does = d;
  }

  pub start-Lived :
      (handle : TimerHandle) (ticks : ℕ)
      → Lived pool_part free (starts handle ticks) p slots (start (some p) handle ticks)
  unfolding start
  start-Lived handle ticks = elim (handle-cases handle) [
    | inr (unnamed, e) ↦
        unmoved error_invalid_handle (starts_none (λ n. absurd (unnamed n))) (rw e refl)
    | inl n ↦ elim (dec_lt 0 ticks) [
      | yes h ↦
          moved handle (started ticks (get_or slots handle.index blank)) (starts_named n h)
            (start-eq v ticks n h)
      | no z ↦
          unmoved error_invalid_timeout (starts_none (λ _. omega arith))
            (ground (arith, validate_handle-Names v n))
    ]
  ]

  pub stop-Lived :
      (handle : TimerHandle) → Lived pool_part free (stops handle) p slots (stop (some p) handle)
  unfolding stop
  stop-Lived handle = elim (handle-cases handle) [
    | inr (unnamed, e) ↦ unmoved error_invalid_handle (stops_none unnamed) (rw e refl)
    | inl n ↦ moved handle (halted (get_or slots handle.index blank)) (stops_named n) (stop-eq v n)
  ]

  pub delete-Lived :
      (handle : TimerHandle)
      → Lived pool_part free (deletes handle) p slots (delete (some p) handle)
  unfolding delete
  delete-Lived handle = elim (handle-cases handle) [
    | inr (unnamed, e) ↦ unmoved error_invalid_handle (deletes_none unnamed) (rw e refl)
    | inl n ↦
        moved handle (deleted (get_or slots handle.index blank)) (deletes_named n) (delete-eq v n)
  ]

  abbrev pub pool_between :
      SoftwareTimerStatus × Option SoftwareTimerPool × Option TimerHandle → Option SoftwareTimerPool
  pool_between r = r.1

  create_refused :
      {mode : SoftwareTimerMode} {callback context : Option ℕ} (status : SoftwareTimerStatus)
      (out : Option TimerHandle)
      {run : Exec (SoftwareTimerStatus × Option SoftwareTimerPool × Option TimerHandle)}
      → Does free p (creates mode callback context out) slots slots
      → run ≡ done (status, some p, out)
      → Lived pool_between free (creates mode callback context out) p slots run
  create_refused status out d e = record {
    result = (status, some p, out);
    after = slots;
    returns = e;
    pool_eq = same_pool;
    does = d;
  }

  create_valid-Lived :
      (mode : SoftwareTimerMode) (callback : ℕ) (context : Option ℕ) (old : TimerHandle)
      → Allowed mode
      → Lived pool_between free
          (creates mode (some callback) context (some old))
          p
          slots
          (create_valid p slots mode callback context old)
  unfolding create_valid
  create_valid-Lived mode callback context old allowed =
      elim (scan mode callback context p.capacity 0 p.capacity slots old (omega arith) v.room) [
        | inl f ↦
            let s = created mode callback context (get_or slots f.index blank) in
            record {
              result = (
                success,
                some (with_slot p slots f.index s),
                some (record {
                  index = u8 f.index;
                  generation = (get_or slots f.index blank).generation;
                }),
              );
              after = set slots f.index s;
              returns = rw f.returns refl;
              pool_eq = refl;
              does =
                  creates_first f.index allowed f.below (unused_eq _ f.free)
                    (λ j h. used_ne _ (f.passed j (omega arith) h));
            }
        | inr g ↦
            create_refused error_pool_full (some old)
              (creates_none (inr (inr (λ j h. used_ne _ (g.all_used j (omega arith) h)))))
              (rw g.returns (ap (λ q. done (error_pool_full, q, some old)) (sym same_pool)))
      ]

  create_checked-Lived :
      (mode : SoftwareTimerMode) (callback : ℕ) (context : Option ℕ) (old : TimerHandle)
      → Lived pool_between free
          (creates mode (some callback) context (some old))
          p
          slots
          (create_checked p slots mode callback context old)
  unfolding create_checked
  create_checked-Lived (other_mode n) callback context old =
      create_refused error_invalid_mode (some old)
        (creates_none (inr (inl (λ a. elim a [ inl e ↦ absurd cc | inr e ↦ absurd cc ])))) refl
  create_checked-Lived one_shot callback context old =
      create_valid-Lived one_shot callback context old (inl refl)
  create_checked-Lived periodic callback context old =
      create_valid-Lived periodic callback context old (inr refl)

  pub create-Lived :
      (mode : SoftwareTimerMode) (callback context : Option ℕ) (out : Option TimerHandle)
      → Lived pool_between free
          (creates mode callback context out)
          p
          slots
          (create (some p) mode callback context out)
  unfolding create
  create-Lived mode none context out =
      create_refused error_null_pointer out (creates_none (inl (inl refl))) refl
  create-Lived mode (some c) context none =
      create_refused error_null_pointer none (creates_none (inl (inr refl))) refl
  create-Lived mode (some c) context (some old) =
      subst (Lived pool_between free (creates mode (some c) context (some old)) p slots)
        (sym entered) (create_checked-Lived mode c context old)
    where
      entered :
          create (some p) mode (some c) context (some old)
          ≡ create_checked p slots mode c context old
      entered = ground (arith, v.storage_eq)
