-- ===== src/SwTimer/Safety.antt =====
-- What no use of src/swTimer.c can bring about, callbacks included.
use mathlib.Core.Path.{subst}
use ecu_platform.Base.{
  ℕ, ◌+◌, ◌%◌, ◌^◌, ◌≤◌, ◌<◌, ◌≡◌, ◌≢◌, refl, Option, some, List, get_or, set, length, true, false,
  Exec, done, arith, ◌∙◌, ap, ◌>>=◌, get_or-set_self, sym,
}
use ecu_platform.SwTimer.{
  TimerHandle, TimerControlBlock, SoftwareTimerPool, blank, deleted, init, delete,
}
use ecu_platform.SwTimer.Slots.{IsValid, Names}
use ecu_platform.SwTimer.Handles.{delete-eq, with_slot-IsValid}
use ecu_platform.SwTimer.Laws.{Stale, stale}
use ecu_platform.SwTimer.Fresh.{init-Fresh}
use ecu_platform.SwTimer.Moves.{Moves-generation, IsSound, blank-IsSound, Moves-IsSound}
use ecu_platform.SwTimer.Lives.{over}
use ecu_platform.SwTimer.Rounds.{IsClient}
use ecu_platform.SwTimer.Diagram.{Call}
use ecu_platform.SwTimer.History.{deletes_at, run, run-Lasts, run_from}

-- A run after which a handle is stale.
pub record Forgets {ℓ} {W : Type ℓ} (handle : TimerHandle)
    (run : Exec (Option SoftwareTimerPool × W)) : Type ℓ where
  pub pool : SoftwareTimerPool
  pub world : W
  pub returns : run ≡ done (some pool, world)
  pub gone : Stale pool handle

-- A run after which every slot is sound.
pub record Secures {ℓ} {W : Type ℓ} (capacity : ℕ) (run : Exec (Option SoftwareTimerPool × W))
    : Type ℓ where
  pub pool : SoftwareTimerPool
  pub slots : List TimerControlBlock
  pub world : W
  pub returns : run ≡ done (some pool, world)
  pub valid : IsValid pool slots
  pub capacity_eq : pool.capacity ≡ capacity
  pub sound : (j : ℕ) → j < capacity → IsSound (get_or slots j blank)

module _ {ℓ} {W : Type ℓ}
    (invoke : ℕ
      → TimerHandle
      → Option ℕ
      → List TimerControlBlock × W
      → List TimerControlBlock × W) where
  outdated : (g k n : ℕ) → g < 2 ^ 8 → k < 255 → n ≡ ((g + 1) % 2 ^ 8 + k) % 2 ^ 8 → n ≢ g
  outdated g k n h b e q = omega arith

  -- From a valid pool, after a delete through a handle that names a timer, followed by any
  -- sequence of calls and ticks that asks for fewer than 255 further deletes of that slot, with
  -- callbacks that may create, start and stop timers, every call through the deleted handle is
  -- refused as invalid and changes nothing.
  pub delete-run-Forgets :
      (p : SoftwareTimerPool)
      → IsClient false invoke p.capacity
      → {slots : List TimerControlBlock} {handle : TimerHandle} (calls : List Call) (w : W)
      → IsValid p slots
      → Names p slots handle
      → deletes_at calls handle.index < 255
      → Forgets handle (delete (some p) handle >>= λ r. run invoke calls (r.1, w))
  delete-run-Forgets p client {slots} {handle} calls w v n few =
      let s = get_or slots handle.index blank in
      let room : handle.index < length slots = omega (arith, v.room, n.in_range) in
      let valid = with_slot-IsValid v handle.index (deleted s) n.in_range (omega arith) in
      let l = run_from invoke p false client calls (set slots handle.index (deleted s)) w valid in
      let life = l.lives.life handle.index in
      let begun =
        ap (λ t. t.generation) (get_or-set_self slots handle.index (deleted s) blank room) in
      let byte = v.generations handle.index n.in_range in
      let now = (get_or l.after handle.index blank).generation in
      let counted : now ≡ ((s.generation + 1) % 2 ^ 8 + life.0) % 2 ^ 8 =
        omega (arith, begun, Moves-generation life.2) in
      let newer : now ≢ s.generation =
        outdated s.generation life.0 now byte (omega (arith, life.1 refl)) counted in
      record {
        pool = over p l.after;
        world = l.world;
        returns = rw (delete-eq v n) l.returns;
        gone = stale l.valid handle (λ h u e. newer (e ∙ sym n.current));
      }

  -- From an init with a positive capacity and storage of at least that many slots, after any
  -- sequence of calls and ticks, with callbacks that may call every timer function but init, every
  -- slot is sound: a timer has a callback and a mode, one that runs has between 1 and its timeout
  -- ticks to go, and a slot that does not run has 0.
  pub init-run-Secures :
      (p : SoftwareTimerPool) (slots : List TimerControlBlock) (capacity : ℕ)
      → 1 ≤ capacity
      → capacity ≤ length slots
      → IsClient true invoke capacity
      → (calls : List Call) (w : W)
      → Secures capacity (init (some p) (some slots) capacity >>= λ r. run invoke calls (r.1, w))
  init-run-Secures p slots capacity h room client calls w =
      let f = init-Fresh p slots capacity h room in
      let l =
        run-Lasts invoke f.pool true (subst (IsClient true invoke) (sym f.capacity_eq) client) calls
          w f.valid in
      record {
        pool = over f.pool l.after;
        slots = l.after;
        world = l.world;
        returns = rw f.returns l.returns;
        valid = l.valid;
        capacity_eq = f.capacity_eq;
        sound = λ j b. Moves-IsSound (l.lives.life j).2 (rw (f.all_blank j b) blank-IsSound);
      }
