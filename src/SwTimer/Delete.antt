-- ===== src/SwTimer/Delete.antt =====
-- `softwareTimerDelete` of src/swTimer.c, alone and before a `softwareTimerCreate`.
use ecu_platform.Base.{
  ℕ, ◌^◌, ◌≤◌, ◌≡◌, ◌≢◌, inl, inr, refl, Option, some, List, get_or, set, get_or-set_self, Exec,
  done, ◌>>=◌, arith, ◌∙◌, sym,
}
use ecu_platform.SwTimer.{
  TimerHandle, TimerControlBlock, SoftwareTimerPool, SoftwareTimerStatus, SoftwareTimerMode,
  success, error_pool_full, blank, create, deleted, delete,
}
use ecu_platform.SwTimer.Slots.{IsValid, Names}
use ecu_platform.SwTimer.Handles.{with_slot, with_slot-IsValid, delete-eq}
use ecu_platform.SwTimer.Laws.{Stale, SeenSame, stale, others_same}
use ecu_platform.SwTimer.Create.{Allowed, create-Outcome}

-- A delete has made its handle stale and left the other slots as they are seen.
pub record Deletes (p : SoftwareTimerPool) (handle : TimerHandle)
    (run : Exec (SoftwareTimerStatus × Option SoftwareTimerPool)) : Type 0 where
  pub pool : SoftwareTimerPool
  pub slots : List TimerControlBlock
  pub returns : run ≡ done (success, some pool)
  pub valid : IsValid pool slots
  pub gone : Stale pool handle
  pub same_capacity : pool.capacity ≡ p.capacity
  pub outdated : (get_or slots handle.index blank).generation ≢ handle.generation
  pub others : (k : TimerHandle) → k.index ≢ handle.index → SeenSame p pool k

-- A run that ends in a pool for which a handle is stale.
pub record EndsStale (handle : TimerHandle)
    (run : Exec (SoftwareTimerStatus × Option SoftwareTimerPool × Option TimerHandle))
    : Type 0 where
  pub status : SoftwareTimerStatus
  pub pool : SoftwareTimerPool
  pub out : Option TimerHandle
  pub returns : run ≡ done (status, some pool, out)
  pub gone : Stale pool handle

module _ {p : SoftwareTimerPool} {slots : List TimerControlBlock} (v : IsValid p slots) where
  -- On a valid pool, delete through a handle that names a timer succeeds and leaves a valid pool
  -- of the same capacity in which the slot has another generation, every call through that handle
  -- is refused as invalid, and the other slots are seen as before.
  pub delete-Deletes :
      {handle : TimerHandle} → Names p slots handle → Deletes p handle (delete (some p) handle)
  delete-Deletes {handle} n =
      let s = deleted (get_or slots handle.index blank) in
      let valid = with_slot-IsValid v handle.index s n.in_range (omega arith) in
      let w = get_or-set_self slots handle.index s blank (omega (arith, v.room, n.in_range)) in
      let outdated : (get_or (set slots handle.index s) handle.index blank).generation
          ≢ handle.generation =
        λ e. ground (arith, w, n.current, v.generations handle.index n.in_range) in
      record {
        pool = with_slot p slots handle.index s;
        slots = set slots handle.index s;
        returns = delete-eq v n;
        valid = valid;
        gone = stale valid handle (λ a b. outdated);
        same_capacity = refl;
        outdated = outdated;
        others = others_same v handle.index s;
      }

  -- From a valid pool of at most 256 slots, deleting a timer through a handle that names it and
  -- then creating another one, with a mode that create allows, returns without an access out of
  -- bounds, and every call through the deleted handle is then refused as invalid and changes
  -- nothing, whether or not the new timer took its slot.
  pub delete-create-EndsStale :
      {handle : TimerHandle} (mode : SoftwareTimerMode) (callback : ℕ) (context : Option ℕ)
      (old : TimerHandle)
      → p.capacity ≤ 2 ^ 8
      → Names p slots handle
      → Allowed mode
      → EndsStale handle
          (delete (some p) handle >>= λ r. create r.1 mode (some callback) context (some old))
  delete-create-EndsStale {handle} mode callback context old small n allowed =
      let d = delete-Deletes n in
      elim (create-Outcome d.valid (omega (arith, d.same_capacity)) mode callback context old
        allowed) [
          | inl c ↦ record {
            status = success;
            pool = c.leaves.pool;
            out = some c.handle;
            returns = ground (arith, d.returns, c.returns);
            gone =
                stale c.leaves.valid handle
                  (λ a b e. d.outdated (sym (c.generations handle.index) ∙ e));
          }
          | inr o ↦ record {
            status = error_pool_full;
            pool = d.pool;
            out = some old;
            returns = ground (arith, d.returns, o.returns);
            gone = d.gone;
          }
        ]
