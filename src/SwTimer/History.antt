-- ===== src/SwTimer/History.antt =====
-- The functions of src/swTimer.c called in any order, with any arguments.
use ecu_platform.Base.{
  ℕ, ◌+◌, ◌≡◌, refl, Option, some, List, [], ◌∷◌, Bool, Exec, done, ◌∙◌, ap, ◌>>=◌,
}
use ecu_platform.SwTimer.{
  TimerHandle, TimerControlBlock, SoftwareTimerPool, create, start, stop, delete,
}
use ecu_platform.SwTimer.Slots.{IsValid}
use ecu_platform.SwTimer.Tick.{tick}
use ecu_platform.SwTimer.Lives.{Lives, Lives-refl, Lives-trans, Lives-IsValid, over}
use ecu_platform.SwTimer.Diagram.{
  Call, creates, starts, stops, deletes, ticks, asked_by, Does, elapsed, Follows, idle, onward,
  Does-Lives, Does-over, Lived,
}
use ecu_platform.SwTimer.Calls.{same_pool, start-Lived, stop-Lived, delete-Lived, create-Lived}
use ecu_platform.SwTimer.Rounds.{IsClient, tick-Ticked}

-- The deletes that a list of calls asks for slot `i`.
abbrev pub deletes_at : List Call → ℕ → ℕ
deletes_at [] i = 0
deletes_at (call ∷ calls) i = asked_by call i + deletes_at calls i

module _ {ℓ} {W : Type ℓ}
    (invoke : ℕ
      → TimerHandle
      → Option ℕ
      → List TimerControlBlock × W
      → List TimerControlBlock × W) where
  pub perform : Call → Option SoftwareTimerPool × W → Exec (Option SoftwareTimerPool × W)
  perform (creates mode callback context out) (p, w) =
      create p mode callback context out >>= λ r. done (r.1, w)
  perform (starts handle n) (p, w) = start p handle n >>= λ r. done (r.1, w)
  perform (stops handle) (p, w) = stop p handle >>= λ r. done (r.1, w)
  perform (deletes handle) (p, w) = delete p handle >>= λ r. done (r.1, w)
  perform ticks (p, w) = tick invoke (p, w) >>= λ r. done (r.1, r.2)

  pub run : List Call → Option SoftwareTimerPool × W → Exec (Option SoftwareTimerPool × W)
  run [] world = done world
  run (call ∷ calls) world = perform call world >>= run calls

module _ {ℓ} {W : Type ℓ} where
  -- A run of one call that has returned the pool with other slots.
  record Did (free : Bool) (call : Call) (p : SoftwareTimerPool) (slots : List TimerControlBlock)
      (run : Exec (Option SoftwareTimerPool × W)) : Type ℓ where
    after : List TimerControlBlock
    world : W
    returns : run ≡ done (some (over p after), world)
    does : Does free p call slots after

  -- A run that has returned the pool with other slots: each call has done to them what it is to do,
  -- and all of them have lived.
  pub record Lasts (free : Bool) (calls : List Call) (p : SoftwareTimerPool)
      (slots : List TimerControlBlock) (run : Exec (Option SoftwareTimerPool × W)) : Type ℓ where
    pub after : List TimerControlBlock
    pub world : W
    pub returns : run ≡ done (some (over p after), world)
    pub valid : IsValid (over p after) after
    pub follows : Follows free p calls slots after
    pub lives : Lives free (deletes_at calls) slots after

  did :
      {A : Type 0} {pool_of : A → Option SoftwareTimerPool} {free : Bool} {call : Call}
      {p : SoftwareTimerPool} {slots : List TimerControlBlock} {run : Exec A} (w : W)
      → Lived pool_of free call p slots run
      → Did free call p slots (run >>= λ r. done (pool_of r, w))
  did w l = record {
    after = l.after;
    world = w;
    returns = rw (l.returns, l.pool_eq) refl;
    does = l.does;
  }

module _ {ℓ} {W : Type ℓ}
    (invoke : ℕ → TimerHandle → Option ℕ → List TimerControlBlock × W → List TimerControlBlock × W)
    (p : SoftwareTimerPool) (free : Bool) (client : IsClient free invoke p.capacity) where
  perform-Did :
      (call : Call) {slots : List TimerControlBlock} (w : W)
      → IsValid p slots
      → Did free call p slots (perform invoke call (some p, w))
  unfolding perform
  perform-Did (creates mode callback context out) w v =
      did w (create-Lived free v mode callback context out)
  perform-Did (starts handle n) w v = did w (start-Lived free v handle n)
  perform-Did (stops handle) w v = did w (stop-Lived free v handle)
  perform-Did (deletes handle) w v = did w (delete-Lived free v handle)
  perform-Did ticks {slots} w v =
      let t = tick-Ticked invoke p free client w v in
      record {
        after = t.after;
        world = t.world;
        returns = rw t.returns refl;
        does = elapsed t.sweep;
      }

module _ {ℓ} {W : Type ℓ}
    (invoke : ℕ → TimerHandle → Option ℕ → List TimerControlBlock × W → List TimerControlBlock × W)
    (p : SoftwareTimerPool) (free : Bool) (client : IsClient free invoke p.capacity) where
  pub run_from :
      (calls : List Call) (slots : List TimerControlBlock) (w : W)
      → IsValid (over p slots) slots
      → Lasts free calls p slots (run invoke calls (some (over p slots), w))
  unfolding run
  run_from [] slots w v = record {
    after = slots;
    world = w;
    returns = refl;
    valid = v;
    follows = idle;
    lives = Lives-refl free slots;
  }
  run_from (call ∷ calls) slots w v =
      let one = perform-Did invoke (over p slots) free client call w v in
      let lived = Does-Lives v one.does in
      let rest = run_from calls one.after one.world (Lives-IsValid v lived) in
      record {
        after = rest.after;
        world = rest.world;
        returns = rw one.returns rest.returns;
        valid = rest.valid;
        follows = onward (Does-over one.does) rest.follows;
        lives = Lives-trans lived rest.lives;
      }

  -- From a valid pool, any sequence of create, start, stop, delete and tick calls with arbitrary
  -- arguments runs without an access out of bounds, whatever timer functions but init the
  -- callbacks call in turn, and ends in a valid pool of the same capacity. Each call has done to
  -- the slots what it is to do: a start with ticks, a stop or a delete through a handle that names
  -- a timer has changed exactly that slot, a create with its arguments in order exactly the first
  -- unused one if there is one, each to the slot that the state machine says, field by field; any
  -- other such call has changed nothing. A tick has visited the slots in order: one that does not
  -- run then is passed over, one with two or more ticks to go has one less, any other is reloaded
  -- if periodic and else stopped, and if it has a callback, every slot then follows the
  -- transitions of the state machine. So does every slot across the sequence; if the callbacks
  -- delete nothing, with no more deletes of a slot than the sequence asks for.
  pub run-Lasts :
      (calls : List Call) {slots : List TimerControlBlock} (w : W)
      → IsValid p slots
      → Lasts free calls p slots (run invoke calls (some p, w))
  run-Lasts calls {slots} w v =
      let l = run_from calls slots w (Lives-IsValid v (Lives-refl free slots)) in
      record {
        after = l.after;
        world = l.world;
        returns = ap (λ q. run invoke calls (q, w)) (same_pool free v) ∙ l.returns;
        valid = l.valid;
        follows = l.follows;
        lives = l.lives;
      }
