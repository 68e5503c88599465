-- ===== src/RingBuffer/History.antt =====
-- Whole histories of calls of src/ringBuffer.c, and of the bounded queue.
use ecu_platform.Base.{
  ℕ, ◌-◌, ◌*◌, ◌^◌, ◌≤◌, ◌<◌, ◌≡◌, refl, ◌∙◌, sym, ap, some, [], ◌∷◌, Bytes, length, arith, done,
  Option, Exec, List, ◌>>=◌,
}
use ecu_platform.RingBuffer.{RingBuffer, success, init}
use ecu_platform.RingBuffer.Queue.{Queue}
use ecu_platform.RingBuffer.Valid.{IsValid}
use ecu_platform.RingBuffer.Window.{contents}
use ecu_platform.RingBuffer.Calls.{Op, Reply, call, queue_call, Fits, call_refines}
use ecu_platform.RingBuffer.Query.{init_done}

-- The calls in order on one ring buffer.
pub run : Option RingBuffer → List Op → Exec (List Reply)
run r [] = done []
run r (op ∷ ops) = do out ← call op r; rest ← run out.1 ops; done (out.0 ∷ rest)

module _ (limit bytes : ℕ) where
  -- The same calls on the queue.
  unfoldable pub queue_run : Queue → List Op → List Reply
  queue_run q [] = []
  queue_run q (op ∷ ops) = let (reply, q') = queue_call limit bytes op q in reply ∷ queue_run q' ops

  -- Every call's memory fits.
  abbrev pub AllFit : List Op → Type 0
  AllFit [] = Unit {0}
  AllFit (op ∷ ops) = Fits limit bytes op × AllFit ops

-- From a valid ring buffer, any sequence of push, pop, peek, clear and query calls, in which each
-- pointer argument is NULL or has room for an element, and in which the available space is only
-- asked of a ring of capacity at most 2 ^ 63, runs without an access out of bounds and gives the
-- statuses, the delivered bytes, the numbers and the truth values that a bounded queue of capacity
-- - 1 elements, starting from the elements held, gives.
pub run_refines :
    (ops : List Op) (limit bytes : ℕ) (r : RingBuffer) (b : Bytes)
    → limit ≡ r.capacity - 1
    → bytes ≡ r.element_size
    → IsValid r b
    → AllFit limit bytes ops
    → run (some r) ops ≡ done (queue_run limit bytes (contents r b) ops)
unfolding run queue_run
run_refines [] limit bytes r b el es v h = refl
run_refines (op ∷ ops) limit bytes r b el es v h =
    let step = call_refines v limit bytes el es op h.0 in
    let ih =
      run_refines ops limit bytes step.ring step.store step.same_limit step.same_size step.valid
        h.1 in
    rw (step.returns, ih) (ap (λ x. done (x.0 ∷ queue_run limit bytes x.1 ops)) step.queue)

-- With a capacity of at least 2, an element size of at least 1 and memory of at least capacity
-- times element size and fewer than 2 ^ 64 bytes, init succeeds, and any sequence of calls after
-- it, under the same conditions on their arguments, answers as an empty queue of capacity - 1
-- elements does.
pub init-run_refines :
    (ops : List Op) (r : RingBuffer) (b : Bytes) (capacity element_size : ℕ)
    → 2 ≤ capacity
    → 1 ≤ element_size
    → capacity * element_size ≤ length b
    → length b < 2 ^ 64
    → AllFit (capacity - 1) element_size ops
    → (init (some r) (some b) capacity element_size).0 ≡ success
      × (run (init (some r) (some b) capacity element_size).1 ops
          ≡ done (queue_run (capacity - 1) element_size [] ops))
init-run_refines ops r b c e two one room small h =
    let start = init_done r b c e two one room small in
    (
      ap (λ x. x.0) start.1,
      ap (λ x. run x.1 ops) start.1
          ∙ run_refines ops (c - 1) e start.0 b (omega (arith, start.4)) (sym start.5) start.2 h
          ∙ ap (λ q. done (queue_run (c - 1) e q ops)) start.3,
    )
