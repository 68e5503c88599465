-- ===== src/RingBuffer/Tests.antt =====
-- A ring of four slots of two bytes, run on concrete calls.
use ecu_platform.Base.{◌≡◌, refl, some, none, true, false, [], ◌∷◌, Bytes, arith, done, List}
use ecu_platform.RingBuffer.{RingBuffer, success, error_null_pointer, error_empty, init}
use ecu_platform.RingBuffer.Queue
use ecu_platform.RingBuffer.Valid.{IsValid}
use ecu_platform.RingBuffer.Window.{contents}
use ecu_platform.RingBuffer.Calls.{
  Op, put, get, look, size, capacity, space, reset, full, empty, acknowledged, handed, counted,
  answered, queue_call,
}
use ecu_platform.RingBuffer.History.{run, queue_run, AllFit, run_refines, init-run_refines}

abbrev store : Bytes
store = 1 ∷ 2 ∷ 3 ∷ 4 ∷ 5 ∷ 6 ∷ 7 ∷ 8 ∷ []

-- Two elements held, the second one behind the wrap.
abbrev ring : RingBuffer
ring = record { buffer = some store; head = 1; tail = 3; capacity = 4; element_size = 2 }

ring-IsValid : IsValid ring store
ring-IsValid = record {
  storage = refl;
  room = omega arith;
  addressable = omega arith;
  two_slots = omega arith;
  element_pos = omega arith;
  head_in = omega arith;
  tail_in = omega arith;
}

abbrev source : Bytes
source = 9 ∷ 10 ∷ []

abbrev target : Bytes
target = 0 ∷ 0 ∷ []

-- Pushes up to the limit, a peek, queries, pops down to the empty ring, and NULL pointers.
abbrev calls : List Op
calls =
    put (some source)
    ∷ put (some source)
    ∷ put none
    ∷ full
    ∷ look (some target)
    ∷ get (some target)
    ∷ size (some 0)
    ∷ space (some 0)
    ∷ capacity none
    ∷ get none
    ∷ get (some target)
    ∷ get (some target)
    ∷ get (some target)
    ∷ empty
    ∷ reset
    ∷ []

calls-AllFit : AllFit 3 2 calls
calls-AllFit = (
  omega arith,
  (
    omega arith,
    (
      tt,
      (
        tt,
        (
          omega arith,
          (
            omega arith,
            (
              tt,
              (
                omega arith,
                (tt, (tt, (omega arith, (omega arith, (omega arith, (tt, (tt, tt))))))),
              ),
            ),
          ),
        ),
      ),
    ),
  ),
)

replies :
    queue_run 3 2 [] calls
    ≡ acknowledged success
      ∷ acknowledged success
      ∷ acknowledged error_null_pointer
      ∷ answered false
      ∷ handed success (some source)
      ∷ handed success (some source)
      ∷ counted (success, some 1)
      ∷ counted (success, some 2)
      ∷ counted (error_null_pointer, none)
      ∷ handed error_null_pointer none
      ∷ handed success (some source)
      ∷ handed error_empty (some target)
      ∷ handed error_empty (some target)
      ∷ answered true
      ∷ acknowledged success
      ∷ []
unfolding queue_run queue_call Queue.push Queue.pop
replies = refl

run_refines_example : run (some ring) calls ≡ done (queue_run 3 2 (contents ring store) calls)
run_refines_example = run_refines calls 3 2 ring store refl refl ring-IsValid calls-AllFit

init-run_refines_example :
    ((init (some ring) (some store) 4 2).0 ≡ success)
    × (run (init (some ring) (some store) 4 2).1 calls ≡ done (queue_run 3 2 [] calls))
init-run_refines_example =
    init-run_refines calls ring store 4 2 (omega arith) (omega arith) (omega arith) (omega arith)
      calls-AllFit
