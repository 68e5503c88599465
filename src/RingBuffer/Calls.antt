-- ===== src/RingBuffer/Calls.antt =====
-- One call of any function of src/ringBuffer.c on a ring buffer, and on the bounded queue.
use ecu_platform.Base.{
  ℕ, ◌-◌, ◌^◌, ◌≤◌, ◌<◌, ◌≡◌, refl, ap, arith, Bool, none, some, [], Bytes, length, done, slice,
  Option, Exec, ◌>>=◌, ◌==◌,
}
use ecu_platform.RingBuffer.{
  RingBuffer, RingBufferStatus, success, error_null_pointer, push, pop, push_into, pop_from, peek,
  clear, get_size, get_capacity, get_available_space, is_full, is_empty, get_held,
}
use ecu_platform.RingBuffer.Queue
use ecu_platform.RingBuffer.Queue.{Queue}
use ecu_platform.RingBuffer.Valid.{IsValid}
use ecu_platform.RingBuffer.Window.{contents}
use ecu_platform.RingBuffer.Refine.{push_refines, pop_refines, peek-pop, delivered}
use ecu_platform.RingBuffer.Query.{
  clear_lem, get_size-eq, get_capacity-eq, get_available_space-eq, is_full-length, is_empty-length,
}

-- A call with its pointer argument: NULL, or the memory or the number that it points at.
pub data Op : Type 0 where
  put get look : Option Bytes → Op
  size capacity space : Option ℕ → Op
  reset full empty : Op

-- The answer: the status of a call, with what is behind its target pointer afterwards.
pub data Reply : Type 0 where
  acknowledged : RingBufferStatus → Reply
  handed : RingBufferStatus → Option Bytes → Reply
  counted : RingBufferStatus × Option ℕ → Reply
  answered : Bool → Reply

pub call : Op → Option RingBuffer → Exec (Reply × Option RingBuffer)
call (put source) r = push r source >>= λ out. done (acknowledged out.0, out.1)
call (get target) r = pop r target >>= λ out. done (handed out.0 out.2, out.1)
call (look target) r = peek r target >>= λ out. done (handed out.0 out.1, r)
call (size out) r = done (counted (get_size r out), r)
call (capacity out) r = done (counted (get_capacity r out), r)
call (space out) r = done (counted (get_available_space r out), r)
call reset r = done (acknowledged (clear r).0, (clear r).1)
call full r = done (answered (is_full r), r)
call empty r = done (answered (is_empty r), r)

-- A number for a pointer that is not NULL.
abbrev number : Option ℕ → ℕ → Reply
number none n = counted (error_null_pointer, none)
number (some old) n = counted (success, some n)

-- The same call on a queue of at most `limit` elements of `bytes` bytes.
unfoldable pub queue_call : ℕ → ℕ → Op → Queue → Reply × Queue
queue_call limit bytes (put none) q = (acknowledged error_null_pointer, q)
queue_call limit bytes (put (some source)) q =
    let (s, q') = Queue.push limit q (slice source 0 bytes) in (acknowledged s, q')
queue_call limit bytes (get none) q = (handed error_null_pointer none, q)
queue_call limit bytes (get (some target)) q =
    let (s, x, q') = Queue.pop q in (handed s (some (delivered target x)), q')
queue_call limit bytes (look none) q = (handed error_null_pointer none, q)
queue_call limit bytes (look (some target)) q =
    let (s, x, q') = Queue.pop q in (handed s (some (delivered target x)), q)
queue_call limit bytes (size out) q = (number out (length q), q)
queue_call limit bytes (capacity out) q = (number out limit, q)
queue_call limit bytes (space out) q = (number out (limit - length q), q)
queue_call limit bytes reset q = (acknowledged success, [])
queue_call limit bytes full q = (answered (length q == limit), q)
queue_call limit bytes empty q = (answered (length q == 0), q)

-- Memory that is not NULL has room for an element, and the space query is asked of a ring whose
-- sum of positions does not wrap.
abbrev pub Fits : ℕ → ℕ → Op → Type 0
Fits limit bytes (put (some source)) = bytes ≤ length source
Fits limit bytes (get (some target)) = bytes ≤ length target
Fits limit bytes (look (some target)) = bytes ≤ length target
Fits limit bytes (space out) = limit < 2 ^ 63
Fits limit bytes _ = Unit {0}

-- A call that answers like the queue of dimensions `limit` and `bytes` that holds `q`, and leaves a
-- valid ring of these dimensions that holds what the queue then holds.
pub record CallRefines (limit bytes : ℕ) (op : Op) (q : Queue)
    (run : Exec (Reply × Option RingBuffer)) : Type 0 where
  pub reply : Reply
  pub ring : RingBuffer
  pub store : Bytes
  pub returns : run ≡ done (reply, some ring)
  pub same_limit : limit ≡ ring.capacity - 1
  pub same_size : bytes ≡ ring.element_size
  pub valid : IsValid ring store
  pub queue : (reply, contents ring store) ≡ queue_call limit bytes op q

module _ {r : RingBuffer} {b : Bytes} (v : IsValid r b) where
  -- A call that leaves the ring alone.
  kept :
      (op : Op) (reply : Reply)
      → call op (some r) ≡ done (reply, some r)
      → (reply, contents r b) ≡ queue_call (r.capacity - 1) r.element_size op (contents r b)
      → CallRefines (r.capacity - 1) r.element_size op (contents r b) (call op (some r))
  kept op reply e q = record {
    reply = reply;
    ring = r;
    store = b;
    returns = e;
    same_limit = refl;
    same_size = refl;
    valid = v;
    queue = q;
  }

  call_here :
      (op : Op)
      → Fits (r.capacity - 1) r.element_size op
      → CallRefines (r.capacity - 1) r.element_size op (contents r b) (call op (some r))
  unfolding call queue_call push push_into pop pop_from get_size get_capacity get_available_space
      get_held
  call_here (put none) h =
      kept (put none) (acknowledged error_null_pointer) (rw v.storage refl) refl
  call_here (put (some source)) h =
      let step = push_refines source v h in
      record {
        reply = acknowledged step.status;
        ring = step.ring;
        store = step.store;
        returns = rw step.returns refl;
        same_limit = omega (arith, step.same_capacity);
        same_size = omega (arith, step.same_size);
        valid = step.valid;
        queue = ap (λ x. (acknowledged x.0, x.1)) step.queue;
      }
  call_here (get none) h = kept (get none) (handed error_null_pointer none) (rw v.storage refl) refl
  call_here (get (some target)) h =
      let step = pop_refines target v h in
      record {
        reply = handed step.status (some (delivered target step.element));
        ring = step.ring;
        store = b;
        returns = rw step.returns refl;
        same_limit = omega (arith, step.same_capacity);
        same_size = omega (arith, step.same_size);
        valid = step.valid;
        queue = ap (λ x. (handed x.0 (some (delivered target x.1)), x.2)) step.queue;
      }
  call_here (look none) h =
      kept (look none) (handed error_null_pointer none)
        (rw (peek-pop (some r) none, v.storage) refl) refl
  call_here (look (some target)) h =
      let step = pop_refines target v h in
      kept (look (some target)) (handed step.status (some (delivered target step.element)))
        (rw (peek-pop (some r) (some target), step.returns) refl)
        (ap (λ x. (handed x.0 (some (delivered target x.1)), contents r b)) step.queue)
  call_here (size none) h = kept (size none) _ (rw v.storage refl) refl
  call_here (size (some old)) h = kept (size (some old)) _ (rw (get_size-eq v old) refl) refl
  call_here (capacity none) h = kept (capacity none) _ (rw v.storage refl) refl
  call_here (capacity (some old)) h =
      kept (capacity (some old)) _ (rw (get_capacity-eq v old) refl) refl
  call_here (space none) h = kept (space none) _ refl refl
  call_here (space (some old)) h =
      kept (space (some old)) _ (rw (get_available_space-eq v old (omega arith)) refl) refl
  call_here reset h =
      let step = clear_lem v in
      record {
        reply = acknowledged success;
        ring = step.0;
        store = b;
        returns = rw step.1 refl;
        same_limit = omega (arith, step.4);
        same_size = omega (arith, step.5);
        valid = step.2;
        queue = ap (λ q. (acknowledged success, q)) step.3;
      }
  call_here full h = kept full _ (rw (is_full-length v) refl) refl
  call_here empty h = kept empty _ (rw (is_empty-length v) refl) refl

  pub call_refines :
      (limit bytes : ℕ)
      → limit ≡ r.capacity - 1
      → bytes ≡ r.element_size
      → (op : Op) → Fits limit bytes op
      → CallRefines limit bytes op (contents r b) (call op (some r))
  call_refines limit bytes el es op = rw (el, es) (call_here op)
