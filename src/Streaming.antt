-- ===== src/Streaming.antt =====
-- What src/crc16.c and src/crc32.c have in common: a context that is started, fed with pieces of a
-- message and asked for the checksum of what it was fed with, and the same in one call.
use ecu_platform.Base.{
  ℕ, ◌≤◌, ◌≡◌, refl, sym, ◌∙◌, ap, arith, Option, none, some, List, [], ◌∷◌, ◌++◌, Bytes, length,
  slice, slice_all, ltb, if◌then◌else◌, Exec, done, ◌>>=◌,
}

-- The calls of such a module, and what they promise of the context: `absorb` feeds it with bytes,
-- `value` is the checksum that it stands for. A NULL buffer is an empty piece.
pub record Checksum (Context Status : Type 0) : Type 0 where
  pub init : Option Context → Status × Option Context
  pub update : Option Context → Option Bytes → ℕ → Exec (Status × Option Context)
  pub get_result : Option Context → Option ℕ → Status × Option ℕ
  pub compute : Option Bytes → ℕ → Option ℕ → Exec (Status × Option ℕ)
  pub success : Status
  pub null_pointer : Status
  pub start : Context
  pub absorb : Context → Bytes → Context
  pub value : Context → ℕ
  pub inits : (ctx : Context) → init (some ctx) ≡ (success, some start)
  pub updates :
      (ctx : Context) (b : Bytes) (len : ℕ)
      → len ≤ length b
      → update (some ctx) (some b) len ≡ done (success, some (absorb ctx (slice b 0 len)))
  pub updates_null :
      (ctx : Context) (len : ℕ)
      → update (some ctx) none len ≡ done (if ltb 0 len then null_pointer else success, some ctx)
  pub reads :
      (ctx : Context) (old : ℕ) → get_result (some ctx) (some old) ≡ (success, some (value ctx))
  pub reads_null : (ctx : Context) → get_result (some ctx) none ≡ (null_pointer, none)
  pub computes :
      (b : Bytes) (len old : ℕ)
      → len ≤ length b
      → compute (some b) len (some old)
        ≡ done (success, some (value (absorb start (slice b 0 len))))
  pub absorb-nil : (ctx : Context) → absorb ctx [] ≡ ctx
  pub absorb-append :
      (ctx : Context) (xs ys : Bytes) → absorb ctx (xs ++ ys) ≡ absorb (absorb ctx xs) ys

-- A client's call with its pointer arguments: start anew, feed a piece of some length, ask for the
-- checksum.
pub data Call : Type 0 where
  restart : Call
  feed : Option Bytes → ℕ → Call
  ask : Option ℕ → Call

-- The length of a piece is one that can be read.
abbrev pub AllReadable : List Call → Type 0
AllReadable [] = Unit {0}
AllReadable (feed (some b) len ∷ calls) = (len ≤ length b) × AllReadable calls
AllReadable (_ ∷ calls) = AllReadable calls

pub data Reply (Status : Type 0) : Type 0 where
  acknowledged : Status → Reply Status
  result : Status × Option ℕ → Reply Status

module _ {Context Status : Type 0} (m : Checksum Context Status) where
  -- The calls in order on one context.
  unfoldable pub stream : Option Context → List Call → Exec (List (Reply Status))
  stream ctx [] = done []
  stream ctx (restart ∷ calls) = do
    rest ← stream (m.init ctx).1 calls
    done (acknowledged (m.init ctx).0 ∷ rest)
  stream ctx (feed bytes len ∷ calls) = do
    out ← m.update ctx bytes len
    rest ← stream out.1 calls
    done (acknowledged out.0 ∷ rest)
  stream ctx (ask crc ∷ calls) = do
    rest ← stream ctx calls
    done (result (m.get_result ctx crc) ∷ rest)

  -- The same answers, each checksum from one call on all that was fed since the last start.
  unfoldable pub one_shot : Bytes → List Call → Exec (List (Reply Status))
  one_shot fed [] = done []
  one_shot fed (restart ∷ calls) =
      one_shot [] calls >>= λ rest. done (acknowledged m.success ∷ rest)
  one_shot fed (feed none len ∷ calls) = one_shot fed calls >>= λ rest.
      done (acknowledged (if ltb 0 len then m.null_pointer else m.success) ∷ rest)
  one_shot fed (feed (some b) len ∷ calls) =
      one_shot (fed ++ slice b 0 len) calls >>= λ rest. done (acknowledged m.success ∷ rest)
  one_shot fed (ask none ∷ calls) =
      one_shot fed calls >>= λ rest. done (result (m.null_pointer, none) ∷ rest)
  one_shot fed (ask (some old) ∷ calls) = do
    answer ← m.compute (some fed) (length fed) (some old)
    rest ← one_shot fed calls
    done (result answer ∷ rest)

  -- Both return the same answers.
  pub record Agree (run reference : Exec (List (Reply Status))) : Type 0 where
    pub answers : List (Reply Status)
    pub returns : run ≡ done answers
    pub expected : reference ≡ done answers

  -- One more answer in front.
  cons-Agree :
      {run run' reference reference' : Exec (List (Reply Status))} (reply : Reply Status)
      → run' ≡ (run >>= λ rest. done (reply ∷ rest))
      → reference' ≡ (reference >>= λ rest. done (reply ∷ rest))
      → Agree run reference
      → Agree run' reference'
  cons-Agree reply e f rest = record {
    answers = reply ∷ rest.answers;
    returns = e ∙ ap (λ x. x >>= λ r. done (reply ∷ r)) rest.returns;
    expected = f ∙ ap (λ x. x >>= λ r. done (reply ∷ r)) rest.expected;
  }

  from-Agree :
      (calls : List Call) (fed : Bytes)
      → AllReadable calls
      → Agree (stream (some (m.absorb m.start fed)) calls) (one_shot fed calls)
  unfolding stream one_shot
  from-Agree [] fed h = record { answers = []; returns = refl; expected = refl }
  from-Agree (restart ∷ calls) fed h =
      cons-Agree (acknowledged m.success)
        (rw (m.inits (m.absorb m.start fed), m.absorb-nil m.start) refl) refl
        (from-Agree calls [] h)
  from-Agree (feed none len ∷ calls) fed h =
      cons-Agree (acknowledged (if ltb 0 len then m.null_pointer else m.success))
        (rw (m.updates_null (m.absorb m.start fed) len) refl) refl (from-Agree calls fed h)
  from-Agree (feed (some b) len ∷ calls) fed h =
      cons-Agree (acknowledged m.success)
        (rw
          (m.updates (m.absorb m.start fed) b len h.0, m.absorb-append m.start fed (slice b 0 len))
          refl)
        refl (from-Agree calls (fed ++ slice b 0 len) h.1)
  from-Agree (ask none ∷ calls) fed h =
      cons-Agree (result (m.null_pointer, none)) (rw (m.reads_null (m.absorb m.start fed)) refl)
        refl (from-Agree calls fed h)
  from-Agree (ask (some old) ∷ calls) fed h =
      cons-Agree (result (m.success, some (m.value (m.absorb m.start fed))))
        (rw (m.reads (m.absorb m.start fed) old) refl)
        (rw (m.computes fed (length fed) old (omega arith), slice_all fed) refl)
        (from-Agree calls fed h)

  pub stream-Agree :
      (ctx : Context) (calls : List Call)
      → AllReadable calls
      → Agree (stream (m.init (some ctx)).1 calls) (one_shot [] calls)
  stream-Agree ctx calls h =
      let rest = from-Agree calls [] h in
      record {
        answers = rest.answers;
        returns =
            ap (λ r. stream r.1 calls) (m.inits ctx)
            ∙ ap (λ c. stream (some c) calls) (sym (m.absorb-nil m.start))
            ∙ rest.returns;
        expected = rest.expected;
      }
