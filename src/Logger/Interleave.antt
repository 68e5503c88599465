-- ===== src/Logger/Interleave.antt =====
-- Calls of `loggerWrite` of src/logger.c that take turns.
use native.Mathlib.Decide.{ℕ_discrete}
use mathlib.Core.Logic.{ite}
use ecu_platform.Base.{
  ℕ, zero, suc, ◌^◌, ◌≤◌, ◌<◌, ◌≡◌, refl, ap, arith, Option, List, [], ◌∷◌, length, Bytes, Exec,
  done,
}
use ecu_platform.Logger.Write.{Argument}
use ecu_platform.Logger.Format.{Formats}
use ecu_platform.Logger.Turns.{Call, Stage, ready, finished, advance, interleave, in_turn}
use ecu_platform.Logger.Course.{Course, course}

-- One more turn for call i.
abbrev pub bump : ℕ → (ℕ → ℕ) → ℕ → ℕ
bump i turns j = ite (ℕ_discrete i j) (suc (turns j)) (turns j)

-- The turns that each call has had after a schedule.
abbrev pub turns_after : List ℕ → (ℕ → ℕ) → ℕ → ℕ
turns_after [] turns = turns
turns_after (i ∷ schedule) turns = turns_after schedule (bump i turns)

-- The calls in the order of their fourth turns, in which a call that reaches the backend calls it.
abbrev pub finishing : List ℕ → (ℕ → ℕ) → List ℕ
finishing [] turns = []
finishing (i ∷ schedule) turns =
    let rest = finishing schedule (bump i turns) in ite (ℕ_discrete (turns i) 3) (i ∷ rest) rest

module _ {ℓ κ} {A : Type ℓ} {W : Type κ}
    {format : Bytes → ℕ → Bytes → List (Argument A) → Bytes × Option ℕ} (f : Formats format)
    (backend : ℕ → Bytes → ℕ → Option ℕ → W → W) (max_length : ℕ) (least : 2 ≤ max_length)
    (small : max_length < 2 ^ 64) where
  module _ {c : Call A} (co : Course f backend max_length least small c) where
    -- The stage after n turns.
    stage_after : ℕ → Stage
    stage_after zero = ready
    stage_after (suc zero) = co.first
    stage_after (suc (suc zero)) = co.second
    stage_after (suc (suc (suc zero))) = co.third
    stage_after (suc (suc (suc (suc n)))) = finished co.status

    -- What the next turn does to the world.
    gain : ℕ → W → W
    gain n w = ite (ℕ_discrete n 3) (co.effect w) w

    turn :
        (n : ℕ) (w : W)
        → advance format backend max_length c (stage_after n) w
          ≡ done (stage_after (suc n), gain n w)
    unfolding stage_after gain advance ℕ_discrete
    turn zero w = co.step_one w
    turn (suc zero) w = co.step_two w
    turn (suc (suc zero)) w = co.step_three w
    turn (suc (suc (suc zero))) w = co.step_four w
    turn (suc (suc (suc (suc n)))) w = ground arith

  module _ (calls : ℕ → Call A) (rooms : (i : ℕ) → length (calls i).stack ≡ max_length) where
    courses : (i : ℕ) → Course f backend max_length least small (calls i)
    courses i = course f backend max_length least small (calls i) (rooms i)

    -- A run of the schedule, in which every call is where its turns have brought it.
    record Interleaved (schedule : List ℕ) (turns : ℕ → ℕ) (world : W)
        (run : Exec ((ℕ → Stage) × W)) : Type κ where
      stages : ℕ → Stage
      outcome : W
      returns : run ≡ done (stages, outcome)
      in_order :
          in_turn format backend max_length calls (finishing schedule turns) world ≡ done outcome
      at : (i : ℕ) → stages i ≡ stage_after (courses i) (turns_after schedule turns i)

    bumped :
        (i : ℕ) (stages : ℕ → Stage) (turns : ℕ → ℕ)
        → ((j : ℕ) → stages j ≡ stage_after (courses j) (turns j))
        → (j : ℕ) (d : Dec (i ≡ j))
        → ite d (stage_after (courses i) (suc (turns i))) (stages j)
          ≡ stage_after (courses j) (ite d (suc (turns j)) (turns j))
    bumped i stages turns h j (yes e) = ap (λ k. stage_after (courses k) (suc (turns k))) e
    bumped i stages turns h j (no ne) = h j

    in_order-gain :
        (i : ℕ) (rest : List ℕ) (world outcome : W) {P : Type 0} (d : Dec P)
        → in_turn format backend max_length calls rest (ite d ((courses i).effect world) world)
          ≡ done outcome
        → in_turn format backend max_length calls (ite d (i ∷ rest) rest) world ≡ done outcome
    unfolding in_turn
    in_order-gain i rest world outcome (yes e) h = rw ((courses i).sequential world) h
    in_order-gain i rest world outcome (no ne) h = h

    interleaved :
        (schedule : List ℕ) (stages : ℕ → Stage) (turns : ℕ → ℕ) (world : W)
        → ((j : ℕ) → stages j ≡ stage_after (courses j) (turns j))
        → Interleaved schedule turns world
            (interleave format backend max_length calls schedule stages world)
    unfolding interleave in_turn gain
    interleaved [] stages turns world h = record {
      stages = stages;
      outcome = world;
      returns = refl;
      in_order = refl;
      at = h;
    }
    interleaved (i ∷ schedule) stages turns world h =
        let next : ℕ → Stage =
          λ j. ite (ℕ_discrete i j) (stage_after (courses i) (suc (turns i))) (stages j) in
        let rest =
          interleaved schedule next (bump i turns) (gain (courses i) (turns i) world)
            (λ j. bumped i stages turns h j (ℕ_discrete i j)) in
        record {
          stages = rest.stages;
          outcome = rest.outcome;
          returns = rw (h i, turn (courses i) (turns i) world) rest.returns;
          in_order =
              in_order-gain i (finishing schedule (bump i turns)) world rest.outcome
                (ℕ_discrete (turns i) 3) rest.in_order;
          at = rest.at;
        }

    from_ready :
        (schedule : List ℕ) (world : W)
        → Interleaved schedule
            (λ _. 0)
            world
            (interleave format backend max_length calls schedule (λ _. ready) world)
    unfolding stage_after
    from_ready schedule world = interleaved schedule (λ _. ready) (λ _. 0) world (λ j. refl)

    -- Let calls of write, each with a local buffer of the maximal length, take turns in any order,
    -- a turn being the checks, the prefix, the message or the call of the backend, with settings
    -- that do not change meanwhile. Then nothing is accessed out of bounds, and the world is in
    -- the end what it is after the whole calls that had their fourth turn, one after another in
    -- the order of these turns.
    pub interleave-eq-in_turn :
        (schedule : List ℕ) (world : W)
        → (stages : ℕ → Stage) × (outcome : W) × (interleave format backend max_length calls
              schedule
              (λ _. ready)
              world
            ≡ done (stages, outcome))
          × (in_turn format backend max_length calls (finishing schedule (λ _. 0)) world
              ≡ done outcome)
    interleave-eq-in_turn schedule world =
        let run = from_ready schedule world in (run.stages, run.outcome, run.returns, run.in_order)
