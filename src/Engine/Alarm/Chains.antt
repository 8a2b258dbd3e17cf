-- ===== src/Engine/Alarm/Chains.antt =====
-- The reports of a machine, one after the other.
use bacnet_sim.Prelude.{
  ℕ, ◌-◌, ◌≡◌, ◌≢◌, refl, Option, none, some, List, [], ◌∷◌, arith, ltb, ◌==◌, Bool-cases, inl, inr,
}
use bacnet_sim.Types.Floats.{Floats, as_f32}
use bacnet_sim.Types.Value.{ObjectId, PropertyValue}
use bacnet_sim.Engine.Alarm.{
  EventState, IntrinsicAlgorithm, out_of_range, EventNotification, AlarmStateMachine, number,
  or_insert, target, transition, evaluate_range, evaluate_by, evaluate,
}
use bacnet_sim.Engine.Alarm.Reports.{with_report}

-- The reports lead from one state to another, each from the state where the one before it ended.
pub data Chain : EventState → List EventNotification → EventState → Type 0 where
  stop : (c : EventState) → Chain c [] c
  link :
      (e : EventNotification) (reports : List EventNotification) (end : EventState)
      → number e.to_state ≢ number e.from_state
      → Chain e.to_state reports end
      → Chain e.from_state (e ∷ reports) end

-- What one evaluation does: it reports nothing and keeps the state, or it reports the change.
data Changes (m : AlarmStateMachine) : AlarmStateMachine × Option EventNotification → Type 0 where
  keeps : (start : Option ℕ) → Changes m (record m { transition_start = start }, none)
  changes :
      (e : EventNotification)
      → e.from_state ≡ m.current_state
      → number e.to_state ≢ number e.from_state
      → Changes m (record m { current_state = e.to_state; transition_start = none }, some e)

transition-Changes :
    (m : AlarmStateMachine) (s : EventState) (now : ℕ) (object_id : ObjectId)
    → Changes m (transition m s now object_id)
unfolding transition
transition-Changes m s now object_id = elim (Bool-cases (number s == number m.current_state)) [
  | inl same ↦ rw same (keeps none)
  | inr other ↦ elim (Bool-cases (ltb (now - or_insert m.transition_start now) m.time_delay)) [
    | inl early ↦ rw (other, early) (keeps (some (or_insert m.transition_start now)))
    | inr due ↦
        rw (other, due)
          (changes
            (record {
              event_object = object_id;
              from_state = m.current_state;
              to_state = s;
              timestamp = now;
            })
            refl (λ h. ground (arith, other, h)))
  ]
]

range-Changes :
    (floats : Floats) (m : AlarmStateMachine) (high low deadband : ℕ) (v : Option ℕ) (now : ℕ)
    (object_id : ObjectId)
    → Changes m (evaluate_range floats m high low deadband v now object_id)
unfolding evaluate_range
range-Changes floats m high low deadband none now object_id = keeps m.transition_start
range-Changes floats m high low deadband (some v) now object_id =
    transition-Changes m (target floats m.current_state high low deadband v) now object_id

evaluate-Changes :
    (floats : Floats) (m : AlarmStateMachine) (value : PropertyValue) (now : ℕ)
    (object_id : ObjectId)
    → Changes m (evaluate floats m value now object_id)
unfolding evaluate evaluate_by
evaluate-Changes floats m value now object_id = by_algorithm m.algorithm
  where
    by_algorithm : (a : IntrinsicAlgorithm) → Changes m (evaluate_by floats a m value now object_id)
    by_algorithm (out_of_range high low deadband) =
        range-Changes floats m high low deadband (as_f32 floats value) now object_id
    by_algorithm _ = keeps m.transition_start

module _ (floats : Floats) (object_id : ObjectId) where
  -- The machine after observations of any values, each with its time, and the reports, oldest first.
  unfoldable pub observe_values :
      AlarmStateMachine → List (PropertyValue × ℕ) → AlarmStateMachine × List EventNotification
  observe_values m [] = (m, [])
  observe_values m ((value, now) ∷ later) =
      let (m', o) = evaluate floats m value now object_id in
      let (end, reports) = observe_values m' later in (end, with_report o reports)

  observe_values-extended :
      (m : AlarmStateMachine) (later : List (PropertyValue × ℕ))
      (r : AlarmStateMachine × Option EventNotification)
      → Changes m r
      → Chain r.0.current_state
          (observe_values r.0 later).1
          (observe_values r.0 later).0.current_state
      → Chain m.current_state
          (with_report r.1 (observe_values r.0 later).1)
          (observe_values r.0 later).0.current_state
  observe_values-extended m later r (keeps start) chain = chain
  observe_values-extended m later r (changes e from other) chain =
      rw⁻¹ from (link e _ _ other chain)

  -- Whatever values a machine observes, of any kind and under any algorithm, its reports are a chain
  -- from its state at the start to its state at the end: each report is of a change, from the state
  -- that the report before it was of.
  pub observe_values-Chain :
      (m : AlarmStateMachine) (observations : List (PropertyValue × ℕ))
      → Chain m.current_state
          (observe_values m observations).1
          (observe_values m observations).0.current_state
  unfolding observe_values
  observe_values-Chain m [] = stop m.current_state
  observe_values-Chain m ((value, now) ∷ later) =
      let r = evaluate floats m value now object_id in
      observe_values-extended m later r (evaluate-Changes floats m value now object_id)
        (observe_values-Chain r.0 later)
