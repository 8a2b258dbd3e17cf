-- ===== src/Engine/Alarm.antt =====
-- crates/bacnet-sim-engine/src/alarm_engine.rs: intrinsic reporting. Instants and durations are
-- natural numbers; `duration_since` stops at zero.
pub mod Reports
pub mod Chains
use bacnet_sim.Prelude.{ℕ, ◌-◌, Bool, true, false, Option, none, some, if◌then◌else◌, ltb, ◌==◌}
use bacnet_sim.Types.Floats.{Floats, as_f32}
use bacnet_sim.Types.Value.{ObjectId, PropertyValue}

pub data EventState : Type 0 where
  normal fault off_normal high_limit low_limit life_safety_alarm : EventState

pub data IntrinsicAlgorithm : Type 0 where
  out_of_range : ℕ → ℕ → ℕ → IntrinsicAlgorithm
  change_of_value : ℕ → IntrinsicAlgorithm
  command_failure : ℕ → IntrinsicAlgorithm

pub record EventNotification : Type 0 where
  pub event_object : ObjectId
  pub from_state : EventState
  pub to_state : EventState
  pub timestamp : ℕ

pub record AlarmStateMachine : Type 0 where
  pub current_state : EventState
  pub time_delay : ℕ
  pub notification_class : ℕ
  pub algorithm : IntrinsicAlgorithm
  pub transition_start : Option ℕ

-- `==` of the derived `PartialEq`, by the discriminants
abbrev pub number : EventState → ℕ
number normal = 0
number fault = 1
number off_normal = 2
number high_limit = 3
number low_limit = 4
number life_safety_alarm = 5

abbrev pub or_insert : Option ℕ → ℕ → ℕ
or_insert (some start) now = start
or_insert none now = now

module _ (floats : Floats) where
  unfoldable pub in_dead : EventState → ℕ → ℕ → ℕ → ℕ → Bool
  in_dead high_limit high low deadband v = floats.gt v (floats.sub high deadband)
  in_dead low_limit high low deadband v = floats.gt (floats.add low deadband) v
  in_dead _ high low deadband v = false

  -- The state that a value calls for.
  unfoldable pub target : EventState → ℕ → ℕ → ℕ → ℕ → EventState
  target current high low deadband v =
      if floats.gt v high
      then high_limit
      else if floats.gt low v
      then low_limit
      else if in_dead current high low deadband v
      then current
      else normal

-- The part of `evaluate` behind the choice of the state.
unfoldable pub transition :
    AlarmStateMachine → EventState → ℕ → ObjectId → AlarmStateMachine × Option EventNotification
transition m new_state now object_id =
    let start = or_insert m.transition_start now in
    if number new_state == number m.current_state
    then (record m { transition_start = none }, none)
    else if ltb (now - start) m.time_delay
    then (record m { transition_start = some start }, none)
    else (
      record m { current_state = new_state; transition_start = none },
      some (record {
        event_object = object_id;
        from_state = m.current_state;
        to_state = new_state;
        timestamp = now;
      }),
    )

module _ (floats : Floats) where
  unfoldable pub evaluate_range :
      AlarmStateMachine
      → ℕ
      → ℕ
      → ℕ
      → Option ℕ
      → ℕ
      → ObjectId
      → AlarmStateMachine × Option EventNotification
  evaluate_range m high low deadband none now object_id = (m, none)
  evaluate_range m high low deadband (some v) now object_id =
      transition m (target floats m.current_state high low deadband v) now object_id

  unfoldable pub evaluate_by :
      IntrinsicAlgorithm
      → AlarmStateMachine
      → PropertyValue
      → ℕ
      → ObjectId
      → AlarmStateMachine × Option EventNotification
  evaluate_by (out_of_range high low deadband) m value now object_id =
      evaluate_range m high low deadband (as_f32 floats value) now object_id
  evaluate_by _ m value now object_id = (m, none)

  unfoldable pub evaluate :
      AlarmStateMachine
      → PropertyValue
      → ℕ
      → ObjectId
      → AlarmStateMachine × Option EventNotification
  evaluate m value now object_id = evaluate_by m.algorithm m value now object_id
