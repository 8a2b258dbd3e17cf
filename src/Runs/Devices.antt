-- ===== src/Runs/Devices.antt =====
-- The theorems on the objects and the alarms at concrete objects.
use bacnet_sim.Prelude.{
  ℕ, ◌+◌, ◌-◌, ◌≤◌, ◌≡◌, refl, ltb, true, false, none, some, List, [], ◌∷◌, ◌++◌, arith, ok, as_u32,
  length,
}
use bacnet_sim.Types.ObjectType.{ObjectType}
use bacnet_sim.Types.PropertyId.{PropertyIdentifier}
use bacnet_sim.Types.Value.{ObjectId, PropertyValue}
use bacnet_sim.Types.Enumerations.{EngineeringUnits}
use bacnet_sim.Types.Floats.{Floats}
use bacnet_sim.Objects.TrendLog
use bacnet_sim.Objects.TrendLog.{TrendLog, log_value}
use bacnet_sim.Objects.TrendLog.Buffer.{last, log_values, entries_of, log_values-last}
use bacnet_sim.Objects.TrendLog.Reachable.{made, logged, read_property-record_count}
use bacnet_sim.Objects.AnalogOutput
use bacnet_sim.Objects.AnalogOutput.{AnalogOutput, write_property}
use bacnet_sim.Objects.AnalogOutput.Commands.{
  Command, commanded, highest, command_all, command_all-highest,
}
use bacnet_sim.Engine.Alarm.{target, AlarmStateMachine, EventState, out_of_range}
use bacnet_sim.Engine.Alarm.Reports.{observe, report, observe-sustained, observe-switched}
use bacnet_sim.Engine.Alarm.Chains.{Chain, observe_values, observe_values-Chain}

-- Numbers in place of floats.
abbrev whole_numbers : Floats
whole_numbers = record {
  double_as_f32 = λ v. v;
  u32_as_f32 = λ v. v;
  i32_as_f32 = λ v. v;
  gt = λ a b. ltb b a;
  add = λ a b. a + b;
  sub = λ a b. a - b;
}

-- A log of two entries that holds one.
abbrev small_log : TrendLog
small_log = record {
  device_id = 1;
  object_id = record { object_type = ObjectType.trend_log; instance = 1 };
  object_name = [];
  description = [];
  enable = true;
  log_interval = 60;
  buffer_size = 2;
  log_buffer = record { timestamp = 5; value = PropertyValue.unsigned 1 } ∷ [];
  monitored_object = none;
  monitored_property = none;
  record_count = 1;
  total_record_count = 1;
  out_of_service = false;
  last_sample = 0;
}

abbrev samples : List (PropertyValue × ℕ)
samples = (PropertyValue.unsigned 2, 6) ∷ (PropertyValue.unsigned 3, 7) ∷ []

small_log_keeps_two :
    ((log_values small_log samples).log_buffer
      ≡ last 2 (small_log.log_buffer ++ entries_of samples))
    × ((log_values small_log samples).record_count
        ≡ as_u32 (length (last 2 (small_log.log_buffer ++ entries_of samples))))
    × ((log_values small_log samples).total_record_count ≡ 3)
small_log_keeps_two = log_values-last small_log samples (record {
  enable = refl;
  out_of_service = refl;
  room = omega arith;
  count = refl;
  total = omega arith;
})

abbrev new_log : TrendLog
new_log = log_value (TrendLog.new 1 7 [] 0) PropertyValue.null 3

new_log_counts :
    (length new_log.log_buffer ≤ 1000)
    × (TrendLog.read_property new_log PropertyIdentifier.record_count
        ≡ ok (PropertyValue.unsigned (length new_log.log_buffer)))
new_log_counts =
    read_property-record_count new_log
      (logged (TrendLog.new 1 7 [] 0) PropertyValue.null 3 (made 1 7 [] 0))

-- Newest first: 70 at priority 8 is relinquished, 50 at priority 16 is left.
abbrev commands : List Command
commands = (8, none) ∷ (16, some 50) ∷ (8, some 70) ∷ []

lowest_command_is_left :
    (o : AnalogOutput) × (command_all whole_numbers 0
        (AnalogOutput.new 1 2 [] EngineeringUnits.percent 0)
        commands
      ≡ ok o)
    × (o.present_value ≡ highest (commanded commands) 1 16 0)
    × (AnalogOutput.read_property o PropertyIdentifier.present_value none
        ≡ ok (PropertyValue.real (highest (commanded commands) 1 16 0)))
lowest_command_is_left =
    command_all-highest whole_numbers 1 2 [] EngineeringUnits.percent 0 commands
      ((omega arith, omega arith), ((omega arith, omega arith), ((omega arith, omega arith), tt)))

abbrev input_3 : ObjectId
input_3 = record { object_type = ObjectType.analog_input; instance = 3 }

-- A range of 20 to 80 with a deadband of 5 and a delay of 10.
abbrev watcher : AlarmStateMachine
watcher = record {
  current_state = EventState.normal;
  time_delay = 10;
  notification_class = 1;
  algorithm = out_of_range 80 20 5;
  transition_start = none;
}

high_value_is_reported :
    observe whole_numbers input_3 watcher ((90, 100) ∷ (91, 105) ∷ (95, 110) ∷ []) ≡ (
      record watcher { current_state = EventState.high_limit; transition_start = none },
      report input_3 EventState.normal EventState.high_limit 110 ∷ [],
    )
high_value_is_reported =
    observe-sustained whole_numbers 80 20 5 input_3 watcher EventState.high_limit 90 100 95 110
      ((91, 105) ∷ []) (record { range = refl; other = λ e. omega (arith, e) }) refl (omega arith)
      (unfold target in refl) ((unfold target in refl, omega arith), tt) (unfold target in refl)
      (omega arith)

low_value_is_reported_at_once :
    observe whole_numbers input_3 watcher ((90, 100) ∷ (10, 110) ∷ []) ≡ (
      record watcher { current_state = EventState.low_limit; transition_start = none },
      report input_3 EventState.normal EventState.low_limit 110 ∷ [],
    )
low_value_is_reported_at_once =
    observe-switched whole_numbers 80 20 5 input_3 watcher EventState.high_limit
      EventState.low_limit 90 100 10 110 (record { range = refl; other = λ e. omega (arith, e) })
      (record { range = refl; other = λ e. omega (arith, e) }) refl (omega arith)
      (unfold target in refl) (unfold target in refl) (omega arith)

-- The value that is no number is left out of account.
abbrev day : List (PropertyValue × ℕ)
day =
    (PropertyValue.real 90, 100)
    ∷ (PropertyValue.unsigned 10, 110)
    ∷ (PropertyValue.null, 111)
    ∷ (PropertyValue.real 50, 112)
    ∷ (PropertyValue.real 50, 130)
    ∷ []

reports_of_a_day_join_up :
    Chain EventState.normal
      (observe_values whole_numbers input_3 watcher day).1
      (observe_values whole_numbers input_3 watcher day).0.current_state
reports_of_a_day_join_up = observe_values-Chain whole_numbers input_3 watcher day
