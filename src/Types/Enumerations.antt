-- ===== src/Types/Enumerations.antt =====
-- crates/bacnet-types/src/property_value.rs: units, event states, reliabilities and status flags.
use bacnet_sim.Prelude.{ℕ, Bool, false, List, [], ◌∷◌}

pub data EngineeringUnits : Type 0 where
  no_units degrees_celsius degrees_fahrenheit kelvin : EngineeringUnits
  percent pounds_per_square_inch cubic_meters_per_second liters : EngineeringUnits
  watts kilowatts amperes volts : EngineeringUnits
  hertz meters : EngineeringUnits

-- `self as u32`
unfoldable pub units_as_u32 : EngineeringUnits → ℕ
units_as_u32 EngineeringUnits.no_units = 95
units_as_u32 EngineeringUnits.degrees_celsius = 62
units_as_u32 EngineeringUnits.degrees_fahrenheit = 64
units_as_u32 EngineeringUnits.kelvin = 63
units_as_u32 EngineeringUnits.percent = 98
units_as_u32 EngineeringUnits.pounds_per_square_inch = 6
units_as_u32 EngineeringUnits.cubic_meters_per_second = 19
units_as_u32 EngineeringUnits.liters = 82
units_as_u32 EngineeringUnits.watts = 47
units_as_u32 EngineeringUnits.kilowatts = 48
units_as_u32 EngineeringUnits.amperes = 2
units_as_u32 EngineeringUnits.volts = 5
units_as_u32 EngineeringUnits.hertz = 27
units_as_u32 EngineeringUnits.meters = 31

pub data EventState : Type 0 where
  normal fault off_normal high_limit : EventState
  low_limit life_safety_alarm : EventState

-- `self as u32`
unfoldable pub event_state_as_u32 : EventState → ℕ
event_state_as_u32 EventState.normal = 0
event_state_as_u32 EventState.fault = 1
event_state_as_u32 EventState.off_normal = 2
event_state_as_u32 EventState.high_limit = 3
event_state_as_u32 EventState.low_limit = 4
event_state_as_u32 EventState.life_safety_alarm = 5

pub data Reliability : Type 0 where
  no_fault_detected no_sensor over_range under_range : Reliability
  open_loop shorted_loop no_output unreliable : Reliability
  process_error multi_state_fault configuration_error communication_failure : Reliability
  member_fault monitored_object_fault tripped lamp_failure : Reliability
  activation_failure renew_dhcp_failure renew_fd_registration_failure
        restart_auto_negotiation_failure :
      Reliability
  restart_failure proprietary_command_failure faults_listed referenced_object_fault : Reliability

pub record StatusFlags : Type 0 where
  pub in_alarm : Bool
  pub fault : Bool
  pub overridden : Bool
  pub out_of_service : Bool

-- `self as u32`
unfoldable pub reliability_as_u32 : Reliability → ℕ
reliability_as_u32 Reliability.no_fault_detected = 0
reliability_as_u32 Reliability.no_sensor = 1
reliability_as_u32 Reliability.over_range = 2
reliability_as_u32 Reliability.under_range = 3
reliability_as_u32 Reliability.open_loop = 4
reliability_as_u32 Reliability.shorted_loop = 5
reliability_as_u32 Reliability.no_output = 6
reliability_as_u32 Reliability.unreliable = 7
reliability_as_u32 Reliability.process_error = 8
reliability_as_u32 Reliability.multi_state_fault = 9
reliability_as_u32 Reliability.configuration_error = 10
reliability_as_u32 Reliability.communication_failure = 12
reliability_as_u32 Reliability.member_fault = 13
reliability_as_u32 Reliability.monitored_object_fault = 14
reliability_as_u32 Reliability.tripped = 15
reliability_as_u32 Reliability.lamp_failure = 16
reliability_as_u32 Reliability.activation_failure = 17
reliability_as_u32 Reliability.renew_dhcp_failure = 18
reliability_as_u32 Reliability.renew_fd_registration_failure = 19
reliability_as_u32 Reliability.restart_auto_negotiation_failure = 20
reliability_as_u32 Reliability.restart_failure = 21
reliability_as_u32 Reliability.proprietary_command_failure = 22
reliability_as_u32 Reliability.faults_listed = 23
reliability_as_u32 Reliability.referenced_object_fault = 24

-- The four flags as a bit string, as every object writes them.
unfoldable pub status_flags_bits : StatusFlags → List Bool
status_flags_bits f = f.in_alarm ∷ f.fault ∷ f.overridden ∷ f.out_of_service ∷ []

-- `StatusFlags::default()`
abbrev pub no_flags : StatusFlags
no_flags = record { in_alarm = false; fault = false; overridden = false; out_of_service = false }
