-- ===== src/Types/ObjectType.antt =====
-- crates/bacnet-types/src/object_types.rs: object types and their codes.
pub mod Codes
use bacnet_sim.Prelude.{ℕ, Option, none, some, ◌==◌, if◌then◌else◌}

pub data ObjectType : Type 0 where
  analog_input : ObjectType
  analog_output : ObjectType
  analog_value : ObjectType
  binary_input : ObjectType
  binary_output : ObjectType
  binary_value : ObjectType
  calendar : ObjectType
  command : ObjectType
  device : ObjectType
  event_enrollment : ObjectType
  file : ObjectType
  group : ObjectType
  loop : ObjectType
  multi_state_input : ObjectType
  multi_state_output : ObjectType
  notification_class : ObjectType
  program : ObjectType
  schedule : ObjectType
  averaging : ObjectType
  multi_state_value : ObjectType
  trend_log : ObjectType
  life_safety_point : ObjectType
  life_safety_zone : ObjectType
  accumulator : ObjectType
  pulse_converter : ObjectType
  event_log : ObjectType
  global_group : ObjectType
  trend_log_multiple : ObjectType
  load_control : ObjectType
  structured_view : ObjectType
  access_door : ObjectType
  timer : ObjectType
  access_credential : ObjectType
  access_point : ObjectType
  access_rights : ObjectType
  access_user : ObjectType
  access_zone : ObjectType
  credential_data_input : ObjectType
  network_security : ObjectType
  bit_string_value : ObjectType
  character_string_value : ObjectType
  date_pattern_value : ObjectType
  date_value : ObjectType
  date_time_pattern_value : ObjectType
  date_time_value : ObjectType
  integer_value : ObjectType
  large_analog_value : ObjectType
  octet_string_value : ObjectType
  positive_integer_value : ObjectType
  time_pattern_value : ObjectType
  time_value : ObjectType
  notification_forwarder : ObjectType
  alert_enrollment : ObjectType
  channel : ObjectType
  lighting_output : ObjectType
  binary_lighting_output : ObjectType
  network_port : ObjectType
  elevator_group : ObjectType
  escalator : ObjectType
  lift : ObjectType
  staging : ObjectType

-- `self as u16`, the discriminants of the enumeration.
unfoldable pub as_u16 : ObjectType → ℕ
as_u16 ObjectType.analog_input = 0
as_u16 ObjectType.analog_output = 1
as_u16 ObjectType.analog_value = 2
as_u16 ObjectType.binary_input = 3
as_u16 ObjectType.binary_output = 4
as_u16 ObjectType.binary_value = 5
as_u16 ObjectType.calendar = 6
as_u16 ObjectType.command = 7
as_u16 ObjectType.device = 8
as_u16 ObjectType.event_enrollment = 9
as_u16 ObjectType.file = 10
as_u16 ObjectType.group = 11
as_u16 ObjectType.loop = 12
as_u16 ObjectType.multi_state_input = 13
as_u16 ObjectType.multi_state_output = 14
as_u16 ObjectType.notification_class = 15
as_u16 ObjectType.program = 16
as_u16 ObjectType.schedule = 17
as_u16 ObjectType.averaging = 18
as_u16 ObjectType.multi_state_value = 19
as_u16 ObjectType.trend_log = 20
as_u16 ObjectType.life_safety_point = 21
as_u16 ObjectType.life_safety_zone = 22
as_u16 ObjectType.accumulator = 23
as_u16 ObjectType.pulse_converter = 24
as_u16 ObjectType.event_log = 25
as_u16 ObjectType.global_group = 26
as_u16 ObjectType.trend_log_multiple = 27
as_u16 ObjectType.load_control = 28
as_u16 ObjectType.structured_view = 29
as_u16 ObjectType.access_door = 30
as_u16 ObjectType.timer = 31
as_u16 ObjectType.access_credential = 32
as_u16 ObjectType.access_point = 33
as_u16 ObjectType.access_rights = 34
as_u16 ObjectType.access_user = 35
as_u16 ObjectType.access_zone = 36
as_u16 ObjectType.credential_data_input = 37
as_u16 ObjectType.network_security = 38
as_u16 ObjectType.bit_string_value = 39
as_u16 ObjectType.character_string_value = 40
as_u16 ObjectType.date_pattern_value = 41
as_u16 ObjectType.date_value = 42
as_u16 ObjectType.date_time_pattern_value = 43
as_u16 ObjectType.date_time_value = 44
as_u16 ObjectType.integer_value = 45
as_u16 ObjectType.large_analog_value = 46
as_u16 ObjectType.octet_string_value = 47
as_u16 ObjectType.positive_integer_value = 48
as_u16 ObjectType.time_pattern_value = 49
as_u16 ObjectType.time_value = 50
as_u16 ObjectType.notification_forwarder = 51
as_u16 ObjectType.alert_enrollment = 52
as_u16 ObjectType.channel = 53
as_u16 ObjectType.lighting_output = 54
as_u16 ObjectType.binary_lighting_output = 55
as_u16 ObjectType.network_port = 56
as_u16 ObjectType.elevator_group = 57
as_u16 ObjectType.escalator = 58
as_u16 ObjectType.lift = 59
as_u16 ObjectType.staging = 60

unfoldable pub from_u16 : ℕ → Option ObjectType
from_u16 v =
    if v == 0
    then some ObjectType.analog_input
    else if v == 1
    then some ObjectType.analog_output
    else if v == 2
    then some ObjectType.analog_value
    else if v == 3
    then some ObjectType.binary_input
    else if v == 4
    then some ObjectType.binary_output
    else if v == 5
    then some ObjectType.binary_value
    else if v == 8
    then some ObjectType.device
    else if v == 13
    then some ObjectType.multi_state_input
    else if v == 14
    then some ObjectType.multi_state_output
    else if v == 15
    then some ObjectType.notification_class
    else if v == 17
    then some ObjectType.schedule
    else if v == 20
    then some ObjectType.trend_log
    else none
