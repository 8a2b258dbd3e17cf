-- ===== src/Types/PropertyId.antt =====
-- crates/bacnet-types/src/property_id.rs: property identifiers and their numbers.
pub mod Numbers
use bacnet_sim.Prelude.{ℕ, List, [], ◌∷◌, ◌==◌, if◌then◌else◌}

-- `unknown` carries the number of a property that the program does not name.
pub data PropertyIdentifier : Type 0 where
  object_identifier : PropertyIdentifier
  object_name : PropertyIdentifier
  object_type : PropertyIdentifier
  description : PropertyIdentifier
  profile_name : PropertyIdentifier
  present_value : PropertyIdentifier
  status_flags : PropertyIdentifier
  event_state : PropertyIdentifier
  reliability : PropertyIdentifier
  out_of_service : PropertyIdentifier
  units : PropertyIdentifier
  min_present_value : PropertyIdentifier
  max_present_value : PropertyIdentifier
  cov_increment : PropertyIdentifier
  time_delay : PropertyIdentifier
  notification_class : PropertyIdentifier
  high_limit : PropertyIdentifier
  low_limit : PropertyIdentifier
  deadband : PropertyIdentifier
  limit_enable : PropertyIdentifier
  event_enable : PropertyIdentifier
  acked_transitions : PropertyIdentifier
  priority_array : PropertyIdentifier
  relinquish_default : PropertyIdentifier
  system_status : PropertyIdentifier
  vendor_name : PropertyIdentifier
  local_date : PropertyIdentifier
  local_time : PropertyIdentifier
  utc_offset : PropertyIdentifier
  daylight_savings_status : PropertyIdentifier
  vendor_identifier : PropertyIdentifier
  model_name : PropertyIdentifier
  firmware_revision : PropertyIdentifier
  application_software_version : PropertyIdentifier
  protocol_version : PropertyIdentifier
  protocol_revision : PropertyIdentifier
  protocol_services_supported : PropertyIdentifier
  protocol_object_types_supported : PropertyIdentifier
  object_list : PropertyIdentifier
  max_apdu_length_accepted : PropertyIdentifier
  segmentation_supported : PropertyIdentifier
  apdu_timeout : PropertyIdentifier
  number_of_apdu_retries : PropertyIdentifier
  max_master : PropertyIdentifier
  max_info_frames : PropertyIdentifier
  database_revision : PropertyIdentifier
  number_of_states : PropertyIdentifier
  state_text : PropertyIdentifier
  enable : PropertyIdentifier
  log_interval : PropertyIdentifier
  buffer_size : PropertyIdentifier
  record_count : PropertyIdentifier
  total_record_count : PropertyIdentifier
  start_time : PropertyIdentifier
  stop_time : PropertyIdentifier
  stop_when_full : PropertyIdentifier
  log_device_object_property : PropertyIdentifier
  weekly_schedule : PropertyIdentifier
  schedule_default : PropertyIdentifier
  effective_period : PropertyIdentifier
  list_of_object_property_references : PropertyIdentifier
  exception_schedule : PropertyIdentifier
  property_list : PropertyIdentifier
  all : PropertyIdentifier
  required : PropertyIdentifier
  optional : PropertyIdentifier
  unknown : ℕ → PropertyIdentifier

-- The arms of the `match` in `from_u32`, in its order.
abbrev pub numbered : List (ℕ × PropertyIdentifier)
numbered =
    (75, PropertyIdentifier.object_identifier)
    ∷ (77, PropertyIdentifier.object_name)
    ∷ (79, PropertyIdentifier.object_type)
    ∷ (28, PropertyIdentifier.description)
    ∷ (168, PropertyIdentifier.profile_name)
    ∷ (85, PropertyIdentifier.present_value)
    ∷ (111, PropertyIdentifier.status_flags)
    ∷ (36, PropertyIdentifier.event_state)
    ∷ (103, PropertyIdentifier.reliability)
    ∷ (81, PropertyIdentifier.out_of_service)
    ∷ (117, PropertyIdentifier.units)
    ∷ (69, PropertyIdentifier.min_present_value)
    ∷ (65, PropertyIdentifier.max_present_value)
    ∷ (22, PropertyIdentifier.cov_increment)
    ∷ (113, PropertyIdentifier.time_delay)
    ∷ (17, PropertyIdentifier.notification_class)
    ∷ (45, PropertyIdentifier.high_limit)
    ∷ (59, PropertyIdentifier.low_limit)
    ∷ (25, PropertyIdentifier.deadband)
    ∷ (52, PropertyIdentifier.limit_enable)
    ∷ (35, PropertyIdentifier.event_enable)
    ∷ (0, PropertyIdentifier.acked_transitions)
    ∷ (87, PropertyIdentifier.priority_array)
    ∷ (104, PropertyIdentifier.relinquish_default)
    ∷ (74, PropertyIdentifier.number_of_states)
    ∷ (110, PropertyIdentifier.state_text)
    ∷ (133, PropertyIdentifier.enable)
    ∷ (56, PropertyIdentifier.local_date)
    ∷ (57, PropertyIdentifier.local_time)
    ∷ (119, PropertyIdentifier.utc_offset)
    ∷ (24, PropertyIdentifier.daylight_savings_status)
    ∷ (132, PropertyIdentifier.log_interval)
    ∷ (127, PropertyIdentifier.buffer_size)
    ∷ (141, PropertyIdentifier.record_count)
    ∷ (145, PropertyIdentifier.total_record_count)
    ∷ (142, PropertyIdentifier.start_time)
    ∷ (143, PropertyIdentifier.stop_time)
    ∷ (144, PropertyIdentifier.stop_when_full)
    ∷ (131, PropertyIdentifier.log_device_object_property)
    ∷ (123, PropertyIdentifier.weekly_schedule)
    ∷ (174, PropertyIdentifier.schedule_default)
    ∷ (32, PropertyIdentifier.effective_period)
    ∷ (54, PropertyIdentifier.list_of_object_property_references)
    ∷ (38, PropertyIdentifier.exception_schedule)
    ∷ (112, PropertyIdentifier.system_status)
    ∷ (121, PropertyIdentifier.vendor_name)
    ∷ (120, PropertyIdentifier.vendor_identifier)
    ∷ (70, PropertyIdentifier.model_name)
    ∷ (44, PropertyIdentifier.firmware_revision)
    ∷ (12, PropertyIdentifier.application_software_version)
    ∷ (98, PropertyIdentifier.protocol_version)
    ∷ (139, PropertyIdentifier.protocol_revision)
    ∷ (97, PropertyIdentifier.protocol_services_supported)
    ∷ (96, PropertyIdentifier.protocol_object_types_supported)
    ∷ (76, PropertyIdentifier.object_list)
    ∷ (62, PropertyIdentifier.max_apdu_length_accepted)
    ∷ (107, PropertyIdentifier.segmentation_supported)
    ∷ (11, PropertyIdentifier.apdu_timeout)
    ∷ (73, PropertyIdentifier.number_of_apdu_retries)
    ∷ (64, PropertyIdentifier.max_master)
    ∷ (63, PropertyIdentifier.max_info_frames)
    ∷ (155, PropertyIdentifier.database_revision)
    ∷ (371, PropertyIdentifier.property_list)
    ∷ (8, PropertyIdentifier.all)
    ∷ (105, PropertyIdentifier.required)
    ∷ (80, PropertyIdentifier.optional)
    ∷ []

-- The first arm whose number is `v`, and the catch-all arm when there is none.
unfoldable pub first_arm : ℕ → List (ℕ × PropertyIdentifier) → PropertyIdentifier
first_arm v [] = PropertyIdentifier.unknown v
first_arm v ((k, p) ∷ arms) = if v == k then p else first_arm v arms

unfoldable pub from_u32 : ℕ → PropertyIdentifier
unfolding first_arm
from_u32 v = first_arm v numbered

unfoldable pub to_u32 : PropertyIdentifier → ℕ
to_u32 PropertyIdentifier.object_identifier = 75
to_u32 PropertyIdentifier.object_name = 77
to_u32 PropertyIdentifier.object_type = 79
to_u32 PropertyIdentifier.description = 28
to_u32 PropertyIdentifier.profile_name = 168
to_u32 PropertyIdentifier.present_value = 85
to_u32 PropertyIdentifier.status_flags = 111
to_u32 PropertyIdentifier.event_state = 36
to_u32 PropertyIdentifier.reliability = 103
to_u32 PropertyIdentifier.out_of_service = 81
to_u32 PropertyIdentifier.units = 117
to_u32 PropertyIdentifier.min_present_value = 69
to_u32 PropertyIdentifier.max_present_value = 65
to_u32 PropertyIdentifier.cov_increment = 22
to_u32 PropertyIdentifier.time_delay = 113
to_u32 PropertyIdentifier.notification_class = 17
to_u32 PropertyIdentifier.high_limit = 45
to_u32 PropertyIdentifier.low_limit = 59
to_u32 PropertyIdentifier.deadband = 25
to_u32 PropertyIdentifier.limit_enable = 52
to_u32 PropertyIdentifier.event_enable = 35
to_u32 PropertyIdentifier.acked_transitions = 0
to_u32 PropertyIdentifier.priority_array = 87
to_u32 PropertyIdentifier.relinquish_default = 104
to_u32 PropertyIdentifier.number_of_states = 74
to_u32 PropertyIdentifier.state_text = 110
to_u32 PropertyIdentifier.enable = 133
to_u32 PropertyIdentifier.local_date = 56
to_u32 PropertyIdentifier.local_time = 57
to_u32 PropertyIdentifier.utc_offset = 119
to_u32 PropertyIdentifier.daylight_savings_status = 24
to_u32 PropertyIdentifier.log_interval = 132
to_u32 PropertyIdentifier.buffer_size = 127
to_u32 PropertyIdentifier.record_count = 141
to_u32 PropertyIdentifier.total_record_count = 145
to_u32 PropertyIdentifier.start_time = 142
to_u32 PropertyIdentifier.stop_time = 143
to_u32 PropertyIdentifier.stop_when_full = 144
to_u32 PropertyIdentifier.log_device_object_property = 131
to_u32 PropertyIdentifier.weekly_schedule = 123
to_u32 PropertyIdentifier.schedule_default = 174
to_u32 PropertyIdentifier.effective_period = 32
to_u32 PropertyIdentifier.list_of_object_property_references = 54
to_u32 PropertyIdentifier.exception_schedule = 38
to_u32 PropertyIdentifier.system_status = 112
to_u32 PropertyIdentifier.vendor_name = 121
to_u32 PropertyIdentifier.vendor_identifier = 120
to_u32 PropertyIdentifier.model_name = 70
to_u32 PropertyIdentifier.firmware_revision = 44
to_u32 PropertyIdentifier.application_software_version = 12
to_u32 PropertyIdentifier.protocol_version = 98
to_u32 PropertyIdentifier.protocol_revision = 139
to_u32 PropertyIdentifier.protocol_services_supported = 97
to_u32 PropertyIdentifier.protocol_object_types_supported = 96
to_u32 PropertyIdentifier.object_list = 76
to_u32 PropertyIdentifier.max_apdu_length_accepted = 62
to_u32 PropertyIdentifier.segmentation_supported = 107
to_u32 PropertyIdentifier.apdu_timeout = 11
to_u32 PropertyIdentifier.number_of_apdu_retries = 73
to_u32 PropertyIdentifier.max_master = 64
to_u32 PropertyIdentifier.max_info_frames = 63
to_u32 PropertyIdentifier.database_revision = 155
to_u32 PropertyIdentifier.property_list = 371
to_u32 PropertyIdentifier.all = 8
to_u32 PropertyIdentifier.required = 105
to_u32 PropertyIdentifier.optional = 80
to_u32 (PropertyIdentifier.unknown v) = v
