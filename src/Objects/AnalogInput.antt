-- ===== src/Objects/AnalogInput.antt =====
-- crates/bacnet-object/src/analog_input.rs: a measured value. The clock's reading
-- `Instant::now()` is an argument.
use bacnet_sim.Prelude.{
  ℕ, Bool, false, not, Option, none, some, List, [], ◌∷◌, ◌++◌, if◌then◌else◌, leb, Outcome, ok,
  err, ◌>>=◌, ◌>>◌, fail_if, ok_or,
}
use bacnet_sim.Types.Error.{BacnetError, unknown_property, write_access_denied, invalid_data_type}
use bacnet_sim.Types.ObjectType.{ObjectType, as_u16 as type_code}
use bacnet_sim.Types.PropertyId.{PropertyIdentifier}
use bacnet_sim.Types.Value.{ObjectId, PropertyValue}
use bacnet_sim.Types.Enumerations.{
  EngineeringUnits, EventState, Reliability, StatusFlags, units_as_u32, event_state_as_u32,
  reliability_as_u32, status_flags_bits, no_flags,
}
use bacnet_sim.Types.Floats.{Floats, as_f32, as_bool}

pub record AnalogInput : Type 0 where
  pub device_id : ℕ
  pub object_id : ObjectId
  pub object_name : List ℕ
  pub description : List ℕ
  pub present_value : ℕ
  pub status_flags : StatusFlags
  pub event_state : EventState
  pub reliability : Reliability
  pub out_of_service : Bool
  pub units : EngineeringUnits
  pub min_present_value : Option ℕ
  pub max_present_value : Option ℕ
  pub cov_increment : ℕ
  pub time_delay : ℕ
  pub notification_class : Option ℕ
  pub high_limit : Option ℕ
  pub low_limit : Option ℕ
  pub deadband : ℕ
  pub profile_name : Option (List ℕ)
  pub last_cov_val : ℕ
  pub last_changed : ℕ

-- A limit that is not set is no property.
unfoldable pub limit_value : Option ℕ → Outcome BacnetError PropertyValue
limit_value (some v) = ok (PropertyValue.real v)
limit_value none = err unknown_property

unfoldable pub limit_entry :
    PropertyIdentifier → Option ℕ → List (PropertyIdentifier × PropertyValue)
limit_entry p (some v) = (p, PropertyValue.real v) ∷ []
limit_entry p none = []

unfoldable pub new : ℕ → ℕ → List ℕ → EngineeringUnits → ℕ → AnalogInput
new device_id instance name units now = record {
  device_id = device_id;
  object_id = record { object_type = ObjectType.analog_input; instance = instance };
  object_name = name;
  description = [];
  present_value = 0;
  status_flags = no_flags;
  event_state = EventState.normal;
  reliability = Reliability.no_fault_detected;
  out_of_service = false;
  units = units;
  min_present_value = none;
  max_present_value = none;
  cov_increment = 0x3DCCCCCD;
  time_delay = 0;
  notification_class = none;
  high_limit = none;
  low_limit = none;
  deadband = 0;
  profile_name = none;
  last_cov_val = 0;
  last_changed = now;
}

unfoldable pub read_property :
    AnalogInput → PropertyIdentifier → Option ℕ → Outcome BacnetError PropertyValue
read_property o PropertyIdentifier.object_identifier i = ok (PropertyValue.object_id o.object_id)
read_property o PropertyIdentifier.object_name i = ok (PropertyValue.character_string o.object_name)
read_property o PropertyIdentifier.object_type i =
    ok (PropertyValue.enumerated (type_code ObjectType.analog_input))
read_property o PropertyIdentifier.present_value i = ok (PropertyValue.real o.present_value)
read_property o PropertyIdentifier.status_flags i =
    ok (PropertyValue.bit_string (status_flags_bits o.status_flags))
read_property o PropertyIdentifier.event_state i =
    ok (PropertyValue.enumerated (event_state_as_u32 o.event_state))
read_property o PropertyIdentifier.reliability i =
    ok (PropertyValue.enumerated (reliability_as_u32 o.reliability))
read_property o PropertyIdentifier.out_of_service i = ok (PropertyValue.boolean o.out_of_service)
read_property o PropertyIdentifier.units i = ok (PropertyValue.enumerated (units_as_u32 o.units))
read_property o PropertyIdentifier.description i = ok (PropertyValue.character_string o.description)
read_property o PropertyIdentifier.cov_increment i = ok (PropertyValue.real o.cov_increment)
read_property o PropertyIdentifier.high_limit i = limit_value o.high_limit
read_property o PropertyIdentifier.low_limit i = limit_value o.low_limit
read_property o _ i = err unknown_property

unfoldable pub write_out_of_service : AnalogInput → PropertyValue → Outcome BacnetError AnalogInput
write_out_of_service o value = do
  b ← ok_or (as_bool value) invalid_data_type
  ok (record o { out_of_service = b })

unfoldable pub write_description : AnalogInput → PropertyValue → Outcome BacnetError AnalogInput
write_description o (PropertyValue.character_string s) = ok (record o { description = s })
write_description o _ = err invalid_data_type

module _ (floats : Floats) where
  unfoldable pub write_present_value :
      AnalogInput → PropertyValue → ℕ → Outcome BacnetError AnalogInput
  write_present_value o value now = do
    fail_if (not o.out_of_service) write_access_denied
    v ← ok_or (as_f32 floats value) invalid_data_type
    ok (record o { present_value = v; last_changed = now })

  unfoldable pub write_cov_increment : AnalogInput → PropertyValue → Outcome BacnetError AnalogInput
  write_cov_increment o value = do
    v ← ok_or (as_f32 floats value) invalid_data_type
    ok (record o { cov_increment = v })

  -- An error leaves the object as it is.
  unfoldable pub write_property :
      AnalogInput
      → PropertyIdentifier
      → PropertyValue
      → Option ℕ
      → ℕ
      → Outcome BacnetError AnalogInput
  write_property o PropertyIdentifier.out_of_service value priority now =
      write_out_of_service o value
  write_property o PropertyIdentifier.present_value value priority now =
      write_present_value o value now
  write_property o PropertyIdentifier.cov_increment value priority now = write_cov_increment o value
  write_property o PropertyIdentifier.description value priority now = write_description o value
  write_property o _ value priority now = err write_access_denied

unfoldable pub changed_since : AnalogInput → ℕ → List PropertyIdentifier
changed_since o since =
    if leb since o.last_changed
    then PropertyIdentifier.present_value ∷ PropertyIdentifier.status_flags ∷ []
    else []

unfoldable pub all_properties : AnalogInput → List (PropertyIdentifier × PropertyValue)
all_properties o =
    (PropertyIdentifier.object_identifier, PropertyValue.object_id o.object_id)
    ∷ (PropertyIdentifier.object_name, PropertyValue.character_string o.object_name)
    ∷ (PropertyIdentifier.object_type, PropertyValue.enumerated (type_code ObjectType.analog_input))
    ∷ (PropertyIdentifier.present_value, PropertyValue.real o.present_value)
    ∷ (PropertyIdentifier.status_flags, PropertyValue.bit_string (status_flags_bits o.status_flags))
    ∷ (PropertyIdentifier.event_state, PropertyValue.enumerated (event_state_as_u32 o.event_state))
    ∷ (PropertyIdentifier.reliability, PropertyValue.enumerated (reliability_as_u32 o.reliability))
    ∷ (PropertyIdentifier.out_of_service, PropertyValue.boolean o.out_of_service)
    ∷ (PropertyIdentifier.units, PropertyValue.enumerated (units_as_u32 o.units))
    ∷ (PropertyIdentifier.description, PropertyValue.character_string o.description)
    ∷ (PropertyIdentifier.cov_increment, PropertyValue.real o.cov_increment)
    ∷ (limit_entry PropertyIdentifier.high_limit o.high_limit
        ++ limit_entry PropertyIdentifier.low_limit o.low_limit)
