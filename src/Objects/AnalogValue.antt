-- ===== src/Objects/AnalogValue.antt =====
-- crates/bacnet-object/src/analog_value.rs: a value that is always writable.
use bacnet_sim.Prelude.{ℕ, Bool, false, Option, List, [], ◌∷◌, if◌then◌else◌, ltb, Outcome, ok, err}
use bacnet_sim.Types.Error.{BacnetError, unknown_property, write_access_denied, invalid_data_type}
use bacnet_sim.Types.ObjectType.{ObjectType, as_u16 as type_code}
use bacnet_sim.Types.PropertyId.{PropertyIdentifier}
use bacnet_sim.Types.Value.{ObjectId, PropertyValue}
use bacnet_sim.Types.Enumerations.{
  EngineeringUnits, EventState, Reliability, StatusFlags, units_as_u32, event_state_as_u32,
  reliability_as_u32, status_flags_bits, no_flags,
}

pub record AnalogValue : Type 0 where
  pub device_id : ℕ
  pub object_id : ObjectId
  pub object_name : List ℕ
  pub description : List ℕ
  pub present_value : ℕ
  pub status_flags : StatusFlags
  pub event_state : EventState
  pub reliability : Reliability
  pub out_of_service : Bool
  pub units : EngineeringUnits
  pub cov_increment : ℕ
  pub last_changed : ℕ

unfoldable pub new : ℕ → ℕ → List ℕ → EngineeringUnits → ℕ → AnalogValue
new device_id instance name units now = record {
  device_id = device_id;
  object_id = record { object_type = ObjectType.analog_value; instance = instance };
  object_name = name;
  description = [];
  present_value = 0;
  status_flags = no_flags;
  event_state = EventState.normal;
  reliability = Reliability.no_fault_detected;
  out_of_service = false;
  units = units;
  cov_increment = 0x3DCCCCCD;
  last_changed = now;
}

unfoldable pub read_property :
    AnalogValue → PropertyIdentifier → Option ℕ → Outcome BacnetError PropertyValue
read_property o PropertyIdentifier.object_identifier i = ok (PropertyValue.object_id o.object_id)
read_property o PropertyIdentifier.object_name i = ok (PropertyValue.character_string o.object_name)
read_property o PropertyIdentifier.object_type i =
    ok (PropertyValue.enumerated (type_code ObjectType.analog_value))
read_property o PropertyIdentifier.description i = ok (PropertyValue.character_string o.description)
read_property o PropertyIdentifier.present_value i = ok (PropertyValue.real o.present_value)
read_property o PropertyIdentifier.status_flags i =
    ok (PropertyValue.bit_string (status_flags_bits o.status_flags))
read_property o PropertyIdentifier.event_state i =
    ok (PropertyValue.enumerated (event_state_as_u32 o.event_state))
read_property o PropertyIdentifier.reliability i =
    ok (PropertyValue.enumerated (reliability_as_u32 o.reliability))
read_property o PropertyIdentifier.out_of_service i = ok (PropertyValue.boolean o.out_of_service)
read_property o PropertyIdentifier.units i = ok (PropertyValue.enumerated (units_as_u32 o.units))
read_property o PropertyIdentifier.cov_increment i = ok (PropertyValue.real o.cov_increment)
read_property o _ i = err unknown_property

unfoldable pub write_present_value :
    AnalogValue → PropertyValue → ℕ → Outcome BacnetError AnalogValue
write_present_value o (PropertyValue.real v) now =
    ok (record o { present_value = v; last_changed = now })
write_present_value o _ now = err invalid_data_type

unfoldable pub write_out_of_service : AnalogValue → PropertyValue → Outcome BacnetError AnalogValue
write_out_of_service o (PropertyValue.boolean v) = ok (record o { out_of_service = v })
write_out_of_service o _ = err invalid_data_type

unfoldable pub write_description : AnalogValue → PropertyValue → Outcome BacnetError AnalogValue
write_description o (PropertyValue.character_string s) = ok (record o { description = s })
write_description o _ = err invalid_data_type

-- An error leaves the object as it is.
unfoldable pub write_property :
    AnalogValue
    → PropertyIdentifier
    → PropertyValue
    → Option ℕ
    → ℕ
    → Outcome BacnetError AnalogValue
write_property o PropertyIdentifier.present_value value priority now =
    write_present_value o value now
write_property o PropertyIdentifier.out_of_service value priority now = write_out_of_service o value
write_property o PropertyIdentifier.description value priority now = write_description o value
write_property o _ value priority now = err write_access_denied

unfoldable pub changed_since : AnalogValue → ℕ → List PropertyIdentifier
changed_since o since =
    if ltb since o.last_changed then PropertyIdentifier.present_value ∷ [] else []

unfoldable pub all_properties : AnalogValue → List (PropertyIdentifier × PropertyValue)
all_properties o =
    (PropertyIdentifier.object_identifier, PropertyValue.object_id o.object_id)
    ∷ (PropertyIdentifier.object_name, PropertyValue.character_string o.object_name)
    ∷ (PropertyIdentifier.object_type, PropertyValue.enumerated (type_code ObjectType.analog_value))
    ∷ (PropertyIdentifier.description, PropertyValue.character_string o.description)
    ∷ (PropertyIdentifier.present_value, PropertyValue.real o.present_value)
    ∷ (PropertyIdentifier.status_flags, PropertyValue.bit_string (status_flags_bits o.status_flags))
    ∷ (PropertyIdentifier.event_state, PropertyValue.enumerated (event_state_as_u32 o.event_state))
    ∷ (PropertyIdentifier.reliability, PropertyValue.enumerated (reliability_as_u32 o.reliability))
    ∷ (PropertyIdentifier.out_of_service, PropertyValue.boolean o.out_of_service)
    ∷ (PropertyIdentifier.units, PropertyValue.enumerated (units_as_u32 o.units))
    ∷ (PropertyIdentifier.cov_increment, PropertyValue.real o.cov_increment)
    ∷ []
