-- ===== src/Objects/BinaryValue.antt =====
-- crates/bacnet-object/src/binary_value.rs: a state that is always writable.
use bacnet_sim.Prelude.{
  ℕ, Bool, false, not, Option, List, [], ◌∷◌, if◌then◌else◌, ltb, ◌==◌, Outcome, ok, err,
}
use bacnet_sim.Types.Error.{BacnetError, unknown_property, write_access_denied, invalid_data_type}
use bacnet_sim.Types.ObjectType.{ObjectType, as_u16 as type_code}
use bacnet_sim.Types.PropertyId.{PropertyIdentifier}
use bacnet_sim.Types.Value.{ObjectId, PropertyValue}
use bacnet_sim.Types.Enumerations.{
  EventState, Reliability, StatusFlags, event_state_as_u32, reliability_as_u32, status_flags_bits,
  no_flags,
}

pub record BinaryValue : Type 0 where
  pub device_id : ℕ
  pub object_id : ObjectId
  pub object_name : List ℕ
  pub description : List ℕ
  pub present_value : Bool
  pub out_of_service : Bool
  pub status_flags : StatusFlags
  pub event_state : EventState
  pub reliability : Reliability
  pub last_changed : ℕ

unfoldable pub new : ℕ → ℕ → List ℕ → ℕ → BinaryValue
new device_id instance name now = record {
  device_id = device_id;
  object_id = record { object_type = ObjectType.binary_value; instance = instance };
  object_name = name;
  description = [];
  present_value = false;
  out_of_service = false;
  status_flags = no_flags;
  event_state = EventState.normal;
  reliability = Reliability.no_fault_detected;
  last_changed = now;
}

unfoldable pub read_property :
    BinaryValue → PropertyIdentifier → Option ℕ → Outcome BacnetError PropertyValue
read_property o PropertyIdentifier.object_identifier i = ok (PropertyValue.object_id o.object_id)
read_property o PropertyIdentifier.object_name i = ok (PropertyValue.character_string o.object_name)
read_property o PropertyIdentifier.object_type i =
    ok (PropertyValue.enumerated (type_code ObjectType.binary_value))
read_property o PropertyIdentifier.description i = ok (PropertyValue.character_string o.description)
read_property o PropertyIdentifier.present_value i = ok (PropertyValue.boolean o.present_value)
read_property o PropertyIdentifier.status_flags i =
    ok (PropertyValue.bit_string (status_flags_bits o.status_flags))
read_property o PropertyIdentifier.event_state i =
    ok (PropertyValue.enumerated (event_state_as_u32 o.event_state))
read_property o PropertyIdentifier.reliability i =
    ok (PropertyValue.enumerated (reliability_as_u32 o.reliability))
read_property o PropertyIdentifier.out_of_service i = ok (PropertyValue.boolean o.out_of_service)
read_property o _ i = err unknown_property

unfoldable pub write_present_value :
    BinaryValue → PropertyValue → ℕ → Outcome BacnetError BinaryValue
write_present_value o (PropertyValue.boolean v) now =
    ok (record o { present_value = v; last_changed = now })
write_present_value o (PropertyValue.enumerated v) now =
    ok (record o { present_value = not (v == 0); last_changed = now })
write_present_value o (PropertyValue.unsigned v) now =
    ok (record o { present_value = not (v == 0); last_changed = now })
write_present_value o _ now = err invalid_data_type

unfoldable pub write_out_of_service : BinaryValue → PropertyValue → Outcome BacnetError BinaryValue
write_out_of_service o (PropertyValue.boolean v) = ok (record o { out_of_service = v })
write_out_of_service o _ = err invalid_data_type

-- An error leaves the object as it is.
unfoldable pub write_property :
    BinaryValue
    → PropertyIdentifier
    → PropertyValue
    → Option ℕ
    → ℕ
    → Outcome BacnetError BinaryValue
write_property o PropertyIdentifier.present_value value priority now =
    write_present_value o value now
write_property o PropertyIdentifier.out_of_service value priority now = write_out_of_service o value
write_property o _ value priority now = err write_access_denied

unfoldable pub changed_since : BinaryValue → ℕ → List PropertyIdentifier
changed_since o since =
    if ltb since o.last_changed then PropertyIdentifier.present_value ∷ [] else []

unfoldable pub all_properties : BinaryValue → List (PropertyIdentifier × PropertyValue)
all_properties o =
    (PropertyIdentifier.object_identifier, PropertyValue.object_id o.object_id)
    ∷ (PropertyIdentifier.object_name, PropertyValue.character_string o.object_name)
    ∷ (PropertyIdentifier.object_type, PropertyValue.enumerated (type_code ObjectType.binary_value))
    ∷ (PropertyIdentifier.description, PropertyValue.character_string o.description)
    ∷ (PropertyIdentifier.present_value, PropertyValue.boolean o.present_value)
    ∷ (PropertyIdentifier.status_flags, PropertyValue.bit_string (status_flags_bits o.status_flags))
    ∷ (PropertyIdentifier.event_state, PropertyValue.enumerated (event_state_as_u32 o.event_state))
    ∷ (PropertyIdentifier.reliability, PropertyValue.enumerated (reliability_as_u32 o.reliability))
    ∷ (PropertyIdentifier.out_of_service, PropertyValue.boolean o.out_of_service)
    ∷ []
