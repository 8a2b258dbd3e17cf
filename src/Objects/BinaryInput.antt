-- ===== src/Objects/BinaryInput.antt =====
-- crates/bacnet-object/src/binary_input.rs: a sensed state.
use bacnet_sim.Prelude.{
  ℕ, Bool, false, not, Option, List, [], ◌∷◌, if◌then◌else◌, leb, Outcome, ok, err, ◌>>=◌, ◌>>◌,
  fail_if, ok_or,
}
use bacnet_sim.Types.Error.{BacnetError, unknown_property, write_access_denied, invalid_data_type}
use bacnet_sim.Types.ObjectType.{ObjectType, as_u16 as type_code}
use bacnet_sim.Types.PropertyId.{PropertyIdentifier}
use bacnet_sim.Types.Value.{ObjectId, PropertyValue}
use bacnet_sim.Types.Enumerations.{
  EventState, Reliability, StatusFlags, event_state_as_u32, status_flags_bits, no_flags,
}
use bacnet_sim.Types.Floats.{as_bool, bool_number}

pub record BinaryInput : Type 0 where
  pub device_id : ℕ
  pub object_id : ObjectId
  pub object_name : List ℕ
  pub description : List ℕ
  pub present_value : Bool
  pub status_flags : StatusFlags
  pub event_state : EventState
  pub reliability : Reliability
  pub out_of_service : Bool
  pub polarity : Bool
  pub last_changed : ℕ

unfoldable pub new : ℕ → ℕ → List ℕ → ℕ → BinaryInput
new device_id instance name now = record {
  device_id = device_id;
  object_id = record { object_type = ObjectType.binary_input; instance = instance };
  object_name = name;
  description = [];
  present_value = false;
  status_flags = no_flags;
  event_state = EventState.normal;
  reliability = Reliability.no_fault_detected;
  out_of_service = false;
  polarity = false;
  last_changed = now;
}

unfoldable pub read_property :
    BinaryInput → PropertyIdentifier → Option ℕ → Outcome BacnetError PropertyValue
read_property o PropertyIdentifier.object_identifier i = ok (PropertyValue.object_id o.object_id)
read_property o PropertyIdentifier.object_name i = ok (PropertyValue.character_string o.object_name)
read_property o PropertyIdentifier.object_type i =
    ok (PropertyValue.enumerated (type_code ObjectType.binary_input))
read_property o PropertyIdentifier.present_value i =
    ok (PropertyValue.enumerated (bool_number o.present_value))
read_property o PropertyIdentifier.status_flags i =
    ok (PropertyValue.bit_string (status_flags_bits o.status_flags))
read_property o PropertyIdentifier.event_state i =
    ok (PropertyValue.enumerated (event_state_as_u32 o.event_state))
read_property o PropertyIdentifier.out_of_service i = ok (PropertyValue.boolean o.out_of_service)
read_property o PropertyIdentifier.description i = ok (PropertyValue.character_string o.description)
read_property o _ i = err unknown_property

unfoldable pub write_out_of_service : BinaryInput → PropertyValue → Outcome BacnetError BinaryInput
write_out_of_service o value = do
  b ← ok_or (as_bool value) invalid_data_type
  ok (record o { out_of_service = b })

unfoldable pub write_present_value :
    BinaryInput → PropertyValue → ℕ → Outcome BacnetError BinaryInput
write_present_value o value now = do
  fail_if (not o.out_of_service) write_access_denied
  b ← ok_or (as_bool value) invalid_data_type
  ok (record o { present_value = b; last_changed = now })

-- An error leaves the object as it is.
unfoldable pub write_property :
    BinaryInput
    → PropertyIdentifier
    → PropertyValue
    → Option ℕ
    → ℕ
    → Outcome BacnetError BinaryInput
write_property o PropertyIdentifier.out_of_service value priority now = write_out_of_service o value
write_property o PropertyIdentifier.present_value value priority now =
    write_present_value o value now
write_property o _ value priority now = err write_access_denied

unfoldable pub changed_since : BinaryInput → ℕ → List PropertyIdentifier
changed_since o since =
    if leb since o.last_changed then PropertyIdentifier.present_value ∷ [] else []

unfoldable pub all_properties : BinaryInput → List (PropertyIdentifier × PropertyValue)
all_properties o =
    (PropertyIdentifier.object_identifier, PropertyValue.object_id o.object_id)
    ∷ (PropertyIdentifier.object_name, PropertyValue.character_string o.object_name)
    ∷ (PropertyIdentifier.object_type, PropertyValue.enumerated (type_code ObjectType.binary_input))
    ∷ (PropertyIdentifier.present_value, PropertyValue.enumerated (bool_number o.present_value))
    ∷ (PropertyIdentifier.out_of_service, PropertyValue.boolean o.out_of_service)
    ∷ (PropertyIdentifier.description, PropertyValue.character_string o.description)
    ∷ []
