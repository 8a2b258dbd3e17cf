-- ===== src/Objects/BinaryOutput.antt =====
-- crates/bacnet-object/src/binary_output.rs: an output that is commanded at 16
-- priorities. A priority out of range is taken as the nearest one.
use bacnet_sim.Prelude.{
  ℕ, ◌-◌, Bool, true, false, not, Option, none, some, List, [], ◌∷◌, min, if◌then◌else◌, ltb, ◌==◌,
  Outcome, ok, err, ◌>>=◌, replicate, set,
}
use bacnet_sim.Types.Error.{BacnetError, unknown_property, write_access_denied, invalid_data_type}
use bacnet_sim.Types.ObjectType.{ObjectType, as_u16 as type_code}
use bacnet_sim.Types.PropertyId.{PropertyIdentifier}
use bacnet_sim.Types.Value.{ObjectId, PropertyValue}
use bacnet_sim.Types.Enumerations.{
  EventState, Reliability, StatusFlags, event_state_as_u32, reliability_as_u32, status_flags_bits,
  no_flags,
}
use bacnet_sim.Types.Floats.{bool_number}

pub data BinaryPv : Type 0 where
  inactive active : BinaryPv

pub record BinaryOutput : Type 0 where
  pub device_id : ℕ
  pub object_id : ObjectId
  pub object_name : List ℕ
  pub description : List ℕ
  pub out_of_service : Bool
  pub status_flags : StatusFlags
  pub event_state : EventState
  pub reliability : Reliability
  pub relinquish_default : BinaryPv
  pub priority_array : List (Option Bool)
  pub last_changed : ℕ

unfoldable pub is_active : BinaryPv → Bool
is_active inactive = false
is_active active = true

unfoldable pub first_commanded : List (Option Bool) → Bool → Bool
first_commanded [] default_value = default_value
first_commanded (some v ∷ rest) default_value = v
first_commanded (none ∷ rest) default_value = first_commanded rest default_value

abbrev pub effective_value : BinaryOutput → Bool
effective_value o = first_commanded o.priority_array (is_active o.relinquish_default)

unfoldable pub new : ℕ → ℕ → List ℕ → ℕ → BinaryOutput
new device_id instance name now = record {
  device_id = device_id;
  object_id = record { object_type = ObjectType.binary_output; instance = instance };
  object_name = name;
  description = [];
  out_of_service = false;
  status_flags = no_flags;
  event_state = EventState.normal;
  reliability = Reliability.no_fault_detected;
  relinquish_default = inactive;
  priority_array = replicate 16 none;
  last_changed = now;
}

unfoldable pub read_property :
    BinaryOutput → PropertyIdentifier → Option ℕ → Outcome BacnetError PropertyValue
read_property o PropertyIdentifier.object_identifier i = ok (PropertyValue.object_id o.object_id)
read_property o PropertyIdentifier.object_name i = ok (PropertyValue.character_string o.object_name)
read_property o PropertyIdentifier.object_type i =
    ok (PropertyValue.enumerated (type_code ObjectType.binary_output))
read_property o PropertyIdentifier.description i = ok (PropertyValue.character_string o.description)
read_property o PropertyIdentifier.present_value i =
    ok (PropertyValue.enumerated (bool_number (effective_value o)))
read_property o PropertyIdentifier.status_flags i =
    ok (PropertyValue.bit_string (status_flags_bits o.status_flags))
read_property o PropertyIdentifier.event_state i =
    ok (PropertyValue.enumerated (event_state_as_u32 o.event_state))
read_property o PropertyIdentifier.reliability i =
    ok (PropertyValue.enumerated (reliability_as_u32 o.reliability))
read_property o PropertyIdentifier.out_of_service i = ok (PropertyValue.boolean o.out_of_service)
read_property o _ i = err unknown_property

-- The slot's new content: null relinquishes it.
unfoldable pub command_of : PropertyValue → Outcome BacnetError (Option Bool)
command_of PropertyValue.null = ok none
command_of (PropertyValue.enumerated v) = ok (some (not (v == 0)))
command_of (PropertyValue.unsigned v) = ok (some (not (v == 0)))
command_of (PropertyValue.boolean v) = ok (some v)
command_of _ = err invalid_data_type

-- `(priority.unwrap_or(16) as usize).saturating_sub(1).min(15)`
abbrev pub slot_of : Option ℕ → ℕ
slot_of (some priority) = min (priority - 1) 15
slot_of none = 15

unfoldable pub write_present_value :
    BinaryOutput → PropertyValue → Option ℕ → ℕ → Outcome BacnetError BinaryOutput
write_present_value o value priority now = do
  slot ← command_of value
  ok (record o {
    priority_array = set o.priority_array (slot_of priority) slot;
    last_changed = now;
  })

unfoldable pub write_out_of_service :
    BinaryOutput → PropertyValue → Outcome BacnetError BinaryOutput
write_out_of_service o (PropertyValue.boolean v) = ok (record o { out_of_service = v })
write_out_of_service o _ = err invalid_data_type

-- An error leaves the object as it is.
unfoldable pub write_property :
    BinaryOutput
    → PropertyIdentifier
    → PropertyValue
    → Option ℕ
    → ℕ
    → Outcome BacnetError BinaryOutput
write_property o PropertyIdentifier.present_value value priority now =
    write_present_value o value priority now
write_property o PropertyIdentifier.out_of_service value priority now = write_out_of_service o value
write_property o _ value priority now = err write_access_denied

unfoldable pub changed_since : BinaryOutput → ℕ → List PropertyIdentifier
changed_since o since =
    if ltb since o.last_changed then PropertyIdentifier.present_value ∷ [] else []

unfoldable pub all_properties : BinaryOutput → List (PropertyIdentifier × PropertyValue)
all_properties o =
    (PropertyIdentifier.object_identifier, PropertyValue.object_id o.object_id)
    ∷ (PropertyIdentifier.object_name, PropertyValue.character_string o.object_name)
    ∷ (
      PropertyIdentifier.object_type,
      PropertyValue.enumerated (type_code ObjectType.binary_output),
    )
    ∷ (PropertyIdentifier.description, PropertyValue.character_string o.description)
    ∷ (PropertyIdentifier.present_value, PropertyValue.enumerated (bool_number (effective_value o)))
    ∷ (PropertyIdentifier.status_flags, PropertyValue.bit_string (status_flags_bits o.status_flags))
    ∷ (PropertyIdentifier.event_state, PropertyValue.enumerated (event_state_as_u32 o.event_state))
    ∷ (PropertyIdentifier.reliability, PropertyValue.enumerated (reliability_as_u32 o.reliability))
    ∷ (PropertyIdentifier.out_of_service, PropertyValue.boolean o.out_of_service)
    ∷ []
