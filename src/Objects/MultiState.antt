-- ===== src/Objects/MultiState.antt =====
-- crates/bacnet-object/src/multistate.rs: a sensed state out of a number of states. `state_name`
-- stands for the formatting of a state's number as a text.
use bacnet_sim.Prelude.{
  ℕ, zero, suc, ◌+◌, Bool, false, ◌&&◌, Option, List, [], ◌∷◌, if◌then◌else◌, ltb, leb, Outcome, ok,
  err,
}
use bacnet_sim.Types.Error.{
  BacnetError, unknown_property, write_access_denied, invalid_data_type, value_out_of_range,
}
use bacnet_sim.Types.ObjectType.{ObjectType, as_u16 as type_code}
use bacnet_sim.Types.PropertyId.{PropertyIdentifier}
use bacnet_sim.Types.Value.{ObjectId, PropertyValue}
use bacnet_sim.Types.Enumerations.{
  EventState, Reliability, StatusFlags, event_state_as_u32, reliability_as_u32, status_flags_bits,
  no_flags,
}

pub record MultiStateInput : Type 0 where
  pub device_id : ℕ
  pub object_id : ObjectId
  pub object_name : List ℕ
  pub description : List ℕ
  pub present_value : ℕ
  pub number_of_states : ℕ
  pub state_text : List (List ℕ)
  pub out_of_service : Bool
  pub status_flags : StatusFlags
  pub event_state : EventState
  pub reliability : Reliability
  pub last_changed : ℕ

-- `(1..=number_of_states).map(..)`, from a first state on
unfoldable pub state_names : (ℕ → List ℕ) → ℕ → ℕ → List (List ℕ)
state_names state_name first zero = []
state_names state_name first (suc n) = state_name first ∷ state_names state_name (first + 1) n

unfoldable pub new : (ℕ → List ℕ) → ℕ → ℕ → List ℕ → ℕ → ℕ → MultiStateInput
new state_name device_id instance name number_of_states now = record {
  device_id = device_id;
  object_id = record { object_type = ObjectType.multi_state_input; instance = instance };
  object_name = name;
  description = [];
  present_value = 1;
  number_of_states = number_of_states;
  state_text = state_names state_name 1 number_of_states;
  out_of_service = false;
  status_flags = no_flags;
  event_state = EventState.normal;
  reliability = Reliability.no_fault_detected;
  last_changed = now;
}

unfoldable pub read_property :
    MultiStateInput → PropertyIdentifier → Option ℕ → Outcome BacnetError PropertyValue
read_property o PropertyIdentifier.object_identifier i = ok (PropertyValue.object_id o.object_id)
read_property o PropertyIdentifier.object_name i = ok (PropertyValue.character_string o.object_name)
read_property o PropertyIdentifier.object_type i =
    ok (PropertyValue.enumerated (type_code ObjectType.multi_state_input))
read_property o PropertyIdentifier.description i = ok (PropertyValue.character_string o.description)
read_property o PropertyIdentifier.present_value i = ok (PropertyValue.unsigned o.present_value)
read_property o PropertyIdentifier.number_of_states i =
    ok (PropertyValue.unsigned o.number_of_states)
read_property o PropertyIdentifier.status_flags i =
    ok (PropertyValue.bit_string (status_flags_bits o.status_flags))
read_property o PropertyIdentifier.event_state i =
    ok (PropertyValue.enumerated (event_state_as_u32 o.event_state))
read_property o PropertyIdentifier.reliability i =
    ok (PropertyValue.enumerated (reliability_as_u32 o.reliability))
read_property o PropertyIdentifier.out_of_service i = ok (PropertyValue.boolean o.out_of_service)
read_property o _ i = err unknown_property

unfoldable pub set_state : MultiStateInput → PropertyValue → ℕ → Outcome BacnetError MultiStateInput
set_state o (PropertyValue.unsigned v) now =
    if leb 1 v && leb v o.number_of_states
    then ok (record o { present_value = v; last_changed = now })
    else err value_out_of_range
set_state o _ now = err invalid_data_type

unfoldable pub write_present_value :
    MultiStateInput → PropertyValue → ℕ → Outcome BacnetError MultiStateInput
write_present_value o value now =
    if o.out_of_service then set_state o value now else err write_access_denied

unfoldable pub write_out_of_service :
    MultiStateInput → PropertyValue → Outcome BacnetError MultiStateInput
write_out_of_service o (PropertyValue.boolean v) = ok (record o { out_of_service = v })
write_out_of_service o _ = err invalid_data_type

-- An error leaves the object as it is.
unfoldable pub write_property :
    MultiStateInput
    → PropertyIdentifier
    → PropertyValue
    → Option ℕ
    → ℕ
    → Outcome BacnetError MultiStateInput
write_property o PropertyIdentifier.out_of_service value priority now = write_out_of_service o value
write_property o PropertyIdentifier.present_value value priority now =
    write_present_value o value now
write_property o _ value priority now = err write_access_denied

unfoldable pub changed_since : MultiStateInput → ℕ → List PropertyIdentifier
changed_since o since =
    if ltb since o.last_changed then PropertyIdentifier.present_value ∷ [] else []

unfoldable pub all_properties : MultiStateInput → List (PropertyIdentifier × PropertyValue)
all_properties o =
    (PropertyIdentifier.object_identifier, PropertyValue.object_id o.object_id)
    ∷ (PropertyIdentifier.object_name, PropertyValue.character_string o.object_name)
    ∷ (
      PropertyIdentifier.object_type,
      PropertyValue.enumerated (type_code ObjectType.multi_state_input),
    )
    ∷ (PropertyIdentifier.description, PropertyValue.character_string o.description)
    ∷ (PropertyIdentifier.present_value, PropertyValue.unsigned o.present_value)
    ∷ (PropertyIdentifier.number_of_states, PropertyValue.unsigned o.number_of_states)
    ∷ (PropertyIdentifier.status_flags, PropertyValue.bit_string (status_flags_bits o.status_flags))
    ∷ (PropertyIdentifier.event_state, PropertyValue.enumerated (event_state_as_u32 o.event_state))
    ∷ (PropertyIdentifier.reliability, PropertyValue.enumerated (reliability_as_u32 o.reliability))
    ∷ (PropertyIdentifier.out_of_service, PropertyValue.boolean o.out_of_service)
    ∷ []
