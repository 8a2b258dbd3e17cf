-- ===== src/Objects/AnalogOutput.antt =====
-- crates/bacnet-object/src/analog_output.rs: an output that is commanded at 16 priorities. The
-- clock's reading `Instant::now()` is an argument.
pub mod Commands
use bacnet_sim.Prelude.{
  ℕ, ◌+◌, ◌-◌, min, Bool, true, false, not, ◌&&◌, Option, none, some, List, [], ◌∷◌, ltb, leb,
  if◌then◌else◌, get_elem?, set, replicate, Outcome, ok, err, panic, ◌>>=◌, ◌>>◌, fail_if, ok_or,
  index,
}
use bacnet_sim.Types.Error.{
  BacnetError, unknown_property, write_access_denied, invalid_data_type, value_out_of_range,
}
use bacnet_sim.Types.ObjectType.{ObjectType, as_u16}
use bacnet_sim.Types.PropertyId.{PropertyIdentifier}
use bacnet_sim.Types.Value.{ObjectId, PropertyValue, PropertyValues}
use bacnet_sim.Types.Enumerations.{
  EngineeringUnits, EventState, Reliability, StatusFlags, units_as_u32, event_state_as_u32,
}
use bacnet_sim.Types.Floats.{Floats, as_f32, as_bool}

pub record AnalogOutput : Type 0 where
  pub device_id : ℕ
  pub object_id : ObjectId
  pub object_name : List ℕ
  pub description : List ℕ
  pub present_value : ℕ
  pub status_flags : StatusFlags
  pub event_state : EventState
  pub reliability : Reliability
  pub out_of_service : Bool
  pub units : EngineeringUnits
  pub priority_array : List (Option ℕ)
  pub relinquish_default : ℕ
  pub cov_increment : ℕ
  pub last_changed : ℕ

abbrev pub num_priorities : ℕ
num_priorities = 16

unfoldable pub new : ℕ → ℕ → List ℕ → EngineeringUnits → ℕ → AnalogOutput
new device_id instance name units now = record {
  device_id = device_id;
  object_id = record { object_type = ObjectType.analog_output; instance = instance };
  object_name = name;
  description = [];
  present_value = 0;
  status_flags = record {
    in_alarm = false;
    fault = false;
    overridden = false;
    out_of_service = false;
  };
  event_state = EventState.normal;
  reliability = Reliability.no_fault_detected;
  out_of_service = false;
  units = units;
  priority_array = replicate num_priorities none;
  relinquish_default = 0;
  cov_increment = 0x3DCCCCCD;
  last_changed = now;
}

unfoldable pub first_commanded : List (Option ℕ) → ℕ → ℕ
first_commanded [] default_value = default_value
first_commanded (some v ∷ rest) default_value = v
first_commanded (none ∷ rest) default_value = first_commanded rest default_value

abbrev pub effective_value : AnalogOutput → ℕ
effective_value o = first_commanded o.priority_array o.relinquish_default

abbrev pub real_or_null : Option ℕ → PropertyValue
real_or_null (some v) = PropertyValue.real v
real_or_null none = PropertyValue.null

abbrev pub slot_values : List (Option ℕ) → PropertyValues
slot_values [] = PropertyValues.nil
slot_values (o ∷ rest) = PropertyValues.cons (real_or_null o) (slot_values rest)

-- The index counts from 1; 0 and an index beyond the last are read as the first and the last slot.
unfoldable pub read_priority_array : AnalogOutput → Option ℕ → Outcome BacnetError PropertyValue
read_priority_array o (some idx) = do
  slot ← index o.priority_array (min (idx - 1) (num_priorities - 1))
  ok (real_or_null slot)
read_priority_array o none = ok (PropertyValue.array (slot_values o.priority_array))

unfoldable pub read_property :
    AnalogOutput → PropertyIdentifier → Option ℕ → Outcome BacnetError PropertyValue
read_property o PropertyIdentifier.object_identifier i = ok (PropertyValue.object_id o.object_id)
read_property o PropertyIdentifier.object_name i = ok (PropertyValue.character_string o.object_name)
read_property o PropertyIdentifier.object_type i =
    ok (PropertyValue.enumerated (as_u16 ObjectType.analog_output))
read_property o PropertyIdentifier.present_value i = ok (PropertyValue.real (effective_value o))
read_property o PropertyIdentifier.status_flags i = ok (
    PropertyValue.bit_string (
      o.status_flags.in_alarm ∷ o.status_flags.fault ∷ o.status_flags.overridden
      ∷ o.status_flags.out_of_service ∷ []))
read_property o PropertyIdentifier.event_state i =
    ok (PropertyValue.enumerated (event_state_as_u32 o.event_state))
read_property o PropertyIdentifier.out_of_service i = ok (PropertyValue.boolean o.out_of_service)
read_property o PropertyIdentifier.units i = ok (PropertyValue.enumerated (units_as_u32 o.units))
read_property o PropertyIdentifier.relinquish_default i =
    ok (PropertyValue.real o.relinquish_default)
read_property o PropertyIdentifier.priority_array i = read_priority_array o i
read_property o PropertyIdentifier.description i = ok (PropertyValue.character_string o.description)
read_property o _ i = err unknown_property

module _ (floats : Floats) where
  -- The slot's new content: null relinquishes it.
  unfoldable pub command_of : PropertyValue → Outcome BacnetError (Option ℕ)
  command_of PropertyValue.null = ok none
  command_of value = do v ← ok_or (as_f32 floats value) invalid_data_type; ok (some v)

  abbrev pub or_lowest : Option ℕ → ℕ
  or_lowest (some priority) = priority
  or_lowest none = 16

  unfoldable pub write_present_value :
      AnalogOutput → PropertyValue → Option ℕ → ℕ → Outcome BacnetError AnalogOutput
  write_present_value o value priority now = do
    let pri = or_lowest priority
    fail_if (not (leb 1 pri && leb pri 16)) value_out_of_range
    slot ← command_of value
    let slots = set o.priority_array (pri - 1) slot
    ok (record o {
      priority_array = slots;
      present_value = first_commanded slots o.relinquish_default;
      last_changed = now;
    })

  unfoldable pub write_out_of_service :
      AnalogOutput → PropertyValue → Outcome BacnetError AnalogOutput
  write_out_of_service o value = do
    b ← ok_or (as_bool value) invalid_data_type
    ok (record o { out_of_service = b })

  unfoldable pub write_description : AnalogOutput → PropertyValue → Outcome BacnetError AnalogOutput
  write_description o (PropertyValue.character_string s) = ok (record o { description = s })
  write_description o _ = err invalid_data_type

  -- An error leaves the object as it is.
  unfoldable pub write_property :
      AnalogOutput
      → PropertyIdentifier
      → PropertyValue
      → Option ℕ
      → ℕ
      → Outcome BacnetError AnalogOutput
  write_property o PropertyIdentifier.present_value value priority now =
      write_present_value o value priority now
  write_property o PropertyIdentifier.out_of_service value priority now =
      write_out_of_service o value
  write_property o PropertyIdentifier.description value priority now = write_description o value
  write_property o _ value priority now = err write_access_denied

unfoldable pub changed_since : AnalogOutput → ℕ → List PropertyIdentifier
changed_since o since =
    if leb since o.last_changed then PropertyIdentifier.present_value ∷ [] else []

unfoldable pub all_properties : AnalogOutput → List (PropertyIdentifier × PropertyValue)
all_properties o =
    (PropertyIdentifier.object_identifier, PropertyValue.object_id o.object_id)
    ∷ (PropertyIdentifier.object_name, PropertyValue.character_string o.object_name)
    ∷ (PropertyIdentifier.object_type, PropertyValue.enumerated (as_u16 ObjectType.analog_output))
    ∷ (PropertyIdentifier.present_value, PropertyValue.real (effective_value o))
    ∷ (PropertyIdentifier.out_of_service, PropertyValue.boolean o.out_of_service)
    ∷ (PropertyIdentifier.units, PropertyValue.enumerated (units_as_u32 o.units))
    ∷ (PropertyIdentifier.relinquish_default, PropertyValue.real o.relinquish_default)
    ∷ (PropertyIdentifier.description, PropertyValue.character_string o.description)
    ∷ []
