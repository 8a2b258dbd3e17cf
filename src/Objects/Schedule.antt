-- ===== src/Objects/Schedule.antt =====
-- crates/bacnet-object/src/schedule.rs: a value that follows a weekly schedule.
pub mod Current
use bacnet_sim.Prelude.{
  ℕ, ◌+◌, ◌/◌, ◌%◌, Bool, false, Option, none, some, List, [], ◌∷◌, if◌then◌else◌, leb, Outcome, ok,
  err, ◌>>=◌, index, replicate,
}
use mathlib.Core.Option.{get_or}
use bacnet_sim.Types.Error.{BacnetError, unknown_property, write_access_denied, invalid_data_type}
use bacnet_sim.Types.ObjectType.{ObjectType, as_u16 as type_code}
use bacnet_sim.Types.PropertyId.{PropertyIdentifier}
use bacnet_sim.Types.Value.{ObjectId, PropertyValue}

-- A value that is active from a time of the day on, in seconds from midnight.
pub record TimeValue : Type 0 where
  pub time_of_day_secs : ℕ
  pub value : PropertyValue

abbrev pub DailySchedule : Type 0
DailySchedule = List TimeValue

pub record Schedule : Type 0 where
  pub device_id : ℕ
  pub object_id : ObjectId
  pub object_name : List ℕ
  pub description : List ℕ
  pub present_value : PropertyValue
  pub out_of_service : Bool
  pub weekly_schedule : List DailySchedule
  pub schedule_default : PropertyValue
  pub list_of_object_property_references : List (ObjectId × PropertyIdentifier)

-- The loop of `active_at`: the last slot of the list that has started.
unfoldable pub last_started : Option PropertyValue → DailySchedule → ℕ → Option PropertyValue
last_started active [] time = active
last_started active (slot ∷ slots) time =
    last_started (if leb slot.time_of_day_secs time then some slot.value else active) slots time

abbrev pub active_at : DailySchedule → ℕ → Option PropertyValue
active_at slots time = last_started none slots time

abbrev pub day_of_week : ℕ → ℕ
day_of_week secs = (secs / 86400 + 3) % 7

-- Day 0 of the epoch is a Thursday; the days of the week count from Monday. There are seven daily
-- schedules, so the index is in range.
unfoldable pub evaluate_at : Schedule → ℕ → Outcome BacnetError PropertyValue
evaluate_at o secs = do
  slots ← index o.weekly_schedule (day_of_week secs)
  ok (get_or (active_at slots (secs % 86400)) o.schedule_default)

-- `secs` is the time since the epoch.
unfoldable pub tick : Schedule → ℕ → Outcome BacnetError Schedule
tick o secs =
    if o.out_of_service
    then ok o
    else (do value ← evaluate_at o secs; ok (record o { present_value = value }))

unfoldable pub new : ℕ → ℕ → List ℕ → Schedule
new device_id instance name = record {
  device_id = device_id;
  object_id = record { object_type = ObjectType.schedule; instance = instance };
  object_name = name;
  description = [];
  present_value = PropertyValue.null;
  out_of_service = false;
  weekly_schedule = replicate 7 [];
  schedule_default = PropertyValue.null;
  list_of_object_property_references = [];
}

unfoldable pub read_property :
    Schedule → PropertyIdentifier → Option ℕ → Outcome BacnetError PropertyValue
read_property o PropertyIdentifier.object_identifier i = ok (PropertyValue.object_id o.object_id)
read_property o PropertyIdentifier.object_name i = ok (PropertyValue.character_string o.object_name)
read_property o PropertyIdentifier.object_type i =
    ok (PropertyValue.enumerated (type_code ObjectType.schedule))
read_property o PropertyIdentifier.description i = ok (PropertyValue.character_string o.description)
read_property o PropertyIdentifier.present_value i = ok (o.present_value)
read_property o PropertyIdentifier.out_of_service i = ok (PropertyValue.boolean o.out_of_service)
read_property o PropertyIdentifier.schedule_default i = ok (o.schedule_default)
read_property o _ i = err unknown_property

unfoldable pub write_present_value : Schedule → PropertyValue → Outcome BacnetError Schedule
write_present_value o value =
    if o.out_of_service then ok (record o { present_value = value }) else err write_access_denied

unfoldable pub write_out_of_service : Schedule → PropertyValue → Outcome BacnetError Schedule
write_out_of_service o (PropertyValue.boolean v) = ok (record o { out_of_service = v })
write_out_of_service o _ = err invalid_data_type

-- An error leaves the object as it is.
unfoldable pub write_property :
    Schedule → PropertyIdentifier → PropertyValue → Option ℕ → ℕ → Outcome BacnetError Schedule
write_property o PropertyIdentifier.present_value value priority now = write_present_value o value
write_property o PropertyIdentifier.out_of_service value priority now = write_out_of_service o value
write_property o PropertyIdentifier.schedule_default value priority now =
    ok (record o { schedule_default = value })
write_property o _ value priority now = err write_access_denied

unfoldable pub all_properties : Schedule → List (PropertyIdentifier × PropertyValue)
all_properties o =
    (PropertyIdentifier.object_identifier, PropertyValue.object_id o.object_id)
    ∷ (PropertyIdentifier.object_name, PropertyValue.character_string o.object_name)
    ∷ (PropertyIdentifier.object_type, PropertyValue.enumerated (type_code ObjectType.schedule))
    ∷ (PropertyIdentifier.description, PropertyValue.character_string o.description)
    ∷ (PropertyIdentifier.present_value, o.present_value)
    ∷ (PropertyIdentifier.out_of_service, PropertyValue.boolean o.out_of_service)
    ∷ (PropertyIdentifier.schedule_default, o.schedule_default)
    ∷ []
