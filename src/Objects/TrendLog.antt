-- ===== src/Objects/TrendLog.antt =====
-- crates/bacnet-object/src/trend_log.rs: a log of the last values of a property. The clock's
-- readings, `SystemTime::now()` and `Instant::now()`, are arguments; a duration counts seconds.
pub mod Buffer
pub mod Reachable
use bacnet_sim.Prelude.{
  ℕ, ◌+◌, ◌-◌, ◌*◌, ◌^◌, ◌≤◌, min, Bool, true, false, not, ◌||◌, Option, none, some, List, [], ◌∷◌,
  ◌++◌, leb, ◌==◌, if◌then◌else◌, length, drop, Outcome, ok, err, as_u32,
}
use bacnet_sim.Types.Error.{BacnetError, unknown_property, write_access_denied, invalid_data_type}
use bacnet_sim.Types.ObjectType.{ObjectType, as_u16}
use bacnet_sim.Types.PropertyId.{PropertyIdentifier}
use bacnet_sim.Types.Value.{ObjectId, PropertyValue}

pub record TrendLogEntry : Type 0 where
  pub timestamp : ℕ
  pub value : PropertyValue

pub record TrendLog : Type 0 where
  pub device_id : ℕ
  pub object_id : ObjectId
  pub object_name : List ℕ
  pub description : List ℕ
  pub enable : Bool
  pub log_interval : ℕ
  pub buffer_size : ℕ
  pub log_buffer : List TrendLogEntry
  pub monitored_object : Option ObjectId
  pub monitored_property : Option PropertyIdentifier
  pub record_count : ℕ
  pub total_record_count : ℕ
  pub out_of_service : Bool
  pub last_sample : ℕ

unfoldable pub new : ℕ → ℕ → List ℕ → ℕ → TrendLog
new device_id instance name now = record {
  device_id = device_id;
  object_id = record { object_type = ObjectType.trend_log; instance = instance };
  object_name = name;
  description = [];
  enable = true;
  log_interval = 60;
  buffer_size = 1000;
  log_buffer = [];
  monitored_object = none;
  monitored_property = none;
  record_count = 0;
  total_record_count = 0;
  out_of_service = false;
  last_sample = now;
}

-- `saturating_add` of two `u32`
abbrev pub saturating_add : ℕ → ℕ → ℕ
saturating_add a b = min (a + b) (2 ^ 32 - 1)

unfoldable pub push_entry : ℕ → List TrendLogEntry → TrendLogEntry → List TrendLogEntry
push_entry size buffer entry =
    (if leb size (length buffer) then drop 1 buffer else buffer) ++ (entry ∷ [])

unfoldable pub log_value : TrendLog → PropertyValue → ℕ → TrendLog
log_value log value now =
    if not log.enable || log.out_of_service
    then log
    else let buffer =
        push_entry log.buffer_size log.log_buffer (record { timestamp = now; value = value }) in
      record log {
        log_buffer = buffer;
        record_count = as_u32 (length buffer);
        total_record_count = saturating_add log.total_record_count 1;
      }

unfoldable pub read_property : TrendLog → PropertyIdentifier → Outcome BacnetError PropertyValue
read_property log PropertyIdentifier.object_identifier = ok (PropertyValue.object_id log.object_id)
read_property log PropertyIdentifier.object_name =
    ok (PropertyValue.character_string log.object_name)
read_property log PropertyIdentifier.object_type =
    ok (PropertyValue.enumerated (as_u16 ObjectType.trend_log))
read_property log PropertyIdentifier.description =
    ok (PropertyValue.character_string log.description)
read_property log PropertyIdentifier.enable = ok (PropertyValue.boolean log.enable)
read_property log PropertyIdentifier.log_interval =
    ok (PropertyValue.unsigned (as_u32 log.log_interval))
read_property log PropertyIdentifier.buffer_size =
    ok (PropertyValue.unsigned (as_u32 log.buffer_size))
read_property log PropertyIdentifier.record_count = ok (PropertyValue.unsigned log.record_count)
read_property log PropertyIdentifier.total_record_count =
    ok (PropertyValue.unsigned log.total_record_count)
read_property log PropertyIdentifier.out_of_service = ok (PropertyValue.boolean log.out_of_service)
read_property log PropertyIdentifier.stop_when_full = ok (PropertyValue.boolean false)
read_property log _ = err unknown_property

unfoldable pub write_enable : TrendLog → PropertyValue → Outcome BacnetError TrendLog
write_enable log (PropertyValue.boolean v) = ok (record log { enable = v })
write_enable log _ = err invalid_data_type

unfoldable pub write_out_of_service : TrendLog → PropertyValue → Outcome BacnetError TrendLog
write_out_of_service log (PropertyValue.boolean v) = ok (record log { out_of_service = v })
write_out_of_service log _ = err invalid_data_type

-- Writing 0 clears the log; any other value is accepted and ignored.
unfoldable pub write_record_count : TrendLog → PropertyValue → Outcome BacnetError TrendLog
write_record_count log (PropertyValue.unsigned n) =
    ok (if n == 0 then record log { log_buffer = []; record_count = 0 } else log)
write_record_count log _ = ok log

unfoldable pub write_log_interval : TrendLog → PropertyValue → Outcome BacnetError TrendLog
write_log_interval log (PropertyValue.unsigned v) = ok (record log { log_interval = v })
write_log_interval log _ = err invalid_data_type

-- An error leaves the log as it is.
unfoldable pub write_property :
    TrendLog → PropertyIdentifier → PropertyValue → Outcome BacnetError TrendLog
write_property log PropertyIdentifier.enable value = write_enable log value
write_property log PropertyIdentifier.out_of_service value = write_out_of_service log value
write_property log PropertyIdentifier.record_count value = write_record_count log value
write_property log PropertyIdentifier.log_interval value = write_log_interval log value
write_property log _ value = err write_access_denied

unfoldable pub tick : TrendLog → ℕ → TrendLog
tick log now =
    if not log.enable || log.out_of_service
    then log
    else if leb log.log_interval (now - log.last_sample)
    then record log { last_sample = now }
    else log

unfoldable pub all_properties : TrendLog → List (PropertyIdentifier × PropertyValue)
all_properties log =
    (PropertyIdentifier.object_identifier, PropertyValue.object_id log.object_id)
    ∷ (PropertyIdentifier.object_name, PropertyValue.character_string log.object_name)
    ∷ (PropertyIdentifier.object_type, PropertyValue.enumerated (as_u16 ObjectType.trend_log))
    ∷ (PropertyIdentifier.description, PropertyValue.character_string log.description)
    ∷ (PropertyIdentifier.enable, PropertyValue.boolean log.enable)
    ∷ (PropertyIdentifier.buffer_size, PropertyValue.unsigned (as_u32 log.buffer_size))
    ∷ (PropertyIdentifier.log_interval, PropertyValue.unsigned (as_u32 log.log_interval))
    ∷ (PropertyIdentifier.record_count, PropertyValue.unsigned log.record_count)
    ∷ (PropertyIdentifier.total_record_count, PropertyValue.unsigned log.total_record_count)
    ∷ (PropertyIdentifier.out_of_service, PropertyValue.boolean log.out_of_service)
    ∷ (PropertyIdentifier.stop_when_full, PropertyValue.boolean false)
    ∷ []
