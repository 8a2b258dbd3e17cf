-- ===== src/Objects/AnyObject.antt =====
-- crates/bacnet-object/src: the kinds of objects together, as the store's `Box<dyn BacnetObject>`
-- holds them. `secs` is the clock's reading during a read, `now` during a write.
pub mod Listed
pub mod Forcing
use bacnet_sim.Prelude.{
  ℕ, zero, suc, ◌+◌, ◌-◌, ◌*◌, ◌/◌, ◌%◌, ◌^◌, ◌≤◌, ◌<◌, ◌≡◌, ◌≢◌, ◌↔◌, ◌⊎◌, inl, inr, refl, sym, ap,
  ◌∙◌, Bool, true, false, not, ◌&&◌, ◌||◌, Option, none, some, List, [], ◌∷◌, ◌++◌, map, min, max,
  arith, if◌then◌else◌, ltb, leb, ltb→lt, ◌==◌, ==_iff, lt→ltb, le→ltb, le→leb, Bool-cases,
  Option-cases, length, get_elem?, take, drop, take-append, drop-append, length-append, length-drop,
  get_at, get_past, get_at_add, drop_at_suc, drop_at, drop_at_append, length_at, length_at_append,
  slice_tail, slice_at, take_all, Outcome, ok, err, panic, ◌>>=◌, ◌>>◌, fail_if, ok_or, or_panic,
  index, slice, shr, low_bits, has_bit, as_u8, as_u16, as_u32, be32, be32_bytes, IsU32, append_nil,
  replicate, set, All, bit_or-add,
}
use bacnet_sim.Types.Error.{BacnetError}
use bacnet_sim.Types.PropertyId.{PropertyIdentifier}
use bacnet_sim.Types.Value.{ObjectId, PropertyValue}
use bacnet_sim.Types.Floats.{Floats}
use bacnet_sim.Objects.Interface.{BacnetObject}
use bacnet_sim.Objects.AnalogInput
use bacnet_sim.Objects.AnalogInput.{AnalogInput}
use bacnet_sim.Objects.AnalogOutput
use bacnet_sim.Objects.AnalogOutput.{AnalogOutput}
use bacnet_sim.Objects.AnalogValue
use bacnet_sim.Objects.AnalogValue.{AnalogValue}
use bacnet_sim.Objects.BinaryInput
use bacnet_sim.Objects.BinaryInput.{BinaryInput}
use bacnet_sim.Objects.BinaryOutput
use bacnet_sim.Objects.BinaryOutput.{BinaryOutput}
use bacnet_sim.Objects.BinaryValue
use bacnet_sim.Objects.BinaryValue.{BinaryValue}
use bacnet_sim.Objects.MultiState
use bacnet_sim.Objects.MultiState.{MultiStateInput}
use bacnet_sim.Objects.NotificationClass
use bacnet_sim.Objects.NotificationClass.{NotificationClass}
use bacnet_sim.Objects.Schedule
use bacnet_sim.Objects.Schedule.{Schedule}
use bacnet_sim.Objects.Device
use bacnet_sim.Objects.Device.{DeviceObject}
use bacnet_sim.Objects.TrendLog
use bacnet_sim.Objects.TrendLog.{TrendLog}

pub data AnyObject : Type 0 where
  analog_input : AnalogInput → AnyObject
  analog_output : AnalogOutput → AnyObject
  analog_value : AnalogValue → AnyObject
  binary_input : BinaryInput → AnyObject
  binary_output : BinaryOutput → AnyObject
  binary_value : BinaryValue → AnyObject
  multi_state_input : MultiStateInput → AnyObject
  notification_class : NotificationClass → AnyObject
  schedule : Schedule → AnyObject
  device : DeviceObject → AnyObject
  trend_log : TrendLog → AnyObject

unfoldable pub object_id : AnyObject → ObjectId
object_id (analog_input o) = o.object_id
object_id (analog_output o) = o.object_id
object_id (analog_value o) = o.object_id
object_id (binary_input o) = o.object_id
object_id (binary_output o) = o.object_id
object_id (binary_value o) = o.object_id
object_id (multi_state_input o) = o.object_id
object_id (notification_class o) = o.object_id
object_id (schedule o) = o.object_id
object_id (device o) = Device.object_id o
object_id (trend_log o) = o.object_id

unfoldable pub read_property :
    ℕ → AnyObject → PropertyIdentifier → Option ℕ → Outcome BacnetError PropertyValue
read_property secs (analog_input o) p i = AnalogInput.read_property o p i
read_property secs (analog_output o) p i = AnalogOutput.read_property o p i
read_property secs (analog_value o) p i = AnalogValue.read_property o p i
read_property secs (binary_input o) p i = BinaryInput.read_property o p i
read_property secs (binary_output o) p i = BinaryOutput.read_property o p i
read_property secs (binary_value o) p i = BinaryValue.read_property o p i
read_property secs (multi_state_input o) p i = MultiState.read_property o p i
read_property secs (notification_class o) p i = NotificationClass.read_property o p i
read_property secs (schedule o) p i = Schedule.read_property o p i
read_property secs (device o) p i = Device.read_property secs o p i
read_property secs (trend_log o) p i = TrendLog.read_property o p

-- The object that a write leaves, in its kind.
abbrev pub kept_in : {A B : Type 0} → (A → B) → Outcome BacnetError A → Outcome BacnetError B
kept_in kind (ok o) = ok (kind o)
kept_in kind (err e) = err e
kept_in kind panic = panic

unfoldable pub write_property :
    Floats
    → AnyObject
    → PropertyIdentifier
    → Option ℕ
    → PropertyValue
    → Option ℕ
    → ℕ
    → Outcome BacnetError AnyObject
write_property floats (analog_input o) p i v priority now =
    kept_in analog_input (AnalogInput.write_property floats o p v priority now)
write_property floats (analog_output o) p i v priority now =
    kept_in analog_output (AnalogOutput.write_property floats o p v priority now)
write_property floats (analog_value o) p i v priority now =
    kept_in analog_value (AnalogValue.write_property o p v priority now)
write_property floats (binary_input o) p i v priority now =
    kept_in binary_input (BinaryInput.write_property o p v priority now)
write_property floats (binary_output o) p i v priority now =
    kept_in binary_output (BinaryOutput.write_property o p v priority now)
write_property floats (binary_value o) p i v priority now =
    kept_in binary_value (BinaryValue.write_property o p v priority now)
write_property floats (multi_state_input o) p i v priority now =
    kept_in multi_state_input (MultiState.write_property o p v priority now)
write_property floats (notification_class o) p i v priority now =
    kept_in notification_class (NotificationClass.write_property o p v priority now)
write_property floats (schedule o) p i v priority now =
    kept_in schedule (Schedule.write_property o p v priority now)
write_property floats (device o) p i v priority now =
    kept_in device (Device.write_property o p v priority now)
write_property floats (trend_log o) p i v priority now =
    kept_in trend_log (TrendLog.write_property o p v)

unfoldable pub all_properties : AnyObject → List (PropertyIdentifier × PropertyValue)
all_properties (analog_input o) = AnalogInput.all_properties o
all_properties (analog_output o) = AnalogOutput.all_properties o
all_properties (analog_value o) = AnalogValue.all_properties o
all_properties (binary_input o) = BinaryInput.all_properties o
all_properties (binary_output o) = BinaryOutput.all_properties o
all_properties (binary_value o) = BinaryValue.all_properties o
all_properties (multi_state_input o) = MultiState.all_properties o
all_properties (notification_class o) = NotificationClass.all_properties o
all_properties (schedule o) = Schedule.all_properties o
all_properties (device o) = Device.all_properties o
all_properties (trend_log o) = TrendLog.all_properties o

abbrev pub any_object : Floats → ℕ → BacnetObject AnyObject
any_object floats secs = record {
  object_id = object_id;
  read_property = read_property secs;
  write_property = write_property floats;
  all_properties = all_properties;
}
