-- ===== src/Types/Value.antt =====
-- crates/bacnet-types/src/property_value.rs and lib.rs: property values, dates, identifiers.
-- A float is the bit pattern that the wire carries, a text is its UTF-8 bytes.
use bacnet_sim.Prelude.{ℕ, Bool, List}
use bacnet_sim.Types.ObjectType.{ObjectType}

pub record ObjectId : Type 0 where
  pub object_type : ObjectType
  pub instance : ℕ

pub data Weekday : Type 0 where
  monday tuesday wednesday thursday friday saturday sunday unspecified : Weekday

-- `weekday as u8`
unfoldable pub weekday_number : Weekday → ℕ
weekday_number Weekday.monday = 1
weekday_number Weekday.tuesday = 2
weekday_number Weekday.wednesday = 3
weekday_number Weekday.thursday = 4
weekday_number Weekday.friday = 5
weekday_number Weekday.saturday = 6
weekday_number Weekday.sunday = 7
weekday_number Weekday.unspecified = 255

pub record BacnetDate : Type 0 where
  pub year : ℕ
  pub month : ℕ
  pub day : ℕ
  pub weekday : Weekday

pub record BacnetTime : Type 0 where
  pub hour : ℕ
  pub minute : ℕ
  pub second : ℕ
  pub hundredths : ℕ

-- `integer` holds the 32-bit two's complement pattern of the `i32`.
mutual
  pub data PropertyValue : Type 0 where
    null : PropertyValue
    boolean : Bool → PropertyValue
    unsigned : ℕ → PropertyValue
    integer : ℕ → PropertyValue
    real : ℕ → PropertyValue
    double : ℕ → PropertyValue
    octet_string : List ℕ → PropertyValue
    character_string : List ℕ → PropertyValue
    bit_string : List Bool → PropertyValue
    enumerated : ℕ → PropertyValue
    date : BacnetDate → PropertyValue
    time : BacnetTime → PropertyValue
    object_id : ObjectId → PropertyValue
    array : PropertyValues → PropertyValue
    list : PropertyValues → PropertyValue
    any : List ℕ → PropertyValue

  pub data PropertyValues : Type 0 where
    nil : PropertyValues
    cons : PropertyValue → PropertyValues → PropertyValues
