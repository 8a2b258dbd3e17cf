-- ===== src/Objects/Device.antt =====
-- crates/bacnet-object/src/device.rs: the device object. `version` stands for the package's version
-- that the build puts in, `product` for the text "bacnet-sim"; `secs` is the clock's reading.
use bacnet_sim.Prelude.{
  ℕ, zero, suc, ◌+◌, ◌-◌, Bool, false, ◌||◌, Option, none, some, List, [], ◌∷◌, if◌then◌else◌, ◌==◌,
  length, get_elem?, Outcome, ok, err, ok_or, as_u32,
}
use bacnet_sim.Types.Error.{BacnetError, unknown_property, write_access_denied, value_out_of_range}
use bacnet_sim.Types.ObjectType.{ObjectType, as_u16 as type_code}
use bacnet_sim.Types.PropertyId.{PropertyIdentifier}
use bacnet_sim.Types.Value.{ObjectId, PropertyValue, PropertyValues}
use bacnet_sim.Objects.Calendar.{utc_date, utc_time}

pub record DeviceObject : Type 0 where
  pub device_id : ℕ
  pub object_name : List ℕ
  pub vendor_name : List ℕ
  pub vendor_identifier : ℕ
  pub model_name : List ℕ
  pub firmware_revision : List ℕ
  pub application_software_version : List ℕ
  pub description : List ℕ
  pub max_apdu_length_accepted : ℕ
  pub database_revision : ℕ
  pub object_list : List ObjectId

abbrev pub device_object_id : ℕ → ObjectId
device_object_id device_id = record { object_type = ObjectType.device; instance = device_id }

unfoldable pub new : List ℕ → List ℕ → ℕ → List ℕ → DeviceObject
new product version device_id name = record {
  device_id = device_id;
  object_name = name;
  vendor_name = product;
  vendor_identifier = 999;
  model_name = product;
  firmware_revision = version;
  application_software_version = version;
  description = [];
  max_apdu_length_accepted = 1476;
  database_revision = 0;
  object_list = device_object_id device_id ∷ [];
}

abbrev pub object_id : DeviceObject → ObjectId
object_id o = device_object_id o.device_id

unfoldable pub array_of : List PropertyValue → PropertyValues
array_of [] = PropertyValues.nil
array_of (v ∷ values) = PropertyValues.cons v (array_of values)

-- Index 0 gives the length, an index from 1 on an element, no index the whole array.
unfoldable pub read_list : List PropertyValue → Option ℕ → Outcome BacnetError PropertyValue
read_list values none = ok (PropertyValue.array (array_of values))
read_list values (some i) =
    if i == 0
    then ok (PropertyValue.unsigned (as_u32 (length values)))
    else ok_or (get_elem? values (i - 1)) value_out_of_range

unfoldable pub ids_of : List ObjectId → List PropertyValue
ids_of [] = []
ids_of (oid ∷ ids) = PropertyValue.object_id oid ∷ ids_of ids

unfoldable pub numbers_of : List ℕ → List PropertyValue
numbers_of [] = []
numbers_of (n ∷ numbers) = PropertyValue.enumerated n ∷ numbers_of numbers

-- The bit string of a length with the bits at some places set.
unfoldable pub one_of : ℕ → List ℕ → Bool
one_of n [] = false
one_of n (place ∷ places) = n == place || one_of n places

unfoldable pub bits_at : ℕ → ℕ → List ℕ → List Bool
bits_at first zero places = []
bits_at first (suc n) places = one_of first places ∷ bits_at (first + 1) n places

-- subscribeCOV, readProperty, readPropertyMultiple, writeProperty, i-Am, who-Is
abbrev pub service_bits : List ℕ
service_bits = 5 ∷ 12 ∷ 14 ∷ 15 ∷ 26 ∷ 34 ∷ []

-- analog-input, binary-input, device
abbrev pub type_bits : List ℕ
type_bits = 0 ∷ 3 ∷ 8 ∷ []

abbrev pub listed_properties : List ℕ
listed_properties =
    112 ∷ 121 ∷ 120 ∷ 70 ∷ 44 ∷ 12 ∷ 98 ∷ 139 ∷ 97 ∷ 96 ∷ 76 ∷ 62 ∷ 107 ∷ 11 ∷ 73 ∷ 155 ∷ 28 ∷ 56
    ∷ 57 ∷ 119 ∷ 24 ∷ 371 ∷ []

unfoldable pub read_property :
    ℕ → DeviceObject → PropertyIdentifier → Option ℕ → Outcome BacnetError PropertyValue
read_property secs o PropertyIdentifier.object_identifier i =
    ok (PropertyValue.object_id (object_id o))
read_property secs o PropertyIdentifier.object_name i =
    ok (PropertyValue.character_string o.object_name)
read_property secs o PropertyIdentifier.object_type i =
    ok (PropertyValue.enumerated (type_code ObjectType.device))
read_property secs o PropertyIdentifier.vendor_name i =
    ok (PropertyValue.character_string o.vendor_name)
read_property secs o PropertyIdentifier.vendor_identifier i =
    ok (PropertyValue.unsigned o.vendor_identifier)
read_property secs o PropertyIdentifier.model_name i =
    ok (PropertyValue.character_string o.model_name)
read_property secs o PropertyIdentifier.firmware_revision i =
    ok (PropertyValue.character_string o.firmware_revision)
read_property secs o PropertyIdentifier.application_software_version i =
    ok (PropertyValue.character_string o.application_software_version)
read_property secs o PropertyIdentifier.protocol_version i = ok (PropertyValue.unsigned 1)
read_property secs o PropertyIdentifier.protocol_revision i = ok (PropertyValue.unsigned 22)
read_property secs o PropertyIdentifier.max_apdu_length_accepted i =
    ok (PropertyValue.unsigned o.max_apdu_length_accepted)
read_property secs o PropertyIdentifier.segmentation_supported i = ok (PropertyValue.enumerated 3)
read_property secs o PropertyIdentifier.database_revision i =
    ok (PropertyValue.unsigned o.database_revision)
read_property secs o PropertyIdentifier.system_status i = ok (PropertyValue.enumerated 0)
read_property secs o PropertyIdentifier.description i =
    ok (PropertyValue.character_string o.description)
read_property secs o PropertyIdentifier.object_list i = read_list (ids_of o.object_list) i
read_property secs o PropertyIdentifier.apdu_timeout i = ok (PropertyValue.unsigned 6000)
read_property secs o PropertyIdentifier.number_of_apdu_retries i = ok (PropertyValue.unsigned 3)
read_property secs o PropertyIdentifier.protocol_services_supported i =
    ok (PropertyValue.bit_string (bits_at 0 40 service_bits))
read_property secs o PropertyIdentifier.protocol_object_types_supported i =
    ok (PropertyValue.bit_string (bits_at 0 32 type_bits))
read_property secs o PropertyIdentifier.local_date i = ok (PropertyValue.date (utc_date secs))
read_property secs o PropertyIdentifier.local_time i = ok (PropertyValue.time (utc_time secs))
read_property secs o PropertyIdentifier.utc_offset i = ok (PropertyValue.integer 0)
read_property secs o PropertyIdentifier.daylight_savings_status i = ok (PropertyValue.boolean false)
read_property secs o PropertyIdentifier.property_list i = read_list (numbers_of listed_properties) i
read_property secs o _ i = err unknown_property

-- Nothing of a device is writable.
unfoldable pub write_property :
    DeviceObject
    → PropertyIdentifier
    → PropertyValue
    → Option ℕ
    → ℕ
    → Outcome BacnetError DeviceObject
write_property o p value priority now = err write_access_denied

unfoldable pub all_properties : DeviceObject → List (PropertyIdentifier × PropertyValue)
all_properties o =
    (PropertyIdentifier.object_identifier, PropertyValue.object_id (object_id o))
    ∷ (PropertyIdentifier.object_name, PropertyValue.character_string o.object_name)
    ∷ (PropertyIdentifier.object_type, PropertyValue.enumerated (type_code ObjectType.device))
    ∷ (PropertyIdentifier.vendor_name, PropertyValue.character_string o.vendor_name)
    ∷ (PropertyIdentifier.vendor_identifier, PropertyValue.unsigned o.vendor_identifier)
    ∷ (PropertyIdentifier.model_name, PropertyValue.character_string o.model_name)
    ∷ (PropertyIdentifier.firmware_revision, PropertyValue.character_string o.firmware_revision)
    ∷ (PropertyIdentifier.protocol_version, PropertyValue.unsigned 1)
    ∷ (PropertyIdentifier.protocol_revision, PropertyValue.unsigned 22)
    ∷ (
      PropertyIdentifier.max_apdu_length_accepted,
      PropertyValue.unsigned o.max_apdu_length_accepted,
    )
    ∷ (PropertyIdentifier.segmentation_supported, PropertyValue.enumerated 3)
    ∷ (PropertyIdentifier.database_revision, PropertyValue.unsigned o.database_revision)
    ∷ (PropertyIdentifier.system_status, PropertyValue.enumerated 0)
    ∷ (PropertyIdentifier.description, PropertyValue.character_string o.description)
    ∷ (PropertyIdentifier.apdu_timeout, PropertyValue.unsigned 6000)
    ∷ (PropertyIdentifier.number_of_apdu_retries, PropertyValue.unsigned 3)
    ∷ (PropertyIdentifier.object_list, PropertyValue.array (array_of (ids_of o.object_list)))
    ∷ (
      PropertyIdentifier.protocol_services_supported,
      PropertyValue.bit_string (bits_at 0 40 service_bits),
    )
    ∷ (
      PropertyIdentifier.protocol_object_types_supported,
      PropertyValue.bit_string (bits_at 0 32 type_bits),
    )
    ∷ []
