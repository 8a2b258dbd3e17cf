-- ===== src/Runs/Bodies.antt =====
-- The theorems on the bodies of confirmed requests at concrete bodies.
use bacnet_sim.Prelude.{ℕ, ◌≡◌, ◌≢◌, refl, none, some, List, [], ◌∷◌, arith, ok, panic}
use bacnet_sim.Types.ObjectType.{ObjectType, from_u16, as_u16 as type_code}
use bacnet_sim.Types.PropertyId.{PropertyIdentifier, to_u32}
use bacnet_sim.Types.Value.{ObjectId, PropertyValue}
use bacnet_sim.Codec.Ack.{ReadPropertyAck}
use bacnet_sim.Codec.Confirmed.{Spec, decode_write_property, decode_rpm, decode}
use bacnet_sim.Codec.Confirmed.Safety.{decode-ne-panic_confirmed}
use bacnet_sim.Codec.Confirmed.RoundTrip.{
  write_property_body, empty_bits_body, decode_write_property-ack, decode_write_property-panic,
}
use bacnet_sim.Codec.Confirmed.Multiple.{rpm_body, decode_rpm-rpm_body}

abbrev as_it_is : List ℕ → List ℕ
as_it_is s = s

abbrev input_1 : ObjectId
input_1 = record { object_type = ObjectType.analog_input; instance = 1 }

-- A ReadPropertyMultiple request that breaks off in its list.
abbrev broken_off : List ℕ
broken_off = 0x00 ∷ 0x04 ∷ 1 ∷ 14 ∷ 0x0C ∷ 0 ∷ 0 ∷ 0 ∷ 1 ∷ 0x1E ∷ 0x09 ∷ []

broken_off_is_safe : decode as_it_is broken_off ≢ panic
broken_off_is_safe = decode-ne-panic_confirmed as_it_is broken_off (λ h. cc)

abbrev value_of_input_1 : ReadPropertyAck
value_of_input_1 = record {
  object_id = input_1;
  property_id = PropertyIdentifier.present_value;
  array_index = some 3;
  value = PropertyValue.unsigned 21;
}

priority_264_is_8 :
    decode_write_property as_it_is (write_property_body value_of_input_1 (some 264))
    ≡ ok (record {
      object_id = input_1;
      property_id = PropertyIdentifier.present_value;
      array_index = some 3;
      value = PropertyValue.unsigned 21;
      priority = some 8;
    })
unfolding to_u32 from_u16 type_code
priority_264_is_8 =
    decode_write_property-ack as_it_is value_of_input_1 (some 264) (refl, omega arith)
      (tt, omega arith) (omega arith) (omega arith) (omega arith)

empty_bits_panic :
    decode_write_property as_it_is (empty_bits_body input_1 PropertyIdentifier.present_value 1 [])
    ≡ panic
unfolding to_u32 from_u16 type_code
empty_bits_panic =
    decode_write_property-panic as_it_is input_1 PropertyIdentifier.present_value 1 []
      (refl, omega arith) (tt, omega arith) (omega arith)

abbrev two_objects : List Spec
two_objects =
    (
      input_1,
      (PropertyIdentifier.present_value, none) ∷ (PropertyIdentifier.priority_array, some 8) ∷ [],
    )
    ∷ (
      record { object_type = ObjectType.device; instance = 1234 },
      (PropertyIdentifier.all, none) ∷ [],
    )
    ∷ []

two_objects_are_read : decode_rpm (rpm_body two_objects) ≡ ok two_objects
unfolding to_u32 from_u16 type_code
two_objects_are_read = decode_rpm-rpm_body two_objects (
  (refl, omega arith),
  ((tt, omega arith), tt, ((tt, omega arith), omega arith, tt)),
  ((refl, omega arith), ((tt, omega arith), tt, tt), tt),
)
