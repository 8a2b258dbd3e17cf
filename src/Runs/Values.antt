-- ===== src/Runs/Values.antt =====
-- The theorems on the values of crates/bacnet-types/src at concrete values.
use bacnet_sim.Prelude.{ℕ, ◌+◌, ◌≡◌, true, false, List, [], ◌∷◌, ◌++◌, arith, ok, length}
use bacnet_sim.Types.ObjectType.{ObjectType, as_u16, from_u16}
use bacnet_sim.Types.Value.{ObjectId, bit_string, boolean}
use bacnet_sim.Encoding.Tags.{decode_ctx_object_id, encode_ctx_object_id}
use bacnet_sim.Encoding.Tags.RoundTrip.{decode-encode_ctx_object_id}
use bacnet_sim.Types.Value.{BacnetDate, Weekday}
use bacnet_sim.Encoding.Application.{encode_property_value, decode_application_value}
use bacnet_sim.Encoding.Application.RoundTrip.{decode-encode_property_value, boolean_lost}

abbrev device_1234 : ObjectId
device_1234 = record { object_type = ObjectType.device; instance = 1234 }

object_id_is_read :
    decode_ctx_object_id ([] ++ (encode_ctx_object_id 0 device_1234 ++ (0x19 ∷ 0x55 ∷ []))) 0 0
    ≡ ok (device_1234, 5)
unfolding as_u16 from_u16
object_id_is_read = decode-encode_ctx_object_id [] (0x19 ∷ 0x55 ∷ []) 0 device_1234 (omega arith)

-- Text that is its own lossy reading.
abbrev keep : List ℕ → List ℕ
keep bytes = bytes

value_is_read :
    decode_application_value keep
      ((0x3E ∷ []) ++ (encode_property_value (bit_string (true ∷ false ∷ [])) ++ (0x3F ∷ [])))
      1
    ≡ ok (
      bit_string (true ∷ false ∷ []),
      1 + length (encode_property_value (bit_string (true ∷ false ∷ []))),
    )
value_is_read =
    decode-encode_property_value keep (0x3E ∷ []) (0x3F ∷ []) (bit_string (true ∷ false ∷ []))
      (omega arith)

false_is_read_as_true :
    (decode_application_value keep ([] ++ (encode_property_value (boolean false) ++ [])) 0
      ≡ ok (boolean true, 1))
    × (length (encode_property_value (boolean false)) ≡ 2)
false_is_read_as_true = boolean_lost keep [] [] false

abbrev any_day : BacnetDate
any_day = record { year = 2024; month = 2; day = 29; weekday = Weekday.unspecified }
