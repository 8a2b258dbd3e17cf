-- ===== src/Codec/Ack.antt =====
-- crates/bacnet-codec/src/apdu/ack.rs: the acknowledgements.
use bacnet_sim.Prelude.{
  ℕ, ◌*◌, not, Option, none, List, [], ◌∷◌, ◌++◌, ltb, ◌==◌, length, Outcome, ok, ◌>>=◌, ◌>>◌,
  fail_if, index, shr,
}
use bacnet_sim.Types.Error.{
  ErrorClass, ErrorCode, BacnetError, decode_error, encode_error, unsupported_service,
  service_error,
}
use bacnet_sim.Types.ObjectType.{ObjectType}
use bacnet_sim.Types.PropertyId.{PropertyIdentifier, to_u32}
use bacnet_sim.Types.Value.{ObjectId, PropertyValue, null}
use bacnet_sim.Encoding.Tags.{
  encode_ctx_u32, encode_ctx_object_id, encode_opening_tag, encode_closing_tag,
}
use bacnet_sim.Encoding.Application.{encode_property_value}
use bacnet_sim.Codec.Optional.{encode_optional}

pub record ReadPropertyAck : Type 0 where
  pub object_id : ObjectId
  pub property_id : PropertyIdentifier
  pub array_index : Option ℕ
  pub value : PropertyValue

-- `Result<PropertyValue, BacnetError>`
pub data PropertyOutcome : Type 0 where
  found : PropertyValue → PropertyOutcome
  failed : BacnetError → PropertyOutcome

pub record PropertyResult : Type 0 where
  pub property_id : PropertyIdentifier
  pub array_index : Option ℕ
  pub value : PropertyOutcome

pub record ObjectPropertyResult : Type 0 where
  pub object_id : ObjectId
  pub property_results : List PropertyResult

pub data ComplexAckService : Type 0 where
  read_property : ReadPropertyAck → ComplexAckService
  read_property_multiple : List ObjectPropertyResult → ComplexAckService

pub record ComplexAck : Type 0 where
  pub invoke_id : ℕ
  pub service : ComplexAckService

unfoldable pub encode_read_property_ack : ReadPropertyAck → List ℕ
encode_read_property_ack ack =
    encode_ctx_object_id 0 ack.object_id
    ++ (encode_ctx_u32 1 (to_u32 ack.property_id)
        ++ (encode_optional 2 ack.array_index
            ++ (encode_opening_tag 3 ++ (encode_property_value ack.value ++ encode_closing_tag 3))))

unfoldable pub class_number : ErrorClass → ℕ
class_number ErrorClass.device = 0
class_number ErrorClass.object = 1
class_number ErrorClass.property = 2
class_number ErrorClass.resources = 3
class_number ErrorClass.security = 4
class_number ErrorClass.services = 5
class_number ErrorClass.vt = 6
class_number ErrorClass.communication = 7

unfoldable pub code_number : ErrorCode → ℕ
code_number ErrorCode.unknown_object = 31
code_number ErrorCode.unknown_property = 32
code_number ErrorCode.write_access_denied = 40
code_number ErrorCode.value_out_of_range = 37
code_number ErrorCode.invalid_data_type = 9
code_number ErrorCode.service_request_denied = 29
code_number ErrorCode.not_configured = 140
code_number (ErrorCode.other v) = v

unfoldable pub error_class_code : BacnetError → ℕ × ℕ
error_class_code BacnetError.unknown_object = (1, 31)
error_class_code BacnetError.unknown_property = (2, 32)
error_class_code BacnetError.write_access_denied = (2, 40)
error_class_code BacnetError.value_out_of_range = (2, 37)
error_class_code BacnetError.invalid_data_type = (2, 9)
error_class_code (service_error class code) = (class_number class, code_number code)
error_class_code decode_error = (5, 0)
error_class_code encode_error = (5, 0)
error_class_code unsupported_service = (5, 0)

unfoldable pub encode_outcome : PropertyOutcome → List ℕ
encode_outcome (found v) = encode_opening_tag 4 ++ (encode_property_value v ++ encode_closing_tag 4)
encode_outcome (failed e) =
    let (class, code) = error_class_code e in
    encode_opening_tag 5
    ++ (encode_ctx_u32 0 class ++ (encode_ctx_u32 1 code ++ encode_closing_tag 5))

-- The inner loop.
unfoldable pub encode_results : List PropertyResult → List ℕ
encode_results [] = []
encode_results (r ∷ results) =
    encode_ctx_u32 2 (to_u32 r.property_id)
    ++ (encode_optional 3 r.array_index ++ (encode_outcome r.value ++ encode_results results))

unfoldable pub encode_rpm_ack : List ObjectPropertyResult → List ℕ
encode_rpm_ack [] = []
encode_rpm_ack (o ∷ results) =
    encode_ctx_object_id 0 o.object_id
    ++ (encode_opening_tag 1
        ++ (encode_results o.property_results ++ (encode_closing_tag 1 ++ encode_rpm_ack results)))

unfoldable pub encode_ack_service : ComplexAckService → List ℕ
encode_ack_service (read_property ack) = 12 ∷ encode_read_property_ack ack
encode_ack_service (read_property_multiple results) = 14 ∷ encode_rpm_ack results

unfoldable pub encode : ComplexAck → List ℕ
encode ack = 0x30 ∷ ack.invoke_id ∷ encode_ack_service ack.service

-- The decoder reads the header and makes up the body.
unfoldable pub decode : List ℕ → Outcome BacnetError ComplexAck
decode buf = do
  fail_if (ltb (length buf) 3) decode_error
  type ← index buf 0
  fail_if (not (shr type 4 * 16 == 0x30)) decode_error
  id ← index buf 1
  ok (record {
    invoke_id = id;
    service = read_property (record {
      object_id = record { object_type = ObjectType.device; instance = 0 };
      property_id = PropertyIdentifier.object_identifier;
      array_index = none;
      value = null;
    });
  })

pub record SimpleAck : Type 0 where
  pub invoke_id : ℕ
  pub service_choice : ℕ

unfoldable pub encode_simple : SimpleAck → List ℕ
encode_simple ack = 0x20 ∷ ack.invoke_id ∷ ack.service_choice ∷ []
