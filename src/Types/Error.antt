-- ===== src/Types/Error.antt =====
-- crates/bacnet-types/src/error.rs. The message texts of the two codec errors are left out.
use bacnet_sim.Prelude.{ℕ}

pub data ErrorClass : Type 0 where
  device object property resources security services vt communication : ErrorClass

pub data ErrorCode : Type 0 where
  unknown_object unknown_property write_access_denied invalid_data_type : ErrorCode
  value_out_of_range service_request_denied not_configured : ErrorCode
  other : ℕ → ErrorCode

pub data BacnetError : Type 0 where
  unknown_object unknown_property write_access_denied value_out_of_range : BacnetError
  invalid_data_type decode_error encode_error unsupported_service : BacnetError
  service_error : ErrorClass → ErrorCode → BacnetError
