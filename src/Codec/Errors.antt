-- ===== src/Codec/Errors.antt =====
-- crates/bacnet-codec/src/apdu/error.rs: the error, reject and abort PDUs.
use bacnet_sim.Prelude.{ℕ, Bool, List, [], ◌∷◌, if◌then◌else◌, as_u8}
use bacnet_sim.Types.Error.{ErrorClass, ErrorCode}

pub record ErrorPdu : Type 0 where
  pub invoke_id : ℕ
  pub service : ℕ
  pub error_class : ErrorClass
  pub error_code : ErrorCode

unfoldable pub error_class_byte : ErrorClass → ℕ
error_class_byte ErrorClass.device = 0
error_class_byte ErrorClass.object = 1
error_class_byte ErrorClass.property = 2
error_class_byte ErrorClass.resources = 3
error_class_byte ErrorClass.security = 4
error_class_byte ErrorClass.services = 5
error_class_byte ErrorClass.vt = 6
error_class_byte ErrorClass.communication = 7

unfoldable pub error_code_byte : ErrorCode → ℕ
error_code_byte ErrorCode.unknown_object = 31
error_code_byte ErrorCode.unknown_property = 32
error_code_byte ErrorCode.write_access_denied = 40
error_code_byte ErrorCode.invalid_data_type = 9
error_code_byte ErrorCode.value_out_of_range = 37
error_code_byte ErrorCode.service_request_denied = 29
error_code_byte ErrorCode.not_configured = 133
error_code_byte (ErrorCode.other v) = as_u8 v

-- `self.error_class as u8` is the class's place in the enumeration, as `error_class_byte` has it.
unfoldable pub encode_error : ErrorPdu → List ℕ
encode_error e =
    0x50
    ∷ e.invoke_id
    ∷ e.service
    ∷ 0x91
    ∷ error_class_byte e.error_class
    ∷ 0x91
    ∷ error_code_byte e.error_code
    ∷ []

pub data RejectReason : Type 0 where
  other buffer_overflow inconsistent_parameters invalid_parameter_data_type : RejectReason
  invalid_tag missing_required_parameter parameter_out_of_range too_many_arguments : RejectReason
  undefined_enumeration unrecognized_service : RejectReason

-- `self.reason as u8`
unfoldable pub reject_number : RejectReason → ℕ
reject_number RejectReason.other = 0
reject_number RejectReason.buffer_overflow = 1
reject_number RejectReason.inconsistent_parameters = 2
reject_number RejectReason.invalid_parameter_data_type = 3
reject_number RejectReason.invalid_tag = 4
reject_number RejectReason.missing_required_parameter = 5
reject_number RejectReason.parameter_out_of_range = 6
reject_number RejectReason.too_many_arguments = 7
reject_number RejectReason.undefined_enumeration = 8
reject_number RejectReason.unrecognized_service = 9

pub record RejectPdu : Type 0 where
  pub invoke_id : ℕ
  pub reason : RejectReason

unfoldable pub encode_reject : RejectPdu → List ℕ
encode_reject r = 0x60 ∷ r.invoke_id ∷ reject_number r.reason ∷ []

pub data AbortReason : Type 0 where
  other buffer_overflow invalid_apdu_in_this_state : AbortReason
  preempted_by_higher_priority_task segmentation_not_supported : AbortReason

-- `self.reason as u8`
unfoldable pub abort_number : AbortReason → ℕ
abort_number AbortReason.other = 0
abort_number AbortReason.buffer_overflow = 1
abort_number AbortReason.invalid_apdu_in_this_state = 2
abort_number AbortReason.preempted_by_higher_priority_task = 3
abort_number AbortReason.segmentation_not_supported = 4

pub record AbortPdu : Type 0 where
  pub invoke_id : ℕ
  pub server : Bool
  pub reason : AbortReason

unfoldable pub encode_abort : AbortPdu → List ℕ
encode_abort a = (if a.server then 0x71 else 0x70) ∷ a.invoke_id ∷ abort_number a.reason ∷ []
