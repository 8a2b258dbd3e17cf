-- ===== src/Codec/Unconfirmed.antt =====
-- crates/bacnet-codec/src/apdu/unconfirmed.rs: the unconfirmed requests.
pub mod RoundTrip
use bacnet_sim.Prelude.{
  ℕ, zero, suc, ◌+◌, ◌-◌, ◌*◌, ◌/◌, ◌%◌, ◌^◌, ◌≤◌, ◌<◌, ◌≡◌, ◌≢◌, ◌↔◌, ◌⊎◌, inl, inr, refl, sym, ap,
  ◌∙◌, Bool, true, false, not, ◌&&◌, ◌||◌, Option, none, some, List, [], ◌∷◌, ◌++◌, map, arith,
  if◌then◌else◌, ltb, leb, ◌==◌, ==_iff, lt→ltb, le→ltb, le→leb, Bool-cases, length, get_elem?,
  take, drop, take-append, drop-append, length-append, length-drop, get_at, get_past, get_at_add,
  drop_at_suc, drop_at, drop_at_append, length_at, length_at_append, slice_tail, slice_at, take_all,
  Outcome, ok, err, panic, ◌>>=◌, ◌>>◌, fail_if, ok_or, or_panic, index, slice, shr, low_bits,
  has_bit, as_u8, as_u16, as_u32, be32, be32_bytes, IsU32,
}
use bacnet_sim.Types.Error.{BacnetError, decode_error}
use bacnet_sim.Types.ObjectType.{ObjectType}
use bacnet_sim.Types.PropertyId.{PropertyIdentifier}
use bacnet_sim.Types.Value.{ObjectId, PropertyValue}
use bacnet_sim.Encoding.Tags.{Read, decode_ctx_u32, encode_ctx_u32, has_context_tag}
use bacnet_sim.Codec.Optional.{decode_optional}
use bacnet_sim.Encoding.Asn1.{encode_application_object_id, encode_application_unsigned}

-- crates/bacnet-codec/src/apdu/confirmed.rs
pub data Segmentation : Type 0 where
  both transmit receive no_segmentation : Segmentation

pub record WhoIsRequest : Type 0 where
  pub low_limit : Option ℕ
  pub high_limit : Option ℕ

pub record IAmRequest : Type 0 where
  pub device_instance : ℕ
  pub max_apdu_length_accepted : ℕ
  pub segmentation_supported : Segmentation
  pub vendor_id : ℕ

pub record UnconfirmedCovNotification : Type 0 where
  pub subscriber_process_id : ℕ
  pub initiating_device : ℕ
  pub monitored_object : ObjectId
  pub time_remaining : ℕ
  pub list_of_values : List (PropertyIdentifier × PropertyValue)

pub data UnconfirmedRequest : Type 0 where
  who_is : WhoIsRequest → UnconfirmedRequest
  i_am : IAmRequest → UnconfirmedRequest
  unconfirmed_cov_notification : UnconfirmedCovNotification → UnconfirmedRequest
  time_synchronization : List ℕ → UnconfirmedRequest

-- The limits are written only where both are there.
unfoldable pub encode_limits : Option ℕ → Option ℕ → List ℕ
encode_limits (some lo) (some hi) = encode_ctx_u32 0 lo ++ encode_ctx_u32 1 hi
encode_limits _ _ = []

unfoldable pub segmentation_number : Segmentation → ℕ
segmentation_number both = 0
segmentation_number transmit = 1
segmentation_number receive = 2
segmentation_number no_segmentation = 3

unfoldable pub encode : UnconfirmedRequest → List ℕ
encode (who_is w) = 0x10 ∷ 0x08 ∷ encode_limits w.low_limit w.high_limit
encode (i_am i) =
    0x10
      ∷ 0x00
      ∷ encode_application_object_id
          (record { object_type = ObjectType.device; instance = i.device_instance })
    ++ (encode_application_unsigned i.max_apdu_length_accepted
        ++ (0x91
            ∷ segmentation_number i.segmentation_supported
            ∷ encode_application_unsigned i.vendor_id))
encode _ = []

unfoldable pub decode_who_is : List ℕ → Outcome BacnetError UnconfirmedRequest
decode_who_is body = do
  (low, at_high) ← decode_optional body 0 0
  (high, end) ← decode_optional body at_high 1
  ok (who_is (record { low_limit = low; high_limit = high }))

-- Only the device's instance is read; the other fields are constants.
unfoldable pub device_instance_of : List ℕ → ℕ
device_instance_of (tag ∷ a ∷ b ∷ c ∷ d ∷ rest) =
    if tag == 0xC4 then low_bits (be32 a b c d) 22 else 0
device_instance_of _ = 0

unfoldable pub decode_i_am : List ℕ → UnconfirmedRequest
decode_i_am body = i_am (record {
  device_instance = device_instance_of body;
  max_apdu_length_accepted = 1476;
  segmentation_supported = no_segmentation;
  vendor_id = 999;
})

unfoldable pub decode_service : ℕ → List ℕ → Outcome BacnetError UnconfirmedRequest
decode_service code body =
    if code == 0x08
    then decode_who_is body
    else if code == 0x00
    then ok (decode_i_am body)
    else err decode_error

unfoldable pub decode : List ℕ → Outcome BacnetError UnconfirmedRequest
decode buf = do
  fail_if (ltb (length buf) 2) decode_error
  type ← index buf 0
  fail_if (not (type == 0x10)) decode_error
  body ← slice buf 2 (length buf)
  code ← index buf 1
  decode_service code body
