-- ===== src/Stack/Dispatcher.antt =====
-- crates/bacnet-stack/src/dispatcher.rs: one inbound frame, from its bytes to the frames sent. The
-- map of devices is an association list, `values()` its order; the program's order is unspecified.
-- The model handles one frame after the other, where the program starts a task for each.
pub mod Handlers
pub mod Replies
pub mod Sessions
use bacnet_sim.Prelude.{
  ℕ, zero, suc, ◌+◌, ◌-◌, ◌*◌, ◌/◌, ◌%◌, ◌^◌, ◌≤◌, ◌<◌, ◌≡◌, ◌≢◌, ◌↔◌, ◌⊎◌, inl, inr, refl, sym, ap,
  ◌∙◌, Bool, true, false, not, ◌&&◌, ◌||◌, Option, none, some, List, [], ◌∷◌, ◌++◌, map, arith,
  if◌then◌else◌, ltb, leb, ◌==◌, ==_iff, lt→ltb, le→ltb, le→leb, Bool-cases, Option-cases, length,
  get_elem?, take, drop, take-append, drop-append, length-append, length-drop, get_at, get_past,
  get_at_add, drop_at_suc, drop_at, drop_at_append, length_at, length_at_append, slice_tail,
  slice_at, take_all, Outcome, ok, err, panic, ◌>>=◌, ◌>>◌, fail_if, ok_or, or_panic, index, slice,
  shr, low_bits, has_bit, as_u8, as_u16, as_u32, be32, be32_bytes, IsU32, append_nil, replicate,
  set, All, bit_or-add,
}
use bacnet_sim.Prelude.Maps.{Map, Key, nat_key, lookup, insert}
use bacnet_sim.Types.Error.{BacnetError, ErrorClass, ErrorCode, unknown_object, service_error}
use bacnet_sim.Types.ObjectType.{ObjectType}
use bacnet_sim.Types.Value.{ObjectId}
use bacnet_sim.Codec.Npdu.{Npdu, encode_local, decode as decode_npdu}
use bacnet_sim.Codec.Unconfirmed.{
  UnconfirmedRequest, WhoIsRequest, who_is, encode as encode_unconfirmed,
  decode as decode_unconfirmed,
}
use bacnet_sim.Codec.Confirmed.{
  ConfirmedRequest, ConfirmedServiceRequest, Spec, decode as decode_confirmed,
}
use bacnet_sim.Codec.Ack.{ComplexAck, encode as encode_ack, encode_simple}
use bacnet_sim.Codec.Errors.{encode_error}
use bacnet_sim.Objects.Interface.{BacnetObject}
use bacnet_sim.Objects.Store.{Store}
use bacnet_sim.Stack.Router.{NetworkAddress}
use bacnet_sim.Stack.Services.{
  handle_who_is, handle_read_property, handle_write_property, handle_read_property_multiple,
}

-- crates/bacnet-transport/src/lib.rs
pub record InboundFrame : Type 0 where
  pub src : NetworkAddress
  pub npdu : List ℕ

pub data Destination : Type 0 where
  unicast : NetworkAddress → Destination
  broadcast : ℕ → Destination

pub record OutboundFrame : Type 0 where
  pub dst : Destination
  pub npdu : List ℕ

-- The texts of a device's description are left out.
pub record DeviceInfo : Type 0 where
  pub device_id : ℕ
  pub max_apdu : ℕ
  pub vendor_id : ℕ

unfoldable pub device_info : ℕ → DeviceInfo
device_info device_id = record { device_id = device_id; max_apdu = 1476; vendor_id = 999 }

pub record ApduDispatcher (O : Type 0) : Type 0 where
  pub devices : Map ℕ DeviceInfo
  pub store : Store O
  pub source_device_map : Map NetworkAddress ℕ

unfoldable pub new : {O : Type 0} → Store O → ApduDispatcher O
new store = record { devices = []; store = store; source_device_map = [] }

unfoldable pub register_device : {O : Type 0} → ApduDispatcher O → DeviceInfo → ApduDispatcher O
register_device d info = record d { devices = insert d.devices info.device_id info }

-- The I-Am of every device in the range, to all and to the one that asked.
unfoldable pub announce : Map ℕ DeviceInfo → WhoIsRequest → NetworkAddress → List OutboundFrame
announce [] w src = []
announce ((id, dev) ∷ devices) w src =
    elim (handle_who_is w.low_limit w.high_limit dev.device_id dev.max_apdu dev.vendor_id) [
      | none ↦ announce devices w src
      | some iam ↦
          record { dst = broadcast 0; npdu = encode_local false (encode_unconfirmed iam) }
          ∷ record { dst = unicast src; npdu = encode_local false (encode_unconfirmed iam) }
          ∷ announce devices w src
    ]

unfoldable pub handle_unconfirmed :
    {O : Type 0} → ApduDispatcher O → UnconfirmedRequest → NetworkAddress → List OutboundFrame
handle_unconfirmed d (who_is w) src = announce d.devices w src
handle_unconfirmed d _ src = []

unfoldable pub first_device : Map ℕ DeviceInfo → Outcome BacnetError ℕ
first_device [] = err unknown_object
first_device ((id, dev) ∷ devices) = ok dev.device_id

-- The object that decides where a request goes; `none` for the requests that fall back at once.
unfoldable pub target_of : ConfirmedServiceRequest → Outcome BacnetError (Option ObjectId)
target_of (ConfirmedServiceRequest.read_property r) = ok (some r.object_id)
target_of (ConfirmedServiceRequest.write_property w) = ok (some w.object_id)
target_of (ConfirmedServiceRequest.read_property_multiple []) = err unknown_object
target_of (ConfirmedServiceRequest.read_property_multiple (s ∷ specs)) = ok (some s.0)
target_of (ConfirmedServiceRequest.subscribe_cov s) = ok none

unfoldable pub is_device : ObjectType → Bool
is_device ObjectType.device = true
is_device _ = false

unfoldable pub error_of : BacnetError → ErrorClass × ErrorCode
error_of BacnetError.unknown_object = (ErrorClass.object, ErrorCode.unknown_object)
error_of BacnetError.unknown_property = (ErrorClass.property, ErrorCode.unknown_property)
error_of BacnetError.write_access_denied = (ErrorClass.property, ErrorCode.write_access_denied)
error_of BacnetError.value_out_of_range = (ErrorClass.property, ErrorCode.value_out_of_range)
error_of BacnetError.invalid_data_type = (ErrorClass.property, ErrorCode.invalid_data_type)
error_of (service_error class code) = (class, code)
error_of _ = (ErrorClass.services, ErrorCode.other 0)

unfoldable pub encode_error_pdu : ℕ → ℕ → BacnetError → List ℕ
encode_error_pdu id choice e =
    let (class, code) = error_of e in
    encode_error
      (record { invoke_id = id; service = choice; error_class = class; error_code = code })

-- The answer to a read, with the invoke id filled in.
abbrev pub ack_or_error : ℕ → ℕ → Outcome BacnetError ComplexAck → Outcome BacnetError (List ℕ)
ack_or_error id choice (ok ack) = ok (encode_ack (record ack { invoke_id = id }))
ack_or_error id choice (err e) = ok (encode_error_pdu id choice e)
ack_or_error id choice panic = panic

-- The answer to a write, and the store that it leaves.
abbrev pub done_or_error :
    {S : Type 0} → ℕ → ℕ → S → Outcome BacnetError S → Outcome BacnetError (S × List ℕ)
done_or_error id choice store (ok written) =
    ok (written, encode_simple (record { invoke_id = id; service_choice = choice }))
done_or_error id choice store (err e) = ok (store, encode_error_pdu id choice e)
done_or_error id choice store panic = panic

module _ {O : Type 0} ⦃address : Key NetworkAddress⦄ where
  -- The device, and the dispatcher with the association that it may have stored.
  unfoldable pub route_to :
      ApduDispatcher O
      → NetworkAddress
      → Option ObjectId
      → Outcome BacnetError (ApduDispatcher O × ℕ)
  route_to d src none = do device_id ← first_device d.devices; ok (d, device_id)
  route_to d src (some oid) =
      if is_device oid.object_type
      then elim (lookup d.devices oid.instance) [
        | some dev ↦ ok (
          record d { source_device_map = insert d.source_device_map src oid.instance },
          oid.instance,
        )
        | none ↦ err unknown_object
      ]
      else elim (lookup d.source_device_map src) [
        | some cached ↦ ok (d, cached)
        | none ↦ do device_id ← first_device d.devices; ok (d, device_id)
      ]

  unfoldable pub resolve_device :
      ApduDispatcher O
      → ConfirmedRequest
      → NetworkAddress
      → Outcome BacnetError (ApduDispatcher O × ℕ)
  resolve_device d req src = do target ← target_of req.service; route_to d src target
