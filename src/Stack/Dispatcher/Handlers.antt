-- ===== src/Stack/Dispatcher/Handlers.antt =====
-- crates/bacnet-stack/src/dispatcher.rs: the handlers of confirmed requests and of frames. They
-- return the dispatcher afterwards and the frames sent, in order.
use bacnet_sim.Prelude.{
  ℕ, ◌*◌, false, List, [], ◌∷◌, if◌then◌else◌, ◌==◌, Outcome, ok, err, panic, ◌>>=◌, shr, as_u8,
}
use bacnet_sim.Prelude.Maps.{Key}
use bacnet_sim.Types.Error.{BacnetError}
use bacnet_sim.Codec.Npdu.{encode_local, decode as decode_npdu}
use bacnet_sim.Codec.Unconfirmed.{UnconfirmedRequest, decode as decode_unconfirmed}
use bacnet_sim.Codec.Confirmed.{
  ConfirmedRequest, ConfirmedServiceRequest, decode as decode_confirmed,
}
use bacnet_sim.Codec.Ack.{encode as encode_ack, encode_simple}
use bacnet_sim.Objects.Interface.{BacnetObject}
use bacnet_sim.Objects.Store.{Store}
use bacnet_sim.Stack.Router.{NetworkAddress}
use bacnet_sim.Stack.Services.{
  handle_read_property, handle_write_property, handle_read_property_multiple,
}
use bacnet_sim.Stack.Dispatcher.{
  InboundFrame, OutboundFrame, unicast, ApduDispatcher, handle_unconfirmed, ack_or_error,
  done_or_error, resolve_device,
}

-- `apdu[0] & 0xF0`
abbrev pub pdu_type : ℕ → ℕ
pdu_type b = shr (as_u8 b) 4 * 16

module _ {O : Type 0} (object : BacnetObject O) (hash : ℕ → ℕ → ℕ) where
  -- The store afterwards and the answer.
  unfoldable pub answer :
      Store O → ConfirmedServiceRequest → ℕ → ℕ → ℕ → Outcome BacnetError (Store O × List ℕ)
  answer store (ConfirmedServiceRequest.read_property r) device_id id now = do
    apdu ← ack_or_error id 12 (handle_read_property object hash r store device_id)
    ok (store, apdu)
  answer store (ConfirmedServiceRequest.read_property_multiple specs) device_id id now = do
    ack ← handle_read_property_multiple object hash specs store device_id id
    ok (store, encode_ack ack)
  answer store (ConfirmedServiceRequest.write_property w) device_id id now =
      done_or_error id 15 store (handle_write_property object hash w store device_id now)
  answer store (ConfirmedServiceRequest.subscribe_cov s) device_id id now =
      ok (store, encode_simple (record { invoke_id = id; service_choice = 5 }))

  module _ ⦃address : Key NetworkAddress⦄ where
    unfoldable pub handle_confirmed :
        ApduDispatcher O
        → ConfirmedRequest
        → NetworkAddress
        → ℕ
        → Outcome BacnetError (ApduDispatcher O × List OutboundFrame)
    handle_confirmed d req src now = do
      (routed, device_id) ← resolve_device d req src
      (store, apdu) ← answer routed.store req.service device_id req.invoke_id now
      ok (
        record routed { store = store },
        record { dst = unicast src; npdu = encode_local false apdu } ∷ [],
      )

    -- A request that is not understood is dropped.
    unfoldable pub on_confirmed :
        ApduDispatcher O
        → Outcome BacnetError ConfirmedRequest
        → NetworkAddress
        → ℕ
        → Outcome BacnetError (ApduDispatcher O × List OutboundFrame)
    on_confirmed d (ok req) src now = handle_confirmed d req src now
    on_confirmed d (err e) src now = ok (d, [])
    on_confirmed d panic src now = panic

    unfoldable pub on_unconfirmed :
        ApduDispatcher O
        → Outcome BacnetError UnconfirmedRequest
        → NetworkAddress
        → Outcome BacnetError (ApduDispatcher O × List OutboundFrame)
    on_unconfirmed d (ok req) src = ok (d, handle_unconfirmed d req src)
    on_unconfirmed d (err e) src = ok (d, [])
    on_unconfirmed d panic src = panic

    module _ (lossy : List ℕ → List ℕ) where
      unfoldable pub handle_apdu :
          ApduDispatcher O
          → List ℕ
          → NetworkAddress
          → ℕ
          → Outcome BacnetError (ApduDispatcher O × List OutboundFrame)
      handle_apdu d [] src now = ok (d, [])
      handle_apdu d (b ∷ rest) src now =
          if pdu_type b == 0x00
          then on_confirmed d (decode_confirmed lossy (b ∷ rest)) src now
          else if pdu_type b == 0x10
          then on_unconfirmed d (decode_unconfirmed (b ∷ rest)) src
          else ok (d, [])

      unfoldable pub handle_frame :
          ApduDispatcher O
          → InboundFrame
          → ℕ
          → Outcome BacnetError (ApduDispatcher O × List OutboundFrame)
      handle_frame d frame now = do
        npdu ← decode_npdu frame.npdu
        if npdu.control.network_message then ok (d, []) else handle_apdu d npdu.apdu frame.src now
