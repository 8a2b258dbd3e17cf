-- ===== src/Stack/Dispatcher/Sessions.antt =====
-- Which device a client's requests go to.
use bacnet_sim.Prelude.{ℕ, List, [], ◌∷◌, Outcome, ok, err, panic}
use bacnet_sim.Prelude.Maps.{Map, Key, nat_key, insert}
use bacnet_sim.Types.Error.{BacnetError}
use bacnet_sim.Types.ObjectType.{ObjectType}
use bacnet_sim.Types.Value.{ObjectId}
use bacnet_sim.Codec.Confirmed.{
  ConfirmedServiceRequest, ReadPropertyRequest, WritePropertyRequest, Spec, read_property,
  write_property, read_property_multiple,
}
use bacnet_sim.Stack.Router.{NetworkAddress}
use bacnet_sim.Stack.Dispatcher.{DeviceInfo, ApduDispatcher}

-- The request reads or writes the object, or it reads several objects and this is the first.
pub data Names : ConfirmedServiceRequest → ObjectId → Type 0 where
  reads : (r : ReadPropertyRequest) → Names (read_property r) r.object_id
  writes : (w : WritePropertyRequest) → Names (write_property w) w.object_id
  reads_several : (s : Spec) (specs : List Spec) → Names (read_property_multiple (s ∷ specs)) s.0

-- The device that was registered first, if there is one.
abbrev pub first_registered : Map ℕ DeviceInfo → Outcome BacnetError ℕ
first_registered [] = err BacnetError.unknown_object
first_registered ((id, dev) ∷ devices) = ok dev.device_id

module _ {O : Type 0} ⦃address : Key NetworkAddress⦄ where
  -- The dispatcher after a client's request to a device object.
  abbrev pub with_session : ApduDispatcher O → NetworkAddress → ℕ → ApduDispatcher O
  with_session d src n = record d { source_device_map = insert d.source_device_map src n }

  -- The device alone.
  abbrev pub device_of : Outcome BacnetError (ApduDispatcher O × ℕ) → Outcome BacnetError ℕ
  device_of (ok r) = ok r.1
  device_of (err e) = err e
  device_of panic = panic
