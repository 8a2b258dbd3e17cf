-- ===== src/Stack/Services.antt =====
-- crates/bacnet-stack/src/services: what a device answers to one request. `now` is the clock's
-- reading during a write.
use bacnet_sim.Prelude.{
  ℕ, Bool, true, false, ◌&&◌, ◌||◌, Option, none, some, List, [], ◌∷◌, if◌then◌else◌, leb, Outcome,
  ok, err, panic, ◌>>=◌, ok_or,
}
use bacnet_sim.Types.Error.{BacnetError, unknown_object}
use bacnet_sim.Types.PropertyId.{PropertyIdentifier}
use bacnet_sim.Types.Value.{PropertyValue}
use bacnet_sim.Codec.Unconfirmed.{Segmentation, UnconfirmedRequest, i_am}
use bacnet_sim.Codec.Confirmed.{ReadPropertyRequest, WritePropertyRequest, Reference, Spec}
use bacnet_sim.Codec.Ack.{
  ComplexAck, ComplexAckService, ObjectPropertyResult, PropertyResult, PropertyOutcome, found,
  failed,
}
use bacnet_sim.Objects.Interface.{BacnetObject}
use bacnet_sim.Objects.Store.{Store, ObjectRef, get, guarded_read, guarded_all, guarded_write}

-- crates/bacnet-stack/src/services/who_is.rs
unfoldable pub in_range : Option ℕ → Option ℕ → ℕ → Bool
in_range (some lo) (some hi) id = leb lo id && leb id hi
in_range _ _ id = true

unfoldable pub handle_who_is : Option ℕ → Option ℕ → ℕ → ℕ → ℕ → Option UnconfirmedRequest
handle_who_is low high device_id max_apdu vendor_id =
    if in_range low high device_id
    then some (
        i_am (record {
          device_instance = device_id;
          max_apdu_length_accepted = max_apdu;
          segmentation_supported = Segmentation.no_segmentation;
          vendor_id = vendor_id;
        }))
    else none

unfoldable pub is_all : PropertyIdentifier → Bool
is_all PropertyIdentifier.all = true
is_all _ = false

-- `props.iter().any(|(p, _)| *p == PropertyIdentifier::All)`
unfoldable pub asks_all : List Reference → Bool
asks_all [] = false
asks_all ((p, i) ∷ references) = is_all p || asks_all references

unfoldable pub found_values : List (PropertyIdentifier × PropertyValue) → List PropertyResult
found_values [] = []
found_values ((p, v) ∷ values) =
    record { property_id = p; array_index = none; value = found v } ∷ found_values values

unfoldable pub unknown_values : List Reference → List PropertyResult
unknown_values [] = []
unknown_values ((p, i) ∷ references) =
    record { property_id = p; array_index = i; value = failed unknown_object }
    ∷ unknown_values references

-- A read whose error is kept beside the property.
abbrev pub kept : Outcome BacnetError PropertyValue → Outcome BacnetError PropertyOutcome
kept (ok v) = ok (found v)
kept (err e) = ok (failed e)
kept panic = panic

module _ {O : Type 0} (object : BacnetObject O) where
  -- crates/bacnet-stack/src/services/read_property_multiple.rs
  unfoldable pub read_each :
      List Reference → Store O → ObjectRef → Outcome BacnetError (List PropertyResult)
  read_each [] store ref = ok []
  read_each ((p, i) ∷ references) store ref = do
    v ← kept (guarded_read object store ref p i)
    rest ← read_each references store ref
    ok (record { property_id = p; array_index = i; value = v } ∷ rest)

  unfoldable pub read_object :
      List Reference → Store O → Option ObjectRef → Outcome BacnetError (List PropertyResult)
  read_object references store none = ok (unknown_values references)
  read_object references store (some ref) =
      if asks_all references
      then (do values ← guarded_all object store ref; ok (found_values values))
      else read_each references store ref

module _ {O : Type 0} (object : BacnetObject O) (hash : ℕ → ℕ → ℕ) where
  -- crates/bacnet-stack/src/services/read_property.rs
  unfoldable pub handle_read_property :
      ReadPropertyRequest → Store O → ℕ → Outcome BacnetError ComplexAck
  handle_read_property req store device_id = do
    ref ← ok_or (get hash store device_id req.object_id) unknown_object
    v ← guarded_read object store ref req.property_id req.array_index
    ok (record {
      invoke_id = 0;
      service = ComplexAckService.read_property (record {
        object_id = req.object_id;
        property_id = req.property_id;
        array_index = req.array_index;
        value = v;
      });
    })

  -- crates/bacnet-stack/src/services/write_property.rs
  unfoldable pub handle_write_property :
      WritePropertyRequest → Store O → ℕ → ℕ → Outcome BacnetError (Store O)
  handle_write_property req store device_id now = do
    ref ← ok_or (get hash store device_id req.object_id) unknown_object
    guarded_write object store ref req.property_id req.array_index req.value req.priority now

  unfoldable pub read_specs :
      List Spec → Store O → ℕ → Outcome BacnetError (List ObjectPropertyResult)
  read_specs [] store device_id = ok []
  read_specs ((o, references) ∷ specs) store device_id = do
    results ← read_object object references store (get hash store device_id o)
    rest ← read_specs specs store device_id
    ok (record { object_id = o; property_results = results } ∷ rest)

  unfoldable pub handle_read_property_multiple :
      List Spec → Store O → ℕ → ℕ → Outcome BacnetError ComplexAck
  handle_read_property_multiple specs store device_id id = do
    results ← read_specs specs store device_id
    ok (record { invoke_id = id; service = ComplexAckService.read_property_multiple results })
