-- ===== src/Stack/Dispatcher/Replies.antt =====
-- Every confirmed request that reaches a device is answered.
use bacnet_sim.Prelude.{
  ℕ, ◌%◌, ◌≡◌, ◌≢◌, ◌⊎◌, inl, inr, refl, ap, false, Option, none, some, List, [], ◌∷◌, Bool-cases,
  Option-cases, Outcome, ok, err, panic, or_panic,
}
use bacnet_sim.Prelude.Safety.{Ensures, returns, fails, Ensures-bind, Gives, given, Gives-bind}
use bacnet_sim.Prelude.Maps.{Key, lookup}
use bacnet_sim.Types.Error.{BacnetError}
use bacnet_sim.Types.PropertyId.{PropertyIdentifier}
use bacnet_sim.Types.Value.{ObjectId, PropertyValue}
use bacnet_sim.Codec.Npdu.{Npdu, encode_local, decode as decode_npdu}
use bacnet_sim.Codec.Confirmed.{
  ReadPropertyRequest, WritePropertyRequest, ConfirmedRequest, ConfirmedServiceRequest, Reference,
  Spec, choice_of, decode as decode_confirmed,
}
use bacnet_sim.Codec.Ack.{ComplexAck, encode as encode_ack, encode_ack_service, encode_simple}
use bacnet_sim.Codec.Errors.{encode_error}
use bacnet_sim.Objects.Interface.{BacnetObject}
use bacnet_sim.Objects.Store.{
  Store, ObjectRef, num_shards, object_key, pair_key, shard_at, present, shard_key, get, held,
  guarded_read, guarded_all, guarded_write,
}
use bacnet_sim.Stack.Router.{NetworkAddress}
use bacnet_sim.Stack.Services.{
  asks_all, kept, handle_read_property, handle_write_property, read_each, read_object, read_specs,
  handle_read_property_multiple,
}
use bacnet_sim.Stack.Dispatcher.{
  InboundFrame, OutboundFrame, unicast, ApduDispatcher, encode_error_pdu, ack_or_error,
  done_or_error, resolve_device,
}
use bacnet_sim.Stack.Dispatcher.Handlers.{
  pdu_type, answer, handle_confirmed, on_confirmed, handle_apdu, handle_frame,
}

-- The objects' reads and writes return or fail, but never panic.
pub record IsCalm {O : Type 0} (object : BacnetObject O) : Type 0 where
  pub reads : (o : O) (p : PropertyIdentifier) (i : Option ℕ) → object.read_property o p i ≢ panic
  pub writes :
      (o : O) (p : PropertyIdentifier) (i : Option ℕ) (v : PropertyValue) (q : Option ℕ) (now : ℕ)
      → object.write_property o p i v q now ≢ panic

-- The first bytes of an answer to a request: its kind, the invoke id and the service choice.
pub data IsAnswer (id choice : ℕ) : List ℕ → Type 0 where
  simple_ack : IsAnswer id choice (0x20 ∷ id ∷ choice ∷ [])
  complex_ack : (body : List ℕ) → IsAnswer id choice (0x30 ∷ id ∷ choice ∷ body)
  error : (body : List ℕ) → IsAnswer id choice (0x50 ∷ id ∷ choice ∷ body)

-- One frame to the address, with an answer to the request.
pub data IsReply (req : ConfirmedRequest) (src : NetworkAddress) : List OutboundFrame → Type 0 where
  reply :
      {apdu : List ℕ}
      → IsAnswer req.invoke_id (choice_of req.service) apdu
      → IsReply req src (record { dst = unicast src; npdu = encode_local false apdu } ∷ [])

pub calm-Ensures : {A : Type 0} (r : Outcome BacnetError A) → r ≢ panic → Ensures (λ _. Unit) r
calm-Ensures (ok a) h = returns tt
calm-Ensures (err e) h = fails
calm-Ensures panic h = absurd (h refl)

-- The acknowledgement is one of the service.
abbrev IsAckOf : ℕ → ComplexAck → Type 0
IsAckOf choice ack = (body : List ℕ) × (encode_ack_service ack.service ≡ choice ∷ body)

ack_or_error-Gives :
    (id choice : ℕ) {r : Outcome BacnetError ComplexAck}
    → Ensures (IsAckOf choice) r
    → Gives (IsAnswer id choice) (ack_or_error id choice r)
unfolding encode_ack encode_error_pdu encode_error
ack_or_error-Gives id choice (returns (body, starts)) = rw starts (given (complex_ack body))
ack_or_error-Gives id choice fails = given (error _)

done_or_error-Gives :
    {S : Type 0} (id choice : ℕ) (store : S) {r : Outcome BacnetError S}
    → Ensures (λ _. Unit) r
    → Gives (λ done. IsAnswer id choice done.1) (done_or_error id choice store r)
unfolding encode_simple encode_error_pdu encode_error
done_or_error-Gives id choice store (returns p) = given simple_ack
done_or_error-Gives id choice store fails = given (error _)

kept-Gives :
    {r : Outcome BacnetError PropertyValue} → Ensures (λ _. Unit) r → Gives (λ _. Unit) (kept r)
kept-Gives (returns p) = given tt
kept-Gives fails = given tt

module _ {O : Type 0} (object : BacnetObject O) (hash : ℕ → ℕ → ℕ) where
  -- Nothing is stored for the identifier, or a reference that leads to an object.
  pub get-cases :
      (store : Store O) (device_id : ℕ) (oid : ObjectId)
      → (get hash store device_id oid ≡ none)
        ⊎ ((ref : ObjectRef) × (o : O) × (get hash store device_id oid ≡ some ref)
            × (held store ref ≡ ok o))
  unfolding get held shard_key
  get-cases store device_id oid =
      let k : ℕ × ℕ = (device_id, object_key oid) in
      let i = hash device_id (object_key oid) % num_shards in
      elim (Option-cases (lookup (shard_at store i) k)) [
        | inl e ↦ inl (ap (present i k) e)
        | inr (o, e) ↦ inr (record { shard = i; key = k }, o, ap (present i k) e, ap or_panic e)
      ]

  module _ (calm : IsCalm object) where
    pub read-Ensures :
        (store : Store O) (ref : ObjectRef) (o : O) (p : PropertyIdentifier) (i : Option ℕ)
        → held store ref ≡ ok o
        → Ensures (λ _. Unit) (guarded_read object store ref p i)
    unfolding guarded_read
    read-Ensures store ref o p i h =
        rw h (calm-Ensures (object.read_property o p i) (calm.reads o p i))

    handle_read_property-Ensures :
        (req : ReadPropertyRequest) (store : Store O) (device_id : ℕ)
        → Ensures (IsAckOf 12) (handle_read_property object hash req store device_id)
    unfolding handle_read_property encode_ack_service
    handle_read_property-Ensures req store device_id =
        elim (get-cases store device_id req.object_id) [
          | inl missing ↦ rw missing fails
          | inr (ref, o, found, h) ↦ rw found (
              Ensures-bind (read-Ensures store ref o req.property_id req.array_index h)
                λ v _. returns (_, refl))
        ]

    handle_write_property-Ensures :
        (req : WritePropertyRequest) (store : Store O) (device_id now : ℕ)
        → Ensures (λ _. Unit) (handle_write_property object hash req store device_id now)
    unfolding handle_write_property guarded_write
    handle_write_property-Ensures req store device_id now =
        elim (get-cases store device_id req.object_id) [
          | inl missing ↦ rw missing fails
          | inr (ref, o, found, h) ↦
              rw (found, h)
                (Ensures-bind
                  (calm-Ensures _
                    (calm.writes o req.property_id req.array_index req.value req.priority now))
                  λ written _. returns tt)
        ]

    read_each-Gives :
        (references : List Reference) (store : Store O) (ref : ObjectRef) (o : O)
        → held store ref ≡ ok o
        → Gives (λ _. Unit) (read_each object references store ref)
    unfolding read_each
    read_each-Gives [] store ref o h = given tt
    read_each-Gives ((p, i) ∷ references) store ref o h =
        Gives-bind (kept-Gives (read-Ensures store ref o p i h))
          λ v _. Gives-bind (read_each-Gives references store ref o h) λ rest _. given tt

    read_all-Gives :
        (store : Store O) (ref : ObjectRef) (o : O)
        → held store ref ≡ ok o
        → Gives (λ _. Unit) (guarded_all object store ref)
    unfolding guarded_all
    read_all-Gives store ref o h = rw h (given tt)

    read_object-Gives :
        (references : List Reference) (store : Store O) (device_id : ℕ) (oid : ObjectId)
        → Gives (λ _. Unit) (read_object object references store (get hash store device_id oid))
    unfolding read_object
    read_object-Gives references store device_id oid = elim (get-cases store device_id oid) [
      | inl missing ↦ rw missing (given tt)
      | inr (ref, o, found, h) ↦ rw found (elim (Bool-cases (asks_all references)) [
        | inl all ↦ rw all (Gives-bind (read_all-Gives store ref o h) λ values _. given tt)
        | inr named ↦ rw named (read_each-Gives references store ref o h)
      ])
    ]

    read_specs-Gives :
        (specs : List Spec) (store : Store O) (device_id : ℕ)
        → Gives (λ _. Unit) (read_specs object hash specs store device_id)
    unfolding read_specs
    read_specs-Gives [] store device_id = given tt
    read_specs-Gives ((oid, references) ∷ specs) store device_id =
        Gives-bind (read_object-Gives references store device_id oid)
          λ results _. Gives-bind (read_specs-Gives specs store device_id) λ rest _. given tt

    answer-Gives :
        (store : Store O) (s : ConfirmedServiceRequest) (device_id id now : ℕ)
        → Gives
            (λ done. IsAnswer id (choice_of s) done.1)
            (answer object hash store s device_id id now)
    unfolding answer choice_of encode_simple encode_ack encode_ack_service
        handle_read_property_multiple
    answer-Gives store (ConfirmedServiceRequest.read_property r) device_id id now =
        Gives-bind (ack_or_error-Gives id 12 (handle_read_property-Ensures r store device_id))
          λ apdu done. given done
    answer-Gives store (ConfirmedServiceRequest.read_property_multiple specs) device_id id now =
        Gives-bind
          (Gives-bind {Q = λ ack. IsAnswer id 14 (encode_ack ack)}
            (read_specs-Gives specs store device_id) λ results _. given (complex_ack _))
          λ ack done. given done
    answer-Gives store (ConfirmedServiceRequest.write_property w) device_id id now =
        done_or_error-Gives id 15 store (handle_write_property-Ensures w store device_id now)
    answer-Gives store (ConfirmedServiceRequest.subscribe_cov s) device_id id now = given simple_ack

    module _ ⦃address : Key NetworkAddress⦄ where
      handle_confirmed-Gives :
          (d routed : ApduDispatcher O) (req : ConfirmedRequest) (src : NetworkAddress)
          (device_id now : ℕ)
          → resolve_device d req src ≡ ok (routed, device_id)
          → Gives (λ done. IsReply req src done.1) (handle_confirmed object hash d req src now)
      unfolding handle_confirmed
      handle_confirmed-Gives d routed req src device_id now resolved = rw resolved (
          Gives-bind (answer-Gives routed.store req.service device_id req.invoke_id now)
            λ done answered. given (reply answered))

      -- Where objects do not panic: a frame that carries a confirmed request, from whatever address,
      -- for which the dispatcher finds a device, is answered by exactly one frame, to that address,
      -- with the request's invoke id and service choice: an acknowledgement or an error.
      pub handle_frame-answers :
          (lossy : List ℕ → List ℕ) (d routed : ApduDispatcher O) (frame : InboundFrame)
          (npdu : Npdu) (b : ℕ) (rest : List ℕ) (req : ConfirmedRequest) (device_id now : ℕ)
          → decode_npdu frame.npdu ≡ ok npdu
          → npdu.control.network_message ≡ false
          → npdu.apdu ≡ b ∷ rest
          → pdu_type b ≡ 0x00
          → decode_confirmed lossy (b ∷ rest) ≡ ok req
          → resolve_device d req frame.src ≡ ok (routed, device_id)
          → Gives
              (λ done. IsReply req frame.src done.1)
              (handle_frame object hash lossy d frame now)
      unfolding handle_frame handle_apdu on_confirmed
      handle_frame-answers lossy d routed frame npdu b rest req device_id now read local bytes
            confirmed decoded resolved =
          rw (read, local, bytes, confirmed, decoded)
            (handle_confirmed-Gives d routed req frame.src device_id now resolved)
