-- ===== src/Codec/Confirmed.antt =====
-- crates/bacnet-codec/src/apdu/confirmed.rs: the confirmed requests.
pub mod Safety
pub mod RoundTrip
pub mod Multiple
use bacnet_sim.Prelude.{
  ℕ, zero, suc, ◌+◌, ◌-◌, ◌*◌, ◌/◌, ◌%◌, ◌^◌, ◌≤◌, ◌<◌, ◌≡◌, ◌≢◌, ◌↔◌, ◌⊎◌, inl, inr, refl, sym, ap,
  ◌∙◌, Bool, true, false, not, ◌&&◌, ◌||◌, Option, none, some, List, [], ◌∷◌, ◌++◌, map, arith,
  if◌then◌else◌, ltb, leb, ◌==◌, ==_iff, lt→ltb, le→ltb, le→leb, Bool-cases, length, get_elem?,
  take, drop, take-append, drop-append, length-append, length-drop, get_at, get_past, get_at_add,
  drop_at_suc, drop_at, drop_at_append, length_at, length_at_append, slice_tail, slice_at, take_all,
  Outcome, ok, err, panic, ◌>>=◌, ◌>>◌, fail_if, ok_or, or_panic, index, slice, shr, low_bits,
  has_bit, as_u8, as_u16, as_u32, be32, be32_bytes, IsU32,
}
use bacnet_sim.Types.Error.{BacnetError, decode_error}
use bacnet_sim.Types.PropertyId.{PropertyIdentifier}
use bacnet_sim.Types.Value.{ObjectId, PropertyValue}
use bacnet_sim.Encoding.Tags.{
  Read, is_opening, is_closing, has_context_tag, decode_ctx_u32, decode_ctx_bool,
  decode_ctx_object_id, decode_ctx_property_id,
}
use bacnet_sim.Encoding.Application.{decode_application_value}
use bacnet_sim.Codec.Optional.{decode_optional}

pub data MaxSegments : Type 0 where
  two four eight sixteen thirty_two sixty_four more_than_64 unspecified : MaxSegments

pub record ReadPropertyRequest : Type 0 where
  pub object_id : ObjectId
  pub property_id : PropertyIdentifier
  pub array_index : Option ℕ

pub record WritePropertyRequest : Type 0 where
  pub object_id : ObjectId
  pub property_id : PropertyIdentifier
  pub array_index : Option ℕ
  pub value : PropertyValue
  pub priority : Option ℕ

pub record SubscribeCovRequest : Type 0 where
  pub subscriber_process_id : ℕ
  pub monitored_object : ObjectId
  pub issue_confirmed : Option Bool
  pub lifetime : Option ℕ

-- One property of an object, with its array index.
abbrev pub Reference : Type 0
Reference = PropertyIdentifier × Option ℕ

-- What is asked of one object.
abbrev pub Spec : Type 0
Spec = ObjectId × List Reference

pub data ConfirmedServiceRequest : Type 0 where
  read_property : ReadPropertyRequest → ConfirmedServiceRequest
  write_property : WritePropertyRequest → ConfirmedServiceRequest
  subscribe_cov : SubscribeCovRequest → ConfirmedServiceRequest
  read_property_multiple : List Spec → ConfirmedServiceRequest

pub record ConfirmedRequest : Type 0 where
  pub segmented_accepted : Bool
  pub more_follows : Bool
  pub segmented_response_accepted : Bool
  pub max_segments : MaxSegments
  pub max_response : ℕ
  pub invoke_id : ℕ
  pub sequence_number : Option ℕ
  pub proposed_window : Option ℕ
  pub service : ConfirmedServiceRequest

-- The service choice that the encoder writes.
unfoldable pub choice_of : ConfirmedServiceRequest → ℕ
choice_of (read_property r) = 12
choice_of (write_property w) = 15
choice_of (subscribe_cov s) = 5
choice_of (read_property_multiple specs) = 14

-- The header only: the body of the service is not written.
unfoldable pub encode : ConfirmedRequest → List ℕ
encode r =
    ((if r.segmented_accepted then 0x08 else 0x00) + (if r.more_follows then 0x04 else 0x00))
    ∷ 0x04
    ∷ r.invoke_id
    ∷ choice_of r.service
    ∷ []

unfoldable pub decode_read_property : List ℕ → Outcome BacnetError ReadPropertyRequest
decode_read_property body = do
  (object, at_property) ← decode_ctx_object_id body 0 0
  (property, at_index) ← decode_ctx_property_id body at_property 1
  (array, end) ← decode_optional body at_index 2
  ok (record { object_id = object; property_id = property; array_index = array })

-- `Some(p as u8)`
abbrev pub priority_of : Option ℕ → Option ℕ
priority_of none = none
priority_of (some p) = some (as_u8 p)

-- `lossy` stands for `String::from_utf8_lossy`, which the value's decoder applies to texts.
module _ (lossy : List ℕ → List ℕ) where
  unfoldable pub decode_write_property : List ℕ → Outcome BacnetError WritePropertyRequest
  decode_write_property body = do
    (object, at_property) ← decode_ctx_object_id body 0 0
    (property, at_index) ← decode_ctx_property_id body at_property 1
    (array, at_value) ← decode_optional body at_index 2
    fail_if (not (is_opening body at_value 3)) decode_error
    (v, behind) ← decode_application_value lossy body (at_value + 1)
    fail_if (not (is_closing body behind 3)) decode_error
    (p, end) ← decode_optional body (behind + 1) 4
    ok (record {
      object_id = object;
      property_id = property;
      array_index = array;
      value = v;
      priority = priority_of p;
    })

-- The inner loop, up to the closing tag, with a bound on its rounds; running out of rounds would be
-- a loop that does not end, and is answered like a panic.
unfoldable pub decode_references : ℕ → List ℕ → ℕ → Read (List Reference)
decode_references zero body pos = panic
decode_references (suc rounds) body pos = if is_closing body pos 1 then ok ([], pos) else do
  fail_if (leb (length body) pos) decode_error
  (property, at_index) ← decode_ctx_property_id body pos 0
  (array, next) ← decode_optional body at_index 1
  (references, end) ← decode_references rounds body next
  ok ((property, array) ∷ references, end)

-- The outer loop, to the end of the buffer, with a bound on its rounds.
unfoldable pub decode_specs : ℕ → List ℕ → ℕ → Outcome BacnetError (List Spec)
decode_specs zero body pos = panic
decode_specs (suc rounds) body pos = if leb (length body) pos then ok [] else do
  (object, at_list) ← decode_ctx_object_id body pos 0
  fail_if (not (is_opening body at_list 1)) decode_error
  (references, end) ← decode_references (suc (length body)) body (at_list + 1)
  specs ← decode_specs rounds body (end + 1)
  ok ((object, references) ∷ specs)

-- Every round reads a byte at least, so the length of the buffer bounds the rounds.
unfoldable pub decode_rpm : List ℕ → Outcome BacnetError (List Spec)
decode_rpm body = decode_specs (suc (length body)) body 0

unfoldable pub decode_confirmed_flag : List ℕ → ℕ → Read (Option Bool)
decode_confirmed_flag body pos =
    if has_context_tag body pos 2
    then (do (v, next) ← decode_ctx_bool body pos 2; ok (some v, next))
    else ok (none, pos)

unfoldable pub decode_subscribe_cov : List ℕ → Outcome BacnetError SubscribeCovRequest
decode_subscribe_cov body = do
  (process, at_object) ← decode_ctx_u32 body 0 0
  (object, at_flag) ← decode_ctx_object_id body at_object 1
  (confirmed, at_lifetime) ← decode_confirmed_flag body at_flag
  (life, end) ← decode_optional body at_lifetime 3
  ok (record {
    subscriber_process_id = process;
    monitored_object = object;
    issue_confirmed = confirmed;
    lifetime = life;
  })

module _ (lossy : List ℕ → List ℕ) where
  unfoldable pub decode_service : ℕ → List ℕ → Outcome BacnetError ConfirmedServiceRequest
  decode_service choice body =
      if choice == 12
      then (do r ← decode_read_property body; ok (read_property r))
      else if choice == 14
      then (do specs ← decode_rpm body; ok (read_property_multiple specs))
      else if choice == 15
      then (do w ← decode_write_property lossy body; ok (write_property w))
      else if choice == 5
      then (do s ← decode_subscribe_cov body; ok (subscribe_cov s))
      else err decode_error

  unfoldable pub decode : List ℕ → Outcome BacnetError ConfirmedRequest
  decode buf = do
    fail_if (ltb (length buf) 4) decode_error
    flags ← index buf 0
    id ← index buf 2
    choice ← index buf 3
    body ← slice buf 4 (length buf)
    s ← decode_service choice body
    ok (record {
      segmented_accepted = has_bit flags 3;
      more_follows = has_bit flags 2;
      segmented_response_accepted = true;
      max_segments = MaxSegments.unspecified;
      max_response = 480;
      invoke_id = id;
      sequence_number = none;
      proposed_window = none;
      service = s;
    })
