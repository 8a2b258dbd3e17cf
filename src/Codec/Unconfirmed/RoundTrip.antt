-- ===== src/Codec/Unconfirmed/RoundTrip.antt =====
-- Requests that are encoded and decoded.
use bacnet_sim.Prelude.{
  ℕ, suc, ◌+◌, ◌≡◌, refl, sym, ◌∙◌, Option, none, some, List, [], ◌∷◌, ◌++◌, arith, le→ltb, length,
  drop, drop_at_append, slice_tail, ok, low_bits, IsU32, append_nil,
}
use bacnet_sim.Types.Error.{BacnetError}
use bacnet_sim.Types.ObjectType.{ObjectType, as_u16 as type_code}
use bacnet_sim.Types.Value.{ObjectId}
use bacnet_sim.Encoding.Tags.{encode_ctx_u32, has_context_tag, object_id_raw}
use bacnet_sim.Encoding.Tags.RoundTrip.{be32-be32_bytes, object_id_raw-IsU32}
use bacnet_sim.Codec.Optional.{
  FitsU32, decode_optional, encode_optional, decode_optional_at, Absent, encode_ctx_u32-Absent,
}
use bacnet_sim.Encoding.Asn1.{encode_application_object_id}
use bacnet_sim.Codec.Unconfirmed.{
  WhoIsRequest, IAmRequest, who_is, i_am, no_segmentation, encode_limits, encode, decode_who_is,
  device_instance_of, decode_i_am, decode_service, decode,
}

decode-service : (code : ℕ) (body : List ℕ) → decode (0x10 ∷ code ∷ body) ≡ decode_service code body
unfolding decode
decode-service code body =
    rw
      (
        slice_tail {E = BacnetError} (0x10 ∷ code ∷ body) 2 (omega arith),
        le→ltb (suc (suc (length body))) 2 (omega arith),
      )
      refl

decode_who_is-limits :
    (lo hi : ℕ)
    → IsU32 lo
    → IsU32 hi
    → decode_who_is (encode_ctx_u32 0 lo ++ encode_ctx_u32 1 hi)
      ≡ ok (who_is (record { low_limit = some lo; high_limit = some hi }))
unfolding decode_who_is encode_optional
decode_who_is-limits lo hi hl hh =
    let body = encode_ctx_u32 0 lo ++ encode_ctx_u32 1 hi in
    let at_high : drop (0 + length (encode_ctx_u32 0 lo)) body ≡ encode_ctx_u32 1 hi ++ [] =
      drop_at_append body 0 (encode_ctx_u32 0 lo) (encode_ctx_u32 1 hi) refl
      ∙ sym (append_nil (encode_ctx_u32 1 hi)) in
    let next : Absent 0 (encode_ctx_u32 1 hi) =
      rw⁻¹ (append_nil (encode_ctx_u32 1 hi))
        (encode_ctx_u32-Absent 0 1 hi [] (omega arith) λ same. omega arith) in
    rw
      (
        decode_optional_at body 0 0 (some lo) (encode_ctx_u32 1 hi) (omega arith) hl next refl,
        decode_optional_at body (0 + length (encode_ctx_u32 0 lo)) 1 (some hi) [] (omega arith) hh
            tt at_high,
      )
      refl

-- What is left of the limits: both of them, or none.
abbrev pub limits_kept : Option ℕ → Option ℕ → WhoIsRequest
limits_kept (some lo) (some hi) = record { low_limit = some lo; high_limit = some hi }
limits_kept _ _ = record { low_limit = none; high_limit = none }

decode_who_is-nil : decode_who_is [] ≡ ok (who_is (record { low_limit = none; high_limit = none }))
unfolding decode_who_is decode_optional has_context_tag
decode_who_is-nil = refl

-- A Who-Is request is decoded to itself where it has both limits or none; a single limit is lost.
pub decode-encode_who_is :
    (low high : Option ℕ)
    → FitsU32 low
    → FitsU32 high
    → decode (encode (who_is (record { low_limit = low; high_limit = high })))
      ≡ ok (who_is (limits_kept low high))
unfolding encode encode_limits decode_service
decode-encode_who_is (some lo) (some hi) hl hh =
    decode-service 0x08 (encode_ctx_u32 0 lo ++ encode_ctx_u32 1 hi)
    ∙ decode_who_is-limits lo hi hl hh
decode-encode_who_is (some lo) none hl hh = decode-service 0x08 [] ∙ decode_who_is-nil
decode-encode_who_is none high hl hh = decode-service 0x08 [] ∙ decode_who_is-nil

-- An I-Am request is decoded to the low 22 bits of its device's instance; whatever its other fields
-- are, they are decoded to 1476 bytes, no segmentation and vendor 999.
pub decode-encode_i_am :
    (i : IAmRequest)
    → decode (encode (i_am i))
      ≡ ok (
          i_am (record {
            device_instance = low_bits i.device_instance 22;
            max_apdu_length_accepted = 1476;
            segmentation_supported = no_segmentation;
            vendor_id = 999;
          }))
unfolding encode decode_service decode_i_am device_instance_of encode_application_object_id
    type_code
decode-encode_i_am i =
    let oid : ObjectId = record { object_type = ObjectType.device; instance = i.device_instance } in
    let raw = be32-be32_bytes (object_id_raw oid) (object_id_raw-IsU32 oid) in
    let low : low_bits (object_id_raw oid) 22 ≡ low_bits i.device_instance 22 = omega arith in
    decode-service 0x00 _ ∙ rw (raw, low) refl
