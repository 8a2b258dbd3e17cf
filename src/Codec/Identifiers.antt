-- ===== src/Codec/Identifiers.antt =====
-- crates/bacnet-codec/src/apdu: the object and property identifiers in the requests and answers,
-- read where their encoding stands.
use bacnet_sim.Prelude.{
  ℕ, ◌+◌, ◌^◌, ◌<◌, ◌≡◌, refl, ap, ◌∙◌, some, List, ◌++◌, arith, length, drop, ok, low_bits, IsU32,
}
use bacnet_sim.Types.ObjectType.{from_u16, as_u16 as type_code}
use bacnet_sim.Types.PropertyId.{PropertyIdentifier, to_u32}
use bacnet_sim.Types.PropertyId.Numbers.{IsCanonical, from_u32-to_u32}
use bacnet_sim.Types.Value.{ObjectId}
use bacnet_sim.Encoding.Tags.{
  encode_ctx_u32, decode_ctx_object_id, encode_ctx_object_id, decode_ctx_property_id,
  object_id_of_raw, object_id_raw,
}
use bacnet_sim.Encoding.Tags.RoundTrip.{
  decode_ctx_u32_at, decode_ctx_object_id_at, object_id_of_raw-raw,
}

-- An identifier that the wire carries without loss: its type's code is known to the decoder, and
-- its instance fits 22 bits.
abbrev pub IsExactId : ObjectId → Type 0
IsExactId oid =
    (from_u16 (type_code oid.object_type) ≡ some oid.object_type) × (oid.instance < 2 ^ 22)

-- A property identifier with the number that reads back as itself.
abbrev pub IsExactProperty : PropertyIdentifier → Type 0
IsExactProperty p = IsCanonical p × IsU32 (to_u32 p)

pub raw-IsExactId : (oid : ObjectId) → IsExactId oid → object_id_of_raw (object_id_raw oid) ≡ oid
raw-IsExactId oid (known, fits) =
    let low : low_bits oid.instance 22 ≡ oid.instance = omega arith in
    object_id_of_raw-raw oid ∙ rw (known, low) refl

module _ (buf : List ℕ) (pos tag : ℕ) where
  pub decode_object_id_exact_at :
      (oid : ObjectId) (rest : List ℕ)
      → tag < 16
      → IsExactId oid
      → drop pos buf ≡ encode_ctx_object_id tag oid ++ rest
      → decode_ctx_object_id buf pos tag ≡ ok (oid, pos + length (encode_ctx_object_id tag oid))
  unfolding encode_ctx_object_id
  decode_object_id_exact_at oid rest ht exact h =
      decode_ctx_object_id_at buf pos tag oid rest ht h
      ∙ ap (λ (o : ObjectId). ok (o, pos + 5)) (raw-IsExactId oid exact)

  pub decode_property_id_exact_at :
      (p : PropertyIdentifier) (rest : List ℕ)
      → tag < 16
      → IsExactProperty p
      → drop pos buf ≡ encode_ctx_u32 tag (to_u32 p) ++ rest
      → decode_ctx_property_id buf pos tag ≡ ok (p, pos + length (encode_ctx_u32 tag (to_u32 p)))
  unfolding decode_ctx_property_id
  decode_property_id_exact_at p rest ht (canonical, fits) h =
      rw (decode_ctx_u32_at buf pos tag (to_u32 p) rest ht fits h, from_u32-to_u32 p canonical) refl
