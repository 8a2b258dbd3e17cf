-- ===== src/Codec/Confirmed/RoundTrip.antt =====
-- The request bodies in the layout that confirmed.rs documents, and what its decoders read in them.
use bacnet_sim.Prelude.{
  ℕ, ◌+◌, ◌-◌, ◌≤◌, ◌<◌, ◌≡◌, inl, refl, sym, ◌∙◌, true, Option, none, List, [], ◌∷◌, ◌++◌, arith,
  ==_iff, lt→ltb, le→ltb, le→leb, length, drop, get_at, drop_at_suc, drop_at_append, length_at, ok,
  panic, append_nil,
}
use mathlib.Core.List.{append_assoc}
use bacnet_sim.Types.PropertyId.{PropertyIdentifier, to_u32}
use bacnet_sim.Types.Value.{ObjectId}
use bacnet_sim.Encoding.Tags.{
  decode_lvt_len, is_opening, is_closing, encode_ctx_u32, encode_ctx_object_id, encode_opening_tag,
  encode_closing_tag,
}
use bacnet_sim.Encoding.Tags.RoundTrip.{context_tag_parts}
use bacnet_sim.Encoding.Application.{
  encode_property_value, decode_application_value, decode_tagged, decode_bits,
}
use bacnet_sim.Encoding.BitStrings.{bits_of_data}
use bacnet_sim.Encoding.Application.Fields.{IsPortable, decode_application_value_step}
use bacnet_sim.Encoding.Application.RoundTrip.{decode-encode_at}
use bacnet_sim.Codec.Optional.{encode_optional, FitsU32, decode_optional_at}
use bacnet_sim.Codec.Identifiers.{
  IsExactId, IsExactProperty, decode_object_id_exact_at, decode_property_id_exact_at,
}
use bacnet_sim.Codec.Ack.{ReadPropertyAck, encode_read_property_ack}
use bacnet_sim.Codec.Confirmed.{
  ReadPropertyRequest, decode_read_property, decode_write_property, priority_of,
}

-- A ReadProperty body as the decoder's comment lays it out.
abbrev pub read_property_body : ReadPropertyRequest → List ℕ
read_property_body r =
    encode_ctx_object_id 0 r.object_id
    ++ (encode_ctx_u32 1 (to_u32 r.property_id) ++ encode_optional 2 r.array_index)

-- The body of a ReadProperty request with identifiers that the wire carries without loss, with an
-- array index or without one, is decoded to the request.
pub decode_read_property-body :
    (r : ReadPropertyRequest)
    → IsExactId r.object_id
    → IsExactProperty r.property_id
    → FitsU32 r.array_index
    → decode_read_property (read_property_body r) ≡ ok r
unfolding decode_read_property
decode_read_property-body r exact named fits =
    let buf = read_property_body r in
    let at_property = drop_at_append buf 0 (encode_ctx_object_id 0 r.object_id) _ refl in
    let p1 = 0 + length (encode_ctx_object_id 0 r.object_id) in
    let at_index = drop_at_append buf p1 (encode_ctx_u32 1 (to_u32 r.property_id)) _ at_property in
    let p2 = p1 + length (encode_ctx_u32 1 (to_u32 r.property_id)) in
    rw
      (
        decode_object_id_exact_at buf 0 0 r.object_id _ (omega arith) exact refl,
        decode_property_id_exact_at buf p1 1 r.property_id _ (omega arith) named at_property,
        decode_optional_at buf p2 2 r.array_index [] (omega arith) fits tt
            (at_index ∙ sym (append_nil _)),
      )
      refl

module _ (buf : List ℕ) (pos tag : ℕ) where
  pub is_opening_at :
      (rest : List ℕ)
      → tag < 16
      → drop pos buf ≡ encode_opening_tag tag ++ rest
      → is_opening buf pos tag ≡ true
  unfolding is_opening encode_opening_tag
  is_opening_at rest ht h =
      let (c, t, l) = context_tag_parts tag 6 ht (omega arith) in
      rw (get_at buf pos h, c, t, l, (==_iff tag tag).1 refl) refl

  pub is_closing_at :
      (rest : List ℕ)
      → tag < 16
      → drop pos buf ≡ encode_closing_tag tag ++ rest
      → is_closing buf pos tag ≡ true
  unfolding is_closing encode_closing_tag
  is_closing_at rest ht h =
      let (c, t, l) = context_tag_parts tag 7 ht (omega arith) in
      rw (get_at buf pos h, c, t, l, (==_iff tag tag).1 refl) refl

-- A WriteProperty body is what a ReadProperty acknowledgement carries, with a priority behind it.
abbrev pub write_property_body : ReadPropertyAck → Option ℕ → List ℕ
write_property_body ack priority = encode_read_property_ack ack ++ encode_optional 4 priority

-- The same bytes, bracketed the way they are read.
abbrev body_parts : ReadPropertyAck → List ℕ → List ℕ
body_parts ack rest =
    encode_ctx_object_id 0 ack.object_id
    ++ (encode_ctx_u32 1 (to_u32 ack.property_id)
        ++ (encode_optional 2 ack.array_index
            ++ (encode_opening_tag 3
                ++ (encode_property_value ack.value ++ (encode_closing_tag 3 ++ rest)))))

body_parts-append :
    (ack : ReadPropertyAck) (rest : List ℕ)
    → encode_read_property_ack ack ++ rest ≡ body_parts ack rest
unfolding encode_read_property_ack
body_parts-append ack rest = simp (append_assoc)

module _ (lossy : List ℕ → List ℕ) where
  -- What was answered to a ReadProperty request, with a priority behind it or without one, is read
  -- as the WriteProperty request for the same object, property, index and value; of the priority
  -- only the low eight bits are kept.
  pub decode_write_property-ack :
      (ack : ReadPropertyAck) (priority : Option ℕ)
      → IsExactId ack.object_id
      → IsExactProperty ack.property_id
      → FitsU32 ack.array_index
      → IsPortable lossy ack.value
      → FitsU32 priority
      → decode_write_property lossy (write_property_body ack priority)
        ≡ ok (record {
          object_id = ack.object_id;
          property_id = ack.property_id;
          array_index = ack.array_index;
          value = ack.value;
          priority = priority_of priority;
        })
  unfolding decode_write_property encode_opening_tag encode_closing_tag
  decode_write_property-ack ack priority exact named fits portable small =
      rw (body_parts-append ack (encode_optional 4 priority)) (
        let buf = body_parts ack (encode_optional 4 priority) in
        let p1 = 0 + length (encode_ctx_object_id 0 ack.object_id) in
        let p2 = p1 + length (encode_ctx_u32 1 (to_u32 ack.property_id)) in
        let p3 = p2 + length (encode_optional 2 ack.array_index) in
        let p4 = p3 + 1 + length (encode_property_value ack.value) in
        let at1 = drop_at_append buf 0 (encode_ctx_object_id 0 ack.object_id) _ refl in
        let at2 = drop_at_append buf p1 (encode_ctx_u32 1 (to_u32 ack.property_id)) _ at1 in
        let at3 = drop_at_append buf p2 (encode_optional 2 ack.array_index) _ at2 in
        let at_value = drop_at_suc buf p3 at3 in
        let at4 = drop_at_append buf (p3 + 1) (encode_property_value ack.value) _ at_value in
        rw
          (
            decode_object_id_exact_at buf 0 0 ack.object_id _ (omega arith) exact refl,
            decode_property_id_exact_at buf p1 1 ack.property_id _ (omega arith) named at1,
            decode_optional_at buf p2 2 ack.array_index _ (omega arith) fits (inl λ same. cc) at2,
            is_opening_at buf p3 3 _ (omega arith) at3,
            decode-encode_at lossy buf (p3 + 1) ack.value _ portable at_value,
            is_closing_at buf p4 3 _ (omega arith) at4,
            decode_optional_at buf (p4 + 1) 4 priority [] (omega arith) small tt
                (drop_at_suc buf p4 at4 ∙ sym (append_nil _)),
          )
          refl)

-- A bit string of one byte, the count of unused bits.
empty_bits-panic :
    (lossy : List ℕ → List ℕ) (buf : List ℕ) (pos unused : ℕ) (rest : List ℕ)
    → 1 ≤ unused
    → drop pos buf ≡ 0x81 ∷ unused ∷ rest
    → decode_application_value lossy buf pos ≡ panic
unfolding decode_tagged decode_bits decode_lvt_len bits_of_data
empty_bits-panic lossy buf pos unused rest some_unused h =
    let behind = drop_at_suc buf pos h in
    decode_application_value_step lossy buf pos 0x81 8 1 (get_at buf pos h) refl refl refl
    ∙ rw
        (
          le→ltb (length buf) (pos + 1 + 1) (omega (arith, length_at buf (pos + 1) behind)),
          get_at buf (pos + 1) behind,
          le→leb (pos + 1 + 1) (length buf) (omega (arith, length_at buf (pos + 1) behind)),
          le→leb (pos + 1 + 1) (pos + 1 + 1) (omega arith),
          zero_bytes,
          lt→ltb 0 unused (omega arith),
        )
        refl
  where
    zero_bytes : (pos + 1 + 1) - (pos + 1 + 1) ≡ 0
    zero_bytes = omega arith

-- A WriteProperty body whose value is a bit string of no bits that claims unused ones.
abbrev pub empty_bits_body : ObjectId → PropertyIdentifier → ℕ → List ℕ → List ℕ
empty_bits_body o p unused rest =
    encode_ctx_object_id 0 o ++ (encode_ctx_u32 1 (to_u32 p) ++ (0x3E ∷ 0x81 ∷ unused ∷ rest))

module _ (lossy : List ℕ → List ℕ) where
  -- A WriteProperty request whose value is a bit string without data bytes that claims one unused
  -- bit or more makes the decoder panic, whatever follows.
  pub decode_write_property-panic :
      (o : ObjectId) (p : PropertyIdentifier) (unused : ℕ) (rest : List ℕ)
      → IsExactId o
      → IsExactProperty p
      → 1 ≤ unused
      → decode_write_property lossy (empty_bits_body o p unused rest) ≡ panic
  unfolding decode_write_property encode_optional encode_opening_tag
  decode_write_property-panic o p unused rest exact named some_unused =
      let buf = empty_bits_body o p unused rest in
      let p1 = 0 + length (encode_ctx_object_id 0 o) in
      let p2 = p1 + length (encode_ctx_u32 1 (to_u32 p)) in
      let at1 = drop_at_append buf 0 (encode_ctx_object_id 0 o) _ refl in
      let at2 = drop_at_append buf p1 (encode_ctx_u32 1 (to_u32 p)) _ at1 in
      let here : p2 + 0 ≡ p2 = omega arith in
      rw
        (
          decode_object_id_exact_at buf 0 0 o _ (omega arith) exact refl,
          decode_property_id_exact_at buf p1 1 p _ (omega arith) named at1,
          decode_optional_at buf p2 2 none _ (omega arith) tt (inl λ same. cc) at2,
          here,
          is_opening_at buf p2 3 _ (omega arith) at2,
          empty_bits-panic lossy buf (p2 + 1) unused rest some_unused (drop_at_suc buf p2 at2),
        )
        refl
