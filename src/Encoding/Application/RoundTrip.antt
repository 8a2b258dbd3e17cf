-- ===== src/Encoding/Application/RoundTrip.antt =====
-- Reading back what `encode_property_value` wrote, wherever it stands in a buffer.
use bacnet_sim.Prelude.{
  ℕ, ◌+◌, ◌≡◌, refl, ◌∙◌, Bool, true, List, ◌++◌, length, drop-append, get_at, ok,
}
use bacnet_sim.Types.Value.{
  PropertyValue, null, boolean, unsigned, integer, real, double, octet_string, character_string,
  bit_string, enumerated, date, time, object_id, array, list, any,
}
use bacnet_sim.Encoding.Application.{encode_property_value, decode_tagged, decode_application_value}
use bacnet_sim.Encoding.Application.Fields.{
  IsPortable, Decodes, decode_application_value_step, null-Decodes, unsigned-Decodes,
  integer-Decodes, real-Decodes, double-Decodes, octet_string-Decodes, character_string-Decodes,
  bit_string-Decodes, enumerated-Decodes, date-Decodes, time-Decodes, object_id-Decodes,
}

module _ (lossy : List ℕ → List ℕ) (buf : List ℕ) (pos : ℕ) where
  -- The position is that of an encoded value: the decoder returns the value and stands behind it.
  pub decode-encode_at :
      (v : PropertyValue) (rest : List ℕ) → IsPortable lossy v → Decodes lossy buf pos v rest
  decode-encode_at null rest hv = null-Decodes lossy buf pos rest
  decode-encode_at (unsigned v) rest hv = unsigned-Decodes lossy buf pos v rest hv
  decode-encode_at (integer v) rest hv = integer-Decodes lossy buf pos v rest hv
  decode-encode_at (real v) rest hv = real-Decodes lossy buf pos v rest hv
  decode-encode_at (double v) rest hv = double-Decodes lossy buf pos v rest hv
  decode-encode_at (octet_string bytes) rest hv = octet_string-Decodes lossy buf pos bytes rest hv
  decode-encode_at (character_string s) rest hv = character_string-Decodes lossy buf pos s rest hv
  decode-encode_at (bit_string bits) rest hv = bit_string-Decodes lossy buf pos bits rest hv
  decode-encode_at (enumerated v) rest hv = enumerated-Decodes lossy buf pos v rest hv
  decode-encode_at (date d) rest hv = date-Decodes lossy buf pos d rest hv
  decode-encode_at (time t) rest hv = time-Decodes lossy buf pos t rest
  decode-encode_at (object_id oid) rest hv = object_id-Decodes lossy buf pos oid rest hv
  decode-encode_at (boolean b) rest hv = absurd hv
  decode-encode_at (array items) rest hv = absurd hv
  decode-encode_at (list items) rest hv = absurd hv
  decode-encode_at (any raw) rest hv = absurd hv

-- A value that one application tag carries without loss, encoded anywhere in a buffer, is decoded
-- to itself, and the position moves to the end of its encoding.
pub decode-encode_property_value :
    (lossy : List ℕ → List ℕ) (front rest : List ℕ) (v : PropertyValue)
    → IsPortable lossy v
    → decode_application_value lossy (front ++ (encode_property_value v ++ rest)) (length front)
      ≡ ok (v, length front + length (encode_property_value v))
decode-encode_property_value lossy front rest v hv =
    decode-encode_at lossy _ (length front) v rest hv (drop-append front _)

-- Both booleans are written as the tag of `true` with one more byte, and read as `true` with that
-- byte left over.
pub boolean_lost :
    (lossy : List ℕ → List ℕ) (front rest : List ℕ) (b : Bool)
    → (decode_application_value lossy
          (front ++ (encode_property_value (boolean b) ++ rest))
          (length front)
        ≡ ok (boolean true, length front + 1))
      × (length (encode_property_value (boolean b)) ≡ 2)
unfolding encode_property_value
boolean_lost lossy front rest b =
    let buf = front ++ (encode_property_value (boolean b) ++ rest) in
    (
      decode_application_value_step lossy buf (length front) 0x11 1 1
            (get_at buf (length front) (drop-append front _)) refl refl refl
          ∙ (unfold decode_tagged in refl),
      refl,
    )
