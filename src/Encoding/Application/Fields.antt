-- ===== src/Encoding/Application/Fields.antt =====
-- What `decode_application_value` reads where one encoded value stands, kind by kind.
use mathlib.Core.Path.{ap₂}
use bacnet_sim.Prelude.{
  ℕ, suc, ◌+◌, ◌-◌, ◌/◌, ◌^◌, ◌≤◌, ◌<◌, ◌≡◌, ◌≢◌, refl, ap, ◌∙◌, Bool, true, false, some, List, [],
  ◌∷◌, ◌++◌, arith, ltb, leb, length, get_elem?, drop, length-append, drop_at_suc, get_at,
  length_at, ok, low_bits, as_u8, be32_bytes, IsU32, IsU64, Bool-cases, inl, inr,
}
use bacnet_sim.Types.ObjectType.{from_u16, as_u16 as type_code}
use bacnet_sim.Types.Value.{
  ObjectId, BacnetDate, BacnetTime, Weekday, PropertyValue, null, boolean, unsigned, integer, real,
  double, octet_string, character_string, bit_string, enumerated, date, time, object_id, array,
  list, any,
}
use bacnet_sim.Encoding.Tags
use bacnet_sim.Encoding.Tags.{
  Read, tag_number, is_context, lvt_of, decode_lvt_len, object_id_of_raw, object_id_raw, shift_in,
}
use bacnet_sim.Encoding.Tags.RoundTrip.{
  value_bytes, length-value_bytes, foldl-value_bytes, decode_lvt_len_small, object_id_of_raw-raw,
}
use bacnet_sim.Encoding.BitStrings.{pack_bits}
use bacnet_sim.Encoding.BitStrings.RoundTrip.{length-pack_bits, bits_of_data-pack_bits, unused_of}
use bacnet_sim.Encoding.Asn1.{
  encode_application_unsigned, encode_application_real, encode_application_object_id,
  encode_application_date, encode_application_bitstring,
}
use bacnet_sim.Encoding.Application.{encode_property_value, decode_tagged, decode_application_value}
use bacnet_sim.Encoding.Application.Arms.{
  uint_bytes_agree, decode_lvt_len_byte, decode_uint_at, decode_real_at, decode_integer_at,
  decode_double_at, decode_octets_at, decode_bits_at, decode_date_at, decode_time_at,
  decode_object_id_at, decode_text_at, tag_byte_parts, weekday_or_sunday-weekday_number,
}

module _ (lossy : List ℕ → List ℕ) where
  -- The values that one application tag carries without loss. Of the booleans there is none, and
  -- an array, a list or raw bytes are several values or none.
  abbrev pub IsPortable : PropertyValue → Type 0
  IsPortable null = Unit
  IsPortable (boolean b) = ⊥
  IsPortable (unsigned v) = IsU32 v
  IsPortable (integer v) = IsU32 v
  IsPortable (real v) = IsU32 v
  IsPortable (double v) = IsU64 v
  IsPortable (octet_string bytes) = length bytes < 256
  IsPortable (character_string s) = (length s < 255) × (lossy s ≡ s)
  IsPortable (bit_string bits) = length bits ≤ 2032
  IsPortable (enumerated v) = IsU32 v
  IsPortable (date d) = (1900 ≤ d.year) × (d.year < 2156) × (d.weekday ≢ Weekday.unspecified)
  IsPortable (time t) = Unit
  IsPortable (object_id oid) =
      (from_u16 (type_code oid.object_type) ≡ some oid.object_type) × (oid.instance < 2 ^ 22)
  IsPortable (array items) = ⊥
  IsPortable (list items) = ⊥
  IsPortable (any raw) = ⊥

module _ (lossy : List ℕ → List ℕ) (buf : List ℕ) (pos : ℕ) where
  pub decode_application_value_step :
      (b tag lvt : ℕ)
      → get_elem? buf pos ≡ some b
      → is_context b ≡ false
      → tag_number b ≡ tag
      → lvt_of b ≡ lvt
      → decode_application_value lossy buf pos ≡ decode_tagged lossy tag buf (pos + 1) lvt
  unfolding decode_application_value
  decode_application_value_step b tag lvt g c t l = ground arith

  -- The value at `pos`, with `rest` behind it.
  abbrev pub Decodes : PropertyValue → List ℕ → Type 0
  Decodes v rest =
      drop pos buf ≡ encode_property_value v ++ rest
      → decode_application_value lossy buf pos ≡ ok (v, pos + length (encode_property_value v))

  pub unsigned-Decodes : (v : ℕ) (rest : List ℕ) → IsU32 v → Decodes (unsigned v) rest
  unfolding encode_property_value encode_application_unsigned decode_tagged
  unsigned-Decodes v rest hv =
      let (n, lo, hi) = length-value_bytes v in
      let (c, t, l) = tag_byte_parts 2 (Tags.uint_bytes v).0 (omega arith) (omega arith) in
      rw (uint_bytes_agree v hv) (λ h.
        decode_application_value_step _ 2 _ (get_at buf pos h) c t l
        ∙ rw
            (
              decode_uint_at buf (pos + 1) _ (value_bytes v) rest lo hi n (drop_at_suc buf pos h),
              foldl-value_bytes v hv,
            )
            (ap (λ (k : ℕ). ok (unsigned v, k)) (omega arith)))

  pub real-Decodes : (v : ℕ) (rest : List ℕ) → IsU32 v → Decodes (real v) rest
  unfolding encode_property_value encode_application_real decode_tagged
  real-Decodes v rest hv h =
      decode_application_value_step 0x44 4 4 (get_at buf pos h) refl refl refl
      ∙ rw (decode_real_at buf (pos + 1) v rest hv (drop_at_suc buf pos h))
          (ap (λ (n : ℕ). ok (real v, n)) (omega arith))

  pub integer-Decodes : (v : ℕ) (rest : List ℕ) → IsU32 v → Decodes (integer v) rest
  unfolding encode_property_value decode_tagged
  integer-Decodes v rest hv h =
      decode_application_value_step 0x34 3 4 (get_at buf pos h) refl refl refl
      ∙ rw (decode_integer_at buf (pos + 1) v rest hv (drop_at_suc buf pos h))
          (ap (λ (n : ℕ). ok (integer v, n)) (omega arith))

  pub double-Decodes : (v : ℕ) (rest : List ℕ) → IsU64 v → Decodes (double v) rest
  unfolding encode_property_value decode_tagged
  double-Decodes v rest hv h =
      decode_application_value_step 0x55 5 5 (get_at buf pos h) refl refl refl
      ∙ rw (decode_double_at buf (pos + 1) v rest hv (drop_at_suc buf pos h))
          (ap (λ (n : ℕ). ok (double v, n)) (omega arith))

  pub time-Decodes : (t : BacnetTime) (rest : List ℕ) → Decodes (time t) rest
  unfolding encode_property_value decode_tagged
  time-Decodes t rest h =
      decode_application_value_step 0xB4 11 4 (get_at buf pos h) refl refl refl
      ∙ rw (decode_time_at buf (pos + 1) _ _ _ _ rest (drop_at_suc buf pos h))
          (ap (λ (n : ℕ). ok (time t, n)) (omega arith))

  pub enumerated-Decodes : (v : ℕ) (rest : List ℕ) → IsU32 v → Decodes (enumerated v) rest
  unfolding encode_property_value decode_tagged
  enumerated-Decodes v rest hv = elim (Bool-cases (ltb v 0x100)) [
    | inl small ↦ rw small (λ h.
        decode_application_value_step 0x91 9 1 (get_at buf pos h) refl refl refl
        ∙ rw
            (decode_uint_at buf (pos + 1) 1 (as_u8 v ∷ []) rest (omega arith) (omega arith) refl
              (drop_at_suc buf pos h))
            (ap₂ (λ (x k : ℕ). ok (enumerated x, k)) (ground arith) (omega arith)))
    | inr large ↦ rw large (λ h.
        decode_application_value_step 0x94 9 4 (get_at buf pos h) refl refl refl
        ∙ rw
            (decode_uint_at buf (pos + 1) 4 (be32_bytes v []) rest (omega arith) (omega arith) refl
              (drop_at_suc buf pos h))
            (ap₂ (λ (x k : ℕ). ok (enumerated x, k)) (omega arith) (omega arith)))
  ]

  pub octet_string-Decodes :
      (bytes rest : List ℕ) → length bytes < 256 → Decodes (octet_string bytes) rest
  unfolding encode_property_value decode_tagged
  octet_string-Decodes bytes rest hv = elim (Bool-cases (leb (length bytes) 4)) [
    | inl small ↦ rw small (λ h.
        decode_application_value_step (0x60 + length bytes) 6 (length bytes) (get_at buf pos h)
          (ground arith) (ground arith) (ground arith)
        ∙ rw
            (decode_octets_at buf (pos + 1) (length bytes) (pos + 1) bytes rest
              (decode_lvt_len_small buf (pos + 1) (length bytes) (ground arith))
              (omega (arith, length_at buf pos h, length-append bytes rest))
              (drop_at_suc buf pos h))
            (ap (λ (k : ℕ). ok (octet_string bytes, k)) (omega arith)))
    | inr large ↦ rw large (λ h.
        decode_application_value_step 0x65 6 5 (get_at buf pos h) refl refl refl
        ∙ rw
            (decode_octets_at buf (pos + 1) 5 (pos + 1 + 1) bytes rest
              (decode_lvt_len_byte buf (pos + 1) (length bytes) (length bytes) _ refl hv
                (drop_at_suc buf pos h))
              (omega (arith, length_at buf pos h, length-append bytes rest))
              (drop_at_suc buf (pos + 1) (drop_at_suc buf pos h)))
            (ap (λ (k : ℕ). ok (octet_string bytes, k)) (omega arith)))
  ]

  pub date-Decodes :
      (d : BacnetDate) (rest : List ℕ) → IsPortable lossy (date d) → Decodes (date d) rest
  unfolding encode_property_value encode_application_date decode_tagged
  date-Decodes d rest (lo, hi, w) h =
      decode_application_value_step 0xA4 10 4 (get_at buf pos h) refl refl refl
      ∙ rw
          (
            decode_date_at buf (pos + 1) _ _ _ _ rest (drop_at_suc buf pos h),
            weekday_or_sunday-weekday_number d.weekday w,
            year,
          )
          (ap (λ (n : ℕ). ok (date d, n)) (omega arith))
    where
      year : as_u8 (d.year - 1900) + 1900 ≡ d.year
      year = omega arith

  pub object_id-Decodes :
      (oid : ObjectId) (rest : List ℕ)
      → IsPortable lossy (object_id oid)
      → Decodes (object_id oid) rest
  unfolding encode_property_value encode_application_object_id decode_tagged
  object_id-Decodes oid rest (known, low) h =
      decode_application_value_step 0xC4 12 4 (get_at buf pos h) refl refl refl
      ∙ rw
          (
            decode_object_id_at buf (pos + 1) oid rest (drop_at_suc buf pos h),
            object_id_of_raw-raw oid,
            known,
            whole,
          )
          (ap (λ (n : ℕ). ok (object_id oid, n)) (omega arith))
    where
      whole : low_bits oid.instance 22 ≡ oid.instance
      whole = omega arith

  pub bit_string-Decodes :
      (bits : List Bool) (rest : List ℕ) → length bits ≤ 2032 → Decodes (bit_string bits) rest
  unfolding encode_property_value encode_application_bitstring decode_tagged
  bit_string-Decodes bits rest hv = elim (Bool-cases (leb (1 + (length bits + 7) / 8) 4)) [
    | inl small ↦ rw small (λ h.
        let (c, t, l) =
          tag_byte_parts 8 (as_u8 (1 + (length bits + 7) / 8)) (omega arith) (ground arith) in
        decode_application_value_step _ 8 _ (get_at buf pos h) c t (l ∙ short small)
        ∙ rw
            (decode_bits_at buf (pos + 1) _ (pos + 1) (unused_of (length bits)) bits
              (pack_bits bits 0 0) rest
              (decode_lvt_len_small buf (pos + 1) _ (ground (arith, length-pack_bits bits)))
              (drop_at_suc buf pos h) (bits_of_data-pack_bits bits))
            (ap (λ (k : ℕ). ok (bit_string bits, k)) (omega arith)))
    | inr large ↦ rw large (λ h.
        decode_application_value_step 0x85 8 5 (get_at buf pos h) refl refl refl
        ∙ rw
            (decode_bits_at buf (pos + 1) 5 (pos + 1 + 1) (unused_of (length bits)) bits
              (pack_bits bits 0 0) rest
              (decode_lvt_len_byte buf (pos + 1) (1 + (length bits + 7) / 8)
                (suc (length (pack_bits bits 0 0))) _ (omega (arith, length-pack_bits bits))
                (omega (arith, length-pack_bits bits)) (drop_at_suc buf pos h))
              (drop_at_suc buf (pos + 1) (drop_at_suc buf pos h)) (bits_of_data-pack_bits bits))
            (ap (λ (k : ℕ). ok (bit_string bits, k)) (omega arith)))
  ]
    where
      short :
          leb (1 + (length bits + 7) / 8) 4 ≡ true
          → as_u8 (1 + (length bits + 7) / 8) ≡ suc (length (pack_bits bits 0 0))
      short h = ground (arith, length-pack_bits bits)

  pub character_string-Decodes :
      (s rest : List ℕ) → IsPortable lossy (character_string s) → Decodes (character_string s) rest
  unfolding encode_property_value decode_tagged
  character_string-Decodes s rest (fits, clean) h =
      decode_application_value_step 0x75 7 5 (get_at buf pos h) refl refl refl
      ∙ rw
          (decode_text_at buf (pos + 1) lossy (pos + 1 + 1) s rest
            (decode_lvt_len_byte buf (pos + 1) (length s + 1) (suc (length s)) _ (omega arith)
              (omega arith) (drop_at_suc buf pos h))
            (drop_at_suc buf (pos + 1) (drop_at_suc buf pos h)) clean)
          (ap (λ (n : ℕ). ok (character_string s, n)) (omega arith))

  pub null-Decodes : (rest : List ℕ) → Decodes null rest
  unfolding encode_property_value decode_tagged
  null-Decodes rest h = decode_application_value_step 0 0 0 (get_at buf pos h) refl refl refl
