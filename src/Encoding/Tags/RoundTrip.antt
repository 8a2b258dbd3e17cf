-- ===== src/Encoding/Tags/RoundTrip.antt =====
-- Reading back what the context-tag encoders wrote, wherever it stands in a buffer.
use bacnet_sim.Prelude.{
  ℕ, ◌+◌, ◌-◌, ◌/◌, ◌%◌, ◌^◌, ◌≤◌, ◌<◌, ◌≡◌, refl, ap, ◌∙◌, true, some, List, ◌∷◌, ◌++◌, arith,
  length, get_elem?, take, drop, take-append, drop-append, length_at_append, drop_at_suc, get_at,
  get_at_add, length_at, le→ltb, le→leb, ok, shr, low_bits, as_u16, ==_iff, be32, IsU32,
}
use mathlib.Core.List.{foldl}
use mathlib.Core.Option.{get_or}
use bacnet_sim.Types.ObjectType.{ObjectType, from_u16, as_u16 as type_code}
use bacnet_sim.Types.ObjectType.Codes.{as_u16-le}
use bacnet_sim.Types.Value.{ObjectId}
use bacnet_sim.Encoding.Tags.{
  tag_number, is_context, lvt_of, decode_lvt_len, read_uint, shift_in, decode_ctx_u32, be32_at,
  object_id_of_raw, decode_ctx_object_id, object_id_raw, uint_bytes, encode_ctx_u32,
  encode_ctx_object_id, context_tag,
}

module _ (buf : List ℕ) (pos : ℕ) where
  pub read_uint_at :
      (xs rest : List ℕ)
      → 1 ≤ length xs
      → drop pos buf ≡ xs ++ rest
      → read_uint buf pos (length xs) ≡ ok (foldl shift_in 0 xs, pos + length xs)
  unfolding read_uint
  read_uint_at xs rest p h = rw (
    le→ltb _ _ (length_at_append buf pos xs rest p h),
    le→leb pos (pos + length xs) (omega arith),
    le→leb _ _ (length_at_append buf pos xs rest p h),
    h,
    cancel,
    take-append xs rest,
  )
    where
      cancel : pos + length xs - pos ≡ length xs
      cancel = omega arith

  pub be32_at_lem :
      (a b c d : ℕ) (rest : List ℕ)
      → drop pos buf ≡ a ∷ b ∷ c ∷ d ∷ rest
      → be32_at buf pos ≡ ok (be32 a b c d)
  unfolding be32_at
  be32_at_lem a b c d rest h =
      rw (get_at buf pos h, get_at_add buf pos 1 h, get_at_add buf pos 2 h, get_at_add buf pos 3 h)

  pub decode_lvt_len_small : (lvt : ℕ) → lvt < 5 → decode_lvt_len buf pos lvt ≡ ok (lvt, pos)
  unfolding decode_lvt_len
  decode_lvt_len_small lvt h = ground arith

  pub decode_ctx_u32_step :
      (tag b len : ℕ)
      → get_elem? buf pos ≡ some b
      → is_context b ≡ true
      → tag_number b ≡ tag
      → lvt_of b ≡ len
      → len < 5
      → decode_ctx_u32 buf pos tag ≡ read_uint buf (pos + 1) len
  unfolding decode_ctx_u32 decode_lvt_len
  decode_ctx_u32_step tag b len g c t l h = ground arith

-- The tag byte that the encoders write, taken apart.
pub context_tag_parts :
    (tag lvt : ℕ)
    → tag < 16
    → lvt < 8
    → (is_context (context_tag tag lvt) ≡ true)
      × (tag_number (context_tag tag lvt) ≡ tag)
      × (lvt_of (context_tag tag lvt) ≡ lvt)
context_tag_parts tag lvt ht hl = ground arith

-- The four bytes of a u32 give it back.
pub be32-be32_bytes :
    (x : ℕ)
    → IsU32 x
    → be32 (x / 2 ^ 16 / 256 % 256) (x / 2 ^ 16 % 256) (x % 2 ^ 16 / 256 % 256) (x % 2 ^ 16 % 256)
      ≡ x
be32-be32_bytes x h = omega arith

pub object_id_raw-IsU32 : (oid : ObjectId) → IsU32 (object_id_raw oid)
object_id_raw-IsU32 oid = omega (arith, as_u16-le oid.object_type)

-- The bytes of a number that are written.
abbrev pub value_bytes : ℕ → List ℕ
value_bytes v = let (n, bytes) = uint_bytes v in take n bytes

pub length-value_bytes :
    (v : ℕ)
    → ((uint_bytes v).0 ≡ length (value_bytes v))
      × (1 ≤ length (value_bytes v))
      × (length (value_bytes v) ≤ 4)
unfolding uint_bytes
length-value_bytes v = ground arith

-- Shifting the written bytes in gives the number back.
pub foldl-value_bytes : (v : ℕ) → IsU32 v → foldl shift_in 0 (value_bytes v) ≡ v
unfolding uint_bytes
foldl-value_bytes v h = ground arith

module _ (buf : List ℕ) (pos : ℕ) where
  pub read_value_bytes :
      (v : ℕ) (rest : List ℕ)
      → IsU32 v
      → drop pos buf ≡ value_bytes v ++ rest
      → read_uint buf pos (length (value_bytes v)) ≡ ok (v, pos + length (value_bytes v))
  read_value_bytes v rest hv h =
      rw (
        read_uint_at buf pos (value_bytes v) rest (length-value_bytes v).1 h,
        foldl-value_bytes v hv,
      )

module _ (buf : List ℕ) (pos : ℕ) where
  pub decode_ctx_u32_at :
      (tag v : ℕ) (rest : List ℕ)
      → tag < 16
      → IsU32 v
      → drop pos buf ≡ encode_ctx_u32 tag v ++ rest
      → decode_ctx_u32 buf pos tag ≡ ok (v, pos + length (encode_ctx_u32 tag v))
  unfolding encode_ctx_u32
  decode_ctx_u32_at tag v rest ht hv h =
      let (n, lo, hi) = length-value_bytes v in
      let (c, t, l) = context_tag_parts tag (uint_bytes v).0 ht (omega arith) in
      decode_ctx_u32_step buf pos tag _ (length (value_bytes v)) (get_at buf pos h) c t (l ∙ n)
        (omega arith)
      ∙ rw (read_value_bytes buf (pos + 1) v rest hv (drop_at_suc buf pos h))
          (ap (λ (n : ℕ). ok (v, n)) (omega arith))

  pub decode_ctx_object_id_at :
      (tag : ℕ) (oid : ObjectId) (rest : List ℕ)
      → tag < 16
      → drop pos buf ≡ encode_ctx_object_id tag oid ++ rest
      → decode_ctx_object_id buf pos tag ≡ ok (object_id_of_raw (object_id_raw oid), pos + 5)
  unfolding encode_ctx_object_id decode_ctx_object_id
  decode_ctx_object_id_at tag oid rest ht h =
      let (c, t, l) = context_tag_parts tag 4 ht (omega arith) in
      rw
        (
          get_at buf pos h,
          c,
          t,
          (==_iff tag tag).1 refl,
          l,
          decode_lvt_len_small buf (pos + 1) 4 (omega arith),
          le→ltb (length buf) (pos + 1 + 4) (omega (arith, length_at buf pos h)),
          be32_at_lem buf (pos + 1) _ _ _ _ rest (drop_at_suc buf pos h),
          be32-be32_bytes (object_id_raw oid) (object_id_raw-IsU32 oid),
        )
        (ap (λ (n : ℕ). ok (object_id_of_raw (object_id_raw oid), n)) (omega arith))

-- What the reader makes of a written identifier: the instance keeps its low 22 bits, and a type
-- whose code is not recognised becomes a device.
pub object_id_of_raw-raw :
    (oid : ObjectId)
    → object_id_of_raw (object_id_raw oid) ≡ record {
      object_type = get_or (from_u16 (type_code oid.object_type)) ObjectType.device;
      instance = low_bits oid.instance 22;
    }
unfolding object_id_of_raw
object_id_of_raw-raw oid = rw (code, low)
  where
    code : as_u16 (shr (object_id_raw oid) 22) ≡ type_code oid.object_type
    code = omega (arith, as_u16-le oid.object_type)

    low : low_bits (object_id_raw oid) 22 ≡ low_bits oid.instance 22
    low = omega arith

-- A context-tagged number, encoded anywhere in a buffer under a tag below 16, is decoded to itself,
-- and the position moves to the end of its encoding.
pub decode-encode_ctx_u32 :
    (front rest : List ℕ) (tag v : ℕ)
    → tag < 16
    → IsU32 v
    → decode_ctx_u32 (front ++ (encode_ctx_u32 tag v ++ rest)) (length front) tag
      ≡ ok (v, length front + length (encode_ctx_u32 tag v))
decode-encode_ctx_u32 front rest tag v ht hv =
    decode_ctx_u32_at _ (length front) tag v rest ht hv (drop-append front _)

-- A context-tagged object identifier, encoded anywhere in a buffer under a tag below 16, is decoded
-- to the low 22 bits of its instance with its type, or with the type device if its type's code is
-- not among those that `from_u16` recognises.
pub decode-encode_ctx_object_id :
    (front rest : List ℕ) (tag : ℕ) (oid : ObjectId)
    → tag < 16
    → decode_ctx_object_id (front ++ (encode_ctx_object_id tag oid ++ rest)) (length front) tag
      ≡ ok (
        record {
          object_type = get_or (from_u16 (type_code oid.object_type)) ObjectType.device;
          instance = low_bits oid.instance 22;
        },
        length front + 5,
      )
decode-encode_ctx_object_id front rest tag oid ht =
    decode_ctx_object_id_at _ (length front) tag oid rest ht (drop-append front _)
    ∙ ap (λ (o : ObjectId). ok (o, length front + 5)) (object_id_of_raw-raw oid)
