-- ===== src/Encoding/Tags.antt =====
-- crates/bacnet-types/src/encoding/tags.rs: context tags, and the reader's primitives.
-- A decoder takes the buffer and the position, and returns the value with the new position. An
-- encoder is the list of the bytes that it appends.
pub mod RoundTrip
pub mod Safety
use bacnet_sim.Prelude.{
  ℕ, ◌+◌, ◌*◌, ◌^◌, Bool, false, not, ◌&&◌, ◌||◌, Option, none, some, List, [], ◌∷◌, ltb, ◌==◌,
  if◌then◌else◌, length, get_elem?, take, Outcome, ok, err, ◌>>=◌, ◌>>◌, fail_if, ok_or, index,
  slice, shr, low_bits, has_bit, as_u8, as_u16, as_u32, be32, be32_bytes,
}
use mathlib.Core.List.{foldl}
use mathlib.Core.Option.{get_or}
use bacnet_sim.Types.Error.{BacnetError, decode_error}
use bacnet_sim.Types.ObjectType.{ObjectType, as_u16 as type_code, from_u16}
use bacnet_sim.Types.PropertyId.{PropertyIdentifier, from_u32}
use bacnet_sim.Types.Value.{ObjectId}

-- What a reader at a position does.
abbrev pub Read : Type 0 → Type 0
Read A = Outcome BacnetError (A × ℕ)

abbrev pub peek : List ℕ → ℕ → Option ℕ
peek buf pos = get_elem? buf pos

unfoldable pub decode_lvt_len : List ℕ → ℕ → ℕ → Read ℕ
decode_lvt_len buf pos lvt =
    if ltb lvt 5
    then ok (lvt, pos)
    else if lvt == 5
    then (do l ← ok_or (get_elem? buf pos) decode_error; ok (l, pos + 1))
    else err decode_error

-- `v = (v << 8) | b` on a u32
abbrev pub shift_in : ℕ → ℕ → ℕ
shift_in v b = as_u32 (v * 256) + b

unfoldable pub read_uint : List ℕ → ℕ → ℕ → Read ℕ
read_uint buf pos len =
    if ltb (length buf) (pos + len)
    then err decode_error
    else do bytes ← slice buf pos (pos + len); ok (foldl shift_in 0 bytes, pos + len)

abbrev pub tag_number : ℕ → ℕ
tag_number b = low_bits (shr b 4) 4

abbrev pub is_context : ℕ → Bool
is_context b = has_bit b 3

abbrev pub lvt_of : ℕ → ℕ
lvt_of b = low_bits b 3

abbrev pub holds : Option ℕ → (ℕ → Bool) → Bool
holds none p = false
holds (some b) p = p b

unfoldable pub is_opening : List ℕ → ℕ → ℕ → Bool
is_opening buf pos number =
    holds (peek buf pos) (λ b. is_context b && (tag_number b == number && lvt_of b == 6))

unfoldable pub is_closing : List ℕ → ℕ → ℕ → Bool
is_closing buf pos number =
    holds (peek buf pos) (λ b. is_context b && (tag_number b == number && lvt_of b == 7))

unfoldable pub has_context_tag : List ℕ → ℕ → ℕ → Bool
has_context_tag buf pos number =
    holds (peek buf pos) (λ b. is_context b && (tag_number b == number && ltb (lvt_of b) 6))

unfoldable pub decode_ctx_u32 : List ℕ → ℕ → ℕ → Read ℕ
decode_ctx_u32 buf pos expected = do
  b ← ok_or (peek buf pos) decode_error
  fail_if (not (is_context b) || not (tag_number b == expected)) decode_error
  (len, at_value) ← decode_lvt_len buf (pos + 1) (lvt_of b)
  read_uint buf at_value len

unfoldable pub decode_ctx_bool : List ℕ → ℕ → ℕ → Read Bool
decode_ctx_bool buf pos expected = do
  (v, next) ← decode_ctx_u32 buf pos expected
  ok (not (v == 0), next)

-- `u32::from_be_bytes([buf[pos], buf[pos + 1], buf[pos + 2], buf[pos + 3]])`
unfoldable pub be32_at : List ℕ → ℕ → Outcome BacnetError ℕ
be32_at buf pos = do
  a ← index buf pos
  b ← index buf (pos + 1)
  c ← index buf (pos + 2)
  d ← index buf (pos + 3)
  ok (be32 a b c d)

-- A type code that the program does not know is read as a device.
unfoldable pub object_id_of_raw : ℕ → ObjectId
object_id_of_raw raw = record {
  object_type = get_or (from_u16 (as_u16 (shr raw 22))) ObjectType.device;
  instance = low_bits raw 22;
}

unfoldable pub decode_ctx_object_id : List ℕ → ℕ → ℕ → Read ObjectId
decode_ctx_object_id buf pos expected = do
  b ← ok_or (peek buf pos) decode_error
  fail_if (not (is_context b) || not (tag_number b == expected)) decode_error
  (len, at_value) ← decode_lvt_len buf (pos + 1) (lvt_of b)
  fail_if (not (len == 4)) decode_error
  fail_if (ltb (length buf) (at_value + 4)) decode_error
  raw ← be32_at buf at_value
  ok (object_id_of_raw raw, at_value + 4)

unfoldable pub decode_ctx_property_id : List ℕ → ℕ → ℕ → Read PropertyIdentifier
decode_ctx_property_id buf pos expected = do
  (v, next) ← decode_ctx_u32 buf pos expected
  ok (from_u32 v, next)

-- `(type_code << 22) | (instance & 0x3F_FFFF)`
abbrev pub object_id_raw : ObjectId → ℕ
object_id_raw oid = type_code oid.object_type * 2 ^ 22 + low_bits oid.instance 22

-- `(tag_num << 4) | 0x08 | lvt` on a u8, for an lvt below 8
abbrev pub context_tag : ℕ → ℕ → ℕ
context_tag tag_num lvt = as_u8 (tag_num * 16) + (8 + lvt)

unfoldable pub encode_ctx_object_id : ℕ → ObjectId → List ℕ
encode_ctx_object_id tag_num oid = context_tag tag_num 4 ∷ be32_bytes (object_id_raw oid) []

-- The number of bytes, and four bytes of which so many count.
unfoldable pub uint_bytes : ℕ → ℕ × List ℕ
uint_bytes value =
    if ltb value 0x100
    then (1, as_u8 value ∷ 0 ∷ 0 ∷ 0 ∷ [])
    else if ltb value 0x10000
    then (2, as_u8 (shr value 8) ∷ as_u8 value ∷ 0 ∷ 0 ∷ [])
    else if ltb value 0x1000000
    then (3, as_u8 (shr value 16) ∷ as_u8 (shr value 8) ∷ as_u8 value ∷ 0 ∷ [])
    else (4, as_u8 (shr value 24) ∷ as_u8 (shr value 16) ∷ as_u8 (shr value 8) ∷ as_u8 value ∷ [])

unfoldable pub encode_ctx_u32 : ℕ → ℕ → List ℕ
encode_ctx_u32 tag_num value =
    let (len, bytes) = uint_bytes value in context_tag tag_num len ∷ take len bytes

unfoldable pub encode_opening_tag : ℕ → List ℕ
encode_opening_tag tag_num = context_tag tag_num 6 ∷ []

unfoldable pub encode_closing_tag : ℕ → List ℕ
encode_closing_tag tag_num = context_tag tag_num 7 ∷ []
