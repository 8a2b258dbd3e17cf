-- ===== src/Encoding/Application.antt =====
-- crates/bacnet-types/src/encoding/application.rs and `decode_application_value` of tags.rs: one
-- property value in its application tag.
pub mod Arms
pub mod Fields
pub mod RoundTrip
use mathlib.Core.List.{foldl}
use bacnet_sim.Prelude.{
  ℕ, ◌+◌, ◌*◌, ◌^◌, Bool, not, ◌||◌, List, [], ◌∷◌, ◌++◌, ltb, leb, ◌==◌, if◌then◌else◌, length, ok,
  err, ◌>>=◌, ◌>>◌, fail_if, ok_or, index, slice, as_u8, be32_bytes, be64_bytes,
}
use bacnet_sim.Types.Error.{decode_error}
use bacnet_sim.Types.Value.{
  ObjectId, BacnetDate, BacnetTime, Weekday, PropertyValue, PropertyValues, null, boolean, unsigned,
  integer, real, double, octet_string, character_string, bit_string, enumerated, date, time,
  object_id, array, list, any, nil, cons,
}
use bacnet_sim.Encoding.Tags.{
  Read, peek, tag_number, is_context, lvt_of, decode_lvt_len, read_uint, shift_in, be32_at,
  object_id_of_raw,
}
use bacnet_sim.Encoding.BitStrings.{bits_of_data}
use bacnet_sim.Encoding.Asn1.{
  encode_application_unsigned, encode_application_real, encode_application_object_id,
  encode_application_date, encode_application_bitstring,
}

-- The encoder never fails, so it is the list of the bytes that it appends.
unfoldable mutual
  pub encode_property_value : PropertyValue → List ℕ
  encode_property_value null = 0x00 ∷ []
  encode_property_value (boolean v) = 0x11 ∷ (if v then 0x01 else 0x00) ∷ []
  encode_property_value (unsigned v) = encode_application_unsigned v
  encode_property_value (integer v) = 0x34 ∷ be32_bytes v []
  encode_property_value (real v) = encode_application_real v
  encode_property_value (double v) = 0x55 ∷ 0x08 ∷ be64_bytes v []
  encode_property_value (octet_string bytes) =
      if leb (length bytes) 4
      then (0x60 + length bytes) ∷ bytes
      else 0x65 ∷ as_u8 (length bytes) ∷ bytes
  encode_property_value (character_string s) = 0x75 ∷ as_u8 (length s + 1) ∷ 0x00 ∷ s
  encode_property_value (bit_string b) = encode_application_bitstring b
  encode_property_value (enumerated v) =
      if ltb v 0x100 then 0x91 ∷ as_u8 v ∷ [] else 0x94 ∷ be32_bytes v []
  encode_property_value (date d) = encode_application_date d
  encode_property_value (time t) = 0xB4 ∷ t.hour ∷ t.minute ∷ t.second ∷ t.hundredths ∷ []
  encode_property_value (object_id oid) = encode_application_object_id oid
  encode_property_value (array items) = encode_items items
  encode_property_value (list items) = encode_items items
  encode_property_value (any raw) = raw

  pub encode_items : PropertyValues → List ℕ
  encode_items nil = []
  encode_items (cons v items) = encode_property_value v ++ encode_items items

-- The weekday of an application-tagged date: what is not 1 to 6 is a Sunday.
unfoldable pub weekday_or_sunday : ℕ → Weekday
weekday_or_sunday n =
    if n == 1
    then Weekday.monday
    else if n == 2
    then Weekday.tuesday
    else if n == 3
    then Weekday.wednesday
    else if n == 4
    then Weekday.thursday
    else if n == 5
    then Weekday.friday
    else if n == 6
    then Weekday.saturday
    else Weekday.sunday

-- The arms of the decoder. Each starts behind the tag byte.
unfoldable pub decode_uint : List ℕ → ℕ → ℕ → Read ℕ
decode_uint buf pos lvt = do
  (len, at_value) ← decode_lvt_len buf pos lvt
  read_uint buf at_value len

-- `v = (v << 8) | byte as i32`, on the 32-bit pattern
unfoldable pub decode_integer : List ℕ → ℕ → ℕ → Read ℕ
decode_integer buf pos lvt = do
  (len, at_value) ← decode_lvt_len buf pos lvt
  fail_if (ltb (length buf) (at_value + len)) decode_error
  bytes ← slice buf at_value (at_value + len)
  ok (foldl shift_in 0 bytes, at_value + len)

unfoldable pub decode_real : List ℕ → ℕ → ℕ → Read ℕ
decode_real buf pos lvt = do
  (_len, at_value) ← decode_lvt_len buf pos lvt
  fail_if (ltb (length buf) (at_value + 4)) decode_error
  v ← be32_at buf at_value
  ok (v, at_value + 4)

unfoldable pub decode_double : List ℕ → ℕ → ℕ → Read ℕ
decode_double buf pos lvt = do
  (_len, at_value) ← decode_lvt_len buf pos lvt
  fail_if (ltb (length buf) (at_value + 8)) decode_error
  hi ← be32_at buf at_value
  lo ← be32_at buf (at_value + 4)
  ok (hi * 2 ^ 32 + lo, at_value + 8)

unfoldable pub decode_octets : List ℕ → ℕ → ℕ → Read (List ℕ)
decode_octets buf pos lvt = do
  (len, at_value) ← decode_lvt_len buf pos lvt
  fail_if (ltb (length buf) (at_value + len)) decode_error
  bytes ← slice buf at_value (at_value + len)
  ok (bytes, at_value + len)

unfoldable pub decode_bits : List ℕ → ℕ → ℕ → Read (List Bool)
decode_bits buf pos lvt = do
  (len, at_value) ← decode_lvt_len buf pos lvt
  fail_if (len == 0 || ltb (length buf) (at_value + len)) decode_error
  unused ← index buf at_value
  bytes ← slice buf (at_value + 1) (at_value + len)
  bits ← bits_of_data bytes unused
  ok (bits, at_value + len)

unfoldable pub decode_date : List ℕ → ℕ → ℕ → Read BacnetDate
decode_date buf pos lvt = do
  (_len, at_value) ← decode_lvt_len buf pos lvt
  fail_if (ltb (length buf) (at_value + 4)) decode_error
  year ← index buf at_value
  month ← index buf (at_value + 1)
  day ← index buf (at_value + 2)
  wd ← index buf (at_value + 3)
  ok (
    record { year = year + 1900; month = month; day = day; weekday = weekday_or_sunday wd },
    at_value + 4,
  )

unfoldable pub decode_time : List ℕ → ℕ → ℕ → Read BacnetTime
decode_time buf pos lvt = do
  (_len, at_value) ← decode_lvt_len buf pos lvt
  fail_if (ltb (length buf) (at_value + 4)) decode_error
  hour ← index buf at_value
  minute ← index buf (at_value + 1)
  second ← index buf (at_value + 2)
  hundredths ← index buf (at_value + 3)
  ok (
    record { hour = hour; minute = minute; second = second; hundredths = hundredths },
    at_value + 4,
  )

unfoldable pub decode_object_id : List ℕ → ℕ → ℕ → Read ObjectId
decode_object_id buf pos lvt = do
  (_len, at_value) ← decode_lvt_len buf pos lvt
  fail_if (ltb (length buf) (at_value + 4)) decode_error
  raw ← be32_at buf at_value
  ok (object_id_of_raw raw, at_value + 4)

abbrev pub map_read : {A B : Type 0} → (A → B) → Read A → Read B
map_read f r = r >>= λ p. ok (f p.0, p.1)

-- `lossy` stands for `String::from_utf8_lossy` on the bytes behind the character set.
module _ (lossy : List ℕ → List ℕ) where
  unfoldable pub decode_text : List ℕ → ℕ → ℕ → Read (List ℕ)
  decode_text buf pos lvt = do
    (len, at_value) ← decode_lvt_len buf pos lvt
    fail_if (len == 0 || ltb (length buf) (at_value + len)) decode_error
    index buf at_value >>= λ (_ : ℕ).
        slice buf (at_value + 1) (at_value + len) >>= λ (s : List ℕ). ok (lossy s, at_value + len)

  -- The arms of the `match tag`, in its order.
  unfoldable pub decode_tagged : ℕ → List ℕ → ℕ → ℕ → Read PropertyValue
  decode_tagged tag buf pos lvt =
      if tag == 0
      then ok (null, pos)
      else if tag == 1
      then ok (boolean (not (lvt == 0)), pos)
      else if tag == 2
      then map_read unsigned (decode_uint buf pos lvt)
      else if tag == 3
      then map_read integer (decode_integer buf pos lvt)
      else if tag == 4
      then map_read real (decode_real buf pos lvt)
      else if tag == 5
      then map_read double (decode_double buf pos lvt)
      else if tag == 6
      then map_read octet_string (decode_octets buf pos lvt)
      else if tag == 7
      then map_read character_string (decode_text buf pos lvt)
      else if tag == 8
      then map_read bit_string (decode_bits buf pos lvt)
      else if tag == 9
      then map_read enumerated (decode_uint buf pos lvt)
      else if tag == 10
      then map_read date (decode_date buf pos lvt)
      else if tag == 11
      then map_read time (decode_time buf pos lvt)
      else if tag == 12
      then map_read object_id (decode_object_id buf pos lvt)
      else err decode_error

  unfoldable pub decode_application_value : List ℕ → ℕ → Read PropertyValue
  unfolding decode_tagged
  decode_application_value buf pos = do
    b ← ok_or (peek buf pos) decode_error
    fail_if (is_context b) decode_error
    decode_tagged (tag_number b) buf (pos + 1) (lvt_of b)
