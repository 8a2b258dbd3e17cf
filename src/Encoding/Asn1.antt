-- ===== src/Encoding/Asn1.antt =====
-- crates/bacnet-types/src/encoding/asn1.rs: application-tagged values. A decoder takes a buffer and
-- returns the value with the number of bytes consumed.
pub mod RoundTrip
use mathlib.Core.List.{foldl}
use bacnet_sim.Prelude.{
  ℕ, ◌+◌, ◌-◌, ◌*◌, ◌/◌, ◌%◌, ◌^◌, Bool, not, ◌||◌, List, [], ◌∷◌, ltb, leb, ◌==◌, if◌then◌else◌,
  length, take, Outcome, ok, err, ◌>>=◌, ◌>>◌, fail_if, ok_or, index, slice, shr, low_bits, as_u8,
  as_u16, be16_bytes, be32_bytes,
}
use bacnet_sim.Types.Error.{BacnetError, decode_error}
use bacnet_sim.Types.ObjectType.{from_u16}
use bacnet_sim.Types.Value.{ObjectId, BacnetDate, Weekday, weekday_number}
use bacnet_sim.Encoding.Tags.{Read, shift_in, be32_at, object_id_raw}
use bacnet_sim.Encoding.BitStrings.{pack_bits, bits_of_data}

abbrev pub tag_byte : ℕ → ℕ → ℕ
tag_byte tag len = as_u8 (tag * 16) + low_bits len 3

abbrev pub context_tag_byte : ℕ → ℕ → ℕ
context_tag_byte tag len = low_bits tag 4 * 16 + low_bits len 3 + 8

-- The bytes of `value.to_be_bytes()` that count, moved to the front.
unfoldable pub uint_bytes : ℕ → ℕ × List ℕ
uint_bytes value =
    if ltb value 0x100
    then (1, as_u8 value ∷ 0 ∷ 0 ∷ 0 ∷ [])
    else if ltb value 0x10000
    then (2, be16_bytes (value % 2 ^ 16) (0 ∷ 0 ∷ []))
    else if ltb value 0x1000000
    then (3, (value / 2 ^ 16 % 256) ∷ be16_bytes (value % 2 ^ 16) (0 ∷ []))
    else (4, be32_bytes value [])

unfoldable pub encode_application_unsigned : ℕ → List ℕ
encode_application_unsigned value =
    let (len, bytes) = uint_bytes value in tag_byte 2 len ∷ take len bytes

unfoldable pub decode_application_unsigned : List ℕ → Read ℕ
decode_application_unsigned buf = do
  fail_if (length buf == 0) decode_error
  tag ← index buf 0
  fail_if (not (shr tag 4 == 2)) decode_error
  let len = low_bits tag 3
  fail_if (ltb (length buf) (1 + len)) decode_error
  bytes ← slice buf 1 (1 + len)
  ok (foldl shift_in 0 bytes, 1 + len)

unfoldable pub encode_application_real : ℕ → List ℕ
encode_application_real value = tag_byte 4 4 ∷ be32_bytes value []

unfoldable pub decode_application_real : List ℕ → Read ℕ
decode_application_real buf = do
  fail_if (ltb (length buf) 5) decode_error
  tag ← index buf 0
  fail_if (not (shr tag 4 == 4) || not (low_bits tag 3 == 4)) decode_error
  v ← be32_at buf 1
  ok (v, 5)

unfoldable pub encode_application_object_id : ObjectId → List ℕ
encode_application_object_id oid = 0xC4 ∷ be32_bytes (object_id_raw oid) []

-- Unlike the decoders of tags.rs, this one refuses a type code that it does not know.
unfoldable pub decode_application_object_id : List ℕ → Read ObjectId
decode_application_object_id buf = do
  fail_if (ltb (length buf) 5) decode_error
  tag ← index buf 0
  fail_if (not (tag == 0xC4)) decode_error
  raw ← be32_at buf 1
  type ← ok_or (from_u16 (as_u16 (shr raw 22))) decode_error
  ok (record { object_type = type; instance = low_bits raw 22 }, 5)

unfoldable pub encode_application_date : BacnetDate → List ℕ
encode_application_date date =
    tag_byte 10 4
    ∷ as_u8 (date.year - 1900)
    ∷ date.month
    ∷ date.day
    ∷ weekday_number date.weekday
    ∷ []

unfoldable pub weekday_of : ℕ → Weekday
weekday_of n =
    if n == 1
    then Weekday.monday
    else if n == 2
    then Weekday.tuesday
    else if n == 3
    then Weekday.wednesday
    else if n == 4
    then Weekday.thursday
    else if n == 5
    then Weekday.friday
    else if n == 6
    then Weekday.saturday
    else if n == 7
    then Weekday.sunday
    else Weekday.unspecified

unfoldable pub decode_application_date : List ℕ → Read BacnetDate
unfolding weekday_of
decode_application_date buf = do
  fail_if (ltb (length buf) 5) decode_error
  tag ← index buf 0
  fail_if (not (shr tag 4 == 10)) decode_error
  year ← index buf 1
  month ← index buf 2
  day ← index buf 3
  wd ← index buf 4
  ok (record { year = year + 1900; month = month; day = day; weekday = weekday_of wd }, 5)

unfoldable pub encode_application_bitstring : List Bool → List ℕ
encode_application_bitstring bits =
    let count = length bits in
    let unused = if count == 0 then 0 else as_u8 (8 - count % 8) % 8 in
    let total_len = 1 + (count + 7) / 8 in
    let body = unused ∷ pack_bits bits 0 0 in
    if leb total_len 4
    then tag_byte 8 (as_u8 total_len) ∷ body
    else tag_byte 8 5 ∷ as_u8 total_len ∷ body

-- The length of the value and where it starts.
unfoldable pub bitstring_extent : List ℕ → ℕ → Outcome BacnetError (ℕ × ℕ)
bitstring_extent buf lvt =
    if leb lvt 4
    then ok (lvt, 1)
    else if lvt == 5
    then (do fail_if (ltb (length buf) 3) decode_error; len ← index buf 1; ok (len, 2))
    else err decode_error

unfoldable pub decode_application_bitstring : List ℕ → Read (List Bool)
unfolding bitstring_extent
decode_application_bitstring buf = do
  fail_if (ltb (length buf) 2) decode_error
  tag ← index buf 0
  fail_if (not (shr tag 4 == 8)) decode_error
  (total_len, value_start) ← bitstring_extent buf (low_bits tag 3)
  fail_if (ltb (length buf) (value_start + total_len)) decode_error
  unused ← index buf value_start
  bytes ← slice buf (value_start + 1) (value_start + total_len)
  bits ← (if length bytes == 0 then ok [] else bits_of_data bytes unused)
  ok (bits, value_start + total_len)

unfoldable pub encode_context_unsigned : ℕ → ℕ → List ℕ
encode_context_unsigned context_tag value =
    let (len, bytes) = uint_bytes value in context_tag_byte context_tag len ∷ take len bytes
