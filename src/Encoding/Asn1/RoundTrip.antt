-- ===== src/Encoding/Asn1/RoundTrip.antt =====
-- Primitives of asn1.rs that are encoded and decoded.
use bacnet_sim.Prelude.{
  ℕ, suc, ◌+◌, ◌-◌, ◌^◌, ◌≤◌, ◌<◌, ◌≡◌, refl, false, List, ◌∷◌, ◌++◌, arith, ltb, le→ltb, length,
  ok, panic, ◌>>=◌, ok_or, low_bits, shr, as_u16, as_u8, be32_bytes,
}
use bacnet_sim.Types.Error.{decode_error}
use bacnet_sim.Types.ObjectType.{from_u16, as_u16 as type_code}
use bacnet_sim.Types.ObjectType.Codes.{as_u16-le}
use bacnet_sim.Types.Value.{ObjectId, BacnetDate, Weekday, weekday_number}
use bacnet_sim.Encoding.Tags.{object_id_raw}
use bacnet_sim.Encoding.Tags.RoundTrip.{be32-be32_bytes, object_id_raw-IsU32, be32_at_lem}
use bacnet_sim.Encoding.Asn1.{
  encode_application_object_id, decode_application_object_id, encode_application_date,
  decode_application_date, weekday_of, decode_application_bitstring, bitstring_extent,
}

weekday_of-weekday_number : (w : Weekday) → weekday_of (weekday_number w) ≡ w
unfolding weekday_of weekday_number
weekday_of-weekday_number Weekday.monday = refl
weekday_of-weekday_number _ = refl

-- A date of the years 1900 to 2155 is decoded to itself with its day of the week, the unspecified one
-- too, whatever follows it.
pub decode-encode_application_date :
    (d : BacnetDate) (rest : List ℕ)
    → 1900 ≤ d.year
    → d.year < 2156
    → decode_application_date (encode_application_date d ++ rest) ≡ ok (d, 5)
unfolding decode_application_date encode_application_date
decode-encode_application_date d rest lo hi =
    let year : as_u8 (d.year - 1900) + 1900 ≡ d.year = omega arith in
    let long : ltb (suc (suc (suc (suc (suc (length rest)))))) 5 ≡ false =
      le→ltb (suc (suc (suc (suc (suc (length rest)))))) 5 (omega arith) in
    rw (long, year, weekday_of-weekday_number d.weekday) refl

-- An object identifier whose type's code is recognised and whose instance fits 22 bits is decoded to
-- itself, and one whose type's code is not recognised is refused.
pub decode-encode_application_object_id :
    (oid : ObjectId) (rest : List ℕ)
    → oid.instance < 2 ^ 22
    → decode_application_object_id (encode_application_object_id oid ++ rest) ≡ (
        ok_or (from_u16 (type_code oid.object_type)) decode_error >>= λ t.
        ok (record { object_type = t; instance = oid.instance }, 5))
unfolding decode_application_object_id encode_application_object_id
decode-encode_application_object_id oid rest h =
    let buf = 0xC4 ∷ be32_bytes (object_id_raw oid) rest in
    let raw = be32-be32_bytes (object_id_raw oid) (object_id_raw-IsU32 oid) in
    let type : as_u16 (shr (object_id_raw oid) 22) ≡ type_code oid.object_type =
      omega (arith, as_u16-le oid.object_type) in
    let low : low_bits (object_id_raw oid) 22 ≡ oid.instance = omega (arith, h) in
    rw (le→ltb (length buf) 5 (omega arith), be32_at_lem buf 1 _ _ _ _ rest refl, raw, type, low)
      refl

-- The decoder of bit strings panics on every bit string of length zero that another byte follows.
pub decode_application_bitstring-panic :
    (next : ℕ) (rest : List ℕ) → decode_application_bitstring (0x80 ∷ next ∷ rest) ≡ panic
unfolding decode_application_bitstring bitstring_extent
decode_application_bitstring-panic next rest = ground arith
