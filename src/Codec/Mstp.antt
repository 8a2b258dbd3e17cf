-- ===== src/Codec/Mstp.antt =====
-- crates/bacnet-codec/src/mstp.rs: MS/TP frames and their checksums.
pub mod RoundTrip
pub mod Safety
pub mod Detection
use Prim.Native.Nat.{bit_xor}
use bacnet_sim.Prelude.{
  ℕ, zero, suc, ◌+◌, ◌-◌, ◌*◌, ◌/◌, ◌%◌, ◌^◌, Bool, not, ◌&&◌, ◌||◌, Option, none, some, List, [],
  ◌∷◌, ◌++◌, ltb, ◌==◌, if◌then◌else◌, length, Outcome, ok, err, panic, ◌>>=◌, ◌>>◌, fail_if, ok_or,
  index, slice, has_bit, shr, as_u16, be16, be16_bytes,
}
use mathlib.Core.List.{foldl}

pub data MstpFrameType : Type 0 where
  token poll_for_master reply_to_poll_for_master test_request : MstpFrameType
  test_response bacnet_data_expecting_reply bacnet_data_not_expecting_reply : MstpFrameType
  reply_postponed : MstpFrameType

-- `self as u8`
unfoldable pub as_u8 : MstpFrameType → ℕ
as_u8 token = 0x00
as_u8 poll_for_master = 0x01
as_u8 reply_to_poll_for_master = 0x02
as_u8 test_request = 0x03
as_u8 test_response = 0x04
as_u8 bacnet_data_expecting_reply = 0x05
as_u8 bacnet_data_not_expecting_reply = 0x06
as_u8 reply_postponed = 0x07

unfoldable pub from_u8 : ℕ → Option MstpFrameType
from_u8 v =
    if v == 0x00
    then some token
    else if v == 0x01
    then some poll_for_master
    else if v == 0x02
    then some reply_to_poll_for_master
    else if v == 0x03
    then some test_request
    else if v == 0x04
    then some test_response
    else if v == 0x05
    then some bacnet_data_expecting_reply
    else if v == 0x06
    then some bacnet_data_not_expecting_reply
    else if v == 0x07
    then some reply_postponed
    else none

pub data MstpDecodeError : Type 0 where
  bad_preamble incomplete bad_header_crc bad_data_crc : MstpDecodeError
  unknown_frame_type : ℕ → MstpDecodeError

pub record MstpFrame : Type 0 where
  pub frame_type : MstpFrameType
  pub destination : ℕ
  pub source : ℕ
  pub payload : List ℕ

-- One round of the inner loop, for the polynomial of the checksum.
unfoldable pub crc_bit : ℕ → ℕ → ℕ
crc_bit poly crc = if has_bit crc 0 then bit_xor (shr crc 1) poly else shr crc 1

-- `for _ in 0..n`
unfoldable pub crc_bits : ℕ → ℕ → ℕ → ℕ
crc_bits poly zero crc = crc
crc_bits poly (suc n) crc = crc_bits poly n (crc_bit poly crc)

unfoldable pub crc8 : List ℕ → ℕ
unfolding crc_bits crc_bit
crc8 bytes = 0xFF - foldl (λ crc b. crc_bits 0xE0 8 (bit_xor crc b)) 0xFF bytes

unfoldable pub crc16 : List ℕ → ℕ
unfolding crc_bits crc_bit
crc16 bytes = 0xFFFF - foldl (λ crc b. crc_bits 0xA001 8 (bit_xor crc b)) 0xFFFF bytes

-- `buf[2..7]`: type, destination, source and the length's two bytes.
abbrev pub header : ℕ → ℕ → ℕ → ℕ → ℕ → List ℕ
header type destination source len_hi len_lo = type ∷ destination ∷ source ∷ len_hi ∷ len_lo ∷ []

-- The payload with its checksum, low byte first; nothing at all for an empty payload.
unfoldable pub encode_payload : List ℕ → List ℕ
encode_payload payload =
    if length payload == 0
    then []
    else payload ++ (crc16 payload % 256 ∷ (crc16 payload / 256) ∷ [])

unfoldable pub encode : MstpFrame → List ℕ
encode f =
    let len = as_u16 (length f.payload) in
    let hdr = header (as_u8 f.frame_type) f.destination f.source (len / 256) (len % 256) in
    0x55 ∷ 0xFF ∷ (hdr ++ (crc8 hdr ∷ encode_payload f.payload))

-- The check of the payload behind the header.
unfoldable pub check_payload : List ℕ → List ℕ → ℕ → Outcome MstpDecodeError (Unit {0})
check_payload buf payload data_len =
    if ltb 0 data_len
    then (do
      lo ← index buf (8 + data_len)
      hi ← index buf (9 + data_len)
      fail_if (not (be16 hi lo == crc16 payload)) bad_data_crc)
    else ok tt

unfoldable pub decode : List ℕ → Outcome MstpDecodeError MstpFrame
decode buf = do
  fail_if (ltb (length buf) 2) incomplete
  b0 ← index buf 0
  b1 ← index buf 1
  fail_if (not (b0 == 0x55) || not (b1 == 0xFF)) bad_preamble
  fail_if (ltb (length buf) 8) incomplete
  type ← index buf 2
  frame_type ← ok_or (from_u8 type) (unknown_frame_type type)
  destination ← index buf 3
  source ← index buf 4
  hi ← index buf 5
  lo ← index buf 6
  let data_len = be16 hi lo
  expected_hdr_crc ← index buf 7
  hdr ← slice buf 2 7
  fail_if (not (expected_hdr_crc == crc8 hdr)) bad_header_crc
  fail_if (ltb (length buf) (8 + data_len + (if ltb 0 data_len then 2 else 0))) incomplete
  payload ← slice buf 8 (8 + data_len)
  check_payload buf payload data_len
  ok (record {
    frame_type = frame_type;
    destination = destination;
    source = source;
    payload = payload;
  })
