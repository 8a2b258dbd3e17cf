-- ===== src/Codec/Mstp/RoundTrip.antt =====
-- Frames that are encoded and decoded.
use bacnet_sim.Prelude.{
  ℕ, suc, ◌+◌, ◌/◌, ◌%◌, ◌≤◌, ◌<◌, ◌≡◌, refl, ◌∙◌, List, [], ◌∷◌, ◌++◌, arith, ltb, ◌==◌,
  if◌then◌else◌, length, drop, length-append, drop_at_append, drop_at_suc, get_at, slice_at, le→ltb,
  lt→ltb, le→leb, ==_iff, ok, ◌>>=◌, ◌>>◌, slice, as_u16, be16, suc-==-zero, some,
}
use mathlib.Core.List.{append_assoc}
use bacnet_sim.Codec.Mstp.{
  MstpFrameType, token, as_u8, from_u8, MstpDecodeError, MstpFrame, crc8, crc16, header, encode,
  encode_payload, check_payload, decode,
}

from_u8-as_u8 : (t : MstpFrameType) → from_u8 (as_u8 t) ≡ some t
unfolding from_u8 as_u8
from_u8-as_u8 token = refl
from_u8-as_u8 _ = refl

crc16-IsU16 : (bytes : List ℕ) → crc16 bytes < 65536
unfolding crc16
crc16-IsU16 bytes = omega arith

module _ (type dst src hi lo crc : ℕ) (body : List ℕ) where
  abbrev whole : List ℕ
  whole = 0x55 ∷ 0xFF ∷ type ∷ dst ∷ src ∷ hi ∷ lo ∷ crc ∷ body

  -- The decoder behind a header whose checksum is right.
  decode-header :
      (t : MstpFrameType)
      → from_u8 type ≡ some t
      → crc ≡ crc8 (header type dst src hi lo)
      → 8 + be16 hi lo + (if ltb 0 (be16 hi lo) then 2 else 0) ≤ 8 + length body
      → decode whole ≡ (
          slice whole 8 (8 + be16 hi lo) >>= λ payload.
          check_payload whole payload (be16 hi lo)
          >> ok (record { frame_type = t; destination = dst; source = src; payload = payload }))
  unfolding decode
  decode-header t ht hc room = rw (
    le→ltb (length whole) 2 (omega arith),
    le→ltb (length whole) 8 (omega arith),
    ht,
    le→leb 7 (length whole) (omega arith),
    hc,
    (==_iff (crc8 (header type dst src hi lo)) _).1 refl,
    le→ltb (length whole) (8 + be16 hi lo + (if ltb 0 (be16 hi lo) then 2 else 0))
        (omega (arith, room)),
  )

-- The checksum behind a payload is found and is right.
check_payload_at :
    (buf payload rest : List ℕ)
    → drop 8 buf ≡ encode_payload payload ++ rest
    → check_payload buf payload (length payload) ≡ ok tt
unfolding check_payload encode_payload
check_payload_at buf [] rest h = refl
check_payload_at buf (x ∷ xs) rest h =
    let payload = x ∷ xs in
    let tail =
      drop_at_append buf 8 payload (crc16 payload % 256 ∷ (crc16 payload / 256) ∷ rest)
        (behind h) in
    rw (
      lt→ltb 0 (length payload) (omega arith),
      get_at buf (8 + length payload) tail,
      next,
      get_at buf (8 + length payload + 1) (drop_at_suc buf (8 + length payload) tail),
      sum,
      (==_iff (crc16 payload) (crc16 payload)).1 refl,
    )
  where
    behind :
        drop 8 buf
          ≡ (if length (x ∷ xs) == 0
              then []
              else (x ∷ xs) ++ (crc16 (x ∷ xs) % 256 ∷ (crc16 (x ∷ xs) / 256) ∷ []))
            ++ rest
        → drop 8 buf ≡ (x ∷ xs) ++ (crc16 (x ∷ xs) % 256 ∷ (crc16 (x ∷ xs) / 256) ∷ rest)
    behind e = rw (suc-==-zero (length xs)) at e ∙ append_assoc (x ∷ xs) _ rest

    next : 9 + length (x ∷ xs) ≡ 8 + length (x ∷ xs) + 1
    next = omega arith

    sum : be16 (crc16 (x ∷ xs) / 256) (crc16 (x ∷ xs) % 256) ≡ crc16 (x ∷ xs)
    sum = omega arith

length-encode_payload :
    (payload : List ℕ)
    → length (encode_payload payload) ≡ length payload + (if ltb 0 (length payload) then 2 else 0)
unfolding encode_payload
length-encode_payload [] = refl
length-encode_payload (x ∷ xs) =
    rw (suc-==-zero (length xs), lt→ltb 0 (suc (length xs)) (omega arith))
      (omega (arith, length-append (x ∷ xs) (crc16 (x ∷ xs) % 256 ∷ (crc16 (x ∷ xs) / 256) ∷ [])))

trailer : List ℕ → List ℕ
trailer payload =
    if length payload == 0 then [] else crc16 payload % 256 ∷ (crc16 payload / 256) ∷ []

encode_payload-trailer : (payload : List ℕ) → encode_payload payload ≡ payload ++ trailer payload
unfolding encode_payload trailer
encode_payload-trailer [] = refl
encode_payload-trailer (x ∷ xs) = rw (suc-==-zero (length xs))

-- A frame with at most 65,535 bytes of data is decoded to itself, whatever follows it in the buffer.
pub decode-encode_mstp :
    (f : MstpFrame) (rest : List ℕ) → length f.payload < 65536 → decode (encode f ++ rest) ≡ ok f
unfolding encode
decode-encode_mstp f rest h =
    let n = as_u16 (length f.payload) in
    let type = as_u8 f.frame_type in
    let crc = crc8 (header type f.destination f.source (n / 256) (n % 256)) in
    let body = encode_payload f.payload ++ rest in
    let buf = whole type f.destination f.source (n / 256) (n % 256) crc body in
    decode-header type f.destination f.source (n / 256) (n % 256) crc body f.frame_type
      (from_u8-as_u8 f.frame_type) refl (rw size room)
    ∙ rw (
      size,
      slice_at {E = MstpDecodeError} buf 8 f.payload (trailer f.payload ++ rest)
          (omega (arith, room)) front,
      check_payload_at buf f.payload rest refl,
    )
  where
    size :
        be16 (as_u16 (length f.payload) / 256) (as_u16 (length f.payload) % 256) ≡ length f.payload
    size = omega arith

    room :
        8 + length f.payload + (if ltb 0 (length f.payload) then 2 else 0)
        ≤ 8 + length (encode_payload f.payload ++ rest)
    room =
        omega
          (arith, length-append (encode_payload f.payload) rest, length-encode_payload f.payload)

    front : encode_payload f.payload ++ rest ≡ f.payload ++ (trailer f.payload ++ rest)
    front = rw (encode_payload-trailer f.payload) (append_assoc f.payload _ rest)
