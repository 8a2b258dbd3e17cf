-- ===== src/Codec/Bvll/RoundTrip.antt =====
-- Frames that are encoded and decoded, and the frames on which the decoder panics.
use bacnet_sim.Prelude.{
  ℕ, suc, slice_tail, ◌+◌, ◌-◌, ◌/◌, ◌%◌, ◌^◌, ◌≤◌, ◌<◌, ◌≡◌, refl, ap, ◌∙◌, List, [], ◌∷◌, ◌++◌,
  arith, length, ok, as_u16, be16, be16_bytes, IsU16, le→ltb, le→leb, take-append, length-append,
}
use bacnet_sim.Types.Error.{BacnetError}
use bacnet_sim.Codec.Bvll.{
  SocketAddrV4, BvllFrame, bvlc_result, forwarded_npdu, register_foreign_device,
  distribute_broadcast_to_network, original_unicast_npdu, original_broadcast_npdu, encode, decode,
  decode_function, decode_forwarded,
}

-- The fields fit the frame: the length field is 16 bits wide.
abbrev pub IsEncodable : BvllFrame → Type 0
IsEncodable (bvlc_result code) = IsU16 code
IsEncodable (forwarded_npdu a npdu) = (length npdu < 65526) × IsU16 a.port
IsEncodable (register_foreign_device ttl) = IsU16 ttl
IsEncodable (distribute_broadcast_to_network npdu) = length npdu < 65532
IsEncodable (original_unicast_npdu npdu) = length npdu < 65532
IsEncodable (original_broadcast_npdu npdu) = length npdu < 65532
IsEncodable _ = ⊥

-- The header of a frame, with the payload and what follows it in the buffer.
decode_header :
    (function len : ℕ) (payload rest : List ℕ)
    → len < 2 ^ 16
    → len ≡ 4 + length payload
    → decode (0x81 ∷ function ∷ be16_bytes len (payload ++ rest))
      ≡ decode_function function len payload
unfolding decode
decode_header function len payload rest h e = rw (
  le→ltb (suc (suc (suc (suc (length (payload ++ rest)))))) 4 (omega arith),
  whole,
  le→ltb (suc (suc (suc (suc (length (payload ++ rest)))))) len room,
  le→leb 4 len (omega arith),
  le→leb len (suc (suc (suc (suc (length (payload ++ rest)))))) room,
  tail,
  take-append payload rest,
)
  where
    room : len ≤ suc (suc (suc (suc (length (payload ++ rest)))))
    room = omega (arith, length-append payload rest)

    whole : be16 (len / 256 % 256) (len % 256) ≡ len
    whole = omega arith

    tail : len - 4 ≡ length payload
    tail = omega arith

be16-be16_bytes : (x : ℕ) → IsU16 x → be16 (x / 256 % 256) (x % 256) ≡ x
be16-be16_bytes x h = omega arith

forwarded_payload :
    (a : SocketAddrV4) (len : ℕ) (npdu : List ℕ)
    → IsU16 a.port
    → 10 ≤ len
    → decode_forwarded len (a.ip0 ∷ a.ip1 ∷ a.ip2 ∷ a.ip3 ∷ be16_bytes a.port npdu)
      ≡ ok (forwarded_npdu a npdu)
unfolding decode_forwarded
forwarded_payload a len npdu h hl =
    let payload = a.ip0 ∷ a.ip1 ∷ a.ip2 ∷ a.ip3 ∷ be16_bytes a.port npdu in
    rw (
      le→ltb len 10 hl,
      be16-be16_bytes a.port h,
      le→ltb (length payload) 6 (omega arith),
      slice_tail {E = BacnetError} payload 6 (omega arith),
    )

-- A frame of one of the six kinds that the encoder writes, with fields that fit, is decoded to
-- itself, whatever follows it in the buffer.
pub decode-encode_bvll :
    (f : BvllFrame) (rest : List ℕ) → IsEncodable f → decode (encode f ++ rest) ≡ ok f
unfolding encode
decode-encode_bvll (bvlc_result code) rest h =
    decode_header 1 6 (be16_bytes code []) rest (omega arith) refl
    ∙ (unfold decode_function in ap (λ (c : ℕ). ok (bvlc_result c)) (be16-be16_bytes code h))
decode-encode_bvll (register_foreign_device ttl) rest h =
    decode_header 5 6 (be16_bytes ttl []) rest (omega arith) refl
    ∙ (unfold decode_function in
        ap (λ (c : ℕ). ok (register_foreign_device c)) (be16-be16_bytes ttl h))
decode-encode_bvll (forwarded_npdu a npdu) rest (h, hp) =
    decode_header 4 (as_u16 (10 + length npdu))
      (a.ip0 ∷ a.ip1 ∷ a.ip2 ∷ a.ip3 ∷ be16_bytes a.port npdu) rest (omega arith) (omega arith)
    ∙ (unfold decode_function in
        forwarded_payload a (as_u16 (10 + length npdu)) npdu hp (omega arith))
decode-encode_bvll (distribute_broadcast_to_network npdu) rest h =
    decode_header 9 (as_u16 (4 + length npdu)) npdu rest (omega arith) (omega arith)
    ∙ (unfold decode_function in refl)
decode-encode_bvll (original_unicast_npdu npdu) rest h =
    decode_header 10 (as_u16 (4 + length npdu)) npdu rest (omega arith) (omega arith)
    ∙ (unfold decode_function in refl)
decode-encode_bvll (original_broadcast_npdu npdu) rest h =
    decode_header 11 (as_u16 (4 + length npdu)) npdu rest (omega arith) (omega arith)
    ∙ (unfold decode_function in refl)
decode-encode_bvll _ rest h = absurd h
