-- ===== src/Codec/Sc/RoundTrip.antt =====
-- Frames that are encoded and decoded, and the decoder's answer on any buffer.
use bacnet_sim.Prelude.{
  ℕ, ◌+◌, ◌/◌, ◌%◌, ◌≡◌, refl, ap, Bool, true, false, Option, none, some, List, ◌∷◌, ◌++◌, arith,
  length, drop, length-append, drop_at_append, slice_at, slice_tail, length_at_append, le→ltb, ok,
  be16, be16_bytes, IsU16,
}
use bacnet_sim.Types.Error.{BacnetError}
use bacnet_sim.Codec.Sc.{
  ScControlFlags, ScFrame, control_byte, encode_vmac, encode, decode_control, decode_vmac, decode,
}

-- The flag says whether there is an address, and an address has six bytes.
abbrev pub IsVmac : Bool → Option (List ℕ) → Type 0
IsVmac true (some v) = length v ≡ 6
IsVmac true none = ⊥
IsVmac false (some v) = ⊥
IsVmac false none = Unit

pub record IsWellFormed (f : ScFrame) : Type 0 where
  pub orig : IsVmac f.control.orig_vaddr_present f.originating_vmac
  pub dest : IsVmac f.control.dest_vaddr_present f.destination_vmac
  pub id : IsU16 f.message_id

decode_control-control_byte : (c : ScControlFlags) → decode_control (control_byte c) ≡ c
unfolding decode_control control_byte
decode_control-control_byte c = ground arith

module _ (buf : List ℕ) (pos : ℕ) where
  decode_vmac_at :
      (flag : Bool) (vmac : Option (List ℕ)) (rest : List ℕ)
      → IsVmac flag vmac
      → drop pos buf ≡ encode_vmac flag vmac ++ rest
      → decode_vmac flag buf pos ≡ ok (vmac, pos + length (encode_vmac flag vmac))
  unfolding encode_vmac decode_vmac
  decode_vmac_at true (some v) rest six h =
      let room = length_at_append buf pos v rest (omega arith) h in
      rw (
        le→ltb (length buf) (pos + 6) (omega (arith, room)),
        ← six,
        slice_at {E = BacnetError} buf pos v rest room h,
      )
  decode_vmac_at true none rest e h = absurd e
  decode_vmac_at false (some v) rest e h = absurd e
  decode_vmac_at false none rest e h = ap (λ (n : ℕ). ok (none, n)) (omega arith)

-- A frame whose flags say which addresses it has, with addresses of six bytes and a 16-bit message
-- id, is decoded to itself.
pub decode-encode_sc : (f : ScFrame) → IsWellFormed f → decode (encode f) ≡ ok f
unfolding encode decode
decode-encode_sc f w =
    let o = encode_vmac f.control.orig_vaddr_present f.originating_vmac in
    let d = encode_vmac f.control.dest_vaddr_present f.destination_vmac in
    let body = o ++ (d ++ f.payload) in
    let buf = f.function ∷ control_byte f.control ∷ be16_bytes f.message_id body in
    let tail = drop_at_append buf 4 o (d ++ f.payload) refl in
    rw (
      le→ltb (length buf) 4 (omega arith),
      decode_control-control_byte f.control,
      decode_vmac_at buf 4 f.control.orig_vaddr_present f.originating_vmac (d ++ f.payload) w.orig
          refl,
      decode_vmac_at buf (4 + length o) f.control.dest_vaddr_present f.destination_vmac f.payload
          w.dest tail,
      slice_tail {E = BacnetError} buf (4 + length o + length d)
          (omega (arith, length-append o (d ++ f.payload), length-append d f.payload)),
      drop_at_append buf (4 + length o) d f.payload tail,
      be,
    )
  where
    be : be16 (f.message_id / 256 % 256) (f.message_id % 256) ≡ f.message_id
    be = omega (arith, w.id)
