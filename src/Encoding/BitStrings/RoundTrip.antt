-- ===== src/Encoding/BitStrings/RoundTrip.antt =====
-- Unpacking the bytes of a bit string gives its bits back.
use Prim.Native.Nat.{bit_or}
use bacnet_sim.Prelude.{
  ℕ, ◌+◌, ◌-◌, ◌*◌, ◌/◌, ◌%◌, ◌^◌, ◌≤◌, ◌≡◌, refl, ap, Bool, List, [], ◌∷◌, ◌++◌, arith, ◌==◌,
  if◌then◌else◌, length, ok, ◌>>=◌, as_u8, le→ltb,
}
use bacnet_sim.Encoding.BitStrings.{pack_bits, byte_bits, unpack_bits, bits_of_data}

-- The loop looks at the count of bits modulo eight only.
pack_bits-mod :
    (bits : List Bool) (i j byte : ℕ)
    → i % 8 ≡ j % 8
    → pack_bits bits i byte ≡ pack_bits bits j byte
unfolding pack_bits
pack_bits-mod [] i j byte h = rw h
pack_bits-mod (bit ∷ bits) i j byte h =
    let filled = if bit then bit_or byte (128 / 2 ^ (j % 8)) else byte in
    rw (h, pack_bits-mod bits (i + 1) (j + 1) (if j % 8 == 7 then 0 else filled) (omega arith))

-- The byte of eight bits.
abbrev octet : Bool → Bool → Bool → Bool → Bool → Bool → Bool → Bool → ℕ
octet a b c d e f g h =
    let v1 = if a then bit_or 0 128 else 0 in
    let v2 = if b then bit_or v1 64 else v1 in
    let v3 = if c then bit_or v2 32 else v2 in
    let v4 = if d then bit_or v3 16 else v3 in
    let v5 = if e then bit_or v4 8 else v4 in
    let v6 = if f then bit_or v5 4 else v5 in
    let v7 = if g then bit_or v6 2 else v6 in if h then bit_or v7 1 else v7

byte_bits-octet :
    (a b c d e f g h : Bool)
    → byte_bits (octet a b c d e f g h) ≡ a ∷ b ∷ c ∷ d ∷ e ∷ f ∷ g ∷ h ∷ []
byte_bits-octet a b c d e f g h = ground arith

pack_bits-octet :
    (a b c d e f g h : Bool) (rest : List Bool)
    → pack_bits (a ∷ b ∷ c ∷ d ∷ e ∷ f ∷ g ∷ h ∷ rest) 0 0
      ≡ octet a b c d e f g h ∷ pack_bits rest 8 0
unfolding pack_bits
pack_bits-octet a b c d e f g h rest = refl

pack_bits-octet_lem :
    (a b c d e f g h : Bool) (rest : List Bool)
    → pack_bits (a ∷ b ∷ c ∷ d ∷ e ∷ f ∷ g ∷ h ∷ rest) 0 0
      ≡ octet a b c d e f g h ∷ pack_bits rest 0 0
pack_bits-octet_lem a b c d e f g h rest = rw (pack_bits-octet, pack_bits-mod rest 8 0 0 refl)

-- The unused bits of the last byte, for a number of bits.
abbrev pub unused_of : ℕ → ℕ
unused_of count = if count == 0 then 0 else as_u8 (8 - count % 8) % 8

-- So many bytes hold the bits.
pub length-pack_bits : (bits : List Bool) → length (pack_bits bits 0 0) ≡ (length bits + 7) / 8
length-pack_bits (a ∷ b ∷ c ∷ d ∷ e ∷ f ∷ g ∷ h ∷ rest) =
    rw pack_bits-octet_lem (omega (arith, length-pack_bits rest))
length-pack_bits [] = unfold pack_bits in refl
length-pack_bits (a ∷ []) = unfold pack_bits in refl
length-pack_bits (a ∷ b ∷ []) = unfold pack_bits in refl
length-pack_bits (a ∷ b ∷ c ∷ []) = unfold pack_bits in refl
length-pack_bits (a ∷ b ∷ c ∷ d ∷ []) = unfold pack_bits in refl
length-pack_bits (a ∷ b ∷ c ∷ d ∷ e ∷ []) = unfold pack_bits in refl
length-pack_bits (a ∷ b ∷ c ∷ d ∷ e ∷ f ∷ []) = unfold pack_bits in refl
length-pack_bits (a ∷ b ∷ c ∷ d ∷ e ∷ f ∷ g ∷ []) = unfold pack_bits in refl

unpack_bits-cons :
    (b unused : ℕ) (more : List ℕ)
    → 1 ≤ length more
    → unpack_bits (b ∷ more) unused ≡ (unpack_bits more unused >>= λ bits. ok (byte_bits b ++ bits))
unfolding unpack_bits
unpack_bits-cons b unused [] h = absurd (omega arith)
unpack_bits-cons b unused (c ∷ rest) h = refl

unpack_bits-pack_bits :
    (bits : List Bool) → unpack_bits (pack_bits bits 0 0) (unused_of (length bits)) ≡ ok bits
unpack_bits-pack_bits [] = unfold pack_bits unpack_bits in refl
unpack_bits-pack_bits (a ∷ []) = unfold pack_bits unpack_bits in ground arith
unpack_bits-pack_bits (a ∷ b ∷ []) = unfold pack_bits unpack_bits in ground arith
unpack_bits-pack_bits (a ∷ b ∷ c ∷ []) = unfold pack_bits unpack_bits in ground arith
unpack_bits-pack_bits (a ∷ b ∷ c ∷ d ∷ []) = unfold pack_bits unpack_bits in ground arith
unpack_bits-pack_bits (a ∷ b ∷ c ∷ d ∷ e ∷ []) = unfold pack_bits unpack_bits in ground arith
unpack_bits-pack_bits (a ∷ b ∷ c ∷ d ∷ e ∷ f ∷ []) = unfold pack_bits unpack_bits in ground arith
unpack_bits-pack_bits (a ∷ b ∷ c ∷ d ∷ e ∷ f ∷ g ∷ []) =
    unfold pack_bits unpack_bits in ground arith
unpack_bits-pack_bits (a ∷ b ∷ c ∷ d ∷ e ∷ f ∷ g ∷ h ∷ []) =
    rw pack_bits-octet_lem (unfold pack_bits unpack_bits in rw byte_bits-octet)
unpack_bits-pack_bits (a ∷ b ∷ c ∷ d ∷ e ∷ f ∷ g ∷ h ∷ x ∷ rest) =
    rw
      (
        pack_bits-octet_lem,
        unpack_bits-cons _ _ (pack_bits (x ∷ rest) 0 0)
            (omega (arith, length-pack_bits (x ∷ rest))),
        unused_again,
        unpack_bits-pack_bits (x ∷ rest),
      )
      (ap (λ (t : List Bool). ok (t ++ (x ∷ rest))) (byte_bits-octet a b c d e f g h))
  where
    unused_again :
        unused_of (length (a ∷ b ∷ c ∷ d ∷ e ∷ f ∷ g ∷ h ∷ x ∷ rest))
        ≡ unused_of (length (x ∷ rest))
    unused_again = ground arith

pub bits_of_data-pack_bits :
    (bits : List Bool) → bits_of_data (pack_bits bits 0 0) (unused_of (length bits)) ≡ ok bits
unfolding bits_of_data
bits_of_data-pack_bits bits = rw (le→ltb _ _ room, unpack_bits-pack_bits bits)
  where
    room : unused_of (length bits) ≤ length (pack_bits bits 0 0) * 8
    room = rw length-pack_bits (ground arith)
