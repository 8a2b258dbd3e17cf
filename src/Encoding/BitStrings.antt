-- ===== src/Encoding/BitStrings.antt =====
-- The bits of a bit string in bytes, highest bit first: the loops that the encoder of asn1.rs and
-- the decoders of asn1.rs and tags.rs share.
pub mod RoundTrip
use Prim.Native.Nat.{bit_or}
use bacnet_sim.Prelude.{
  ℕ, ◌+◌, ◌-◌, ◌*◌, ◌/◌, ◌%◌, ◌^◌, Bool, List, [], ◌∷◌, ◌++◌, ltb, ◌==◌, if◌then◌else◌, length,
  take, Outcome, ok, panic, ◌>>=◌, has_bit,
}
use bacnet_sim.Types.Error.{BacnetError}

-- `byte |= 0x80 >> (i % 8)` for a set bit, and a byte written after every eighth. At the end `i` is
-- the number of bits.
unfoldable pub pack_bits : List Bool → ℕ → ℕ → List ℕ
pack_bits [] i byte = if i % 8 == 0 then [] else byte ∷ []
pack_bits (bit ∷ bits) i byte =
    let filled = if bit then bit_or byte (0x80 / 2 ^ (i % 8)) else byte in
    let more = pack_bits bits (i + 1) (if i % 8 == 7 then 0 else filled) in
    if i % 8 == 7 then filled ∷ more else more

abbrev pub byte_bits : ℕ → List Bool
byte_bits b =
    has_bit b 7
    ∷ has_bit b 6
    ∷ has_bit b 5
    ∷ has_bit b 4
    ∷ has_bit b 3
    ∷ has_bit b 2
    ∷ has_bit b 1
    ∷ has_bit b 0
    ∷ []

-- The last byte gives its first `8 - unused` bits; that subtraction panics for `unused` over 8.
unfoldable pub unpack_bits : List ℕ → ℕ → Outcome BacnetError (List Bool)
unpack_bits [] unused = ok []
unpack_bits (b ∷ []) unused = if ltb 8 unused then panic else ok (take (8 - unused) (byte_bits b))
unpack_bits (b ∷ c ∷ rest) unused = do
  bits ← unpack_bits (c ∷ rest) unused
  ok (byte_bits b ++ bits)

-- `data.len() * 8 - unused`, which panics where it would be negative, before the loop.
unfoldable pub bits_of_data : List ℕ → ℕ → Outcome BacnetError (List Bool)
bits_of_data bytes unused =
    if ltb (length bytes * 8) unused then panic else unpack_bits bytes unused
