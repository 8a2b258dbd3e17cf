-- ===== src/Codec/Npdu/Wire.antt =====
-- The header as the standard lays it out, which the decoder of npdu.rs reads.
use bacnet_sim.Prelude.{
  ℕ, suc, ◌+◌, ◌/◌, ◌%◌, ◌≤◌, ◌<◌, ◌≡◌, refl, ap, Bool, true, false, Option, none, some, List, [],
  ◌∷◌, ◌++◌, arith, leb, ◌==◌, length, drop, length-append, length_at, drop_at, drop_at_append,
  get_at, get_at_add, slice_at, slice_tail, le→ltb, ok, panic, be16, be16_bytes, has_bit, IsU16,
}
use bacnet_sim.Types.Error.{BacnetError}
use bacnet_sim.Codec.Npdu.{
  NpduControl, NpduAddress, Npdu, encode_local, decode_control, decode_address, decode_specifier,
  decode_hop_count, decode,
}

bit : Bool → ℕ → ℕ
bit true weight = weight
bit false weight = 0

-- The control byte: bits 4 and 6 are reserved and zero, the priority has two bits.
pub control_byte : NpduControl → ℕ
control_byte c =
    bit c.network_message 128
    + bit c.destination_specifier 32
    + bit c.source_specifier 8
    + bit c.expecting_reply 4
    + c.priority

abbrev pub address_bytes : NpduAddress → List ℕ
address_bytes a = be16_bytes a.network (length a.mac ∷ a.mac)

abbrev pub optional_address : Option NpduAddress → List ℕ
optional_address none = []
optional_address (some a) = address_bytes a

abbrev pub hop_bytes : Option ℕ → List ℕ
hop_bytes none = []
hop_bytes (some h) = h ∷ []

pub wire : Npdu → List ℕ
wire n =
    n.version ∷ control_byte n.control ∷ optional_address n.destination
    ++ (optional_address n.source ++ (hop_bytes n.hop_count ++ n.apdu))

-- A specifier's flag says whether its address is there.
abbrev pub Announces {ℓ} : {A : Type ℓ} → Bool → Option A → Type 0
Announces true (some a) = Unit
Announces true none = ⊥
Announces false (some a) = ⊥
Announces false none = Unit

abbrev pub FitsU16 : Option NpduAddress → Type 0
FitsU16 none = Unit
FitsU16 (some a) = IsU16 a.network

pub record IsWellFormed (n : Npdu) : Type 0 where
  pub version : n.version ≡ 1
  pub priority : n.control.priority < 4
  pub destination : Announces n.control.destination_specifier n.destination
  pub source : Announces n.control.source_specifier n.source
  pub hop_count : Announces n.control.destination_specifier n.hop_count
  pub destination_network : FitsU16 n.destination
  pub source_network : FitsU16 n.source

decode_control-control_byte :
    (c : NpduControl) → c.priority < 4 → decode_control (control_byte c) ≡ c
unfolding decode_control control_byte bit
decode_control-control_byte c h = ground arith

module _ (buf : List ℕ) (pos : ℕ) where
  decode_address_at :
      (a : NpduAddress) (rest : List ℕ)
      → IsU16 a.network
      → drop pos buf ≡ address_bytes a ++ rest
      → decode_address buf pos ≡ ok (a, pos + length (address_bytes a))
  unfolding decode_address
  decode_address_at a rest hn h =
      let body = drop_at buf pos 3 h in
      let total = length_at buf pos h in
      let room : pos + 3 + length a.mac ≤ length buf =
        omega (arith, total, length-append a.mac rest) in
      rw
        (
          le→ltb (length buf) (pos + 3) (omega (arith, room)),
          get_at buf pos h,
          get_at_add buf pos 1 h,
          get_at_add buf pos 2 h,
          slice_at {E = BacnetError} buf (pos + 3) a.mac rest room body,
          network,
        )
        (ap (λ (n : ℕ). ok (a, n)) (omega arith))
    where
      network : be16 (a.network / 256 % 256) (a.network % 256) ≡ a.network
      network = omega (arith, hn)

  decode_specifier_at :
      (flag : Bool) (o : Option NpduAddress) (rest : List ℕ)
      → Announces flag o
      → FitsU16 o
      → drop pos buf ≡ optional_address o ++ rest
      → decode_specifier flag buf pos ≡ ok (o, pos + length (optional_address o))
  unfolding decode_specifier
  decode_specifier_at true (some a) rest e hn h = rw (decode_address_at a rest hn h) refl
  decode_specifier_at true none rest e hn h = absurd e
  decode_specifier_at false (some a) rest e hn h = absurd e
  decode_specifier_at false none rest e hn h = ap (λ (n : ℕ). ok (none, n)) (omega arith)

  decode_hop_count_at :
      (flag : Bool) (o : Option ℕ) (rest : List ℕ)
      → Announces flag o
      → drop pos buf ≡ hop_bytes o ++ rest
      → decode_hop_count flag buf pos ≡ ok (o, pos + length (hop_bytes o))
  unfolding decode_hop_count
  decode_hop_count_at true (some x) rest e h =
      let room : leb (length buf) pos ≡ false = ground (arith, length_at buf pos h) in
      rw (room, get_at buf pos h) refl
  decode_hop_count_at true none rest e h = absurd e
  decode_hop_count_at false (some x) rest e h = absurd e
  decode_hop_count_at false none rest e h = ap (λ (n : ℕ). ok (none, n)) (omega arith)

-- The decoder reads a header of version 1 in the standard's layout back, with the addresses and the
-- hop count that its control byte announces, networks of 16 bits, and what follows as the APDU.
pub decode-wire : (n : Npdu) → IsWellFormed n → decode (wire n) ≡ ok n
unfolding decode wire
decode-wire n w =
    let version_1 : (n.version == 1) ≡ true = ground (arith, w.version) in
    let d = optional_address n.destination in
    let s = optional_address n.source in
    let h = hop_bytes n.hop_count in
    let at_source = s ++ (h ++ n.apdu) in
    let at_hops = h ++ n.apdu in
    let buf = n.version ∷ control_byte n.control ∷ d ++ at_source in
    let p1 = drop_at_append buf 2 d at_source refl in
    let p2 = drop_at_append buf (2 + length d) s at_hops p1 in
    rw
      (
        le→ltb (length buf) 2 (omega arith),
        version_1,
        decode_control-control_byte n.control w.priority,
        decode_specifier_at buf 2 n.control.destination_specifier n.destination at_source
            w.destination w.destination_network refl,
        decode_specifier_at buf (2 + length d) n.control.source_specifier n.source at_hops w.source
            w.source_network p1,
        decode_hop_count_at buf (2 + length d + length s) n.control.destination_specifier
            n.hop_count n.apdu w.hop_count p2,
        slice_tail {E = BacnetError} buf (2 + length d + length s + length h) (
            omega
              (arith, length-append d at_source, length-append s at_hops, length-append h n.apdu)),
        drop_at_append buf (2 + length d + length s) h n.apdu p2,
      )
      refl

-- A local NPDU is decoded to version 1, no addresses, priority 0, the flag and the APDU it was made of.
pub decode-encode_local :
    (expecting_reply : Bool) (apdu : List ℕ)
    → decode (encode_local expecting_reply apdu)
      ≡ ok (record {
        version = 1;
        control = record {
          network_message = false;
          destination_specifier = false;
          source_specifier = false;
          expecting_reply = expecting_reply;
          priority = 0;
        };
        destination = none;
        source = none;
        hop_count = none;
        apdu = apdu;
      })
unfolding encode_local decode decode_control decode_specifier decode_hop_count
decode-encode_local true apdu =
    rw
      (
        slice_tail {E = BacnetError} (1 ∷ 4 ∷ apdu) 2 (omega arith),
        le→ltb (suc (suc (length apdu))) 2 (omega arith),
      )
      refl
decode-encode_local false apdu =
    rw
      (
        slice_tail {E = BacnetError} (1 ∷ 0 ∷ apdu) 2 (omega arith),
        le→ltb (suc (suc (length apdu))) 2 (omega arith),
      )
      refl

-- The decoder panics on every version 1 header whose control byte announces a destination and whose
-- buffer ends before the address of the length that it gives.
pub decode-panic_truncated :
    (ctrl_byte hi lo len : ℕ) (more : List ℕ)
    → has_bit ctrl_byte 5 ≡ true
    → length more < len
    → decode (1 ∷ ctrl_byte ∷ hi ∷ lo ∷ len ∷ more) ≡ panic
unfolding decode decode_control decode_specifier decode_address
decode-panic_truncated ctrl_byte hi lo len more h short = rw h (ground arith)
