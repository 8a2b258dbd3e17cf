-- ===== src/Codec/Npdu.antt =====
-- crates/bacnet-codec/src/npdu.rs: the network layer's header.
pub mod Wire
use bacnet_sim.Prelude.{
  ℕ, ◌+◌, Bool, true, false, not, Option, none, some, List, [], ◌∷◌, ◌++◌, ltb, leb, ◌==◌,
  if◌then◌else◌, length, Outcome, ok, err, panic, ◌>>=◌, ◌>>◌, fail_if, index, slice, be16, has_bit,
  low_bits,
}
use bacnet_sim.Types.Error.{BacnetError, decode_error}

pub record NpduControl : Type 0 where
  pub network_message : Bool
  pub destination_specifier : Bool
  pub source_specifier : Bool
  pub expecting_reply : Bool
  pub priority : ℕ

pub record NpduAddress : Type 0 where
  pub network : ℕ
  pub mac : List ℕ

pub record Npdu : Type 0 where
  pub version : ℕ
  pub control : NpduControl
  pub destination : Option NpduAddress
  pub source : Option NpduAddress
  pub hop_count : Option ℕ
  pub apdu : List ℕ

unfoldable pub encode_local : Bool → List ℕ → List ℕ
encode_local expecting_reply apdu = 0x01 ∷ (if expecting_reply then 0x04 else 0x00) ∷ apdu

unfoldable pub decode_control : ℕ → NpduControl
decode_control ctrl_byte = record {
  network_message = has_bit ctrl_byte 7;
  destination_specifier = has_bit ctrl_byte 5;
  source_specifier = has_bit ctrl_byte 3;
  expecting_reply = has_bit ctrl_byte 2;
  priority = low_bits ctrl_byte 2;
}

-- The block for one address; the code has it once for the destination and once for the source.
unfoldable pub decode_address : List ℕ → ℕ → Outcome BacnetError (NpduAddress × ℕ)
decode_address buf pos = do
  fail_if (ltb (length buf) (pos + 3)) decode_error
  hi ← index buf pos
  lo ← index buf (pos + 1)
  len ← index buf (pos + 2)
  mac ← slice buf (pos + 3) (pos + 3 + len)
  ok (record { network = be16 hi lo; mac = mac }, pos + 3 + len)

unfoldable pub decode_specifier : Bool → List ℕ → ℕ → Outcome BacnetError (Option NpduAddress × ℕ)
decode_specifier true buf pos = do (a, next) ← decode_address buf pos; ok (some a, next)
decode_specifier false buf pos = ok (none, pos)

unfoldable pub decode_hop_count : Bool → List ℕ → ℕ → Outcome BacnetError (Option ℕ × ℕ)
decode_hop_count true buf pos = do
  fail_if (leb (length buf) pos) decode_error
  h ← index buf pos
  ok (some h, pos + 1)
decode_hop_count false buf pos = ok (none, pos)

unfoldable pub decode : List ℕ → Outcome BacnetError Npdu
decode buf = do
  fail_if (ltb (length buf) 2) decode_error
  version ← index buf 0
  fail_if (not (version == 0x01)) decode_error
  ctrl_byte ← index buf 1
  let control = decode_control ctrl_byte
  (destination, at_source) ← decode_specifier control.destination_specifier buf 2
  (source, at_hops) ← decode_specifier control.source_specifier buf at_source
  (hop_count, at_apdu) ← decode_hop_count control.destination_specifier buf at_hops
  apdu ← slice buf at_apdu (length buf)
  ok (record {
    version = version;
    control = control;
    destination = destination;
    source = source;
    hop_count = hop_count;
    apdu = apdu;
  })
