-- ===== src/Codec/Sc.antt =====
-- crates/bacnet-codec/src/sc.rs: BACnet/SC frames. A virtual address is a list of six bytes.
pub mod RoundTrip
pub mod Safety
use bacnet_sim.Prelude.{
  ℕ, ◌+◌, ◌%◌, ◌/◌, ◌^◌, Bool, true, false, Option, none, some, List, [], ◌∷◌, ◌++◌, ltb, ◌==◌,
  if◌then◌else◌, length, Outcome, ok, err, ◌>>=◌, ◌>>◌, fail_if, index, slice, has_bit, be16,
  be16_bytes,
}
use bacnet_sim.Types.Error.{BacnetError, decode_error}

pub data ScFunction : Type 0 where
  bvlc_result encapsulated_npdu address_resolution address_resolution_ack : ScFunction
  advertisement advertisement_solicitation connect_request connect_accept : ScFunction
  disconnect_request disconnect_ack heartbeat heartbeat_ack secure_path : ScFunction

-- `self as u8`
unfoldable pub as_u8 : ScFunction → ℕ
as_u8 bvlc_result = 0x00
as_u8 encapsulated_npdu = 0x01
as_u8 address_resolution = 0x02
as_u8 address_resolution_ack = 0x03
as_u8 advertisement = 0x04
as_u8 advertisement_solicitation = 0x05
as_u8 connect_request = 0x06
as_u8 connect_accept = 0x07
as_u8 disconnect_request = 0x08
as_u8 disconnect_ack = 0x09
as_u8 heartbeat = 0x0A
as_u8 heartbeat_ack = 0x0B
as_u8 secure_path = 0x0C

pub record ScControlFlags : Type 0 where
  pub orig_vaddr_present : Bool
  pub dest_vaddr_present : Bool
  pub dest_options_present : Bool
  pub data_options_present : Bool

pub record ScFrame : Type 0 where
  pub function : ℕ
  pub control : ScControlFlags
  pub message_id : ℕ
  pub originating_vmac : Option (List ℕ)
  pub destination_vmac : Option (List ℕ)
  pub payload : List ℕ

abbrev is_some : Option (List ℕ) → Bool
is_some none = false
is_some (some v) = true

unfoldable pub encapsulated : ℕ → Option (List ℕ) → Option (List ℕ) → List ℕ → ScFrame
unfolding as_u8
encapsulated message_id orig dest npdu = record {
  function = as_u8 encapsulated_npdu;
  control = record {
    orig_vaddr_present = is_some orig;
    dest_vaddr_present = is_some dest;
    dest_options_present = false;
    data_options_present = false;
  };
  message_id = message_id;
  originating_vmac = orig;
  destination_vmac = dest;
  payload = npdu;
}

-- The four bits are set one by one; they do not overlap.
unfoldable pub control_byte : ScControlFlags → ℕ
control_byte c =
    (if c.orig_vaddr_present then 0x08 else 0)
    + (if c.dest_vaddr_present then 0x04 else 0)
    + (if c.dest_options_present then 0x02 else 0)
    + (if c.data_options_present then 0x01 else 0)

unfoldable pub encode_vmac : Bool → Option (List ℕ) → List ℕ
encode_vmac true (some vmac) = vmac
encode_vmac true none = []
encode_vmac false vmac = []

unfoldable pub encode : ScFrame → List ℕ
encode f =
    f.function
    ∷ control_byte f.control
    ∷ be16_bytes f.message_id (
        encode_vmac f.control.orig_vaddr_present f.originating_vmac
        ++ (encode_vmac f.control.dest_vaddr_present f.destination_vmac ++ f.payload))

unfoldable pub decode_control : ℕ → ScControlFlags
decode_control ctrl_byte = record {
  orig_vaddr_present = has_bit ctrl_byte 3;
  dest_vaddr_present = has_bit ctrl_byte 2;
  dest_options_present = has_bit ctrl_byte 1;
  data_options_present = has_bit ctrl_byte 0;
}

-- The block for one address; the code has it once for each of the two.
unfoldable pub decode_vmac : Bool → List ℕ → ℕ → Outcome BacnetError (Option (List ℕ) × ℕ)
decode_vmac true buf pos = do
  fail_if (ltb (length buf) (pos + 6)) decode_error
  vmac ← slice buf pos (pos + 6)
  ok (some vmac, pos + 6)
decode_vmac false buf pos = ok (none, pos)

unfoldable pub decode : List ℕ → Outcome BacnetError ScFrame
decode buf = do
  fail_if (ltb (length buf) 4) decode_error
  function ← index buf 0
  ctrl_byte ← index buf 1
  hi ← index buf 2
  lo ← index buf 3
  let control = decode_control ctrl_byte
  (orig, at_dest) ← decode_vmac control.orig_vaddr_present buf 4
  (dest, at_payload) ← decode_vmac control.dest_vaddr_present buf at_dest
  payload ← slice buf at_payload (length buf)
  ok (record {
    function = function;
    control = control;
    message_id = be16 hi lo;
    originating_vmac = orig;
    destination_vmac = dest;
    payload = payload;
  })
