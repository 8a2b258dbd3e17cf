-- ===== src/Codec/Bvll.antt =====
-- crates/bacnet-codec/src/bvll.rs: BACnet/IP link-layer frames. An address is its four octets, as
-- `ip().octets()` gives them, and its port.
pub mod RoundTrip
pub mod Panics
use bacnet_sim.Prelude.{
  ℕ, ◌+◌, Bool, not, List, [], ◌∷◌, ◌++◌, ltb, ◌==◌, if◌then◌else◌, length, Outcome, ok, err, panic,
  ◌>>=◌, ◌>>◌, fail_if, index, slice, as_u16, be16, be16_bytes,
}
use bacnet_sim.Types.Error.{BacnetError, decode_error}

pub record SocketAddrV4 : Type 0 where
  pub ip0 : ℕ
  pub ip1 : ℕ
  pub ip2 : ℕ
  pub ip3 : ℕ
  pub port : ℕ

pub record BdtEntry : Type 0 where
  pub address : SocketAddrV4
  pub mask : List ℕ

pub record FdtEntry : Type 0 where
  pub address : SocketAddrV4
  pub ttl : ℕ
  pub remaining : ℕ

pub data BvllFrame : Type 0 where
  bvlc_result : ℕ → BvllFrame
  write_broadcast_distribution_table : List BdtEntry → BvllFrame
  read_broadcast_distribution_table : BvllFrame
  read_broadcast_distribution_table_ack : List BdtEntry → BvllFrame
  forwarded_npdu : SocketAddrV4 → List ℕ → BvllFrame
  register_foreign_device : ℕ → BvllFrame
  read_foreign_device_table : BvllFrame
  read_foreign_device_table_ack : List FdtEntry → BvllFrame
  delete_foreign_device_table_entry : SocketAddrV4 → BvllFrame
  distribute_broadcast_to_network : List ℕ → BvllFrame
  original_unicast_npdu : List ℕ → BvllFrame
  original_broadcast_npdu : List ℕ → BvllFrame

-- The last arm, for the other variants, writes nothing behind the type byte.
unfoldable pub encode : BvllFrame → List ℕ
encode (original_unicast_npdu npdu) = 0x81 ∷ 0x0A ∷ be16_bytes (as_u16 (4 + length npdu)) npdu
encode (original_broadcast_npdu npdu) = 0x81 ∷ 0x0B ∷ be16_bytes (as_u16 (4 + length npdu)) npdu
encode (register_foreign_device ttl) = 0x81 ∷ 0x05 ∷ be16_bytes 6 (be16_bytes ttl [])
encode (forwarded_npdu a npdu) =
    0x81
    ∷ 0x04
    ∷ be16_bytes (as_u16 (4 + 6 + length npdu))
        (a.ip0 ∷ a.ip1 ∷ a.ip2 ∷ a.ip3 ∷ be16_bytes a.port npdu)
encode (bvlc_result result_code) = 0x81 ∷ 0x01 ∷ be16_bytes 6 (be16_bytes result_code [])
encode (distribute_broadcast_to_network npdu) =
    0x81 ∷ 0x09 ∷ be16_bytes (as_u16 (4 + length npdu)) npdu
encode _ = 0x81 ∷ []

-- The two bytes at `pos` of a payload.
abbrev be16_at : List ℕ → ℕ → Outcome BacnetError ℕ
be16_at buf pos = do a ← index buf pos; b ← index buf (pos + 1); ok (be16 a b)

unfoldable pub decode_forwarded : ℕ → List ℕ → Outcome BacnetError BvllFrame
decode_forwarded len payload = do
  fail_if (ltb len 10) decode_error
  fail_if (ltb (length payload) 6) decode_error
  ip0 ← index payload 0
  ip1 ← index payload 1
  ip2 ← index payload 2
  ip3 ← index payload 3
  port ← be16_at payload 4
  npdu ← slice payload 6 (length payload)
  ok (forwarded_npdu (record { ip0 = ip0; ip1 = ip1; ip2 = ip2; ip3 = ip3; port = port }) npdu)

-- The `match function` on the payload.
unfoldable pub decode_function : ℕ → ℕ → List ℕ → Outcome BacnetError BvllFrame
unfolding decode_forwarded
decode_function function len payload =
    if function == 0x01
    then (do
      fail_if (ltb (length payload) 2) decode_error
      code ← be16_at payload 0
      ok (bvlc_result code))
    else if function == 0x04
    then decode_forwarded len payload
    else if function == 0x05
    then (do
      fail_if (ltb (length payload) 2) decode_error
      ttl ← be16_at payload 0
      ok (register_foreign_device ttl))
    else if function == 0x09
    then ok (distribute_broadcast_to_network payload)
    else if function == 0x0A
    then ok (original_unicast_npdu payload)
    else if function == 0x0B
    then ok (original_broadcast_npdu payload)
    else err decode_error

unfoldable pub decode : List ℕ → Outcome BacnetError BvllFrame
decode buf = do
  fail_if (ltb (length buf) 4) decode_error
  type ← index buf 0
  fail_if (not (type == 0x81)) decode_error
  function ← index buf 1
  hi ← index buf 2
  lo ← index buf 3
  let len = be16 hi lo
  fail_if (ltb (length buf) len) decode_error
  payload ← slice buf 4 len
  decode_function function len payload
