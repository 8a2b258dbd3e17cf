-- ===== src/Transport/ScHub.antt =====
-- crates/bacnet-transport/src/sc/hub.rs: the hub that BACnet/SC nodes connect to. A connection has a
-- number in the place of its socket. Its channel, of 64 frames, is the list of the frames that wait
-- to be written to it. Each operation here is one step of a connection's task.
pub mod Routing
use bacnet_sim.Prelude.{
  ℕ, zero, suc, ◌+◌, ◌-◌, ◌*◌, ◌/◌, ◌%◌, ◌^◌, ◌≤◌, ◌<◌, ◌≡◌, ◌≢◌, ◌↔◌, ◌⊎◌, inl, inr, refl, sym, ap,
  ◌∙◌, Bool, true, false, not, ◌&&◌, ◌||◌, Option, none, some, List, [], ◌∷◌, ◌++◌, map, min, max,
  arith, if◌then◌else◌, ltb, leb, ltb→lt, ◌==◌, ==_iff, lt→ltb, le→ltb, le→leb, Bool-cases,
  Option-cases, length, get_elem?, take, drop, take-append, drop-append, length-append, length-drop,
  get_at, get_past, get_at_add, drop_at_suc, drop_at, drop_at_append, length_at, length_at_append,
  slice_tail, slice_at, take_all, Outcome, ok, err, panic, ◌>>=◌, ◌>>◌, fail_if, ok_or, or_panic,
  index, slice, shr, low_bits, has_bit, as_u8, as_u16, as_u32, be32, be32_bytes, IsU32, append_nil,
  replicate, set, All, bit_or-add,
}
use bacnet_sim.Prelude.Maps.{Map, nat_key, bytes_key, lookup, insert, remove}
use bacnet_sim.Types.Error.{BacnetError, decode_error}
use bacnet_sim.Codec.Sc.{
  ScFrame, ScFunction, ScControlFlags, as_u8 as function_code, encode, decode,
}

pub record NodeHandle : Type 0 where
  pub node_id : List ℕ
  pub vmac : List ℕ
  pub tx : ℕ

-- A connection that has ended has no channel. The channel of one that no node refers to any more is
-- closed, with the drop of its only sender; nothing is put in it, since frames go by a node's number.
pub record ScHub : Type 0 where
  pub nodes : Map (List ℕ) NodeHandle
  pub channels : Map ℕ (List (List ℕ))

unfoldable pub start : ScHub
start = record { nodes = []; channels = [] }

-- The payload of a ConnectRequest: the node's id, 16 bytes, and its virtual address, 6 bytes.
unfoldable pub node_of : List ℕ → Outcome BacnetError (List ℕ × List ℕ)
node_of payload = do
  fail_if (ltb (length payload) 22) decode_error
  node_id ← slice payload 0 16
  vmac ← slice payload 16 22
  ok (node_id, vmac)

-- One message before the handshake is over; `none` waits for the next one.
unfoldable pub on_greeting : List ℕ → Outcome BacnetError (Option (List ℕ × List ℕ))
on_greeting data_bytes = do
  frame ← decode data_bytes
  if frame.function == function_code ScFunction.connect_request
      then (do node ← node_of frame.payload; ok (some node))
      else ok none

abbrev pub no_control : ScControlFlags
no_control = record {
  orig_vaddr_present = false;
  dest_vaddr_present = false;
  dest_options_present = false;
  data_options_present = false;
}

-- A frame of the hub's own, with nothing but its function and message id.
unfoldable pub bare : ScFunction → ℕ → ScFrame
bare function id = record {
  function = function_code function;
  control = no_control;
  message_id = id;
  originating_vmac = none;
  destination_vmac = none;
  payload = [];
}

-- The answer to a handshake, and the node's registration.
abbrev pub accept : List ℕ
accept = encode (bare ScFunction.connect_accept 0)

unfoldable pub connect : ScHub → ℕ → List ℕ → List ℕ → ScHub
connect hub connection node_id vmac = record {
  nodes = insert hub.nodes vmac (record { node_id = node_id; vmac = vmac; tx = connection });
  channels = insert hub.channels connection [];
}

abbrev pub capacity : ℕ
capacity = 64

-- `try_send`: nothing happens where the channel is closed or full.
unfoldable pub put : ScHub → ℕ → Option (List (List ℕ)) → List ℕ → ScHub
put hub connection none bytes = hub
put hub connection (some waiting) bytes =
    if ltb (length waiting) capacity
    then record hub { channels = insert hub.channels connection (waiting ++ (bytes ∷ [])) }
    else hub

unfoldable pub try_send : ScHub → ℕ → List ℕ → ScHub
try_send hub connection bytes = put hub connection (lookup hub.channels connection) bytes

unfoldable pub send_to : ScHub → Option NodeHandle → List ℕ → ScHub
send_to hub none bytes = hub
send_to hub (some handle) bytes = try_send hub handle.tx bytes

unfoldable pub forward : ScHub → Option (List ℕ) → List ℕ → ScHub
forward hub none data_bytes = hub
forward hub (some dest_vmac) data_bytes = send_to hub (lookup hub.nodes dest_vmac) data_bytes

-- What was decoded from a message of the node with the address; the decoder does not panic.
unfoldable pub on_decoded : ScHub → List ℕ → List ℕ → Outcome BacnetError ScFrame → ScHub
on_decoded hub vmac data_bytes (ok frame) =
    if frame.function == function_code ScFunction.encapsulated_npdu
    then forward hub frame.destination_vmac data_bytes
    else if frame.function == function_code ScFunction.heartbeat
    then send_to hub (lookup hub.nodes vmac)
        (encode (bare ScFunction.heartbeat_ack frame.message_id))
    else hub
on_decoded hub vmac data_bytes (err e) = hub
on_decoded hub vmac data_bytes panic = hub

unfoldable pub on_message : ScHub → List ℕ → List ℕ → ScHub
on_message hub vmac data_bytes = on_decoded hub vmac data_bytes (decode data_bytes)

-- The end of a connection: its node is taken out of the registry, and its channel is closed.
unfoldable pub disconnect : ScHub → ℕ → List ℕ → ScHub
disconnect hub connection vmac = record {
  nodes = remove hub.nodes vmac;
  channels = remove hub.channels connection;
}

unfoldable pub connected_nodes : Map (List ℕ) NodeHandle → List (List ℕ)
connected_nodes [] = []
connected_nodes ((vmac, handle) ∷ nodes) = handle.node_id ∷ connected_nodes nodes
