-- ===== src/Runs/Hub.antt =====
-- The theorems on the hub at a hub with one node.
use bacnet_sim.Prelude.{ℕ, ◌≡◌, refl, none, some, List, [], ◌∷◌, ◌++◌, arith, if◌then◌else◌, ◌==◌}
use bacnet_sim.Prelude.Maps.{nat_key, bytes_key, same_bytes, lookup}
use bacnet_sim.Codec.Sc.{ScFrame, encode, encapsulated}
use bacnet_sim.Transport.ScHub.{ScHub, NodeHandle, start, on_message}
use bacnet_sim.Transport.ScHub.Routing.{
  IsFor, after_reconnect, on_message-delivers, reconnected_node-lost,
}

abbrev vmac : List ℕ
vmac = 1 ∷ 2 ∷ 3 ∷ 4 ∷ 5 ∷ 6 ∷ []

abbrev node : NodeHandle
node = record { node_id = 9 ∷ []; vmac = vmac; tx = 2 }

-- One frame waits for the node.
abbrev busy_hub : ScHub
busy_hub = record { nodes = (vmac, node) ∷ []; channels = (2, (7 ∷ []) ∷ []) ∷ [] }

abbrev for_node : ScFrame
for_node = encapsulated 77 none (some vmac) (0x01 ∷ 0x00 ∷ [])

for_node-IsFor : IsFor vmac for_node
unfolding encapsulated
for_node-IsFor = record {
  whole = record { orig = tt; dest = refl; id = omega arith };
  carries = refl;
  dest = refl;
}

frame_waits_behind :
    (lookup (on_message busy_hub [] (encode for_node)).channels 2 ≡ (
      if 2 == 2
      then some (((7 ∷ []) ∷ []) ++ (encode for_node ∷ []))
      else lookup busy_hub.channels 2))
    × ((on_message busy_hub [] (encode for_node)).nodes ≡ busy_hub.nodes)
unfolding lookup same_bytes
frame_waits_behind =
    on_message-delivers busy_hub [] vmac for_node node ((7 ∷ []) ∷ []) 2 for_node-IsFor refl refl
      (omega arith)

node_is_cut_off :
    (lookup (after_reconnect start 2 3 (9 ∷ []) vmac).channels 3 ≡ some [])
    × (on_message (after_reconnect start 2 3 (9 ∷ []) vmac) [] (encode for_node)
        ≡ after_reconnect start 2 3 (9 ∷ []) vmac)
node_is_cut_off =
    reconnected_node-lost start 2 3 (9 ∷ []) vmac [] for_node (λ e. omega (arith, e)) for_node-IsFor
