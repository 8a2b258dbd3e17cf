-- ===== src/Stack/Router.antt =====
-- crates/bacnet-stack/src/router.rs: the routing table and its decisions. A broadcast's decisions
-- come in the order of the table; the program's order is unspecified.
pub mod Routes
use bacnet_sim.Prelude.{
  ℕ, Bool, true, false, ◌||◌, Option, none, some, List, [], ◌∷◌, ◌==◌, if◌then◌else◌, get_elem?,
}
use bacnet_sim.Prelude.Maps.{Map, lookup, insert, nat_key}
use bacnet_sim.Codec.Bvll.{SocketAddrV4}
use bacnet_sim.Codec.Npdu.{Npdu, NpduAddress}

-- crates/bacnet-types/src/lib.rs
pub data MacAddr : Type 0 where
  ip : SocketAddrV4 → MacAddr
  ms_tp : ℕ → MacAddr
  sc : List ℕ → MacAddr

pub record NetworkAddress : Type 0 where
  pub network_number : ℕ
  pub mac : MacAddr

pub data DropReason : Type 0 where
  hop_count_exceeded no_route loop_detected : DropReason

pub data RoutingDecision : Type 0 where
  local_deliver : RoutingDecision
  forward : NetworkAddress → Bool → RoutingDecision
  broadcast : List ℕ → RoutingDecision
  dropped : DropReason → RoutingDecision

pub record NpduRouter : Type 0 where
  pub routing_table : Map ℕ (ℕ × ℕ)
  pub local_network : ℕ

unfoldable pub new : ℕ → NpduRouter
new local_network = record { routing_table = []; local_network = local_network }

unfoldable pub add_route : NpduRouter → ℕ → ℕ → ℕ → NpduRouter
add_route r network port hop_count = record r {
  routing_table = insert r.routing_table network (port, hop_count);
}

unfoldable pub broadcast_all : Map ℕ (ℕ × ℕ) → List (ℕ × RoutingDecision)
broadcast_all [] = []
broadcast_all ((network, (port, hops)) ∷ rest) = (port, broadcast []) ∷ broadcast_all rest

abbrev pub is_exhausted : Option ℕ → Bool
is_exhausted (some hop) = hop == 0
is_exhausted none = false

abbrev pub first_or_zero : List ℕ → ℕ
first_or_zero [] = 0
first_or_zero (x ∷ rest) = x

unfoldable pub forward_or_drop : NpduAddress → Option (ℕ × ℕ) → ℕ × RoutingDecision
forward_or_drop dst (some (port, hops)) = (
  port,
  forward (record { network_number = dst.network; mac = ms_tp (first_or_zero dst.mac) }) true,
)
forward_or_drop dst none = (0, dropped no_route)

unfoldable pub route_to : NpduRouter → Npdu → Option NpduAddress → List (ℕ × RoutingDecision)
route_to r npdu none = (0, local_deliver) ∷ []
route_to r npdu (some dst) =
    if dst.network == 0xFFFF
    then broadcast_all r.routing_table
    else if dst.network == r.local_network || dst.network == 0
    then (0, local_deliver) ∷ []
    else if is_exhausted npdu.hop_count
    then (0, dropped hop_count_exceeded) ∷ []
    else forward_or_drop dst (lookup r.routing_table dst.network) ∷ []

-- The incoming port is not looked at.
unfoldable pub route : NpduRouter → Npdu → ℕ → List (ℕ × RoutingDecision)
route r npdu incoming_port = route_to r npdu npdu.destination
