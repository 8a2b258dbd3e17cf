-- ===== src/Stack/Router/Routes.antt =====
-- The decisions of a router that was given some routes.
pub mod Decisions
use bacnet_sim.Prelude.{
  ℕ, ◌≡◌, ◌≢◌, ◌⊎◌, ◌||◌, ◌++◌, Bool, refl, true, false, Option, none, some, List, [], ◌∷◌, ◌==◌,
  if◌then◌else◌, arith, Bool-cases, inl, inr,
}
use bacnet_sim.Prelude.Maps.{lookup, nat_key, lookup-insert}
use bacnet_sim.Codec.Npdu.{Npdu, NpduAddress}
use bacnet_sim.Stack.Router.{
  local_deliver, broadcast, broadcast_all, ms_tp, RoutingDecision, forward, dropped,
  hop_count_exceeded, no_route, NpduRouter, new, add_route, is_exhausted, first_or_zero,
  forward_or_drop, route_to, route,
}

pub record Route : Type 0 where
  pub network : ℕ
  pub port : ℕ
  pub hop_count : ℕ

-- The router that is given the routes, the last of the list first.
unfoldable pub with_routes : ℕ → List Route → NpduRouter
with_routes local_network [] = new local_network
with_routes local_network (r ∷ earlier) =
    add_route (with_routes local_network earlier) r.network r.port r.hop_count

-- The port of the newest route to a network.
unfoldable pub port_to : List Route → ℕ → Option ℕ
port_to [] network = none
port_to (r ∷ earlier) network =
    if r.network == network then some r.port else port_to earlier network

with_routes-local_network :
    (local_network : ℕ) (routes : List Route)
    → (with_routes local_network routes).local_network ≡ local_network
unfolding with_routes new add_route
with_routes-local_network local_network [] = refl
with_routes-local_network local_network (r ∷ earlier) =
    with_routes-local_network local_network earlier

abbrev pub is_in : ℕ → List ℕ → Bool
is_in n [] = false
is_in n (m ∷ ms) = m == n || is_in n ms

-- The networks that there are routes to, each once, the one first added first.
unfoldable pub networks : List Route → List ℕ
networks [] = []
networks (r ∷ earlier) =
    if is_in r.network (networks earlier)
    then networks earlier
    else networks earlier ++ (r.network ∷ [])

-- One broadcast for each network, out of its port.
pub data Broadcasts (port : ℕ → Option ℕ) : List ℕ → List (ℕ × RoutingDecision) → Type 0 where
  none_left : Broadcasts port [] []
  one_more :
      (network p : ℕ) (networks : List ℕ) (decisions : List (ℕ × RoutingDecision))
      → port network ≡ some p
      → Broadcasts port networks decisions
      → Broadcasts port (network ∷ networks) ((p, broadcast []) ∷ decisions)

-- A message for another network: no global broadcast, and neither the router's own network nor 0.
pub record IsForeign (local_network : ℕ) (npdu : Npdu) (dst : NpduAddress) : Type 0 where
  pub destination : npdu.destination ≡ some dst
  pub not_global : dst.network ≢ 0xFFFF
  pub not_own : dst.network ≢ local_network
  pub not_zero : dst.network ≢ 0

-- The first octet of an address, 0 if it is empty.
pub data FirstOctet : List ℕ → ℕ → Type 0 where
  empty : FirstOctet [] 0
  first : (b : ℕ) (rest : List ℕ) → FirstOctet (b ∷ rest) b

-- What is to be done with a message, by the routes that were added, the last one first.
pub data Decides (local_network : ℕ) (routes : List Route) (npdu : Npdu)
    : List (ℕ × RoutingDecision) → Type 0 where
  no_destination :
      npdu.destination ≡ none → Decides local_network routes npdu ((0, local_deliver) ∷ [])
  global :
      (dst : NpduAddress) (decisions : List (ℕ × RoutingDecision))
      → npdu.destination ≡ some dst
      → dst.network ≡ 0xFFFF
      → Broadcasts (port_to routes) (networks routes) decisions
      → Decides local_network routes npdu decisions
  own :
      (dst : NpduAddress)
      → npdu.destination ≡ some dst
      → dst.network ≢ 0xFFFF
      → (dst.network ≡ local_network) ⊎ (dst.network ≡ 0)
      → Decides local_network routes npdu ((0, local_deliver) ∷ [])
  used_up :
      (dst : NpduAddress)
      → IsForeign local_network npdu dst
      → npdu.hop_count ≡ some 0
      → Decides local_network routes npdu ((0, dropped hop_count_exceeded) ∷ [])
  unreachable :
      (dst : NpduAddress)
      → IsForeign local_network npdu dst
      → npdu.hop_count ≢ some 0
      → port_to routes dst.network ≡ none
      → Decides local_network routes npdu ((0, dropped no_route) ∷ [])
  onward :
      (dst : NpduAddress) (port octet : ℕ)
      → IsForeign local_network npdu dst
      → npdu.hop_count ≢ some 0
      → port_to routes dst.network ≡ some port
      → FirstOctet dst.mac octet
      → Decides local_network routes npdu
          ((port, forward (record { network_number = dst.network; mac = ms_tp octet }) true) ∷ [])
