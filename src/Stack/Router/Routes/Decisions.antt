-- ===== src/Stack/Router/Routes/Decisions.antt =====
-- The decisions of router.rs for any message.
use bacnet_sim.Prelude.{
  ℕ, ◌≡◌, ◌≢◌, ◌||◌, ◌++◌, refl, ap, ◌∙◌, true, Option, none, some, List, [], ◌∷◌, ◌==◌,
  if◌then◌else◌, arith, Bool-cases, inl, inr, ==_iff,
}
use bacnet_sim.Prelude.Maps.{Map, lookup, insert, nat_key, lookup-insert, Unique, insert-Unique}
use bacnet_sim.Codec.Npdu.{Npdu, NpduAddress}
use bacnet_sim.Stack.Router.{
  broadcast_all, dropped, hop_count_exceeded, new, add_route, is_exhausted, first_or_zero,
  forward_or_drop, route_to, route,
}
use bacnet_sim.Stack.Router.Routes.{
  Route, with_routes, port_to, is_in, networks, Broadcasts, none_left, one_more, IsForeign,
  FirstOctet, empty, first, Decides, no_destination, global, own, used_up, unreachable, onward,
}

-- The table of a router that was given the routes.
abbrev table : ℕ → List Route → Map ℕ (ℕ × ℕ)
table local_network routes = (with_routes local_network routes).routing_table

with_routes-local_network :
    (local_network : ℕ) (routes : List Route)
    → (with_routes local_network routes).local_network ≡ local_network
unfolding with_routes new add_route
with_routes-local_network local_network [] = refl
with_routes-local_network local_network (r ∷ earlier) =
    with_routes-local_network local_network earlier

abbrev port_in : Option (ℕ × ℕ) → Option ℕ
port_in none = none
port_in (some entry) = some entry.0

port_to-table :
    (local_network : ℕ) (routes : List Route) (network : ℕ)
    → port_to routes network ≡ port_in (lookup (table local_network routes) network)
unfolding with_routes new add_route port_to lookup
port_to-table local_network [] network = refl
port_to-table local_network (r ∷ earlier) network =
    rw lookup-insert (elim (Bool-cases (r.network == network)) [
      | inl here ↦ rw here refl
      | inr other ↦ rw other (port_to-table local_network earlier network)
    ])

abbrev keys : Map ℕ (ℕ × ℕ) → List ℕ
keys [] = []
keys ((network, entry) ∷ m) = network ∷ keys m

keys-insert :
    (m : Map ℕ (ℕ × ℕ)) (network : ℕ) (entry : ℕ × ℕ)
    → keys (insert m network entry)
      ≡ (if is_in network (keys m) then keys m else keys m ++ (network ∷ []))
unfolding insert
keys-insert [] network entry = refl
keys-insert ((n, e) ∷ m) network entry = ground (arith, keys-insert m network entry)

keys-table :
    (local_network : ℕ) (routes : List Route) → keys (table local_network routes) ≡ networks routes
unfolding with_routes new add_route networks
keys-table local_network [] = refl
keys-table local_network (r ∷ earlier) =
    keys-insert (table local_network earlier) r.network (r.port, r.hop_count)
    ∙ rw (keys-table local_network earlier) refl

table-Unique : (local_network : ℕ) (routes : List Route) → Unique (table local_network routes)
unfolding with_routes new add_route
table-Unique local_network [] = tt
table-Unique local_network (r ∷ earlier) =
    insert-Unique (table local_network earlier) r.network (r.port, r.hop_count)
      (table-Unique local_network earlier)

broadcast_all-Broadcasts :
    (port : ℕ → Option ℕ) (m : Map ℕ (ℕ × ℕ))
    → Unique m
    → ((n p h : ℕ) → lookup m n ≡ some (p, h) → port n ≡ some p)
    → Broadcasts port (keys m) (broadcast_all m)
unfolding broadcast_all lookup
broadcast_all-Broadcasts port [] u known = none_left
broadcast_all-Broadcasts port ((n, (p, h)) ∷ m) (fresh, u) known =
    let itself : (n == n) ≡ true = (==_iff n n).1 refl in
    one_more n p (keys m) (broadcast_all m) (known n p h (rw itself refl))
      (broadcast_all-Broadcasts port m u (λ k q j e. known k q j (behind k q j e)))
  where
    behind :
        (k q j : ℕ)
        → lookup m k ≡ some (q, j)
        → (if n == k then some (p, h) else lookup m k) ≡ some (q, j)
    behind k q j e = elim (Bool-cases (n == k)) [
      | inl same ↦ (let equal : n ≡ k = (==_iff n k).0 same in cc)
      | inr other ↦ rw other e
    ]

first_or_zero-FirstOctet : (mac : List ℕ) → FirstOctet mac (first_or_zero mac)
first_or_zero-FirstOctet [] = empty
first_or_zero-FirstOctet (b ∷ rest) = first b rest

module _ (local_network : ℕ) (routes : List Route) (npdu : Npdu) where
  handed_on :
      (dst : NpduAddress) (entry : Option (ℕ × ℕ))
      → IsForeign local_network npdu dst
      → npdu.hop_count ≢ some 0
      → port_to routes dst.network ≡ port_in entry
      → Decides local_network routes npdu (forward_or_drop dst entry ∷ [])
  unfolding forward_or_drop
  handed_on dst none foreign left e = unreachable dst foreign left e
  handed_on dst (some (port, hops)) foreign left e =
      onward dst port (first_or_zero dst.mac) foreign left e (first_or_zero-FirstOctet dst.mac)

  foreign_decided :
      (dst : NpduAddress) (hop_count : Option ℕ)
      → IsForeign local_network npdu dst
      → npdu.hop_count ≡ hop_count
      → Decides local_network routes npdu (
          if is_exhausted hop_count
          then (0, dropped hop_count_exceeded) ∷ []
          else forward_or_drop dst (lookup (table local_network routes) dst.network) ∷ [])
  foreign_decided dst none foreign e =
      handed_on dst _ foreign (λ used. cc) (port_to-table local_network routes dst.network)
  foreign_decided dst (some hop) foreign e = elim (Bool-cases (hop == 0)) [
    | inl zero_left ↦
        rw zero_left (used_up dst foreign (rw e (ap some ((==_iff hop 0).0 zero_left))))
    | inr left ↦ rw left (
        handed_on dst _ foreign (λ used. ground (arith, left, e, used))
          (port_to-table local_network routes dst.network))
  ]

  route_to-Decides :
      (destination : Option NpduAddress)
      → npdu.destination ≡ destination
      → Decides local_network routes npdu
          (route_to (with_routes local_network routes) npdu destination)
  unfolding route_to
  route_to-Decides none e = no_destination e
  route_to-Decides (some dst) e =
      rw (with_routes-local_network local_network routes)
        (elim (Bool-cases (dst.network == 0xFFFF)) [
          | inl all ↦ rw all (
              global dst _ e ((==_iff dst.network 0xFFFF).0 all) (
                rw⁻¹ (keys-table local_network routes) (
                  broadcast_all-Broadcasts (port_to routes) (table local_network routes)
                    (table-Unique local_network routes)
                    (λ n p h found. port_to-table local_network routes n ∙ ap port_in found))))
          | inr not_all ↦ elim (Bool-cases (dst.network == local_network || dst.network == 0)) [
            | inl mine ↦
                rw (not_all, mine) (own dst e (ground (arith, not_all)) (ground (arith, mine)))
            | inr others ↦
                rw (not_all, others)
                  (foreign_decided dst npdu.hop_count
                    (record {
                      destination = e;
                      not_global = ground (arith, not_all);
                      not_own = ground (arith, others);
                      not_zero = ground (arith, others);
                    })
                    refl)
          ]
        ])

-- Whatever routes were added, every message is decided: it is delivered locally where it has no
-- destination or one of network 0 or of the router's own; it is sent out once for each network that
-- has a route, by the port of the newest route to it, where it is a global broadcast; and otherwise
-- it is dropped if its hop count is 0 or there is no route to its network, and else leaves once, by
-- the port of the newest route, with its hop count to be decremented, for the station of that
-- network whose MS/TP address is the first octet of the destination's, or 0.
pub route-Decides :
    (local_network : ℕ) (routes : List Route) (npdu : Npdu) (incoming_port : ℕ)
    → Decides local_network routes npdu
        (route (with_routes local_network routes) npdu incoming_port)
unfolding route
route-Decides local_network routes npdu incoming_port =
    route_to-Decides local_network routes npdu npdu.destination refl
