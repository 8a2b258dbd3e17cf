-- ===== src/Runs/Networks.antt =====
-- The theorems on the ring, the router and the checksums at concrete networks.
use bacnet_sim.Prelude.{
  ℕ, ◌+◌, ◌≡◌, ◌≢◌, refl, true, false, none, some, List, [], ◌∷◌, ◌++◌, arith, panic, ◌%◌, lt→ltb,
}
use bacnet_sim.Codec.Mstp
use bacnet_sim.Codec.Mstp.{crc8}
use bacnet_sim.Codec.Mstp.Safety.{decode-ne-panic_mstp}
use bacnet_sim.Codec.Mstp.Detection.{crc8-changed}
use bacnet_sim.Codec.Npdu.{Npdu}
use bacnet_sim.Transport.MstpMaster.{MasterState, VirtualMstpMaster, token_frame, join, restart}
use bacnet_sim.Transport.MstpMaster.Bus.{broadcast, Bus, quiet, reads, tokens_below, read_frame}
use bacnet_sim.Transport.MstpMaster.OneToken.{Joined, started, one_token}
use bacnet_sim.Prelude.Maps.{nat_key, insert, lookup}
use bacnet_sim.Stack.Router
use bacnet_sim.Stack.Router.{ms_tp, forward, new, add_route, route_to, forward_or_drop}
use bacnet_sim.Stack.Router.Routes.{Route, with_routes, Decides}
use bacnet_sim.Stack.Router.Routes.Decisions.{route-Decides}

short_frame_is_safe : Mstp.decode (0x55 ∷ 0xFF ∷ 0x05 ∷ 1 ∷ 2 ∷ 0 ∷ 9 ∷ 0 ∷ []) ≢ panic
short_frame_is_safe = decode-ne-panic_mstp (0x55 ∷ 0xFF ∷ 0x05 ∷ 1 ∷ 2 ∷ 0 ∷ 9 ∷ 0 ∷ [])

changed_length_is_seen :
    crc8 ((5 ∷ 1 ∷ 2 ∷ 0 ∷ []) ++ (3 ∷ [])) ≢ crc8 ((5 ∷ 1 ∷ 2 ∷ 0 ∷ []) ++ (7 ∷ []))
changed_length_is_seen =
    crc8-changed 3 7 (5 ∷ 1 ∷ 2 ∷ 0 ∷ []) []
      (omega arith, (omega arith, (omega arith, (omega arith, (omega arith, tt))))) (omega arith)
      (λ e. omega (arith, e))

-- Three masters.
abbrev station : ℕ → VirtualMstpMaster
station a = record {
  address = a;
  max_master = 2;
  state = MasterState.initialize;
  next_station = (a + 1) % 3;
  token_received_count = 0;
  pending_tx = [];
}

station-Joined : Joined 2 station
unfolding Joined join
station-Joined a h = rw (lt→ltb (a + 1) 256 (omega arith)) refl

abbrev after_one_read : Bus
after_one_read = read_frame (started station) 0 (token_frame 0 0) []

one_token_after_one_read : tokens_below 3 after_one_read.unread ≡ 1
one_token_after_one_read = one_token 2 station after_one_read (omega arith) station-Joined (
    reads (started station) after_one_read 0 (token_frame 0 0) [] (omega arith)
      (unfold started restart broadcast in refl) (quiet after_one_read))

abbrev routes : List Route
routes =
    record { network = 5; port = 2; hop_count = 1 }
    ∷ record { network = 5; port = 1; hop_count = 3 }
    ∷ []

abbrev to_network_5 : Npdu
to_network_5 = record {
  version = 1;
  control = record {
    network_message = false;
    destination_specifier = true;
    source_specifier = false;
    expecting_reply = false;
    priority = 0;
  };
  destination = some (record { network = 5; mac = 9 ∷ [] });
  source = none;
  hop_count = some 3;
  apdu = [];
}

newest_route_is_taken :
    Decides 1 routes to_network_5
      ((2, forward (record { network_number = 5; mac = ms_tp 9 }) true) ∷ [])
unfolding Router.route route_to with_routes new add_route insert lookup forward_or_drop
newest_route_is_taken = route-Decides 1 routes to_network_5 0
