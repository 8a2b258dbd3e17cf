-- ===== src/Stack/Addresses.antt =====
-- crates/bacnet-types/src/lib.rs: equality of network addresses, as `derive(PartialEq)` has it.
use bacnet_sim.Prelude.{◌≡◌, ◌↔◌, Bool, true, false, ◌&&◌, arith, ◌==◌}
use bacnet_sim.Prelude.Maps.{Key, same_bytes, same_bytes_iff}
use bacnet_sim.Codec.Bvll.{SocketAddrV4}
use bacnet_sim.Stack.Router.{NetworkAddress, MacAddr, ip, ms_tp, sc}

unfoldable pub same_socket : SocketAddrV4 → SocketAddrV4 → Bool
same_socket a b =
    a.ip0 == b.ip0 && a.ip1 == b.ip1 && a.ip2 == b.ip2 && a.ip3 == b.ip3 && a.port == b.port

unfoldable pub same_mac : MacAddr → MacAddr → Bool
same_mac (ip a) (ip b) = same_socket a b
same_mac (ms_tp a) (ms_tp b) = a == b
same_mac (sc a) (sc b) = same_bytes a b
same_mac _ _ = false

same_socket_iff : (a b : SocketAddrV4) → (same_socket a b ≡ true) ↔ (a ≡ b)
unfolding same_socket
same_socket_iff a b = ground arith

same_mac_iff : (a b : MacAddr) → (same_mac a b ≡ true) ↔ (a ≡ b)
unfolding same_mac
same_mac_iff (ip a) (ip b) = ground (arith, same_socket_iff a b)
same_mac_iff (ms_tp a) (ms_tp b) = ground arith
same_mac_iff (sc a) (sc b) = ground (arith, same_bytes_iff a b)
same_mac_iff (ip a) (ms_tp b) = (λ h. cc, λ h. cc)
same_mac_iff (ip a) (sc b) = (λ h. cc, λ h. cc)
same_mac_iff (ms_tp a) (ip b) = (λ h. cc, λ h. cc)
same_mac_iff (ms_tp a) (sc b) = (λ h. cc, λ h. cc)
same_mac_iff (sc a) (ip b) = (λ h. cc, λ h. cc)
same_mac_iff (sc a) (ms_tp b) = (λ h. cc, λ h. cc)

unfoldable pub same_address : NetworkAddress → NetworkAddress → Bool
same_address a b = a.network_number == b.network_number && same_mac a.mac b.mac

pub same_address_iff : (a b : NetworkAddress) → (same_address a b ≡ true) ↔ (a ≡ b)
unfolding same_address
same_address_iff a b = ground (arith, same_mac_iff a.mac b.mac)

instance abbrev pub address_key : Key NetworkAddress
address_key = record { same = same_address; same_iff = same_address_iff }
