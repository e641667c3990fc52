-- ===== src/Network/Tests.antt =====
-- A host with one interface, and the theorems of the transport at work.
use wireguard_mesh.Prelude.{◌≡◌, refl, true, false, some, List, [], ◌∷◌}
use wireguard_mesh.Netip.{AddrPort, Prefix, no_addr}
use wireguard_mesh.Network.State.{Interface, InterfaceState, LinkAddr, Membership, UdpNetwork}
use wireguard_mesh.Network.Link.{select_interface, broadcast_address, addressed_link}
use wireguard_mesh.Network.Send.{Datagram, is_sendable, zone_agrees, socket_addr, has_socket, send}
use wireguard_mesh.Network.Members.{has}
use wireguard_mesh.Network.Links.{
  Joined, want_groups, scan_prefixes, scan, leave_one, leave_stale, join_reported, join_one,
  join_missing, update, links,
}
use wireguard_mesh.Network.Settled.{settled}
use wireguard_mesh.Network.Memberships.{Current, links-Joined}
use wireguard_mesh.Network.Sent.{Sendable, send-Sendable}

abbrev network : UdpNetwork
network = record {
  include = [];
  exclude = [];
  wg_name = 4;
  groups = record { bits = 32; value = 0xe00000fb; zone = 0 } ∷ [];
  v4 = true;
  v6 = false;
  physical = λ _. true;
  sorted = λ ps. ps;
}

abbrev lan : Prefix
lan = record { addr = record { bits = 32; value = 0xc0a80105; zone = 0 }; length = 24 }

abbrev ethernet : Interface
ethernet = record {
  index = 2;
  name = 6;
  up = true;
  loopback = false;
  point_to_point = false;
  broadcast = true;
  multicast = true;
}

abbrev host : List InterfaceState
host = record { iface = ethernet; prefixes = lan ∷ [] } ∷ []

abbrev other : Membership
other = record { index = 3; name = 8; group = record { bits = 32; value = 0xe00000fb; zone = 0 } }

abbrev group : Membership
group = record { index = 2; name = 6; group = record { bits = 32; value = 0xe00000fb; zone = 0 } }

abbrev after : Joined
after =
    (links network (λ _. true) false (some host)
      (record { joined = (other, lan ∷ []) ∷ []; answered = 0; group_calls = [] })).1

links_run : after.joined ≡ (group, lan ∷ []) ∷ []
unfolding links update scan scan_prefixes want_groups select_interface addressed_link
    broadcast_address leave_one leave_stale join_one join_missing join_reported
links_run = refl

links-Joined_example :
    Current (scan network host ([], [])).1 after.joined
    × ((k : Membership) → has k (scan network host ([], [])).1 ≡ true → settled k after ≡ true)
links-Joined_example = links-Joined network (λ _. true) host ((other, lan ∷ []) ∷ []) 0

abbrev link : LinkAddr
link = record { index = 2; name = 6; prefix = lan; broadcast = no_addr; multicast = true }

abbrev peer : AddrPort
peer = record { addr = record { bits = 32; value = 0xc0a80107; zone = 0 }; port = 51821 }

abbrev datagram : Datagram
datagram = record { bytes = 1 ∷ []; source = lan.addr; if_index = 2; destination = peer }

send-Sendable_example : (false ≡ false) × Sendable network (1 ∷ []) peer link datagram
unfolding send is_sendable zone_agrees socket_addr has_socket
send-Sendable_example = send-Sendable network true false (1 ∷ []) peer link datagram refl
