-- ===== src/Network/Link.antt =====
-- The interfaces that are used, and the address of a link (network.go).
use wireguard_mesh.Prelude.{
  ℕ, ◌+◌, ◌-◌, ◌*◌, ◌/◌, ◌^◌, Bool, false, not, ◌&&◌, ◌||◌, ◌==◌, ltb, Option, none, some, List, [],
  ◌∷◌, any, length, if◌then◌else◌,
}
use wireguard_mesh.Netip.{
  Addr, Prefix, no_addr, is4, is4_in6, is_valid_prefix, is_global_unicast, is_link_local_unicast,
  is_loopback, same_addr, with_zone,
}
use wireguard_mesh.Network.State.{Interface, InterfaceState, LinkAddr, UdpNetwork, zone_of}

-- `slices.Contains`
abbrev pub has_name : List ℕ → ℕ → Bool
has_name names name = any (λ n. n == name) names

unfoldable pub select_interface : UdpNetwork → Interface → Bool
select_interface n iface =
    if not iface.up || iface.name == n.wg_name || has_name n.exclude iface.name
    then false
    else if not (length n.include == 0)
    then has_name n.include iface.name
    else not (iface.loopback || iface.point_to_point) && n.physical iface.name

abbrev pub usable_link_address : Addr → Bool
usable_link_address a =
    not (is4_in6 a) && (is_global_unicast a || is_link_local_unicast a || is_loopback a)

-- the address with all bits behind the prefix set
unfoldable pub broadcast_address : Prefix → Addr
broadcast_address p =
    if not (is_valid_prefix p) || not (is4 p.addr) || ltb 30 p.length then no_addr else record {
      bits = 32;
      value = p.addr.value / 2 ^ (32 - p.length) * 2 ^ (32 - p.length) + (2 ^ (32 - p.length) - 1);
      zone = 0;
    }

unfoldable pub addressed_link : Interface → Prefix → LinkAddr
addressed_link iface p = record {
  index = iface.index;
  name = iface.name;
  prefix = p;
  broadcast = if iface.broadcast then broadcast_address p else no_addr;
  multicast = iface.multicast;
}

-- the test of one prefix in `tunnelLink`
unfoldable pub is_tunnel : Interface → Addr → Prefix → Bool
is_tunnel iface address p =
    same_addr p.addr (with_zone 0 address)
    && usable_link_address address
    && (address.zone == 0 || address.zone == iface.name || address.zone == zone_of iface.index)

unfoldable pub find_tunnel : Interface → Addr → List Prefix → Option LinkAddr
find_tunnel iface address [] = none
find_tunnel iface address (p ∷ ps) =
    if is_tunnel iface address p
    then some (addressed_link iface p)
    else find_tunnel iface address ps

-- behind `readInterface`, whose error is none
unfoldable pub tunnel_link : Option InterfaceState → Addr → Option LinkAddr
tunnel_link none address = none
tunnel_link (some s) address = if s.iface.up then find_tunnel s.iface address s.prefixes else none
