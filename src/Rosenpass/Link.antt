-- ===== src/Rosenpass/Link.antt =====
-- The endpoint of a Rosenpass peer has to be on the link (`rosenpassOnLink` in rosenpass_linux.go).
use wireguard_mesh.Prelude.{
  Bool, false, not, ◌&&◌, ◌||◌, ◌==◌, leb, Option, none, some, List, any, if◌then◌else◌,
}
use wireguard_mesh.Netip.{
  Addr, Prefix, no_addr, is4, is6, is_valid_prefix, is_loopback, is_link_local_unicast,
  contains_addr, masked, same_addr, same_prefix, with_zone,
}
use wireguard_mesh.Network.State.{Interface, zone_of}
use wireguard_mesh.Network.Link.{usable_link_address, broadcast_address}
use wireguard_mesh.Rosenpass.State.{RosenpassRequest}

-- the interface is the one of the link, and it is a usable one
abbrev pub is_interface : RosenpassRequest → Interface → Bool
is_interface r iface =
    not (iface.index == 0)
    && r.link.index == iface.index
    && r.link.name == iface.name
    && iface.up
    && not (iface.loopback || iface.point_to_point)

-- the link's prefix is an address of the interface
abbrev pub is_assigned : Prefix → List Prefix → Bool
is_assigned p prefixes =
    is_valid_prefix p
    && not (p.length == 0)
    && any (same_prefix p) prefixes
    && usable_link_address p.addr
    && not (is_loopback p.addr)

-- a unicast neighbour
unfoldable pub is_neighbour : Prefix → Addr → Bool
is_neighbour p remote =
    usable_link_address remote
    && not (is_loopback remote)
    && contains_addr p remote
    && not (same_addr remote p.addr)
    && not (same_addr remote (broadcast_address p))
    && not (is4 p.addr && leb p.length 30 && same_addr remote (masked p).addr)

abbrev pub is_zone : Addr → Interface → Bool
is_zone address iface =
    address.zone == 0
    || not (is4 address) && (address.zone == iface.name || address.zone == zone_of iface.index)

abbrev pub scoped : Addr → Interface → Addr
scoped remote iface =
    if is6 remote && is_link_local_unicast remote
    then with_zone (zone_of iface.index) remote
    else remote

unfoldable pub rosenpass_on_link :
    RosenpassRequest → Interface → List Prefix → Option RosenpassRequest
rosenpass_on_link r iface prefixes =
    if is_interface r iface
      && is_assigned r.link.prefix prefixes
      && is_neighbour r.link.prefix (with_zone 0 r.address)
      && is_zone r.address iface
    then some (record r {
      address = scoped (with_zone 0 r.address) iface;
      link = record {
        index = iface.index;
        name = iface.name;
        prefix = r.link.prefix;
        broadcast = no_addr;
        multicast = false;
      };
    })
    else none
