-- ===== src/Network/Send.antt =====
-- One packet that is sent, and one that is received (`Send` and `receive` in network.go).
use wireguard_mesh.Prelude.{
  ℕ, Bool, true, false, not, ◌&&◌, ◌||◌, ◌==◌, leb, ltb, Option, none, some, List, [], ◌∷◌, ◌++◌,
  length, if◌then◌else◌,
}
use wireguard_mesh.Netip.{
  Addr, AddrPort, is4, is6, is4_in6, is_valid, is_valid_prefix, is_unspecified,
  is_link_local_unicast, is_link_local_multicast, unmap, with_zone,
}
use wireguard_mesh.Network.State.{LinkAddr, Packet, UdpNetwork, zone_of, network_datagram_limit}
use wireguard_mesh.Network.Link.{usable_link_address}

-- `WriteTo` on the socket of the source's family
pub record Datagram : Type 0 where
  pub bytes : List ℕ
  pub source : Addr
  pub if_index : ℕ
  pub destination : AddrPort

abbrev pub is_same : Bool → Bool → Bool
is_same true b = b
is_same false b = not b

-- the first check of `Send`: the packet, the destination, the link, and their families
abbrev pub is_sized : List ℕ → Bool
is_sized bytes = not (length bytes == 0) && leb (length bytes) network_datagram_limit

abbrev pub is_target : AddrPort → Bool
is_target destination =
    not (is_unspecified destination.addr)
    && not (is4_in6 destination.addr)
    && is_valid destination.addr
    && not (destination.port == 0)

abbrev pub is_source : LinkAddr → Bool
is_source link =
    is_valid_prefix link.prefix && usable_link_address link.prefix.addr && not (link.index == 0)

unfoldable pub is_sendable : List ℕ → AddrPort → LinkAddr → Bool
is_sendable bytes destination link =
    is_sized bytes
    && is_target destination
    && is_source link
    && is_same (is4 link.prefix.addr) (is4 destination.addr)

unfoldable pub zone_agrees : Addr → LinkAddr → Bool
zone_agrees target link =
    target.zone == 0 || target.zone == link.name || target.zone == zone_of link.index

-- the address for the socket, on Linux and elsewhere
unfoldable pub socket_addr : Bool → AddrPort → LinkAddr → AddrPort
socket_addr linux destination link =
    if is6 destination.addr && linux
    then record destination { addr = with_zone 0 destination.addr }
    else if is6 destination.addr
        && (is_link_local_unicast destination.addr || is_link_local_multicast destination.addr)
    then record destination { addr = with_zone (zone_of link.index) destination.addr }
    else destination

unfoldable pub has_socket : UdpNetwork → Addr → Bool
has_socket n target = is4 target && n.v4 || is6 target && n.v6

-- `Send` up to the socket, none for an error; `closed` is `n.done`
unfoldable pub send : UdpNetwork → Bool → Bool → List ℕ → AddrPort → LinkAddr → Option Datagram
send n linux closed bytes destination link =
    if closed
      || not (is_sendable bytes destination link)
      || not (zone_agrees destination.addr link)
      || not (has_socket n destination.addr)
    then none
    else some (record {
      bytes = bytes;
      source = link.prefix.addr;
      if_index = link.index;
      destination = socket_addr linux destination link;
    })

-- a read from a socket; `dst` is none when there is no such control message
pub record Read : Type 0 where
  pub bytes : List ℕ
  pub source : AddrPort
  pub dst : Option Addr
  pub index : ℕ

abbrev pub source_addr : Addr → ℕ → Addr
source_addr a index =
    if is_link_local_unicast (unmap a) && is6 (unmap a)
    then with_zone (zone_of index) (unmap a)
    else unmap a

-- the packet of one read, if it is not dropped
unfoldable pub received : Read → Option Packet
received r = elim r.dst [
  | none ↦ none
  | some destination ↦
      if ltb network_datagram_limit (length r.bytes) || r.index == 0
      then none
      else some (record {
        bytes = r.bytes;
        source = record r.source { addr = source_addr r.source.addr r.index };
        destination = unmap destination;
        if_index = r.index;
      })
]

-- the channel, which drops what it has no room for
unfoldable pub deliver : ℕ → List Packet → Option Packet → List Packet
deliver capacity queue none = queue
deliver capacity queue (some p) = if ltb (length queue) capacity then queue ++ (p ∷ []) else queue
