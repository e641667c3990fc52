-- ===== src/Network/State.antt =====
-- The data of the transport (network.go). A name or a zone is the number of its text: 0 for "", 2 * n + 1 for
-- the decimal text of n, and another even number for any other text.
use wireguard_mesh.Prelude.{ℕ, ◌+◌, ◌*◌, Bool, List}
use wireguard_mesh.Netip.{Addr, AddrPort, Prefix}

-- `net.Interface` with its flags
pub record Interface : Type 0 where
  pub index : ℕ
  pub name : ℕ
  pub up : Bool
  pub loopback : Bool
  pub point_to_point : Bool
  pub broadcast : Bool
  pub multicast : Bool

pub record InterfaceState : Type 0 where
  pub iface : Interface
  pub prefixes : List Prefix

-- `prefix` keeps the address itself
pub record LinkAddr : Type 0 where
  pub index : ℕ
  pub name : ℕ
  pub prefix : Prefix
  pub broadcast : Addr
  pub multicast : Bool

pub record Packet : Type 0 where
  pub bytes : List ℕ
  pub source : AddrPort
  pub destination : Addr
  pub if_index : ℕ

pub record Membership : Type 0 where
  pub index : ℕ
  pub name : ℕ
  pub group : Addr

-- What does not change: the configuration, the groups, and which sockets are open. `physical` is
-- `physicalInterface`, which asks the system, and `sorted` sorts by the texts of the prefixes.
pub record UdpNetwork : Type 0 where
  pub include : List ℕ
  pub exclude : List ℕ
  pub wg_name : ℕ
  pub groups : List Addr
  pub v4 : Bool
  pub v6 : Bool
  pub physical : ℕ → Bool
  pub sorted : List Prefix → List Prefix

-- the zone of an interface index
abbrev pub zone_of : ℕ → ℕ
zone_of n = 2 * n + 1

abbrev pub network_datagram_limit : ℕ
network_datagram_limit = 1200
