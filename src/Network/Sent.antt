-- ===== src/Network/Sent.antt =====
-- What `Send` hands to a socket, and the broadcast address of a link (network.go).
use wireguard_mesh.Prelude.{
  ℕ, ◌≤◌, ◌≡◌, refl, sym, subst, Bool, true, false, not, ◌&&◌, ◌||◌, ◌==◌, none, some, List, length,
  arith, if◌then◌else◌,
}
use wireguard_mesh.Netip.{
  Addr, AddrPort, is4, is6, is4_in6, is_valid, is_unspecified, is_link_local_unicast,
  is_link_local_multicast, with_zone,
}
use wireguard_mesh.Network.State.{LinkAddr, UdpNetwork, network_datagram_limit, zone_of}
use wireguard_mesh.Network.Send.{
  Datagram, is_same, is_sized, is_target, is_source, is_sendable, zone_agrees, socket_addr,
  has_socket, send,
}

unless_some :
    {A : Type 0} (b : Bool) (x d : A)
    → (if b then none else some x) ≡ some d
    → (b ≡ false) × (x ≡ d)
unless_some true x d h = absurd (ground (arith, h))
unless_some false x d h = (refl, ground (arith, h))

-- what a datagram that leaves the host has
abbrev pub Sendable : UdpNetwork → List ℕ → AddrPort → LinkAddr → Datagram → Type 0
Sendable n bytes destination link d =
    (d.bytes ≡ bytes)
    × (1 ≤ length bytes)
    × (length bytes ≤ network_datagram_limit)
    × (d.source ≡ link.prefix.addr)
    × (is4 d.source ≡ is4 d.destination.addr)
    × (has_socket n d.destination.addr ≡ true)
    × (d.destination.addr.value ≡ destination.addr.value)
    × (d.destination.port ≡ destination.port)
    × (is_unspecified destination.addr ≡ false)
    × (zone_agrees d.destination.addr link ≡ true)

pick :
    {A : Type 0} (P : A → Type 0) (b c : Bool) (x y z : A)
    → P x
    → P y
    → P z
    → P (if b then x else if c then y else z)
pick P true c x y z p q r = p
pick P false true x y z p q r = q
pick P false false x y z p q r = r

no_zone : (b : Bool) → ((if b then 0 else 0) == 0) ≡ true
no_zone true = refl
no_zone false = refl

-- the zone of the socket's address is none, or the index of the link
zone_fits :
    (b : Bool) (target : Addr) (link : LinkAddr)
    → zone_agrees (record target { zone = if b then zone_of link.index else 0 }) link ≡ true
unfolding zone_agrees
zone_fits true target link = ground arith
zone_fits false target link = refl

no_zone_fits :
    (b : Bool) (target : Addr) (link : LinkAddr)
    → zone_agrees (record target { zone = if b then 0 else 0 }) link ≡ true
unfolding zone_agrees
no_zone_fits true target link = refl
no_zone_fits false target link = refl

socket_addr-zone :
    (linux : Bool) (destination : AddrPort) (link : LinkAddr)
    → zone_agrees destination.addr link ≡ true
    → zone_agrees (socket_addr linux destination link).addr link ≡ true
unfolding socket_addr
socket_addr-zone linux destination link h =
    pick (λ (a : AddrPort). zone_agrees a.addr link ≡ true) _ _ _ _ destination
      (no_zone_fits (is6 destination.addr) destination.addr link)
      (zone_fits (is6 destination.addr) destination.addr link) h

-- the zone is all that changes
record SameHost (a b : AddrPort) : Type 0 where
  pub bits : a.addr.bits ≡ b.addr.bits
  pub value : a.addr.value ≡ b.addr.value
  pub port : a.port ≡ b.port

same_host :
    {a b : AddrPort}
    → a.addr.bits ≡ b.addr.bits
    → a.addr.value ≡ b.addr.value
    → a.port ≡ b.port
    → SameHost a b
same_host e f g = record { bits = e; value = f; port = g }

socket_addr-SameHost :
    (linux : Bool) (destination : AddrPort) (link : LinkAddr)
    → SameHost (socket_addr linux destination link) destination
unfolding socket_addr
socket_addr-SameHost linux destination link =
    pick (λ a. SameHost a destination) (is6 destination.addr && linux)
      (is6 destination.addr
        && (is_link_local_unicast destination.addr || is_link_local_multicast destination.addr))
      (record destination { addr = with_zone 0 destination.addr })
      (record destination { addr = with_zone (zone_of link.index) destination.addr }) destination
      (same_host refl refl refl) (same_host refl refl refl) (same_host refl refl refl)

four :
    (a b c d : Bool) → (a && b && c && d) ≡ true → (a ≡ true) × (b ≡ true) × (c ≡ true) × (d ≡ true)
four a b c d h = (ground (arith, h), ground (arith, h), ground (arith, h), ground (arith, h))

none_of :
    (a b c d : Bool)
    → (a || not b || not c || not d) ≡ false
    → (a ≡ false) × (b ≡ true) × (c ≡ true) × (d ≡ true)
none_of a b c d h = (ground (arith, h), ground (arith, h), ground (arith, h), ground (arith, h))

unset : (a : Bool) → not a ≡ true → a ≡ false
unset a h = ground (arith, h)

specified :
    (destination : AddrPort)
    → is_target destination ≡ true
    → is_unspecified destination.addr ≡ false
specified destination h =
    unset _
      (four (not (is_unspecified destination.addr)) (not (is4_in6 destination.addr))
        (is_valid destination.addr) (not (destination.port == 0)) h).0

sized : (bytes : List ℕ) → is_sized bytes ≡ true → (1 ≤ length bytes) × (length bytes ≤ 1200)
sized bytes h = (ground (arith, h), ground (arith, h))

is_same-≡ : (a b : Bool) → is_same a b ≡ true → a ≡ b
is_same-≡ true true h = refl
is_same-≡ true false h = sym h
is_same-≡ false true h = h
is_same-≡ false false h = refl

-- A packet that `Send` hands to a socket is sent from an open transport, has between 1 and 1200 bytes, and goes
-- from the link's address to the host and port of the destination, which is not the unspecified address,
-- in the family of the source, whose socket is open, with no zone or one of the link.
pub send-Sendable :
    (n : UdpNetwork) (linux closed : Bool) (bytes : List ℕ) (destination : AddrPort)
    (link : LinkAddr) (d : Datagram)
    → send n linux closed bytes destination link ≡ some d
    → (closed ≡ false) × Sendable n bytes destination link d
unfolding send is_sendable has_socket
send-Sendable n linux closed bytes destination link d e =
    let u = unless_some _ _ d e in
    let t =
      none_of closed (is_sendable bytes destination link) (zone_agrees destination.addr link) _
        u.0 in
    let q = four (is_sized bytes) (is_target destination) (is_source link) _ t.1 in
    let l = sized bytes q.0 in
    let s = socket_addr-SameHost linux destination link in
    subst (λ x. (closed ≡ false) × Sendable n bytes destination link x) u.1
      (
        t.0,
        (
          refl,
          l.0,
          l.1,
          refl,
          rw s.bits (is_same-≡ _ _ q.3),
          rw s.bits t.3,
          s.value,
          s.port,
          specified destination q.1,
          socket_addr-zone linux destination link t.2,
        ),
      )
