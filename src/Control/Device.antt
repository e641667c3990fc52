-- ===== src/Control/Device.antt =====
-- The checks of the device against the journal (`controlFindPeer`, `controlOwner`, `checkPeer` and
-- `controlHost` in control.go).
use wireguard_mesh.Prelude.{
  ℕ, Bool, true, false, not, ◌&&◌, ◌||◌, ◌==◌, Option, none, some, List, [], ◌∷◌, is_some, leb,
  if◌then◌else◌, length,
}
use wireguard_mesh.Netip.{
  Addr, Prefix, masked, contains_addr, same_prefix, is_valid, is4_in6, is_global_unicast,
  is_link_local_unicast,
}
use wireguard_mesh.Control.State.{
  ControlPeer, DevicePeer, Device, is_planning, is_adding, is_active, is_rekeying, is_restoring,
  is_aborting,
}

abbrev pub control_host : Addr → Bool
control_host ip =
    is_valid ip
    && not (is4_in6 ip)
    && ip.zone == 0
    && (is_global_unicast ip || is_link_local_unicast ip)

abbrev pub find_peer : List DevicePeer → ℕ → Option DevicePeer
find_peer [] key = none
find_peer (p ∷ ps) key = if p.public_key == key then some p else find_peer ps key

abbrev pub control_find_peer : Device → ℕ → Option DevicePeer
control_find_peer d key = find_peer d.peers key

-- The peer that owns an address, 0 for none, and the prefix by which it does.
pub record Owner : Type 0 where
  pub key : ℕ
  pub prefix : Option Prefix

abbrev pub no_owner : Owner
no_owner = record { key = 0; prefix = none }

-- `prefix.Bits() >= best.Bits()`, where a prefix that is not valid has -1 bits
abbrev pub as_long : Prefix → Option Prefix → Bool
as_long p none = true
as_long p (some q) = leb q.length p.length

abbrev pub same_length : Prefix → Option Prefix → Bool
same_length p none = false
same_length p (some q) = p.length == q.length

-- one allowed IP in the loop of `controlOwner`; none is its error
unfoldable pub own_prefix : Addr → ℕ → Prefix → Owner → Option Owner
own_prefix ip key p best =
    if contains_addr (masked p) ip && as_long (masked p) best.prefix
    then (if same_length (masked p) best.prefix && not (best.key == key)
        then none
        else some (record { key = key; prefix = some (masked p) }))
    else some best

unfoldable pub own_allowed : Addr → ℕ → Option Prefix → Owner → Option Owner
unfolding own_prefix
own_allowed ip key none best = none
own_allowed ip key (some p) best = own_prefix ip key p best

unfoldable pub own_peer : Addr → ℕ → List (Option Prefix) → Owner → Option Owner
own_peer ip key [] best = some best
own_peer ip key (n ∷ ns) best = elim (own_allowed ip key n best) [
  | none ↦ none
  | some next ↦ own_peer ip key ns next
]

unfoldable pub own_peers : Addr → ℕ → List DevicePeer → Owner → Option Owner
own_peers ip skip [] best = some best
own_peers ip skip (p ∷ ps) best =
    elim (if p.public_key == skip then some best else own_peer ip p.public_key p.allowed_ips best) [
      | none ↦ none
      | some next ↦ own_peers ip skip ps next
    ]

unfoldable pub control_owner : Device → Addr → ℕ → Option Owner
control_owner d ip skip = own_peers ip skip d.peers no_owner

-- `r.Prefix.Bits() == r.IP.BitLen()`
abbrev pub is_exact : ControlPeer → Bool
is_exact r = r.prefix.length == r.ip.bits

abbrev pub is_partial : ControlPeer → Bool
is_partial r = is_adding r.phase || is_aborting r.phase

abbrev pub is_empty : DevicePeer → Bool
is_empty p = length p.allowed_ips == 0

-- the one allowed IP is the host itself
abbrev pub is_host : Addr → List (Option Prefix) → Bool
is_host ip (some n ∷ []) = same_prefix n (record { addr = ip; length = ip.bits })
is_host ip _ = false

abbrev pub is_next : Option ℕ → ℕ → Bool
is_next none hash = false
is_next (some next) hash = hash == next

abbrev pub owned_by : Owner → ℕ → Prefix → Bool
owned_by o key prefix =
    o.key == key && (elim o.prefix [ none ↦ false | some p ↦ same_prefix p prefix ])

module _ (sha256 : ℕ → ℕ) where
  -- the key of a present peer: the current one, the next one, or none yet
  unfoldable pub key_ok : ControlPeer → DevicePeer → Bool
  key_ok r p =
      sha256 p.preshared_key == r.psk_hash
      || is_next r.next_psk_hash (sha256 p.preshared_key)
      || is_partial r && is_empty p && p.preshared_key == 0

  -- what a present peer has to be
  unfoldable pub present_ok : ControlPeer → DevicePeer → Bool
  unfolding key_ok
  present_ok r p =
      p.persistent_keepalive == 0
      && leb p.protocol_version 1
      && key_ok r p
      && (is_empty p || is_host r.ip p.allowed_ips)
      && (not (is_empty p) || is_partial r || is_exact r && is_restoring r.phase)

  unfoldable pub peer_ok : ControlPeer → Option DevicePeer → Bool
  peer_ok r none = not (is_active r.phase || is_rekeying r.phase)
  peer_ok r (some p) = not (is_planning r.phase) && present_ok r p

  -- the host stands at the direct peer, and its own prefix is the owner's
  abbrev pub at_direct : ControlPeer → Option DevicePeer → Bool
  at_direct r none = false
  at_direct r (some p) = is_exact r && length p.allowed_ips == 1

  unfoldable pub ownership_ok : Device → ℕ → ControlPeer → Option DevicePeer → Bool
  ownership_ok d key r p = elim (control_owner d r.ip (if is_exact r then 0 else key)) [
    | none ↦ false
    | some o ↦ if at_direct r p then owned_by o key r.prefix else owned_by o r.owner r.prefix
  ]

  -- `checkPeer`: false is its error
  unfoldable pub check_peer : Device → ℕ → ControlPeer → Bool
  check_peer d key r =
      peer_ok r (control_find_peer d key)
      && is_some (control_find_peer d r.owner)
      && ownership_ok d key r (control_find_peer d key)
