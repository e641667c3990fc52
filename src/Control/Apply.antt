-- ===== src/Control/Apply.antt =====
-- A direct peer is added, or gets another endpoint (`Apply` in control.go).
use wireguard_mesh.Prelude.{
  ℕ, ◌==◌, Bool, not, ◌&&◌, ◌||◌, Option, none, some, lookup, is_some, is_none, all, if◌then◌else◌,
}
use wireguard_mesh.Prelude.Program.{pure, fail, ◌>>=◌, ◌>>◌, get, require, ◌or◌}
use wireguard_mesh.Netip.{
  Addr, AddrPort, is6, is_valid, with_zone, is_link_local_unicast, same_addr, Prefix,
}
use wireguard_mesh.Control.State.{
  ControlPeer, ControlPhase, planning, adding, active, Device, Change, add, set_endpoint, Outside,
  Journal, is_planning, is_active,
}
use wireguard_mesh.Control.Device.{
  check_peer, control_find_peer, control_owner, control_host, Owner,
}
use wireguard_mesh.Control.Effects.{M, put, device, save, configure, inspect}
use wireguard_mesh.Control.Restore.{restore}

-- the check of the arguments
unfoldable pub is_direct : ℕ → ℕ → Addr → AddrPort → Bool
is_direct public key ip endpoint =
    not (key == 0)
    && not (key == public)
    && control_host ip
    && is_valid endpoint.addr
    && not (endpoint.port == 0)
    && control_host (with_zone 0 endpoint.addr)
    && not (is_link_local_unicast endpoint.addr && is6 endpoint.addr && endpoint.addr.zone == 0)

-- the loop over the journal: every record is active and agrees with the device, and no other key has
-- this address
unfoldable pub all_settled : (ℕ → ℕ) → Device → ℕ → Addr → Journal → Bool
all_settled sha256 d key ip journal =
    all
      (λ (e : ℕ × ControlPeer).
        is_active e.1.phase
        && check_peer sha256 d e.0 e.1
        && not (same_addr e.1.ip ip && not (e.0 == key)))
      journal

-- an owner that is no direct peer itself, with the prefix by which it owns the address
unfoldable pub stable_owner : Option Owner → ℕ → ℕ → Journal → Option (ℕ × Prefix)
stable_owner none key public journal = none
stable_owner (some o) key public journal = elim o.prefix [
  | none ↦ none
  | some prefix ↦
      if o.key == 0 || o.key == key || o.key == public || is_some (lookup o.key journal)
      then none
      else some (o.key, prefix)
]

abbrev pub planned : (ℕ → ℕ) → Addr → ℕ → ℕ × Prefix → ControlPeer
planned sha256 ip psk found = record {
  ip = ip;
  owner = found.0;
  prefix = found.1;
  psk_hash = sha256 psk;
  phase = planning;
  next_psk_hash = none;
}

-- a new peer is given its key and its address too
unfoldable pub apply_change : ControlPeer → ℕ → ℕ → AddrPort → Change
apply_change r key psk endpoint =
    if is_active r.phase then set_endpoint key endpoint else add key psk r.ip endpoint

module _ (W : Outside) (public : ℕ) where
  unfoldable pub plan_owner : Option (ℕ × Prefix) → ℕ → Addr → ℕ → M ControlPeer
  plan_owner none key ip psk = fail
  plan_owner (some found) key ip psk = do
    put key (planned W.sha256 ip psk found)
    save W public
    pure (planned W.sha256 ip psk found)

  -- the record of this key: the one that stands, or a new one for a key that the device lacks
  unfoldable pub plan : Option ControlPeer → Device → ℕ → Addr → ℕ → M ControlPeer
  plan (some r) d key ip psk = do require (same_addr r.ip ip && r.psk_hash == W.sha256 psk); pure r
  plan none d key ip psk = do
    require (is_none (control_find_peer d key))
    s ← get
    plan_owner (stable_owner (control_owner d ip 0) key public s.journal) key ip psk

  -- the intent to add is in the journal before the device is configured
  unfoldable pub announce : ControlPhase → ℕ → ControlPeer → M ControlPeer
  announce planning key r = do
    put key (record r { phase = adding })
    save W public or put key (record r { phase = planning })
    pure (record r { phase = adding })
  announce _ key r = pure r

  -- the configuration, and the check of what became of it
  unfoldable pub commit : ℕ → ControlPeer → Change → M (Unit {0})
  commit key r change = do
    configure W public change
    inspect W public key (record r { phase = active })
    put key (record r { phase = active })
    save W public

  unfoldable pub apply_planned : ℕ → ℕ → AddrPort → ControlPeer → M (Unit {0})
  apply_planned key psk endpoint r = do
    d ← device W public
    require (not (is_planning r.phase && is_some (control_find_peer d key)))
    require (check_peer W.sha256 d key r)
    announced ← announce r.phase key r
    commit key announced (apply_change announced key psk endpoint) or restore W public key

  unfoldable pub apply : ℕ → Addr → ℕ → AddrPort → M (Unit {0})
  apply key ip psk endpoint = do
    require (is_direct public key ip endpoint)
    d ← device W public
    s ← get
    require (all_settled W.sha256 d key ip s.journal)
    r ← plan (lookup key s.journal) d key ip psk
    apply_planned key psk endpoint r
