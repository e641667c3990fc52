-- ===== src/Control/Rekey.antt =====
-- The change of a preshared key in place, the last handshake, and the check of the whole device
-- (`Rekey`, `Handshake` and `checkDevice` in control.go).
use wireguard_mesh.Prelude.{
  ℕ, ◌==◌, Bool, not, ◌&&◌, Option, none, some, lookup, all, if◌then◌else◌,
}
use wireguard_mesh.Prelude.Program.{pure, fail, ◌>>=◌, ◌>>◌, get, require, ◌or◌}
use wireguard_mesh.Control.State.{
  ControlPeer, rekeying, DevicePeer, Device, set_key, Outside, Journal, is_active,
}
use wireguard_mesh.Control.Device.{check_peer, control_find_peer}
use wireguard_mesh.Control.Effects.{M, put, device, save, configure, inspect}

-- the record that stands for this key in the check: the expected one for the key that changes
abbrev pub checked_as : ℕ → ControlPeer → ℕ × ControlPeer → ControlPeer
checked_as key expected e = if e.0 == key then expected else e.1

-- the closure `check`
unfoldable pub all_active : (ℕ → ℕ) → Device → ℕ → ControlPeer → Journal → Bool
all_active sha256 d key expected journal =
    all
      (λ e.
        is_active (checked_as key expected e).phase
        && check_peer sha256 d e.0 (checked_as key expected e))
      journal

module _ (W : Outside) (public : ℕ) where
  unfoldable pub check_all : ℕ → ControlPeer → M (Unit {0})
  check_all key expected = do
    d ← device W public
    s ← get
    require (all_active W.sha256 d key expected s.journal)

  abbrev pub pending_rekey : ControlPeer → ℕ → ControlPeer
  pending_rekey r psk = record r { phase = rekeying; next_psk_hash = some (W.sha256 psk) }

  abbrev pub rekeyed : ControlPeer → ℕ → ControlPeer
  rekeyed r psk = record r { psk_hash = W.sha256 psk }

  -- both hashes are in the journal until the new key is verified
  unfoldable pub rekey_record : Option ControlPeer → ℕ → ℕ → ℕ → M (Unit {0})
  rekey_record none key old new = fail
  rekey_record (some r) key old new = do
    require (is_active r.phase && not (new == 0) && r.psk_hash == W.sha256 old)
    check_all key r
    put key (pending_rekey r new)
    save W public
    check_all key r
    configure W public (set_key key new)
    check_all key (rekeyed r new)
    put key (rekeyed r new)
    save W public or put key (pending_rekey r new)

  unfoldable pub rekey : ℕ → ℕ → ℕ → M (Unit {0})
  rekey key old new = do s ← get; rekey_record (lookup key s.journal) key old new

  unfoldable pub last_handshake : Option DevicePeer → M ℕ
  last_handshake none = fail
  last_handshake (some p) = pure p.last_handshake_time

  unfoldable pub handshake_record : Option ControlPeer → ℕ → M ℕ
  handshake_record none key = fail
  handshake_record (some r) key = do
    require (is_active r.phase)
    d ← inspect W public key r
    last_handshake (control_find_peer d key)

  -- a peer that passes the check of an active record is on the device
  unfoldable pub handshake : ℕ → M ℕ
  handshake key = do s ← get; handshake_record (lookup key s.journal) key

  unfoldable pub check_device : M Device
  check_device = do
    d ← device W public
    s ← get
    require (
        all (λ (e : ℕ × ControlPeer). check_peer W.sha256 d e.0 e.1 && is_active e.1.phase)
          s.journal)
    pure d
