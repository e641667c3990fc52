-- ===== src/Control/Restore.antt =====
-- The return of a host to its stable peer (`restore` and `RestoreAll` in control.go).
use wireguard_mesh.Prelude.{
  ℕ, ◌==◌, Bool, false, not, ◌&&◌, ◌||◌, Option, none, some, [], ◌∷◌, lookup, is_none,
  if◌then◌else◌,
}
use wireguard_mesh.Prelude.Program.{fail, ◌>>=◌, ◌>>◌, done, get, require, when, ◌or◌}
use wireguard_mesh.Control.State.{
  ControlPeer, ControlPhase, restoring, aborting, adding, active, rekeying, planning, unknown,
  DevicePeer, Device, set_host, remove, Outside, Journal, is_active, is_rekeying,
}
use wireguard_mesh.Control.Device.{check_peer, control_find_peer, control_owner, Owner, is_exact}
use wireguard_mesh.Control.Effects.{M, put, drop_record, device, save, configure, inspect}

-- the phase of a restoration that has begun
unfoldable pub restore_phase : ControlPhase → ControlPhase
restore_phase adding = aborting
restore_phase active = restoring
restore_phase rekeying = restoring
restore_phase planning = planning
restore_phase restoring = restoring
restore_phase aborting = aborting
restore_phase (unknown text) = unknown text

-- what the first check expects: a peer that is gone may be a reboot, after which the baseline stands
unfoldable pub restore_expected : Device → ℕ → ControlPeer → ControlPeer
restore_expected d key r =
    if (is_active r.phase || is_rekeying r.phase) && is_none (control_find_peer d key)
    then record r { phase = restoring }
    else r

abbrev pub marked : ControlPeer → ControlPeer
marked r = record r { phase = restore_phase r.phase }

unfoldable pub is_returned : Option Owner → ControlPeer → Bool
is_returned none r = false
is_returned (some o) r = o.key == r.owner

module _ (W : Outside) (public : ℕ) where
  unfoldable pub move_host : Option Owner → ℕ → ControlPeer → M (Unit {0})
  move_host none key r = fail
  move_host (some o) key r = when (o.key == key) (configure W public (set_host r.owner r.ip))

  -- an exact host is moved back before the direct peer is deleted
  unfoldable pub return_host : ℕ → ControlPeer → M (Unit {0})
  return_host key r =
      when (is_exact r) (do d ← inspect W public key r; move_host (control_owner d r.ip 0) key r)

  unfoldable pub remove_found : Option DevicePeer → Device → ℕ → ControlPeer → M (Unit {0})
  remove_found none d key r = done
  remove_found (some p) d key r = do
    require (not (is_exact r) || is_returned (control_owner d r.ip 0) r)
    configure W public (remove key)

  unfoldable pub remove_direct : ℕ → ControlPeer → M (Unit {0})
  remove_direct key r = do
    d ← inspect W public key r
    remove_found (control_find_peer d key) d key r

  -- the record is dropped, and stands again where the journal cannot be written
  unfoldable pub forget : ℕ → ControlPeer → M (Unit {0})
  forget key r = do drop_record key; save W public or put key r

  unfoldable pub restore_marked : ℕ → ControlPeer → M (Unit {0})
  restore_marked key r = do
    return_host key r
    remove_direct key r
    d ← inspect W public key r
    require (is_none (control_find_peer d key))
    forget key r

  unfoldable pub restore_record : Option ControlPeer → ℕ → M (Unit {0})
  restore_record none key = done
  restore_record (some r) key = do
    d ← device W public
    require (check_peer W.sha256 d key (restore_expected d key r))
    put key (marked r)
    save W public
    restore_marked key (marked r)

  unfoldable pub restore : ℕ → M (Unit {0})
  restore key = do s ← get; restore_record (lookup key s.journal) key

  -- each key is restored, whatever became of those before it
  unfoldable pub restore_keys : Journal → M (Unit {0})
  restore_keys [] = done
  restore_keys ((key, _) ∷ rest) = (restore key or restore_keys rest) >> restore_keys rest

  unfoldable pub restore_all : M (Unit {0})
  restore_all = do s ← get; restore_keys s.journal
