-- ===== src/Control/Guard.antt =====
-- Each configuration follows a fresh look at the device (control.go): restoration.
use wireguard_mesh.Prelude.{ℕ, ◌≡◌, refl, ap, true, Option, false, none, some, is_some, ◌∙◌, lookup}
use wireguard_mesh.Prelude.Program.{modify}
use wireguard_mesh.Prelude.Program.Ensures.{
  ensure_bind, ensure_then, ensure_fail, ensure_modify, ensure_require, ensure_done, ensure_when,
  ensure_or, ensure_weaker,
}
use wireguard_mesh.Control.State.{ControlPeer, Device, DevicePeer, Outside, State, is_active}
use wireguard_mesh.Control.Device.{check_peer, control_find_peer, control_owner, Owner}
use wireguard_mesh.Control.Effects.{put}
use wireguard_mesh.Control.Restore.{
  move_host, return_host, remove_found, remove_direct, forget, restore_marked,
}
use wireguard_mesh.Control.Looked.{
  Guards, Good, put-Good, reread, SameWritten, last_seen, last_journal, inspect-Guards, save-Guards,
  configure-Guards,
}

module _ (W : Outside) (public : ℕ) where
  move_host-Guards :
      (d : Device) (o : Option Owner) (key : ℕ) (r : ControlPeer) (s : State)
      → Good W.sha256 s
      → last_seen s.effects ≡ some d
      → check_peer W.sha256 d key r ≡ true
      → lookup key (last_journal s.effects) ≡ some r
      → control_owner d r.ip 0 ≡ o
      → Guards W public (SameWritten s) (move_host W public o key r) s
  unfolding move_host
  move_host-Guards d none key r s h l c w e = ensure_fail h
  move_host-Guards d (some o) key r s h l c w e =
      ensure_when _
        (λ same. configure-Guards W public _ s h (record {
          device = d;
          key = key;
          peer = r;
          seen = l;
          checked = c;
          written = w;
          needs = (refl, refl, (o, e, same));
        }))
        (λ _. (h, refl))

  return_host-Guards :
      (key : ℕ) (r : ControlPeer) (s : State)
      → Good W.sha256 s
      → lookup key (last_journal s.effects) ≡ some r
      → Guards W public (SameWritten s) (return_host W public key r) s
  unfolding return_host
  return_host-Guards key r s h w =
      ensure_when _
        (λ _. ensure_bind (inspect-Guards W public key r s h) (λ d t p q.
          ensure_weaker
            (move_host-Guards d (control_owner d r.ip 0) key r t p q.0.0 q.1
              (reread W.sha256 key r s t q.0.2 w) refl)
            (λ _ u _ e. e ∙ q.0.2)))
        (λ _. (h, refl))

  remove_found-Guards :
      (found : Option DevicePeer) (d : Device) (key : ℕ) (r : ControlPeer) (s : State)
      → Good W.sha256 s
      → last_seen s.effects ≡ some d
      → check_peer W.sha256 d key r ≡ true
      → lookup key (last_journal s.effects) ≡ some r
      → control_find_peer d key ≡ found
      → Guards W public (λ _ _. Unit {0}) (remove_found W public found d key r) s
  unfolding remove_found
  remove_found-Guards none d key r s h l c w e = ensure_done h tt
  remove_found-Guards (some p) d key r s h l c w e = ensure_require _ h (λ back.
      ensure_weaker
        (configure-Guards W public _ s h (record {
          device = d;
          key = key;
          peer = r;
          seen = l;
          checked = c;
          written = w;
          needs = (refl, ap is_some e, back);
        }))
        (λ _ _ _ _. tt))

  remove_direct-Guards :
      (key : ℕ) (r : ControlPeer) (s : State)
      → Good W.sha256 s
      → lookup key (last_journal s.effects) ≡ some r
      → Guards W public (λ _ _. Unit {0}) (remove_direct W public key r) s
  unfolding remove_direct
  remove_direct-Guards key r s h w = ensure_bind (inspect-Guards W public key r s h) (λ d t p q.
      remove_found-Guards (control_find_peer d key) d key r t p q.0.0 q.1
        (reread W.sha256 key r s t q.0.2 w) refl)

  forget-Guards :
      (key : ℕ) (r : ControlPeer) (s : State)
      → Good W.sha256 s
      → is_active r.phase ≡ false
      → Guards W public (λ _ _. Unit {0}) (forget W public key r) s
  unfolding forget modify
  forget-Guards key r s h n = ensure_modify _ (
      ensure_or (put key r) (save-Guards W public _ h.0) (λ t p _. (p, tt))
        (λ t p. put-Good W.sha256 key r t n p))

  pub restore_marked-Guards :
      (key : ℕ) (r : ControlPeer) (s : State)
      → Good W.sha256 s
      → lookup key (last_journal s.effects) ≡ some r
      → is_active r.phase ≡ false
      → Guards W public (λ _ _. Unit {0}) (restore_marked W public key r) s
  unfolding restore_marked
  restore_marked-Guards key r s h w n = ensure_then (return_host-Guards key r s h w) (λ _ t p e.
      ensure_then (remove_direct-Guards key r t p (reread W.sha256 key r s t e w)) (λ _ u q _.
        ensure_bind (inspect-Guards W public key r u q)
          (λ d v w _. ensure_require _ w (λ _. forget-Guards key r v w n))))
