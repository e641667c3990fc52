-- ===== src/Control/Looks.antt =====
-- In every state of the controller, each configuration followed a fresh look at the device (control.go).
use wireguard_mesh.Prelude.{
  ℕ, ◌≡◌, refl, Bool, true, Option, none, some, List, ◌∷◌, lookup, insert, arith, lookup-insert, ap,
  ◌∙◌,
}
use wireguard_mesh.Prelude.Program.{modify}
use wireguard_mesh.Prelude.Program.Ensures.{
  ensured, ensure_bind, ensure_then, ensure_pure, ensure_fail, ensure_get, ensure_modify,
  ensure_require, ensure_check, ensure_or, ensure_weaker, ensure_both,
}
use wireguard_mesh.Control.State.{
  ControlPeer, Device, DevicePeer, Change, set_key, Outside, Effect, configured, inspected, saved,
  started, State, Journal, is_active,
}
use wireguard_mesh.Control.Effects.{put}
use wireguard_mesh.Control.Rekey.{
  check_all, all_active, rekey_record, rekey, pending_rekey, rekeyed, last_handshake,
  handshake_record, handshake, check_device,
}
use wireguard_mesh.Control.Start.{Stored, accept, start_journal, new_controller}
use wireguard_mesh.Control.Exact.{check_all-Adds, save-Adds}
use wireguard_mesh.Control.Rekeyed.{all_active-checked}
use wireguard_mesh.Control.Looked.{
  Guards, Guarded, Good, put-Good, Fresh, last_seen, last_journal, device-Guards, inspect-Guards,
  save-Guards, configure-Guards,
}
use wireguard_mesh.Control.Guarded.{restore-Guards, restore_all-Guards, apply-Guards}
use wireguard_mesh.Control.Reach.{
  Reach, first, call, crash, Call, call_apply, call_rekey, call_handshake, call_check, call_restore,
  call_restore_all, Moment, now, before, blank,
}

module _ (W : Outside) (public : ℕ) where
  check_all-Guards :
      (key : ℕ) (r : ControlPeer) (s : State)
      → Good W.sha256 s
      → Guards W public
          (λ _ t.
            (d : Device) × (last_seen t.effects ≡ some d)
            × (all_active W.sha256 d key r t.journal ≡ true)
            × (last_journal t.effects ≡ last_journal s.effects))
          (check_all W public key r)
          s
  unfolding check_all
  check_all-Guards key r s h =
      ensure_bind (device-Guards W public s h)
        (λ d t p l. ensure_get _ (ensure_check _ p (λ e. (d, l.0, e, l.2))))

  rekey_Fresh :
      (d : Device) (r p : ControlPeer) (key new : ℕ) (v : State)
      → is_active r.phase ≡ true
      → last_seen v.effects ≡ some d
      → all_active W.sha256 d key r v.journal ≡ true
      → lookup key v.journal ≡ some p
      → lookup key (last_journal v.effects) ≡ some (pending_rekey W public r new)
      → Fresh W.sha256 (set_key key new) v.effects
  rekey_Fresh d r p key new v a l c e w = record {
    device = d;
    key = key;
    peer = r;
    seen = l;
    checked = all_active-checked W.sha256 d key r p v.journal c e;
    written = w;
    needs = (refl, a);
  }

  pending-Good :
      (r : ControlPeer) (key new : ℕ) (s : State)
      → Good W.sha256 s
      → Good W.sha256 (record s { journal = insert key (pending_rekey W public r new) s.journal })
  pending-Good r key new s h = put-Good W.sha256 key _ s refl h

  rekey_record-Guards :
      (r : Option ControlPeer) (key old new : ℕ) (s : State)
      → Good W.sha256 s
      → Guards W public (λ _ _. Unit {0}) (rekey_record W public r key old new) s
  unfolding rekey_record modify
  rekey_record-Guards none key old new s h = ensure_fail h
  rekey_record-Guards (some r) key old new s h = ensure_require _ h (λ a.
      ensure_then (check_all-Guards key r s h) (λ _ t p _. ensure_modify _ (
        ensure_then (ensure_both (save-Guards W public _ p.0) (save-Adds W public _)) (λ _ u q b.
          ensure_then (ensure_both (check_all-Guards key r u q) (check_all-Adds W public key r u))
            (λ _ v w c.
              ensure_then
                (configure-Guards W public _ v w (
                  rekey_Fresh c.0.0 r (pending_rekey W public r new) key new v (ground (arith, a))
                    c.0.1 c.0.2
                    (rw c.1.1.0 (
                      rw b.1.0 (
                        ground
                          (arith, lookup-insert key key (pending_rekey W public r new) t.journal))))
                    (ap (lookup key) (c.0.3 ∙ b.0.1)
                      ∙ ground
                          (arith, lookup-insert key key (pending_rekey W public r new) t.journal))))
                (λ _ x y _.
                  ensure_then (check_all-Guards key (rekeyed W public r new) x y) (λ _ z i _.
                    ensure_modify _ (
                      ensure_or (put key (pending_rekey W public r new))
                        (save-Guards W public _ i.0) (λ _ k _. (k, tt))
                        (λ y k. pending-Good r key new y k)))))))))

  pub rekey-Guards :
      (key old new : ℕ) (s : State)
      → Good W.sha256 s
      → Guards W public (λ _ _. Unit {0}) (rekey W public key old new) s
  unfolding rekey
  rekey-Guards key old new s h = ensure_get _ (rekey_record-Guards _ key old new s h)

  last_handshake-Guards :
      (p : Option DevicePeer) (s : State)
      → Good W.sha256 s
      → Guards W public (λ _ _. Unit {0}) (last_handshake W public p) s
  unfolding last_handshake
  last_handshake-Guards none s h = ensure_fail h
  last_handshake-Guards (some p) s h = ensure_pure _ h tt

  handshake_record-Guards :
      (r : Option ControlPeer) (key : ℕ) (s : State)
      → Good W.sha256 s
      → Guards W public (λ _ _. Unit {0}) (handshake_record W public r key) s
  unfolding handshake_record
  handshake_record-Guards none key s h = ensure_fail h
  handshake_record-Guards (some r) key s h = ensure_require _ h (λ _.
      ensure_bind (inspect-Guards W public key r s h) (λ d t p _. last_handshake-Guards _ t p))

  handshake-Guards :
      (key : ℕ) (s : State)
      → Good W.sha256 s
      → Guards W public (λ _ _. Unit {0}) (handshake W public key) s
  unfolding handshake
  handshake-Guards key s h = ensure_get _ (handshake_record-Guards _ key s h)

  check_device-Guards :
      (s : State) → Good W.sha256 s → Guards W public (λ _ _. Unit {0}) (check_device W public) s
  unfolding check_device
  check_device-Guards s h =
      ensure_bind (device-Guards W public s h)
        (λ d t p _. ensure_get _ (ensure_require _ p (λ _. ensure_pure d p tt)))

  start_journal-Guards :
      (o : Option Journal) (s : State)
      → Good W.sha256 s
      → Guards W public (λ _ _. Unit {0}) (start_journal W public o) s
  unfolding start_journal
  start_journal-Guards none s h = ensure_fail h
  start_journal-Guards (some j) s h = ensure_modify _ (
      ensure_then (restore_all-Guards W public _ (h.0, λ k r e a. e))
        (λ _ t p _. ensure_weaker (device-Guards W public t p) (λ _ _ _ _. tt)))

  new_controller-Good :
      (name : ℕ) (file : Option Stored) (s : State)
      → Good W.sha256 s
      → Good W.sha256 (new_controller W public name file s).1
  unfolding new_controller
  new_controller-Good name file s h = ensured (start_journal-Guards (accept name public file) s h)

  call-Good : {s t : State} → Call W public s t → Good W.sha256 s → Good W.sha256 t
  call-Good {s} (call_apply key ip psk endpoint) h =
      ensured (apply-Guards W public key ip psk endpoint s h)
  call-Good {s} (call_rekey key old new) h = ensured (rekey-Guards key old new s h)
  call-Good {s} (call_handshake key) h = ensured (handshake-Guards key s h)
  call-Good {s} call_check h = ensured (check_device-Guards s h)
  call-Good {s} (call_restore key) h = ensured (restore-Guards W public key s h)
  call-Good {s} call_restore_all h = ensured (restore_all-Guards W public s h)

  Moment-Guarded : {es fs : List Effect} → Moment es fs → Guarded W.sha256 es → Guarded W.sha256 fs
  Moment-Guarded now h = h
  Moment-Guarded (before {e = configured _ _} m) h = Moment-Guarded m h.1
  Moment-Guarded (before {e = inspected _} m) h = Moment-Guarded m h
  Moment-Guarded (before {e = saved _ _} m) h = Moment-Guarded m h
  Moment-Guarded (before {e = started _} m) h = Moment-Guarded m h

module _ (W : Outside) (name public : ℕ) where
  Reach-Good : {s : State} → Reach W name public s → Good W.sha256 s
  Reach-Good first = (tt, λ k r e a. ground arith)
  Reach-Good (call r c) = call-Good W public c (Reach-Good r)
  Reach-Good (crash {s} {es} file calls r m o a) =
      new_controller-Good W public name file (blank calls es)
        (Moment-Guarded W public m (Reach-Good r).0, λ k q e b. ground arith)

  -- Each configuration of a run followed a look at the device, with no configuration or start in
  -- between: the device passed the check of the record of the peer that this configuration is about, and
  -- had what this configuration needs of it (`Needs`). That record is the one in the journal that was
  -- written last, reported as success or failure, or that a later start took from the file; where a peer
  -- is added or gets a new key, the journal holds it as announced, in the phase "adding" or in the phase
  -- "rekeying" with the hash of the new key.
  pub configured_after_look :
      {s : State} {es : List Effect} {change : Change} {b : Bool}
      → Reach W name public s
      → Moment s.effects (configured change b ∷ es)
      → Fresh W.sha256 change es
  configured_after_look r m = (Moment-Guarded W public m (Reach-Good r).0).0
