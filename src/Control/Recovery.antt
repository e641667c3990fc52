-- ===== src/Control/Recovery.antt =====
-- What a restoration that succeeds has done (`restore`, `RestoreAll` and `newController` in control.go).
use wireguard_mesh.Prelude.{
  ℕ, ◌≡◌, refl, Bool, true, false, Option, none, some, lookup, insert, erase, arith, lookup-insert,
  lookup-erase,
}
use wireguard_mesh.Prelude.Program.{modify}
use wireguard_mesh.Prelude.Program.Ensures.{
  Ensures, ensure_bind, ensure_then, ensure_pure, ensure_fail, ensure_get, ensure_modify,
  ensure_require, ensure_done, ensure_check, ensure_when, ensure_or,
}
use wireguard_mesh.Control.State.{ControlPeer, DevicePeer, Device, Change, Outside, State, Journal}
use wireguard_mesh.Control.Device.{Owner, control_find_peer, control_owner}
use wireguard_mesh.Control.Effects.{M, put, identified, device, save, configure, inspect}
use wireguard_mesh.Control.Restore.{
  marked, move_host, return_host, remove_found, remove_direct, forget, restore_marked,
  restore_record, restore,
}
use wireguard_mesh.Control.Crash.{ensure_ask, is_recorded}

-- the calls to the outside leave the journal as it is
module _ (W : Outside) (public : ℕ) (P : Journal → Type 0) where
  abbrev pub Keeps : {A : Type 0} → M A → State → Type 0
  Keeps m s = Ensures (λ t. P t.journal) (λ _ _. Unit {0}) m s

  identified-Keeps :
      (answer : Option Device) (s : State) → P s.journal → Keeps (identified W public answer) s
  unfolding identified
  identified-Keeps none s h = ensure_fail h
  identified-Keeps (some d) s h = ensure_require _ h (λ _. ensure_modify _ (ensure_pure d h tt))

  pub device-Keeps : (s : State) → P s.journal → Keeps (device W public) s
  unfolding device
  device-Keeps s h = ensure_ask _ _ (identified-Keeps (W.device s.calls) _ h)

  pub inspect-Keeps :
      (key : ℕ) (r : ControlPeer) (s : State) → P s.journal → Keeps (inspect W public key r) s
  unfolding inspect
  inspect-Keeps key r s h =
      ensure_bind (device-Keeps s h) (λ d t p _. ensure_require _ p (λ _. ensure_pure d p tt))

  pub save-Keeps : (s : State) → P s.journal → Keeps (save W public) s
  unfolding save
  save-Keeps s h =
      ensure_get _ (ensure_ask _ _ (ensure_modify _ (ensure_check (W.save s.calls) h (λ _. tt))))

  pub configure-Keeps :
      (change : Change) (s : State) → P s.journal → Keeps (configure W public change) s
  unfolding configure
  configure-Keeps change s h =
      ensure_ask _ _ (ensure_modify _ (ensure_check (W.configure s.calls) h (λ _. tt)))

  move_host-Keeps :
      (o : Option Owner) (key : ℕ) (r : ControlPeer) (s : State)
      → P s.journal
      → Keeps (move_host W public o key r) s
  unfolding move_host
  move_host-Keeps none key r s h = ensure_fail h
  move_host-Keeps (some o) key r s h = ensure_when _ (λ _. configure-Keeps _ s h) (λ _. (h, tt))

  return_host-Keeps :
      (key : ℕ) (r : ControlPeer) (s : State) → P s.journal → Keeps (return_host W public key r) s
  unfolding return_host
  return_host-Keeps key r s h =
      ensure_when _
        (λ _.
          ensure_bind (inspect-Keeps key r s h)
            (λ d t p _. move_host-Keeps (control_owner d r.ip 0) key r t p))
        (λ _. (h, tt))

  remove_found-Keeps :
      (found : Option DevicePeer) (d : Device) (key : ℕ) (r : ControlPeer) (s : State)
      → P s.journal
      → Keeps (remove_found W public found d key r) s
  unfolding remove_found
  remove_found-Keeps none d key r s h = ensure_done h tt
  remove_found-Keeps (some p) d key r s h = ensure_require _ h (λ _. configure-Keeps _ s h)

  remove_direct-Keeps :
      (key : ℕ) (r : ControlPeer) (s : State) → P s.journal → Keeps (remove_direct W public key r) s
  unfolding remove_direct
  remove_direct-Keeps key r s h =
      ensure_bind (inspect-Keeps key r s h)
        (λ d t p _. remove_found-Keeps (control_find_peer d key) d key r t p)

-- The keys of the journal pass this test, ...
abbrev pub Within : (ℕ → Bool) → Journal → Type 0
Within keys j = (k : ℕ) → is_recorded k j ≡ true → keys k ≡ true

-- ... and this key is no longer in it.
abbrev pub Without : ℕ → (ℕ → Bool) → Journal → Type 0
Without key keys j = Within keys j × (is_recorded key j ≡ false)

module _ (W : Outside) (public : ℕ) (keys : ℕ → Bool) (key : ℕ) (listed : keys key ≡ true) where
  put-Within : (r : ControlPeer) (j : Journal) → Within keys j → Within keys (insert key r j)
  put-Within r j h k a = ground (arith, h k, lookup-insert k key r j, listed)

  drop-Without : (j : Journal) → Within keys j → Without key keys (erase key j)
  drop-Without j h =
      ((λ k a. ground (arith, h k, lookup-erase k key j)), ground (arith, lookup-erase key key j))

  abbrev Removes : M (Unit {0}) → State → Type 0
  Removes m s = Ensures (λ t. Within keys t.journal) (λ _ t. Without key keys t.journal) m s

  forget-Removes :
      (r : ControlPeer) (s : State) → Within keys s.journal → Removes (forget W public key r) s
  unfolding forget modify
  forget-Removes r s h = ensure_modify _ (
      ensure_or (put key r) (save-Keeps W public (Without key keys) _ (drop-Without s.journal h))
        (λ t p _. (p.0, p)) (λ t p. put-Within r t.journal p.0))

  restore_marked-Removes :
      (r : ControlPeer) (s : State)
      → Within keys s.journal
      → Removes (restore_marked W public key r) s
  unfolding restore_marked
  restore_marked-Removes r s h =
      ensure_then (return_host-Keeps W public (Within keys) key r s h) (λ _ t p _.
        ensure_then (remove_direct-Keeps W public (Within keys) key r t p) (λ _ u q _.
          ensure_bind (inspect-Keeps W public (Within keys) key r u q)
            (λ d v w _. ensure_require _ w (λ _. forget-Removes r v w))))

  restore_record-Removes :
      (r : Option ControlPeer) (s : State)
      → Within keys s.journal
      → lookup key s.journal ≡ r
      → Removes (restore_record W public r key) s
  unfolding restore_record
  restore_record-Removes none s h e = ensure_done h (h, ground (arith, e))
  restore_record-Removes (some r) s h e =
      ensure_bind (device-Keeps W public (Within keys) s h) (λ d t p _. ensure_require _ p (λ _.
        ensure_modify _ (
          ensure_then (save-Keeps W public (Within keys) _ (put-Within (marked r) t.journal p))
            (λ _ u q _. restore_marked-Removes (marked r) u q))))

  pub restore-Removes : (s : State) → Within keys s.journal → Removes (restore W public key) s
  unfolding restore
  restore-Removes s h = ensure_get _ (restore_record-Removes _ s h refl)
