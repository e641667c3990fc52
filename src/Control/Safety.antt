-- ===== src/Control/Safety.antt =====
-- Each operation of the controller is safe against a crash at any moment (control.go).
use wireguard_mesh.Prelude.{
  ℕ, ◌≡◌, refl, Bool, true, false, Option, none, some, [], ◌∷◌, insert, arith, lookup-insert,
  if◌then◌else◌,
}
use wireguard_mesh.Netip.{Addr, AddrPort, Prefix}
use wireguard_mesh.Prelude.Program.{modify}
use wireguard_mesh.Prelude.Program.Ensures.{
  Ensures, ensured, ensure_bind, ensure_then, ensure_pure, ensure_fail, ensure_get, ensure_modify,
  ensure_require, ensure_done, ensure_when, ensure_or, ensure_weaker,
}
use wireguard_mesh.Control.State.{
  ControlPeer, ControlPhase, planning, adding, active, Device, DevicePeer, Change, add,
  set_endpoint, Outside, State, Journal, is_planning, is_active,
}
use wireguard_mesh.Control.Device.{Owner, control_find_peer, control_owner}
use wireguard_mesh.Control.Effects.{M, put}
use wireguard_mesh.Control.Restore.{
  marked, move_host, return_host, remove_found, remove_direct, forget, restore_marked,
  restore_record, restore, restore_keys, restore_all,
}
use wireguard_mesh.Control.Apply.{
  plan_owner, plan, announce, commit, apply_planned, apply_change, stable_owner,
}
use wireguard_mesh.Control.Crash.{
  IsSafe, Announced, Allowed, IsWritten, may_stand, put-IsSafe, drop_record-IsSafe, device-IsSafe,
  inspect-IsSafe, save-IsSafe, configure-IsSafe,
}

abbrev pub Safe : M (Unit {0}) → State → Type 0
Safe m s = Ensures IsSafe (λ _ _. Unit) m s

module _ (W : Outside) (public : ℕ) where
  move_host-Safe :
      (o : Option Owner) (key : ℕ) (r : ControlPeer) (s : State)
      → IsSafe s
      → Safe (move_host W public o key r) s
  unfolding move_host
  move_host-Safe none key r s h = ensure_fail h
  move_host-Safe (some o) key r s h =
      ensure_when _ (λ _. configure-IsSafe W public _ s h tt) (λ _. (h, tt))

  return_host-Safe :
      (key : ℕ) (r : ControlPeer) (s : State) → IsSafe s → Safe (return_host W public key r) s
  unfolding return_host
  return_host-Safe key r s h =
      ensure_when _
        (λ _.
          ensure_bind (inspect-IsSafe W public key r s h)
            (λ d t p _. move_host-Safe (control_owner d r.ip 0) key r t p))
        (λ _. (h, tt))

  remove_found-Safe :
      (found : Option DevicePeer) (d : Device) (key : ℕ) (r : ControlPeer) (s : State)
      → IsSafe s
      → Safe (remove_found W public found d key r) s
  unfolding remove_found
  remove_found-Safe none d key r s h = ensure_done h tt
  remove_found-Safe (some p) d key r s h =
      ensure_require _ h (λ _. configure-IsSafe W public _ s h tt)

  remove_direct-Safe :
      (key : ℕ) (r : ControlPeer) (s : State) → IsSafe s → Safe (remove_direct W public key r) s
  unfolding remove_direct
  remove_direct-Safe key r s h =
      ensure_bind (inspect-IsSafe W public key r s h)
        (λ d t p _. remove_found-Safe (control_find_peer d key) d key r t p)

  forget-Safe :
      (key : ℕ) (r : ControlPeer) (s : State)
      → IsSafe s
      → may_stand key s.effects ≡ false
      → Safe (forget W public key r) s
  unfolding forget modify
  forget-Safe key r s h gone = ensure_modify _ (
      ensure_or (put key r) (save-IsSafe W public _ (drop_record-IsSafe key s h gone))
        (λ t p _. (p, tt)) (λ t p. put-IsSafe key r t p))

  restore_marked-Safe :
      (key : ℕ) (r : ControlPeer) (s : State) → IsSafe s → Safe (restore_marked W public key r) s
  unfolding restore_marked
  restore_marked-Safe key r s h = ensure_then (return_host-Safe key r s h) (λ _ t p _.
      ensure_then (remove_direct-Safe key r t p) (λ _ u q _.
        ensure_bind (inspect-IsSafe W public key r u q)
          (λ d v w shown. ensure_require _ w (λ e. forget-Safe key r v w (shown key e)))))

  restore_record-Safe :
      (r : Option ControlPeer) (key : ℕ) (s : State)
      → IsSafe s
      → Safe (restore_record W public r key) s
  unfolding restore_record
  restore_record-Safe none key s h = ensure_done h tt
  restore_record-Safe (some r) key s h = ensure_bind (device-IsSafe W public s h) (λ d t p _.
      ensure_require _ p (λ _. ensure_modify _ (
        ensure_then (save-IsSafe W public _ (put-IsSafe key (marked r) t p))
          (λ _ u q _. restore_marked-Safe key (marked r) u q))))

  pub restore-Safe : (key : ℕ) (s : State) → IsSafe s → Safe (restore W public key) s
  unfolding restore
  restore-Safe key s h = ensure_get _ (restore_record-Safe _ key s h)

  restore_keys-Safe : (keys : Journal) (s : State) → IsSafe s → Safe (restore_keys W public keys) s
  unfolding restore_keys
  restore_keys-Safe [] s h = ensure_done h tt
  restore_keys-Safe ((key, r) ∷ rest) s h =
      ensure_then {Q = λ _ _. Unit {0}}
        (ensure_or (restore_keys W public rest) (restore-Safe key s h) (λ t p _. (p, tt))
          (λ t p. ensured (restore_keys-Safe rest t p)))
        (λ _ t p _. restore_keys-Safe rest t p)

  pub restore_all-Safe : (s : State) → IsSafe s → Safe (restore_all W public) s
  unfolding restore_all
  restore_all-Safe s h = ensure_get _ (restore_keys-Safe s.journal s h)

  -- A record that is being added is in the journal, and on the disk.
  abbrev Ready : ℕ → ControlPeer → State → Type 0
  Ready key r t = is_active r.phase ≡ false → Announced key t

  written-Announced :
      (key : ℕ) (r : ControlPeer) (j : Journal) (t : State)
      → IsWritten (insert key r j) t
      → Announced key t
  written-Announced key r j t (same, held) = (
    rw same (rw (lookup-insert key key r j) (ground arith)),
    rw held (rw (lookup-insert key key r j) (ground arith), tt),
  )

  plan_owner-Safe :
      (found : Option (ℕ × Prefix)) (key : ℕ) (ip : Addr) (psk : ℕ) (s : State)
      → IsSafe s
      → Ensures IsSafe
          (λ r _. is_active r.phase ≡ false → is_planning r.phase ≡ true)
          (plan_owner W public found key ip psk)
          s
  unfolding plan_owner
  plan_owner-Safe none key ip psk s h = ensure_fail h
  plan_owner-Safe (some found) key ip psk s h = ensure_modify _ (
      ensure_then (save-IsSafe W public _ (put-IsSafe key _ s h))
        (λ _ t p _. ensure_pure _ p (λ _. refl)))

  pub plan-Safe :
      (r : Option ControlPeer) (d : Device) (key : ℕ) (ip : Addr) (psk : ℕ) (s : State)
      → IsSafe s
      → ((q : ControlPeer) → r ≡ some q → is_active q.phase ≡ true)
      → Ensures IsSafe
          (λ r _. is_active r.phase ≡ false → is_planning r.phase ≡ true)
          (plan W public r d key ip psk)
          s
  unfolding plan
  plan-Safe none d key ip psk s h a = ensure_require _ h (λ _.
      ensure_get _
        (plan_owner-Safe (stable_owner (control_owner d ip 0) key public s.journal) key ip psk s h))
  plan-Safe (some r) d key ip psk s h a =
      ensure_require _ h (λ _. ensure_pure r h (λ n. ground (arith, a r refl)))

  announce-Safe :
      (phase : ControlPhase) (key : ℕ) (r : ControlPeer) (s : State)
      → IsSafe s
      → (is_planning phase ≡ false → is_active r.phase ≡ true)
      → Ensures IsSafe (Ready key) (announce W public phase key r) s
  unfolding announce modify
  announce-Safe planning key r s h a = ensure_modify _ (
      ensure_then {Q = λ _. IsWritten (insert key (record r { phase = adding }) s.journal)}
        (ensure_or (put key (record r { phase = planning }))
          (save-IsSafe W public _ (put-IsSafe key _ s h)) (λ t p w. (p, w))
          (λ t p. put-IsSafe key (record r { phase = planning }) t p))
        (λ _ t p w.
          ensure_pure _ p (λ _. written-Announced key (record r { phase = adding }) s.journal t w)))
  announce-Safe active key r s h a = ensure_pure r h (λ n. ground (arith, a refl))
  announce-Safe _ key r s h a = ensure_pure r h (λ n. ground (arith, a refl))

  change-Allowed :
      (b : Bool) (key psk : ℕ) (ip : Addr) (endpoint : AddrPort) (s : State)
      → (b ≡ false → Announced key s)
      → Allowed (if b then set_endpoint key endpoint else add key psk ip endpoint) s
  change-Allowed true key psk ip endpoint s ready = tt
  change-Allowed false key psk ip endpoint s ready = ready refl

  apply_change-Allowed :
      (r : ControlPeer) (key psk : ℕ) (endpoint : AddrPort) (s : State)
      → Ready key r s
      → Allowed (apply_change r key psk endpoint) s
  unfolding apply_change
  apply_change-Allowed r key psk endpoint s ready =
      change-Allowed (is_active r.phase) key psk r.ip endpoint s ready

  commit-Safe :
      (key : ℕ) (r : ControlPeer) (change : Change) (s : State)
      → IsSafe s
      → Allowed change s
      → Safe (commit W public key r change) s
  unfolding commit
  commit-Safe key r change s h a = ensure_then (configure-IsSafe W public change s h a) (λ _ t p _.
      ensure_then (inspect-IsSafe W public key (record r { phase = active }) t p) (λ _ u q _.
        ensure_modify _
          (ensure_weaker (save-IsSafe W public _ (put-IsSafe key _ u q)) (λ _ _ _ _. tt))))

  pub apply_planned-Safe :
      (key psk : ℕ) (endpoint : AddrPort) (r : ControlPeer) (s : State)
      → IsSafe s
      → (is_active r.phase ≡ false → is_planning r.phase ≡ true)
      → Safe (apply_planned W public key psk endpoint r) s
  unfolding apply_planned
  apply_planned-Safe key psk endpoint r s h a = ensure_bind (device-IsSafe W public s h) (λ d t p _.
      ensure_require _ p (λ _. ensure_require _ p (λ _.
        ensure_bind (announce-Safe r.phase key r t p (λ n. ground (arith, a)))
          (λ announced u q ready.
            ensure_or (restore W public key)
              (commit-Safe key announced _ u q
                (apply_change-Allowed announced key psk endpoint u ready))
              (λ v w _. (w, tt)) (λ v w. ensured (restore-Safe key v w))))))
