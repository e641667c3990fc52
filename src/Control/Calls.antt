-- ===== src/Control/Calls.antt =====
-- Every call of the controller is safe against a crash at any moment, and so is its start (control.go).
use wireguard_mesh.Prelude.{ℕ, ◌≡◌, true, Option, none, some, ◌∷◌, lookup, arith, all-lookup}
use wireguard_mesh.Netip.{Addr, AddrPort}
use wireguard_mesh.Prelude.Program.{modify}
use wireguard_mesh.Prelude.Program.Ensures.{
  Ensures, ensure_bind, ensure_then, ensure_pure, ensure_fail, ensure_get, ensure_modify,
  ensure_require, ensure_check, ensure_or, ensure_weaker,
}
use wireguard_mesh.Control.State.{
  ControlPeer, Device, DevicePeer, Outside, started, State, Journal, is_active,
}
use wireguard_mesh.Control.Effects.{put}
use wireguard_mesh.Control.Apply.{apply, all_settled}
use wireguard_mesh.Control.Rekey.{
  check_all, rekey_record, rekey, pending_rekey, rekeyed, last_handshake, handshake_record,
  handshake, check_device,
}
use wireguard_mesh.Control.Start.{start_journal}
use wireguard_mesh.Control.Crash.{
  IsSafe, CrashSafe, Kept, IsHeld, is_recorded, put-IsSafe, device-IsSafe, inspect-IsSafe,
  save-IsSafe, configure-IsSafe,
}
use wireguard_mesh.Control.Safety.{Safe, plan-Safe, apply_planned-Safe, restore_all-Safe}

pub settled_active :
    (sha256 : ℕ → ℕ) (d : Device) (key : ℕ) (ip : Addr) (journal : Journal)
    → all_settled sha256 d key ip journal ≡ true
    → (q : ControlPeer) → lookup key journal ≡ some q
    → is_active q.phase ≡ true
unfolding all_settled
settled_active sha256 d key ip journal h q e = ground (arith, all-lookup _ key q journal h e)

module _ (W : Outside) (public : ℕ) where
  pub apply-Safe :
      (key : ℕ) (ip : Addr) (psk : ℕ) (endpoint : AddrPort) (s : State)
      → IsSafe s
      → Safe (apply W public key ip psk endpoint) s
  unfolding apply
  apply-Safe key ip psk endpoint s h = ensure_require _ h (λ _.
      ensure_bind (device-IsSafe W public s h) (λ d t p _. ensure_get _ (
        ensure_require _ p (λ settled.
          ensure_bind
            (plan-Safe W public (lookup key t.journal) d key ip psk t p
              (settled_active W.sha256 d key ip t.journal settled))
            (λ r u q a. apply_planned-Safe W public key psk endpoint r u q a)))))

  check_all-Safe :
      (key : ℕ) (r : ControlPeer) (s : State) → IsSafe s → Safe (check_all W public key r) s
  unfolding check_all
  check_all-Safe key r s h =
      ensure_bind (device-IsSafe W public s h)
        (λ d t p _. ensure_get _ (ensure_check _ p (λ _. tt)))

  rekey_record-Safe :
      (r : Option ControlPeer) (key old new : ℕ) (s : State)
      → IsSafe s
      → Safe (rekey_record W public r key old new) s
  unfolding rekey_record modify
  rekey_record-Safe none key old new s h = ensure_fail h
  rekey_record-Safe (some r) key old new s h = ensure_require _ h (λ _.
      ensure_then (check_all-Safe key r s h) (λ _ t p _. ensure_modify _ (
        ensure_then (save-IsSafe W public _ (put-IsSafe key _ t p)) (λ _ u q _.
          ensure_then (check_all-Safe key r u q) (λ _ v w _.
            ensure_then (configure-IsSafe W public _ v w tt) (λ _ x y _.
              ensure_then (check_all-Safe key (rekeyed W public r new) x y) (λ _ z c _.
                ensure_modify _ (
                  ensure_or (put key (pending_rekey W public r new))
                    (save-IsSafe W public _ (put-IsSafe key _ z c)) (λ a b _. (b, tt))
                    (λ a b. put-IsSafe key (pending_rekey W public r new) a b)))))))))

  pub rekey-Safe : (key old new : ℕ) (s : State) → IsSafe s → Safe (rekey W public key old new) s
  unfolding rekey
  rekey-Safe key old new s h = ensure_get _ (rekey_record-Safe _ key old new s h)

  last_handshake-Safe :
      (p : Option DevicePeer) (s : State)
      → IsSafe s
      → Ensures IsSafe (λ _ _. Unit {0}) (last_handshake W public p) s
  unfolding last_handshake
  last_handshake-Safe none s h = ensure_fail h
  last_handshake-Safe (some p) s h = ensure_pure _ h tt

  handshake_record-Safe :
      (r : Option ControlPeer) (key : ℕ) (s : State)
      → IsSafe s
      → Ensures IsSafe (λ _ _. Unit {0}) (handshake_record W public r key) s
  unfolding handshake_record
  handshake_record-Safe none key s h = ensure_fail h
  handshake_record-Safe (some r) key s h =
      ensure_require _ h (λ _.
        ensure_bind (inspect-IsSafe W public key r s h) (λ d t p _. last_handshake-Safe _ t p))

  pub handshake-Safe :
      (key : ℕ) (s : State) → IsSafe s → Ensures IsSafe (λ _ _. Unit {0}) (handshake W public key) s
  unfolding handshake
  handshake-Safe key s h = ensure_get _ (handshake_record-Safe _ key s h)

  pub check_device-Safe :
      (s : State) → IsSafe s → Ensures IsSafe (λ _ _. Unit {0}) (check_device W public) s
  unfolding check_device
  check_device-Safe s h =
      ensure_bind (device-IsSafe W public s h)
        (λ d t p _. ensure_get _ (ensure_require _ p (λ _. ensure_pure d p tt)))

  pub started-IsSafe :
      (j : Journal) (s : State)
      → CrashSafe s.effects
      → Kept s.effects
      → ((k : ℕ) → IsHeld k s.effects → is_recorded k j ≡ true)
      → IsSafe (record s { journal = j; effects = started j ∷ s.effects })
  started-IsSafe j s c kept h = record {
    remembers = λ k a. h k (kept k a);
    crash_safe = ((λ k a. (h k (kept k a), tt)), c);
  }

  pub start_journal-Safe :
      (j : Journal) (s : State)
      → IsSafe (record s { journal = j; effects = started j ∷ s.effects })
      → Ensures IsSafe (λ _ _. Unit {0}) (start_journal W public (some j)) s
  unfolding start_journal
  start_journal-Safe j s h = ensure_modify _ (
      ensure_then (restore_all-Safe W public _ h)
        (λ _ t p _. ensure_weaker (device-IsSafe W public t p) (λ _ _ _ _. tt)))
