-- ===== src/Control/Applied.antt =====
-- What an `Apply` that succeeds has done (control.go).
use wireguard_mesh.Prelude.{
  ℕ, ◌≡◌, refl, ◌==◌, Bool, true, false, Option, none, some, List, ◌∷◌, lookup, insert, arith,
  lookup-insert, if◌then◌else◌, ◌⊎◌, inl, inr,
}
use wireguard_mesh.Netip.{Addr, AddrPort, same_addr, Prefix}
use wireguard_mesh.Prelude.Program.{ok}
use wireguard_mesh.Prelude.Program.Ensures.{
  ensured_ok, ensure_bind, ensure_then, ensure_pure, ensure_fail, ensure_get, ensure_modify,
  ensure_require, ensure_or, ensure_weaker,
}
use wireguard_mesh.Control.State.{
  ControlPeer, ControlPhase, planning, active, Device, Change, add, set_endpoint, Outside, Effect,
  inspected, configured, saved, State, is_active,
}
use wireguard_mesh.Control.Device.{check_peer, control_owner}
use wireguard_mesh.Control.Effects.{put}
use wireguard_mesh.Control.Restore.{restore}
use wireguard_mesh.Control.Apply.{
  plan_owner, plan, announce, commit, apply_planned, apply, apply_change, stable_owner,
}
use wireguard_mesh.Control.Exact.{Succeeds, device-Adds, inspect-Adds, save-Adds, configure-Adds}

module _ (W : Outside) (public : ℕ) where
  -- the record of this peer in the journal, the device that was read last and the configuration
  pub record Applied (key : ℕ) (ip : Addr) (psk : ℕ) (endpoint : AddrPort) (t : State)
      : Type 0 where
    pub peer : ControlPeer
    pub device : Device
    pub change : Change
    pub rest : List Effect
    pub recorded : lookup key t.journal ≡ some peer
    pub is_ready : is_active peer.phase ≡ true
    pub same_ip : same_addr peer.ip ip ≡ true
    pub same_key : (peer.psk_hash == W.sha256 psk) ≡ true
    pub checked : check_peer W.sha256 device key peer ≡ true
    pub asked : (change ≡ set_endpoint key endpoint) ⊎ (change ≡ add key psk peer.ip endpoint)
    pub did : t.effects ≡ saved t.journal true ∷ inspected device ∷ configured change true ∷ rest

  -- the record has the address and the key of the call
  abbrev For : Addr → ℕ → ControlPeer → Type 0
  For ip psk r = (same_addr r.ip ip ≡ true) × ((r.psk_hash == W.sha256 psk) ≡ true)

  same_addr_refl : (ip : Addr) → same_addr ip ip ≡ true
  same_addr_refl ip = ground arith

  eq_refl : (n : ℕ) → (n == n) ≡ true
  eq_refl n = ground arith

  plan_owner-For :
      (found : Option (ℕ × Prefix)) (key : ℕ) (ip : Addr) (psk : ℕ) (s : State)
      → Succeeds W public (λ r _. For ip psk r) (plan_owner W public found key ip psk) s
  unfolding plan_owner
  plan_owner-For none key ip psk s = ensure_fail tt
  plan_owner-For (some found) key ip psk s = ensure_modify _ (
      ensure_then (save-Adds W public _)
        (λ _ t _ _. ensure_pure _ tt (same_addr_refl ip, eq_refl (W.sha256 psk))))

  plan-For :
      (r : Option ControlPeer) (d : Device) (key : ℕ) (ip : Addr) (psk : ℕ) (s : State)
      → Succeeds W public (λ r _. For ip psk r) (plan W public r d key ip psk) s
  unfolding plan
  plan-For none d key ip psk s = ensure_require _ tt (λ _.
      ensure_get _
        (plan_owner-For (stable_owner (control_owner d ip 0) key public s.journal) key ip psk s))
  plan-For (some r) d key ip psk s =
      ensure_require _ tt (λ e. ensure_pure r tt (ground (arith, e), ground (arith, e)))

  announce-For :
      (phase : ControlPhase) (key : ℕ) (ip : Addr) (psk : ℕ) (r : ControlPeer) (s : State)
      → For ip psk r
      → Succeeds W public (λ r _. For ip psk r) (announce W public phase key r) s
  unfolding announce
  announce-For planning key ip psk r s h = ensure_modify _ (
      ensure_then {Q = λ _ _. Unit {0}}
        (ensure_or (put key (record r { phase = planning })) (save-Adds W public _)
          (λ t _ _. (tt, tt)) (λ _ _. tt))
        (λ _ t _ _. ensure_pure _ tt h))
  announce-For _ key ip psk r s h = ensure_pure r tt h

  change_asked :
      (b : Bool) (key psk : ℕ) (ip : Addr) (endpoint : AddrPort)
      → let c = if b then set_endpoint key endpoint else add key psk ip endpoint in
        (c ≡ set_endpoint key endpoint) ⊎ (c ≡ add key psk ip endpoint)
  change_asked true key psk ip endpoint = inl refl
  change_asked false key psk ip endpoint = inr refl

  commit-Applied :
      (key : ℕ) (ip : Addr) (psk : ℕ) (endpoint : AddrPort) (r : ControlPeer) (s : State)
      → For ip psk r
      → Succeeds W public
          (λ _. Applied key ip psk endpoint)
          (commit W public key r (apply_change r key psk endpoint))
          s
  unfolding commit apply_change
  commit-Applied key ip psk endpoint r s h = ensure_then (configure-Adds W public _ s) (λ _ t _ c.
      ensure_then (inspect-Adds W public key (record r { phase = active }) t) (λ d u _ i.
        ensure_modify _ (
          ensure_weaker
            (save-Adds W public
              (record u { journal = insert key (record r { phase = active }) u.journal }))
            (λ _ v _ w. record {
              peer = record r { phase = active };
              device = d;
              change = apply_change r key psk endpoint;
              rest = s.effects;
              recorded =
                  rw w.0
                    (ground (arith, lookup-insert key key (record r { phase = active }) u.journal));
              is_ready = refl;
              same_ip = h.0;
              same_key = h.1;
              checked = i.1;
              asked = change_asked (is_active r.phase) key psk r.ip endpoint;
              did = rw w.1 (rw w.0 (rw i.0.1 (rw c.1 refl)));
            }))))

  apply_planned-Applied :
      (key : ℕ) (ip : Addr) (psk : ℕ) (endpoint : AddrPort) (r : ControlPeer) (s : State)
      → For ip psk r
      → Succeeds W public
          (λ _. Applied key ip psk endpoint)
          (apply_planned W public key psk endpoint r)
          s
  unfolding apply_planned
  apply_planned-Applied key ip psk endpoint r s h = ensure_bind (device-Adds W public s) (λ d t _ _.
      ensure_require _ tt (λ _. ensure_require _ tt (λ _.
        ensure_bind (announce-For r.phase key ip psk r t h) (λ announced u _ f.
          ensure_or (restore W public key) (commit-Applied key ip psk endpoint announced u f)
            (λ _ _ a. (tt, a)) (λ _ _. tt)))))

  apply-Applied :
      (key : ℕ) (ip : Addr) (psk : ℕ) (endpoint : AddrPort) (s : State)
      → Succeeds W public (λ _. Applied key ip psk endpoint) (apply W public key ip psk endpoint) s
  unfolding apply
  apply-Applied key ip psk endpoint s = ensure_require _ tt (λ _.
      ensure_bind (device-Adds W public s) (λ d t _ _. ensure_get _ (
        ensure_require _ tt (λ _.
          ensure_bind (plan-For (lookup key t.journal) d key ip psk t)
            (λ r u _ f. apply_planned-Applied key ip psk endpoint r u f)))))

  -- Where `Apply` succeeds, the journal has an active record of the key with the address and the hash of
  -- the call; the last effects are the configuration of this peer, an inspection of a device that passes
  -- the check of the record, and the writing of this journal.
  pub apply_takes_effect :
      (key : ℕ) (ip : Addr) (psk : ℕ) (endpoint : AddrPort) (s : State)
      → (apply W public key ip psk endpoint s).0 ≡ ok tt
      → Applied key ip psk endpoint (apply W public key ip psk endpoint s).1
  apply_takes_effect key ip psk endpoint s e = ensured_ok tt (apply-Applied key ip psk endpoint s) e
