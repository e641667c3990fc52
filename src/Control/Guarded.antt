-- ===== src/Control/Guarded.antt =====
-- Each configuration that the controller writes follows a fresh look at the device (control.go).
use wireguard_mesh.Prelude.{
  ℕ, ◌≡◌, refl, ◌∙◌, sym, true, false, not, ◌&&◌, Option, none, some, List, [], ◌∷◌, lookup,
  lookup-insert, ap, is_some, arith, ◌⊎◌, inl, inr,
}
use wireguard_mesh.Netip.{Addr, AddrPort, Prefix}
use wireguard_mesh.Prelude.Program.{modify}
use wireguard_mesh.Prelude.Program.Ensures.{
  ensured, ensure_bind, ensure_then, ensure_pure, ensure_fail, ensure_get, ensure_modify,
  ensure_require, ensure_done, ensure_or, ensure_weaker, ensure_both,
}
use wireguard_mesh.Control.State.{
  ControlPeer, ControlPhase, planning, adding, active, Device, Change, Outside, Effect, State,
  Journal, is_active, is_planning,
}
use wireguard_mesh.Control.Device.{check_peer, control_find_peer, control_owner}
use wireguard_mesh.Control.Effects.{put}
use wireguard_mesh.Control.Restore.{
  marked, restore_record, restore, restore_keys, restore_all, restore_phase,
}
use wireguard_mesh.Control.Apply.{
  plan_owner, plan, planned, announce, commit, apply_planned, apply, apply_change, stable_owner,
}
use wireguard_mesh.Control.Calls.{settled_active}
use wireguard_mesh.Control.Exact.{save-Adds}
use wireguard_mesh.Control.Looked.{
  Guards, Good, put-Good, Fresh, last_seen, last_journal, device-Guards, inspect-Guards,
  save-Guards, configure-Guards,
}
use wireguard_mesh.Control.Guard.{restore_marked-Guards}

module _ (W : Outside) (public : ℕ) where
  marked_inactive : (r : ControlPeer) → is_active (marked r).phase ≡ false
  unfolding restore_phase
  marked_inactive r = ground arith

  restore_record-Guards :
      (r : Option ControlPeer) (key : ℕ) (s : State)
      → Good W.sha256 s
      → Guards W public (λ _ _. Unit {0}) (restore_record W public r key) s
  unfolding restore_record
  restore_record-Guards none key s h = ensure_done h tt
  restore_record-Guards (some r) key s h = ensure_bind (device-Guards W public s h) (λ d t p _.
      ensure_require _ p (λ _. ensure_modify _ (
        ensure_then (save-Guards W public _ p.0) (λ _ u q e.
          restore_marked-Guards W public key (marked r) u q
            (ap (lookup key) e.1 ∙ ground (arith, lookup-insert key key (marked r) t.journal))
            (marked_inactive r)))))

  pub restore-Guards :
      (key : ℕ) (s : State)
      → Good W.sha256 s
      → Guards W public (λ _ _. Unit {0}) (restore W public key) s
  unfolding restore
  restore-Guards key s h = ensure_get _ (restore_record-Guards _ key s h)

  restore_keys-Guards :
      (keys : Journal) (s : State)
      → Good W.sha256 s
      → Guards W public (λ _ _. Unit {0}) (restore_keys W public keys) s
  unfolding restore_keys
  restore_keys-Guards [] s h = ensure_done h tt
  restore_keys-Guards ((key, r) ∷ rest) s h =
      ensure_then {Q = λ _ _. Unit {0}}
        (ensure_or (restore_keys W public rest) (restore-Guards key s h) (λ t p _. (p, tt))
          (λ t p. ensured (restore_keys-Guards rest t p)))
        (λ _ t p _. restore_keys-Guards rest t p)

  pub restore_all-Guards :
      (s : State) → Good W.sha256 s → Guards W public (λ _ _. Unit {0}) (restore_all W public) s
  unfolding restore_all
  restore_all-Guards s h = ensure_get _ (restore_keys-Guards s.journal s h)

  -- a record that is used: an active one, or one that is planned
  abbrev Fit : ControlPeer → Type 0
  Fit r = is_active r.phase ≡ false → is_planning r.phase ≡ true

  -- it stands in memory
  abbrev Stands : ℕ → ControlPeer → State → Type 0
  Stands key r t = Fit r × (lookup key t.journal ≡ some r)

  plan_owner-Guards :
      (found : Option (ℕ × Prefix)) (key : ℕ) (ip : Addr) (psk : ℕ) (s : State)
      → Good W.sha256 s
      → Guards W public (λ r t. Stands key r t) (plan_owner W public found key ip psk) s
  unfolding plan_owner
  plan_owner-Guards none key ip psk s h = ensure_fail h
  plan_owner-Guards (some found) key ip psk s h = ensure_modify _ (
      ensure_then (ensure_both (save-Guards W public _ h.0) (save-Adds W public _)) (λ _ t p e.
        ensure_pure _ p (
          (λ _. refl),
          ap (lookup key) e.1.0
              ∙ ground (arith, lookup-insert key key (planned W.sha256 ip psk found) s.journal),
        )))

  plan-Guards :
      (r : Option ControlPeer) (d : Device) (key : ℕ) (ip : Addr) (psk : ℕ) (s : State)
      → Good W.sha256 s
      → ((q : ControlPeer) → r ≡ some q → is_active q.phase ≡ true)
      → lookup key s.journal ≡ r
      → Guards W public (λ r t. Stands key r t) (plan W public r d key ip psk) s
  unfolding plan
  plan-Guards none d key ip psk s h a g = ensure_require _ h (λ _.
      ensure_get _ (
        plan_owner-Guards (stable_owner (control_owner d ip 0) key public s.journal) key ip psk s
          h))
  plan-Guards (some r) d key ip psk s h a g =
      ensure_require _ h (λ _. ensure_pure r h ((λ n. ground (arith, a r refl)), g))

  -- the record after the announcement: the active one, or the planned one that is being added;
  -- and it was written
  abbrev From : ℕ → ControlPeer → ControlPeer → List Effect → Type 0
  From key r a es =
      ((is_active r.phase ≡ true) × (a ≡ r) × (lookup key (last_journal es) ≡ some r))
      ⊎ ((is_planning r.phase ≡ true)
          × (a ≡ (record r { phase = adding }))
          × (lookup key (last_journal es) ≡ some (record r { phase = adding })))

  announce-Guards :
      (phase : ControlPhase) (key : ℕ) (r : ControlPeer) (s : State)
      → Good W.sha256 s
      → Stands key r s
      → is_planning phase ≡ is_planning r.phase
      → Guards W public
          (λ a t. (last_seen t.effects ≡ last_seen s.effects) × From key r a t.effects)
          (announce W public phase key r)
          s
  unfolding announce modify
  announce-Guards planning key r s h f e = ensure_modify _ (
      ensure_then
        {Q = λ _ t.
          (last_seen t.effects ≡ last_seen s.effects)
          × (lookup key (last_journal t.effects) ≡ some (record r { phase = adding }))}
        (ensure_or (put key (record r { phase = planning })) (save-Guards W public _ h.0)
          (λ t p w. (
            p,
            (
              w.0,
              ap (lookup key) w.1
                  ∙ ground (arith, lookup-insert key key (record r { phase = adding }) s.journal),
            ),
          ))
          (λ t p. put-Good W.sha256 key (record r { phase = planning }) t refl p))
        (λ _ t p w. ensure_pure _ p (w.0, inr (sym e, refl, w.1))))
  announce-Guards _ key r s h f e =
      let a : is_active r.phase ≡ true = ground (arith, f.0, e) in
      ensure_pure r h (refl, inl (a, refl, h.1 key r f.1 a))

  change_Fresh :
      (d : Device) (key psk : ℕ) (endpoint : AddrPort) (r a : ControlPeer) (es : List Effect)
      → last_seen es ≡ some d
      → check_peer W.sha256 d key r ≡ true
      → not (is_planning r.phase && is_some (control_find_peer d key)) ≡ true
      → From key r a es
      → Fresh W.sha256 (apply_change a key psk endpoint) es
  unfolding apply_change
  change_Fresh d key psk endpoint r a es l c n (inl f) = record {
    device = d;
    key = key;
    peer = r;
    seen = l;
    checked = c;
    written = rw f.1 (rw f.0 f.2);
    needs = rw f.1 (rw f.0 (refl, f.0));
  }
  change_Fresh d key psk endpoint r a es l c n (inr f) = record {
    device = d;
    key = key;
    peer = r;
    seen = l;
    checked = c;
    written = rw f.1 f.2;
    needs = rw f.1 (refl, refl, f.0, ground (arith, n, f.0));
  }

  commit-Guards :
      (key : ℕ) (r : ControlPeer) (change : Change) (s : State)
      → Good W.sha256 s
      → Fresh W.sha256 change s.effects
      → Guards W public (λ _ _. Unit {0}) (commit W public key r change) s
  unfolding commit
  commit-Guards key r change s h f =
      ensure_then (configure-Guards W public change s h f) (λ _ t p _.
        ensure_then (inspect-Guards W public key (record r { phase = active }) t p)
          (λ _ u q _. ensure_modify _ (ensure_weaker (save-Guards W public _ q.0) (λ _ _ _ _. tt))))

  apply_planned-Guards :
      (key psk : ℕ) (endpoint : AddrPort) (r : ControlPeer) (s : State)
      → Good W.sha256 s
      → Stands key r s
      → Guards W public (λ _ _. Unit {0}) (apply_planned W public key psk endpoint r) s
  unfolding apply_planned
  apply_planned-Guards key psk endpoint r s h f =
      ensure_bind (device-Guards W public s h) (λ d t p l. ensure_require _ p (λ n.
        ensure_require _ p (λ c.
          ensure_bind (announce-Guards r.phase key r t p (f.0, ap (lookup key) l.1 ∙ f.1) refl)
            (λ a u q w.
              ensure_or (restore W public key)
                (commit-Guards key a _ u q
                  (change_Fresh d key psk endpoint r a u.effects (w.0 ∙ l.0) c n w.1))
                (λ x y _. (y, tt)) (λ x y. ensured (restore-Guards key x y))))))

  pub apply-Guards :
      (key : ℕ) (ip : Addr) (psk : ℕ) (endpoint : AddrPort) (s : State)
      → Good W.sha256 s
      → Guards W public (λ _ _. Unit {0}) (apply W public key ip psk endpoint) s
  unfolding apply
  apply-Guards key ip psk endpoint s h = ensure_require _ h (λ _.
      ensure_bind (device-Guards W public s h) (λ d t p _. ensure_get _ (
        ensure_require _ p (λ settled.
          ensure_bind
            (plan-Guards (lookup key t.journal) d key ip psk t p
              (settled_active W.sha256 d key ip t.journal settled) refl)
            (λ r u q a. apply_planned-Guards key psk endpoint r u q a)))))
