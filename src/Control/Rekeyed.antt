-- ===== src/Control/Rekeyed.antt =====
-- What a `Rekey` that succeeds has done (control.go).
use wireguard_mesh.Prelude.{
  ℕ, ◌≡◌, refl, ◌==◌, true, not, ◌&&◌, Option, none, some, List, ◌∷◌, lookup, insert, arith,
  lookup-insert, all-lookup,
}
use wireguard_mesh.Prelude.Program.{ok}
use wireguard_mesh.Prelude.Program.Ensures.{
  ensured_ok, ensure_then, ensure_fail, ensure_get, ensure_modify, ensure_require, ensure_or,
}
use wireguard_mesh.Control.State.{
  ControlPeer, rekeying, Device, set_key, Outside, Effect, inspected, configured, saved, State,
  Journal, is_active,
}
use wireguard_mesh.Control.Device.{check_peer}
use wireguard_mesh.Control.Effects.{put}
use wireguard_mesh.Control.Rekey.{all_active, rekey_record, rekey, pending_rekey, rekeyed}
use wireguard_mesh.Control.Exact.{Adds, Succeeds, save-Adds, configure-Adds, check_all-Adds}

-- a check of the whole journal is one of this record
pub all_active-checked :
    (sha256 : ℕ → ℕ) (d : Device) (key : ℕ) (r p : ControlPeer) (journal : Journal)
    → all_active sha256 d key r journal ≡ true
    → lookup key journal ≡ some p
    → check_peer sha256 d key r ≡ true
unfolding all_active
all_active-checked sha256 d key r p journal h e = ground (arith, all-lookup _ key p journal h e)

module _ (W : Outside) (public : ℕ) where
  -- The record before and after, the journal that was on the disk while the key changed, and the
  -- devices that were read before and after.
  pub record Rekeyed (key old new : ℕ) (t : State) : Type 0 where
    pub peer : ControlPeer
    pub pending : Journal
    pub seen : Device
    pub device : Device
    pub rest : List Effect
    pub had_old : (is_active peer.phase && peer.psk_hash == W.sha256 old) ≡ true
    pub both_kept :
        lookup key pending
        ≡ some (record peer { phase = rekeying; next_psk_hash = some (W.sha256 new) })
    pub recorded : lookup key t.journal ≡ some (record peer { psk_hash = W.sha256 new })
    pub was_checked : check_peer W.sha256 seen key peer ≡ true
    pub checked : check_peer W.sha256 device key (record peer { psk_hash = W.sha256 new }) ≡ true
    pub did :
        t.effects
        ≡ saved t.journal true
          ∷ inspected device
          ∷ configured (set_key key new) true
          ∷ inspected seen
          ∷ saved pending true
          ∷ rest

  ready :
      (r : ControlPeer) (key old new : ℕ) (t u v w x y : State)
      → (is_active r.phase && not (new == 0) && r.psk_hash == W.sha256 old) ≡ true
      → Adds
          (saved (insert key (pending_rekey W public r new) t.journal) true)
          (record t { journal = insert key (pending_rekey W public r new) t.journal })
          u
      → (d : Device) × Adds (inspected d) u v × (all_active W.sha256 d key r u.journal ≡ true)
      → Adds (configured (set_key key new) true) v w
      → (d : Device) × Adds (inspected d) w x
        × (all_active W.sha256 d key (rekeyed W public r new) w.journal ≡ true)
      → Adds
          (saved (insert key (rekeyed W public r new) x.journal) true)
          (record x { journal = insert key (rekeyed W public r new) x.journal })
          y
      → Rekeyed key old new y
  ready r key old new t u v w x y e b c g i l = record {
    peer = r;
    pending = u.journal;
    seen = c.0;
    device = i.0;
    rest = t.effects;
    had_old = ground (arith, e);
    both_kept = held;
    recorded = rw l.0 (ground (arith, lookup-insert key key (rekeyed W public r new) x.journal));
    was_checked = all_active-checked W.sha256 c.0 key r _ u.journal c.2 held;
    checked =
        all_active-checked W.sha256 i.0 key (rekeyed W public r new) (pending_rekey W public r new)
          w.journal i.2 (rw g.0 (rw c.1.0 held));
    did = rw l.1 (rw l.0 (rw i.1.1 (rw g.1 (rw c.1.1 (rw b.1 (rw b.0 refl))))));
  }
    where
      held : lookup key u.journal ≡ some (pending_rekey W public r new)
      held = rw b.0 (ground (arith, lookup-insert key key (pending_rekey W public r new) t.journal))

  rekey_record-Rekeyed :
      (r : Option ControlPeer) (key old new : ℕ) (s : State)
      → Succeeds W public (λ _. Rekeyed key old new) (rekey_record W public r key old new) s
  unfolding rekey_record
  rekey_record-Rekeyed none key old new s = ensure_fail tt
  rekey_record-Rekeyed (some r) key old new s = ensure_require _ tt (λ e.
      ensure_then (check_all-Adds W public key r s) (λ _ t _ _. ensure_modify _ (
        ensure_then (save-Adds W public _) (λ _ u _ b.
          ensure_then (check_all-Adds W public key r u) (λ _ v _ c.
            ensure_then (configure-Adds W public (set_key key new) v) (λ _ w _ g.
              ensure_then (check_all-Adds W public key (rekeyed W public r new) w) (λ _ x _ i.
                ensure_modify _ (
                  ensure_or (put key (pending_rekey W public r new)) (save-Adds W public _)
                    (λ y _ l. (tt, ready r key old new t u v w x y e b c g i l)) (λ _ _. tt)))))))))

  rekey-Rekeyed :
      (key old new : ℕ) (s : State)
      → Succeeds W public (λ _. Rekeyed key old new) (rekey W public key old new) s
  unfolding rekey
  rekey-Rekeyed key old new s = ensure_get _ (rekey_record-Rekeyed _ key old new s)

  -- Where `Rekey` succeeds, the record was active with the hash of the old key; the last effects are the
  -- writing of a journal with both hashes, an inspection that passes the check of the old record, the
  -- configuration of the new key, an inspection that passes the check of the record with the new hash,
  -- and the writing of a journal with that record.
  pub rekey_takes_effect :
      (key old new : ℕ) (s : State)
      → (rekey W public key old new s).0 ≡ ok tt
      → Rekeyed key old new (rekey W public key old new s).1
  rekey_takes_effect key old new s e = ensured_ok tt (rekey-Rekeyed key old new s) e
