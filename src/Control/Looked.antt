-- ===== src/Control/Looked.antt =====
-- Each configuration follows a fresh look at the device (control.go): what that means, and the calls.
use wireguard_mesh.Prelude.{
  ℕ, ◌≡◌, refl, ap, ◌==◌, true, not, ◌||◌, Option, false, none, some, List, [], ◌∷◌, is_some,
  is_none, ◌∙◌, lookup, insert, lookup-insert, arith,
}
use wireguard_mesh.Prelude.Program.Ensures.{
  Ensures, ensure_bind, ensure_pure, ensure_fail, ensure_get, ensure_modify, ensure_require,
  ensure_check,
}
use wireguard_mesh.Control.State.{
  ControlPeer, Device, Change, add, set_endpoint, set_key, set_host, remove, Outside, Effect,
  inspected, configured, saved, started, State, Journal, adding, rekeying, is_active, is_planning,
}
use wireguard_mesh.Control.Device.{check_peer, control_find_peer, control_owner, Owner, is_exact}
use wireguard_mesh.Control.Effects.{M, identified, device, save, configure, inspect}
use wireguard_mesh.Control.Restore.{is_returned}
use wireguard_mesh.Control.Crash.{ensure_ask}

-- the device that was read since the last configuration and the last start
abbrev pub last_seen : List Effect → Option Device
last_seen [] = none
last_seen (inspected d ∷ es) = some d
last_seen (configured _ _ ∷ es) = none
last_seen (saved _ _ ∷ es) = last_seen es
last_seen (started _ ∷ es) = none

-- the journal that was written last, as success or as failure, or with which the last start began
abbrev pub last_journal : List Effect → Journal
last_journal [] = []
last_journal (inspected _ ∷ es) = last_journal es
last_journal (configured _ _ ∷ es) = last_journal es
last_journal (saved j _ ∷ es) = j
last_journal (started j ∷ es) = j

-- What the journal holds of a peer whose record has passed the check of the device, at the time of
-- this configuration: the record itself, which is announced before a peer is added or gets a new key.
abbrev pub recorded : (ℕ → ℕ) → Change → ControlPeer → ControlPeer
recorded sha256 (add _ _ _ _) r = record r { phase = adding }
recorded sha256 (set_endpoint _ _) r = r
recorded sha256 (set_key _ new) r = record r { phase = rekeying; next_psk_hash = some (sha256 new) }
recorded sha256 (set_host _ _) r = r
recorded sha256 (remove _) r = r

-- What a configuration needs of the device: a planned peer is added where there is none; a peer that has a
-- new endpoint or key is an active one of the journal; a host is given back to the owner in the record,
-- and is taken from the direct peer; a peer is removed when its record, if it owned the exact host, has
-- its owner back.
abbrev pub Needs : Change → Device → ℕ → ControlPeer → Type 0
Needs (add k _ ip _) d key r =
    (k ≡ key)
    × (ip ≡ r.ip)
    × (is_planning r.phase ≡ true)
    × (is_none (control_find_peer d key) ≡ true)
Needs (set_endpoint k _) d key r = (k ≡ key) × (is_active r.phase ≡ true)
Needs (set_key k _) d key r = (k ≡ key) × (is_active r.phase ≡ true)
Needs (set_host owner ip) d key r =
    (owner ≡ r.owner)
    × (ip ≡ r.ip)
    × ((o : Owner) × (control_owner d ip 0 ≡ some o) × ((o.key == key) ≡ true))
Needs (remove k) d key r =
    (k ≡ key)
    × (is_some (control_find_peer d key) ≡ true)
    × ((not (is_exact r) || is_returned (control_owner d r.ip 0) r) ≡ true)

module _ (sha256 : ℕ → ℕ) where
  -- The device that was read last passed the check of the record of a peer, which the journal that
  -- was written last holds, as announced.
  pub record Fresh (change : Change) (es : List Effect) : Type 0 where
    pub device : Device
    pub key : ℕ
    pub peer : ControlPeer
    pub seen : last_seen es ≡ some device
    pub checked : check_peer sha256 device key peer ≡ true
    pub written : lookup key (last_journal es) ≡ some (recorded sha256 change peer)
    pub needs : Needs change device key peer

  abbrev pub Guarded : List Effect → Type 0
  Guarded [] = Unit
  Guarded (configured change _ ∷ es) = Fresh change es × Guarded es
  Guarded (inspected _ ∷ es) = Guarded es
  Guarded (saved _ _ ∷ es) = Guarded es
  Guarded (started _ ∷ es) = Guarded es

  -- The active records in memory are those that were written last.
  abbrev pub Synced : State → Type 0
  Synced s =
      (k : ℕ) (r : ControlPeer)
      → lookup k s.journal ≡ some r
      → is_active r.phase ≡ true
      → lookup k (last_journal s.effects) ≡ some r

  abbrev pub Good : State → Type 0
  Good s = Guarded s.effects × Synced s

  -- a record that is not active is changed in memory
  pub put-Good :
      (key : ℕ) (r : ControlPeer) (s : State)
      → is_active r.phase ≡ false
      → Good s
      → Good (record s { journal = insert key r s.journal })
  put-Good key r s n h =
      (h.0, λ k q e a. h.1 k q (ground (arith, lookup-insert k key r s.journal, n)) a)

  pub reread :
      (key : ℕ) (r : ControlPeer) (s t : State)
      → last_journal t.effects ≡ last_journal s.effects
      → lookup key (last_journal s.effects) ≡ some r
      → lookup key (last_journal t.effects) ≡ some r
  reread key r s t e w = ap (lookup key) e ∙ w

-- a fresh look, which leaves the journals as they are
abbrev pub Looked : Device → State → State → Type 0
Looked d s t =
    (last_seen t.effects ≡ some d)
    × (t.journal ≡ s.journal)
    × (last_journal t.effects ≡ last_journal s.effects)

abbrev pub SameWritten : {A : Type 0} → State → A → State → Type 0
SameWritten s _ t = last_journal t.effects ≡ last_journal s.effects

-- the journal in memory was written, with the same look before it
abbrev pub Written : {A : Type 0} → State → A → State → Type 0
Written s _ t = (last_seen t.effects ≡ last_seen s.effects) × (last_journal t.effects ≡ s.journal)

module _ (W : Outside) (public : ℕ) where
  abbrev pub Guards : {A : Type 0} → (A → State → Type 0) → M A → State → Type 0
  Guards Q m s = Ensures (λ t. Good W.sha256 t) Q m s

  identified-Guards :
      (answer : Option Device) (s : State)
      → Good W.sha256 s
      → Guards (λ d t. Looked d s t) (identified W public answer) s
  unfolding identified
  identified-Guards none s h = ensure_fail h
  identified-Guards (some d) s h =
      ensure_require _ h (λ _. ensure_modify _ (ensure_pure d h (refl, refl, refl)))

  pub device-Guards :
      (s : State) → Good W.sha256 s → Guards (λ d t. Looked d s t) (device W public) s
  unfolding device
  device-Guards s h = ensure_ask _ _ (identified-Guards (W.device s.calls) _ h)

  pub inspect-Guards :
      (key : ℕ) (r : ControlPeer) (s : State)
      → Good W.sha256 s
      → Guards
          (λ d t. Looked d s t × (check_peer W.sha256 d key r ≡ true))
          (inspect W public key r)
          s
  unfolding inspect
  inspect-Guards key r s h =
      ensure_bind (device-Guards s h) (λ d t p q. ensure_require _ p (λ e. ensure_pure d p (q, e)))

  pub save-Guards : (s : State) → Guarded W.sha256 s.effects → Guards (Written s) (save W public) s
  unfolding save
  save-Guards s h = ensure_get _ (
      ensure_ask _ _
        (ensure_modify _ (ensure_check (W.save s.calls) (h, λ k r e a. e) (λ _. (refl, refl)))))

  pub configure-Guards :
      (change : Change) (s : State)
      → Good W.sha256 s
      → Fresh W.sha256 change s.effects
      → Guards (SameWritten s) (configure W public change) s
  unfolding configure
  configure-Guards change s h f =
      ensure_ask _ _
        (ensure_modify _ (ensure_check (W.configure s.calls) ((f, h.0), h.1) (λ _. refl)))
