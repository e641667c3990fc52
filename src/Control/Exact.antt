-- ===== src/Control/Exact.antt =====
-- What each call of the controller to the outside leaves behind when it succeeds (control.go).
use wireguard_mesh.Prelude.{ℕ, ◌≡◌, refl, true, Option, none, some, ◌∷◌, subst}
use wireguard_mesh.Prelude.Program.Ensures.{
  Ensures, ensure_bind, ensure_pure, ensure_fail, ensure_get, ensure_modify, ensure_require,
  ensure_check, ensure_weaker,
}
use wireguard_mesh.Control.State.{
  ControlPeer, Device, Change, Outside, Effect, inspected, configured, saved, State,
}
use wireguard_mesh.Control.Device.{check_peer}
use wireguard_mesh.Control.Effects.{M, identified, device, save, configure, inspect}
use wireguard_mesh.Control.Rekey.{check_all, all_active}
use wireguard_mesh.Control.Crash.{ensure_ask}

-- one more effect, and the same journal
abbrev pub Adds : Effect → State → State → Type 0
Adds e s t = (t.journal ≡ s.journal) × (t.effects ≡ e ∷ s.effects)

module _ (W : Outside) (public : ℕ) where
  abbrev pub Succeeds : {A : Type 0} → (A → State → Type 0) → M A → State → Type 0
  Succeeds Q m s = Ensures (λ _. Unit {0}) Q m s

  identified-Adds :
      (answer : Option Device) (s : State)
      → Succeeds (λ d. Adds (inspected d) s) (identified W public answer) s
  unfolding identified
  identified-Adds none s = ensure_fail tt
  identified-Adds (some d) s =
      ensure_require _ tt (λ _. ensure_modify _ (ensure_pure d tt (refl, refl)))

  pub device-Adds : (s : State) → Succeeds (λ d. Adds (inspected d) s) (device W public) s
  unfolding device
  device-Adds s =
      ensure_ask _ _ (ensure_weaker (identified-Adds (W.device s.calls) _) (λ d t _ q. q))

  pub inspect-Adds :
      (key : ℕ) (r : ControlPeer) (s : State)
      → Succeeds
          (λ d t. Adds (inspected d) s t × (check_peer W.sha256 d key r ≡ true))
          (inspect W public key r)
          s
  unfolding inspect
  inspect-Adds key r s =
      ensure_bind (device-Adds s) (λ d t _ q. ensure_require _ tt (λ e. ensure_pure d tt (q, e)))

  pub save-Adds : (s : State) → Succeeds (λ _. Adds (saved s.journal true) s) (save W public) s
  unfolding save
  save-Adds s =
      ensure_get _ (
        ensure_ask _ _
          (ensure_modify _ (ensure_check (W.save s.calls) tt (λ e. (refl, rw e refl)))))

  pub configure-Adds :
      (change : Change) (s : State)
      → Succeeds (λ _. Adds (configured change true) s) (configure W public change) s
  unfolding configure
  configure-Adds change s =
      ensure_ask _ _
        (ensure_modify _ (ensure_check (W.configure s.calls) tt (λ e. (refl, rw e refl))))

  pub check_all-Adds :
      (key : ℕ) (r : ControlPeer) (s : State)
      → Succeeds
          (λ _ t.
            (d : Device) × Adds (inspected d) s t × (all_active W.sha256 d key r s.journal ≡ true))
          (check_all W public key r)
          s
  unfolding check_all
  check_all-Adds key r s = ensure_bind (device-Adds s) (λ d t _ q.
      ensure_get _
        (ensure_check _ tt (λ e. (d, q, subst (λ j. all_active W.sha256 d key r j ≡ true) q.0 e))))
