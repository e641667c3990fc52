-- ===== src/Control/Effects.antt =====
-- The calls that the controller makes, and the common steps of its operations (control.go).
use wireguard_mesh.Prelude.{ℕ, ◌+◌, ◌==◌, Option, none, some, ◌∷◌, insert, erase}
use wireguard_mesh.Prelude.Program.{ok, Program, pure, fail, ◌>>=◌, ◌>>◌, get, modify, require}
use wireguard_mesh.Control.State.{
  ControlPeer, Device, Change, Outside, Effect, inspected, configured, saved, State,
}
use wireguard_mesh.Control.Device.{check_peer}

abbrev pub M : Type 0 → Type 0
M = Program State

-- one more call to the outside, and its answer
unfoldable pub ask : {A : Type 0} → (ℕ → A) → M A
ask answer s = (ok (answer s.calls), record s { calls = s.calls + 1 })

abbrev pub emit : Effect → M (Unit {0})
emit e = modify (λ s. record s { effects = e ∷ s.effects })

-- `r`, a record of the journal that is changed in place
abbrev pub put : ℕ → ControlPeer → M (Unit {0})
put key r = modify (λ s. record s { journal = insert key r s.journal })

abbrev pub drop_record : ℕ → M (Unit {0})
drop_record key = modify (λ s. record s { journal = erase key s.journal })

module _ (W : Outside) (public : ℕ) where
  unfoldable pub identified : Option Device → M Device
  identified none = fail
  identified (some d) = do require (d.public_key == public); emit (inspected d); pure d

  -- `device`; `public` is the identity in the journal
  unfoldable pub device : M Device
  device = do answer ← ask W.device; identified answer

  -- `save`: the checks of the file system are in the answer
  unfoldable pub save : M (Unit {0})
  save = do s ← get; written ← ask W.save; emit (saved s.journal written); require written

  -- `c.client.ConfigureDevice`
  unfoldable pub configure : Change → M (Unit {0})
  configure change = do
    accepted ← ask W.configure
    emit (configured change accepted)
    require accepted

  -- a fresh look at the device, which has to agree with this record
  unfoldable pub inspect : ℕ → ControlPeer → M Device
  inspect key r = do d ← device; require (check_peer W.sha256 d key r); pure d
