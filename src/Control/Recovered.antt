-- ===== src/Control/Recovered.antt =====
-- A recovery that succeeds leaves nothing behind (`Restore`, `RestoreAll` and `newController` in control.go).
use wireguard_mesh.Prelude.{
  ℕ, ◌≡◌, refl, Bool, true, false, Option, none, some, List, [], ◌∷◌, arith, inl, inr, ==-cases,
  subst, ap,
}
use wireguard_mesh.Prelude.Program.{ok}
use wireguard_mesh.Prelude.Program.Ensures.{
  Ensures, ensured_ok, ensure_then, ensure_get, ensure_modify, ensure_done, ensure_or,
  ensure_weaker, ensure_fail, ensure_on_success,
}
use wireguard_mesh.Control.State.{ControlPeer, Device, Outside, Effect, State, Journal}
use wireguard_mesh.Control.Restore.{restore, restore_keys, restore_all}
use wireguard_mesh.Control.Start.{Stored, accept, start_journal, new_controller}
use wireguard_mesh.Control.Crash.{is_recorded, may_hold, may_stand}
use wireguard_mesh.Control.Recovery.{Within, Without, restore-Removes, device-Keeps}
use wireguard_mesh.Control.Reach.{
  Reach, call, crash, call_restore, call_restore_all, Moment, OneOf, blank, peer_in_journal,
}

-- the keys of this list
abbrev among : Journal → ℕ → Bool
among keys k = is_recorded k keys

Within-rest :
    (key : ℕ) (r : ControlPeer) (rest j : Journal)
    → Without key (among ((key, r) ∷ rest)) j
    → Within (among rest) j
Within-rest key r rest j h k a = elim (==-cases k key) [
  | inl e ↦ absurd (ground (arith, subst (λ i. is_recorded i j ≡ true) e a, h.1))
  | inr n ↦ ground (arith, h.0 k a)
]

Within-empty : (j : Journal) → Within (among []) j → j ≡ []
Within-empty [] h = refl
Within-empty ((k, r) ∷ rest) h = absurd (ground (arith, h k (ground arith)))

module _ (W : Outside) (public : ℕ) where
  abbrev Nothing : Unit {0} → State → Type 0
  Nothing _ t = t.journal ≡ []

  restore_keys-Nothing :
      (keys : Journal) (s : State)
      → Within (among keys) s.journal
      → Ensures (λ _. Unit {0}) Nothing (restore_keys W public keys) s
  unfolding restore_keys
  restore_keys-Nothing [] s h = ensure_done tt (Within-empty s.journal h)
  restore_keys-Nothing ((key, r) ∷ rest) s h =
      ensure_then {Q = λ _ t. Within (among rest) t.journal}
        (ensure_or (restore_keys W public rest)
          (restore-Removes W public (among ((key, r) ∷ rest)) key (ground arith) s h)
          (λ t _ q. (tt, Within-rest key r rest t.journal q)) (λ _ _. tt))
        (λ _ t _ q. restore_keys-Nothing rest t q)

  restore_all-Nothing : (s : State) → Ensures (λ _. Unit {0}) Nothing (restore_all W public) s
  unfolding restore_all
  restore_all-Nothing s = ensure_get _ (restore_keys-Nothing s.journal s (λ k a. a))

  start_journal-Nothing :
      (o : Option Journal) (s : State)
      → Ensures (λ _. Unit {0}) (λ _ t. t.journal ≡ []) (start_journal W public o) s
  unfolding start_journal
  start_journal-Nothing none s = ensure_fail tt
  start_journal-Nothing (some j) s = ensure_modify _ (
      ensure_then (restore_all-Nothing _) (λ _ t _ e.
        ensure_weaker (ensure_on_success (device-Keeps W public (λ i. i ≡ []) t e))
          (λ _ _ _ p. p.0)))

  new_controller-Nothing :
      (name : ℕ) (file : Option Stored) (s : State)
      → Ensures (λ _. Unit {0}) (λ _ t. t.journal ≡ []) (new_controller W public name file) s
  unfolding new_controller
  new_controller-Nothing name file s = start_journal-Nothing (accept name public file) s

module _ (W : Outside) (name public : ℕ) where
  absent_stands :
      (s : State)
      → Reach W name public s
      → (k : ℕ) → is_recorded k s.journal ≡ false
      → may_stand k s.effects ≡ false
  absent_stands s r k h = ground (arith, peer_in_journal W name public k r)

  -- nothing is in the journal, so nothing stands on the device
  none_stands :
      (s : State) → Reach W name public s → s.journal ≡ [] → (k : ℕ) → may_stand k s.effects ≡ false
  none_stands s r e k = absent_stands s r k (ap (is_recorded k) e)

  -- In a state of a run, a `Restore` that succeeds leaves no record of the key in the journal, and its
  -- direct peer may not stand on the device.
  pub restore_forgets :
      (s : State) (key : ℕ)
      → Reach W name public s
      → (restore W public key s).0 ≡ ok tt
      → (is_recorded key (restore W public key s).1.journal ≡ false)
        × (may_stand key (restore W public key s).1.effects ≡ false)
  restore_forgets s key r e =
      let gone : is_recorded key (restore W public key s).1.journal ≡ false =
        (ensured_ok tt (restore-Removes W public (λ _. true) key refl s (λ k a. refl)) e).1 in
      (gone, absent_stands _ (call r (call_restore key)) key gone)

  -- In a state of a run, a `RestoreAll` that succeeds leaves an empty journal, and no direct peer may
  -- stand on the device.
  pub restore_all_empties :
      (s : State)
      → Reach W name public s
      → (restore_all W public s).0 ≡ ok tt
      → ((restore_all W public s).1.journal ≡ [])
        × ((k : ℕ) → may_stand k (restore_all W public s).1.effects ≡ false)
  restore_all_empties s r e =
      let empty = ensured_ok tt (restore_all-Nothing W public s) e in
      (empty, none_stands _ (call r call_restore_all) empty)

  -- After a crash at a moment of a run, a start that accepts a journal which the file may hold, and that
  -- succeeds, leaves an empty journal, and no direct peer may stand on the device.
  pub start_recovers :
      (s : State) (es : List Effect) (j : Journal) (file : Option Stored) (calls : ℕ) (d : Device)
      → Reach W name public s
      → Moment s.effects es
      → OneOf j (may_hold es)
      → accept name public file ≡ some j
      → (new_controller W public name file (blank calls es)).0 ≡ ok d
      → ((new_controller W public name file (blank calls es)).1.journal ≡ [])
        × ((k : ℕ)
            → may_stand k (new_controller W public name file (blank calls es)).1.effects ≡ false)
  start_recovers s es j file calls d r m o a e =
      let empty = ensured_ok d (new_controller-Nothing W public name file (blank calls es)) e in
      (empty, none_stands _ (crash file calls r m o a) empty)
