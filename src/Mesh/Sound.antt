-- ===== src/Mesh/Sound.antt =====
-- The shape of a coordinated route, which every step of the protocol keeps.
use wireguard_mesh.Prelude.{
  ℕ, ◌≡◌, ◌⊎◌, inl, inr, refl, ap, ◌∙◌, Bool, true, false, not, ◌&&◌, Option, none, some, ◌∷◌,
  is_some, arith,
}
use wireguard_mesh.Mesh.State.{MeshPeer, RouteState, abort, is_idle, is_active, is_trial}
use wireguard_mesh.Mesh.Monad.{Mesh, World, State, effects_run, err, ok, restored, ◌>>◌}
use wireguard_mesh.Mesh.Command.{cancel_replacement, retire_token, command, path_command}
use wireguard_mesh.Mesh.Restore.{restore, restore_route, forget_route}

-- The fallback of a trial is an active route.
abbrev pub previous_active : Option RouteState → Bool
previous_active none = true
previous_active (some old) = is_active old.phase && is_some old.selected

pub record IsSound (p : MeshPeer) : Type 0 where
  -- a path is selected exactly when a coordination stands
  pub selects : is_some p.route.selected ≡ not (is_idle p.route.phase)
  -- only an active route is replaced, and only an active route changes its key
  pub replaces : is_some p.replacement ≡ true → is_active p.route.phase ≡ true
  pub rekeys : is_some p.rekey ≡ true → is_active p.route.phase ≡ true
  -- and not both at once
  pub exclusive : (is_some p.rekey && is_some p.replacement) ≡ false
  -- only a trial has a fallback, which is an active route
  pub falls_back : is_some p.previous ≡ true → is_trial p.route.phase ≡ true
  pub fallback : previous_active p.previous ≡ true

-- What a step that reads the key may do besides: it leaves the route, or gives it up.
pub record Polled (p q : MeshPeer) : Type 0 where
  pub sound : IsSound q
  pub route : (q.route ≡ p.route) ⊎ (is_some q.route.selected ≡ false)

pub Polled-refl : (p : MeshPeer) → IsSound p → Polled p p
Polled-refl p h = record { sound = h; route = inl refl }

pub Polled-trans : (p q r : MeshPeer) → Polled p q → Polled q r → Polled p r
Polled-trans p q r a b = record {
  sound = b.sound;
  route = elim b.route [
    | inr gone ↦ inr gone
    | inl same ↦ elim a.route [
      | inl kept ↦ inl (same ∙ kept)
      | inr gone ↦ inr (ap (λ (x : RouteState). is_some x.selected) same ∙ gone)
    ]
  ];
}

module _ (W : World) (m : Mesh) where
  pub cancel_replacement-Polled :
      (now : ℕ) (s : State) → IsSound s.peer → Polled s.peer (cancel_replacement W m now s).1.peer
  unfolding cancel_replacement path_command retire_token effects_run
  cancel_replacement-Polled now s h = ground arith

  pub restore-Polled :
      (now : ℕ) (s : State) → IsSound s.peer → Polled s.peer (restore W m now s).1.peer
  unfolding restore cancel_replacement restore_route command forget_route path_command retire_token
      effects_run
  restore-Polled now s h = ground arith

  -- `restore` asks the controller to restore the peer, and this is the last thing it does to the
  -- outside. Where the controller reports a failure, `restore` fails, and the route and its fallback stay
  -- as they were; where it reports success, `restore` succeeds, and no path is selected, the route is idle,
  -- and no fallback, no replacement and no key change stands.
  pub restore-Reported :
      (now : ℕ) (s : State)
      → let t = (restore W m now s).1 in
        let before = ((cancel_replacement W m now >> command W m abort) s).1 in
        (((restore W m now s).0 ≡ err)
          × (t.effects ≡ restored s.peer.spec.key false ∷ before.effects)
          × (t.peer.route ≡ s.peer.route)
          × (t.peer.previous ≡ s.peer.previous))
        ⊎ (((restore W m now s).0 ≡ ok tt)
            × (t.effects ≡ restored s.peer.spec.key true ∷ before.effects)
            × (t.peer.route.selected ≡ none)
            × (is_idle t.peer.route.phase ≡ true)
            × (t.peer.previous ≡ none)
            × (t.peer.replacement ≡ none)
            × (t.peer.rekey ≡ none))
  unfolding restore cancel_replacement restore_route command forget_route path_command retire_token
      effects_run
  restore-Reported now s = ground arith
