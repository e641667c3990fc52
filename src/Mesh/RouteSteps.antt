-- ===== src/Mesh/RouteSteps.antt =====
-- `apply` and `rollback` keep the shape of a route (mesh.go).
use wireguard_mesh.Prelude.{
  ℕ, ◌+◌, ◌≡◌, inl, inr, refl, Bool, true, false, ◌||◌, Option, none, some, is_some, is_none, arith,
  ap, ◌∙◌,
}
use wireguard_mesh.Mesh.State.{MeshPeer, RouteState, RouteProposal, Op, is_active}
use wireguard_mesh.Mesh.Monad.{Mesh, World, State, effects_run}
use wireguard_mesh.Mesh.Runs.{
  Runs, run, run_bind, run_then, run_peer, run_ask, run_modify, run_branch, run_done, run_fail,
  run_last, run_when,
}
use wireguard_mesh.Mesh.Command.{cancel_replacement, retire_token, command, path_command}
use wireguard_mesh.Mesh.Restore.{restore}
use wireguard_mesh.Mesh.Apply.{
  begin_trial, resume_previous, set_endpoint, preflight, switch, apply_replacement, apply_first,
  apply_checked, apply, reset_endpoint, rollback_path, rollback_previous, rollback_route, rollback,
}
use wireguard_mesh.Mesh.Sound.{
  IsSound, Polled, previous_active, cancel_replacement-Polled, restore-Polled,
}
use wireguard_mesh.Mesh.KeySteps.{poll_psk-Polled}

abbrev pub Sound : State → Type 0
Sound s = IsSound s.peer

or_false_right : (a b : Bool) → (a || b) ≡ false → b ≡ false
or_false_right a b h = ground arith

module _ (W : World) (m : Mesh) where
  begin_trial_replaced :
      (r : RouteProposal) (now : ℕ) (p : MeshPeer)
      → IsSound p
      → is_none p.replacement ≡ false
      → IsSound (begin_trial (some r) now p)
  unfolding begin_trial
  begin_trial_replaced r now p h e = ground arith

  begin_trial_first :
      (now : ℕ) (p : MeshPeer)
      → IsSound p
      → is_active p.route.phase ≡ false
      → is_some p.route.selected ≡ true
      → IsSound (begin_trial none now p)
  unfolding begin_trial
  begin_trial_first now p h a e = ground arith

  pub command-peer : (op : Op) (s : State) → (command W m op s).1.peer ≡ s.peer
  unfolding command path_command effects_run
  command-peer op s = refl

  pub path_command-peer :
      (c : Option ℕ) (token : ℕ) (op : Op) (s : State)
      → (path_command W m c token op s).1.peer ≡ s.peer
  unfolding path_command effects_run
  path_command-peer c token op s = refl

  pub set_endpoint-peer : (c : ℕ) (s : State) → (set_endpoint W m c s).1.peer ≡ s.peer
  unfolding set_endpoint effects_run
  set_endpoint-peer c s = refl

  preflight-peer : (s : State) → (preflight W m s).1.peer ≡ s.peer
  unfolding preflight effects_run
  preflight-peer s = ground arith

  pub preflight-Sound : (s : State) → IsSound s.peer → Runs Sound (preflight W m) s
  preflight-Sound s h = run _ _ s (rw (preflight-peer s) h)

  pub command-Sound : (op : Op) (s : State) → IsSound s.peer → Runs Sound (command W m op) s
  command-Sound op s h = run _ _ s (rw (command-peer op s) h)

  pub path_command-Sound :
      (c : Option ℕ) (token : ℕ) (op : Op) (s : State)
      → IsSound s.peer
      → Runs Sound (path_command W m c token op) s
  path_command-Sound c token op s h = run _ _ s (rw (path_command-peer c token op s) h)

  pub restore-Sound : (now : ℕ) (s : State) → IsSound s.peer → Runs Sound (restore W m now) s
  restore-Sound now s h = run _ _ s (restore-Polled W m now s h).sound

  pub cancel-Sound :
      (now : ℕ) (s : State) → IsSound s.peer → Runs Sound (cancel_replacement W m now) s
  cancel-Sound now s h = run _ _ s (cancel_replacement-Polled W m now s h).sound

  switch-Sound :
      (lead : Bool) (proposal : Option RouteProposal) (c token now : ℕ) (s : State)
      → IsSound s.peer
      → ((at : ℕ) → IsSound (begin_trial proposal at s.peer))
      → Runs Sound (switch W m lead proposal c token now) s
  unfolding switch
  switch-Sound lead proposal c token now s h begun =
      let e = set_endpoint-peer c s in
      run_bind (run _ _ s (rw e h)) (λ applied_ok. run_ask _ _ (
        run_branch
          (λ _. run_modify _ (run_when (rw e (begun _)) (λ _. command-Sound _ _ (rw e (begun _)))))
          (λ _.
            run_then (path_command-Sound _ _ _ _ (rw e h))
              (run_fail (path_command-Sound (some c) token _ _ (rw e h)).after))))

  apply_replacement-Sound :
      (lead : Bool) (r : RouteProposal) (checked now : ℕ) (s : State)
      → IsSound s.peer
      → Runs Sound (apply_replacement W m lead r checked now) s
  unfolding apply_replacement
  apply_replacement-Sound lead r checked now s h = run_peer _ (
      run_branch (λ _. run_done h)
        (λ standing.
          run_branch (λ _. cancel-Sound checked s h)
            (λ _.
              run_branch (λ _. restore-Sound checked s h)
                (λ _.
                  run_branch (λ _. restore-Sound checked s h)
                    (λ _.
                      switch-Sound lead (some r) r.path r.token now s h
                        (λ at. begin_trial_replaced r at s.peer h standing))))))

  apply_first-Sound :
      (lead : Bool) (c : Option ℕ) (checked now : ℕ) (s : State)
      → IsSound s.peer
      → s.peer.route.selected ≡ c
      → is_active s.peer.route.phase ≡ false
      → Runs Sound (apply_first W m lead c checked now) s
  unfolding apply_first
  apply_first-Sound lead none checked now s h e a = run_done h
  apply_first-Sound lead (some c) checked now s h e a = run_peer _ (
      run_branch (λ _. restore-Sound checked s h)
        (λ _.
          switch-Sound lead none c s.peer.route.trial now s h
            (λ at. begin_trial_first at s.peer h a (ground arith))))

  -- What `apply` asks for: a replacement stands, or a route that is not active.
  abbrev pub Applicable : MeshPeer → Type 0
  Applicable p = is_none p.replacement ≡ true → is_active p.route.phase ≡ false

  still_inactive :
      (p q : MeshPeer)
      → Polled p q
      → is_active p.route.phase ≡ false
      → is_active q.route.phase ≡ false
  still_inactive p q polled a = elim polled.route [
    | inl same ↦ ap (λ (r : RouteState). is_active r.phase) same ∙ a
    | inr gone ↦ ground (arith, polled.sound.selects)
  ]

  apply_checked-Sound :
      (lead : Bool) (r : Option RouteProposal) (checked now : ℕ) (s : State)
      → IsSound s.peer
      → (is_none r ≡ true → is_active s.peer.route.phase ≡ false)
      → Runs Sound (apply_checked W m lead r checked now) s
  unfolding apply_checked
  apply_checked-Sound lead none checked now s h a =
      run_peer _ (apply_first-Sound lead s.peer.route.selected checked now s h refl (a refl))
  apply_checked-Sound lead (some r) checked now s h a =
      apply_replacement-Sound lead r checked now s h

  pub apply-Sound :
      (now : ℕ) (s : State) → IsSound s.peer → Applicable s.peer → Runs Sound (apply W m now) s
  unfolding apply
  apply-Sound now s h a =
      let e = preflight-peer s in
      let t = (preflight W m s).1 in
      let u : State = record t { calls = t.calls + 1 } in
      let polled = poll_psk-Polled W m (now + W.elapsed t.calls) u (rw e h) in
      run_peer _ (
        run_then (preflight-Sound s h) (
          run_ask _ _ (
            run_bind (run _ _ u polled.sound) (λ valid.
              run_branch (λ _. run_done polled.sound)
                (λ _. run_ask _ _ (
                  apply_checked-Sound _ s.peer.replacement _ now _ polled.sound
                    (λ standing. still_inactive _ _ polled (rw e (a standing)))))))))

  resume_previous-Sound :
      (old : RouteState) (now : ℕ) (p : MeshPeer)
      → IsSound p
      → previous_active (some old) ≡ true
      → is_none p.previous ≡ false
      → IsSound (resume_previous m old now p)
  unfolding resume_previous retire_token
  resume_previous-Sound old now p h a e = ground arith

  reset_endpoint-Sound :
      (old : RouteState) (c received : ℕ) (s : State)
      → IsSound s.peer
      → previous_active (some old) ≡ true
      → is_none s.peer.previous ≡ false
      → Runs Sound (reset_endpoint W m old c received) s
  unfolding reset_endpoint
  reset_endpoint-Sound old c received s h a n =
      let e = set_endpoint-peer c s in
      run_bind (run _ _ s (rw e h)) (λ applied_ok. run_ask _ _ (
        run_branch
          (λ _.
            run_then (command-Sound _ _ (rw e h)) (
              run_last _ (rw (command-peer _ _) (rw e (resume_previous-Sound old _ s.peer h a n)))))
          (λ _. run_fail (rw e h))))

  rollback_path-Sound :
      (old : RouteState) (c : Option ℕ) (now received : ℕ) (s : State)
      → IsSound s.peer
      → previous_active (some old) ≡ true
      → is_none s.peer.previous ≡ false
      → Runs Sound (rollback_path W m old c now received) s
  unfolding rollback_path
  rollback_path-Sound old none now received s h a n = restore-Sound now s h
  rollback_path-Sound old (some c) now received s h a n =
      run_peer _
        (run_branch (λ _. restore-Sound now s h) (λ _. reset_endpoint-Sound old c received s h a n))

  rollback_previous-Sound :
      (old : RouteState) (received : ℕ) (s : State)
      → IsSound s.peer
      → previous_active (some old) ≡ true
      → Runs Sound (rollback_previous W m old received) s
  unfolding rollback_previous
  rollback_previous-Sound old received s h a =
      let e = preflight-peer s in
      let t = (preflight W m s).1 in
      let u : State = record t { calls = t.calls + 1 } in
      let polled = poll_psk-Polled W m (received + W.elapsed t.calls) u (rw e h) in
      run_then (preflight-Sound s h) (
        run_ask _ _ (
          run_bind (run _ _ u polled.sound) (λ valid. run_peer _ (
            run_branch (λ _. run_done polled.sound)
              (λ kept. run_ask _ _ (
                rollback_path-Sound old old.selected _ received _ polled.sound a
                  (or_false_right _ _ kept)))))))

  rollback_route-Sound :
      (old : Option RouteState) (now : ℕ) (s : State)
      → IsSound s.peer
      → previous_active old ≡ true
      → Runs Sound (rollback_route W m old now) s
  unfolding rollback_route
  rollback_route-Sound none now s h a = restore-Sound now s h
  rollback_route-Sound (some old) now s h a = rollback_previous-Sound old now s h a

  -- A rollback keeps the shape of the route, with whatever outcome of its calls.
  pub rollback-Sound : (now : ℕ) (s : State) → IsSound s.peer → Runs Sound (rollback W m now) s
  unfolding rollback
  rollback-Sound now s h = run_peer _ (rollback_route-Sound s.peer.previous now s h h.fallback)
