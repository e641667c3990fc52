-- ===== src/Mesh/PeerSteps.antt =====
-- The messages and the timer keep the shape of a coordinated route (mesh.go).
use wireguard_mesh.Prelude.{ℕ, ◌≡◌, refl, true, Option, none, some, is_some, arith}
use wireguard_mesh.Mesh.State.{MeshPeer, RouteState, RouteProposal, Phase, Op, Message}
use wireguard_mesh.Mesh.Monad.{Mesh, World, State}
use wireguard_mesh.Mesh.Runs.{
  Runs, run_bind, run_then, run_peer, run_ask, run_modify, run_branch, run_done, run_last, run_when,
}
use wireguard_mesh.Mesh.Command.{retire_token, retire}
use wireguard_mesh.Mesh.Coordinate.{
  answer_qualified, answer_prepare, accept_proposal, may_prepare, replacement_commit,
  replacement_switch, on_replacement, on_previous, on_commit, on_route, coordinate_about,
  coordinate_proved, coordinate_proof, coordinate_switch, coordinate, about_replacement,
  about_previous, qualified,
}
use wireguard_mesh.Mesh.Sound.{IsSound}
use wireguard_mesh.Mesh.RouteSteps.{
  Sound, apply-Sound, rollback-Sound, cancel-Sound, command-Sound, path_command-Sound,
}
use wireguard_mesh.Mesh.RekeySteps.{poll_psk-Sound, coordinate_rekey-Sound}

module _ (W : World) (m : Mesh) where
  retire-Sound : (token now : ℕ) (s : State) → IsSound s.peer → Runs Sound (retire token now) s
  unfolding retire retire_token
  retire-Sound token now s h = run_last _ (ground arith)

  accept_proposal-IsSound :
      (c : ℕ) (msg : Message) (now base at : ℕ) (p : MeshPeer)
      → IsSound p
      → may_prepare m p c msg at ≡ true
      → IsSound (accept_proposal c msg now base p)
  unfolding accept_proposal
  accept_proposal-IsSound c msg now base at p h e = ground arith

  answer_qualified-Sound :
      (base : Option ℕ) (c : ℕ) (msg : Message) (now : ℕ) (s : State)
      → IsSound s.peer
      → may_prepare m s.peer c msg now ≡ true
      → Runs Sound (answer_qualified W m base c msg now) s
  unfolding answer_qualified
  answer_qualified-Sound none c msg now s h e = retire-Sound _ now s h
  answer_qualified-Sound (some base) c msg now s h e =
      run_modify _
        (path_command-Sound W m _ _ _ _ (accept_proposal-IsSound c msg now base now s.peer h e))

  commit_route-IsSound :
      (p : MeshPeer)
      → IsSound p
      → IsSound (record p { route = record p.route { committed = true } })
  commit_route-IsSound p h = ground arith

  replacement_commit-Sound :
      (c : ℕ) (msg : Message) (now : ℕ) (s : State)
      → IsSound s.peer
      → is_some s.peer.replacement ≡ true
      → Runs Sound (replacement_commit W m c msg now) s
  unfolding replacement_commit
  replacement_commit-Sound c msg now s h e =
      let applied = apply-Sound W m now s h (ground arith) in
      run_then applied (
        run_peer _ (
          run_when applied.after
            (λ _. run_modify _ (command-Sound W m _ _ (commit_route-IsSound _ applied.after)))))

  replacement_switch-Sound :
      (r : RouteProposal) (op : Op) (c : ℕ) (msg : Message) (now : ℕ) (s : State)
      → IsSound s.peer
      → is_some s.peer.replacement ≡ true
      → Runs Sound (replacement_switch W m r op c msg now) s
  unfolding replacement_switch
  replacement_switch-Sound r Op.prepare c msg now s h e =
      run_when h (λ _. path_command-Sound W m _ _ _ s h)
  replacement_switch-Sound r Op.ready c msg now s h e =
      run_when h (λ _. run_modify _ (apply-Sound W m now _ (ground arith) (ground arith)))
  replacement_switch-Sound r Op.commit c msg now s h e =
      run_when h (λ _. replacement_commit-Sound c msg now s h e)
  replacement_switch-Sound r Op.abort c msg now s h e = cancel-Sound W m now s h
  replacement_switch-Sound r _ c msg now s h e = run_done h

  on_replacement-Sound :
      (r : RouteProposal) (c : ℕ) (msg : Message) (now : ℕ) (s : State)
      → IsSound s.peer
      → is_some s.peer.replacement ≡ true
      → Runs Sound (on_replacement W m r c msg now) s
  unfolding on_replacement
  on_replacement-Sound r c msg now s h e = run_peer _ (
      run_branch (λ _. cancel-Sound W m now s h)
        (λ _. replacement_switch-Sound r msg.op c msg now s h e))

  on_previous-Sound :
      (old : RouteState) (op : Op) (now : ℕ) (s : State)
      → IsSound s.peer
      → s.peer.previous ≡ some old
      → Runs Sound (on_previous W m old op now) s
  unfolding on_previous
  on_previous-Sound old Op.abort now s h e =
      let gone = retire-Sound old.trial now s h in
      run_then gone (run_last _ (no_previous _ gone.after))
    where
      no_previous : (p : MeshPeer) → IsSound p → IsSound (record p { previous = none })
      no_previous p h = ground arith
  on_previous-Sound old Op.keep now s h e = run_last _ (ground arith)
  on_previous-Sound old Op.hold now s h e = run_last _ (ground arith)
  on_previous-Sound old _ now s h e = run_done h

  on_commit-Sound : (now : ℕ) (s : State) → IsSound s.peer → Runs Sound (on_commit W m now) s
  unfolding on_commit
  on_commit-Sound now s h = run_peer _ (
      let applied = run_when h (λ e. apply-Sound W m now s h (ground arith)) in
      run_then applied (
        run_peer _ (
          run_when applied.after
            (λ _. run_modify _ (command-Sound W m _ _ (commit_route-IsSound _ applied.after))))))

  on_route-Sound :
      (phase : Phase) (op : Op) (msg : Message) (now : ℕ) (s : State)
      → IsSound s.peer
      → s.peer.route.phase ≡ phase
      → Runs Sound (on_route W m phase op msg now) s
  unfolding on_route
  on_route-Sound phase Op.prepare msg now s h e = run_when h (λ _. command-Sound W m _ s h)
  on_route-Sound phase Op.ready msg now s h e =
      run_when h (λ p. run_modify _ (apply-Sound W m now _ (ground arith) (ground arith)))
  on_route-Sound phase Op.commit msg now s h e = on_commit-Sound now s h
  on_route-Sound phase Op.committed msg now s h e = run_last _ (commit_route-IsSound s.peer h)
  on_route-Sound phase Op.keep msg now s h e = run_when h (λ _. run_last _ (ground arith))
  on_route-Sound phase Op.hold msg now s h e = run_last _ (ground arith)
  on_route-Sound phase Op.abort msg now s h e = rollback-Sound W m now s h
  on_route-Sound phase _ msg now s h e = run_done h

  coordinate_about-Sound :
      (r : Option RouteProposal) (old : Option RouteState) (c : ℕ) (msg : Message) (now : ℕ)
      (s : State)
      → IsSound s.peer
      → about_replacement s.peer c msg.token ≡ r
      → about_previous s.peer c msg.token ≡ old
      → Runs Sound (coordinate_about W m r old c msg now) s
  unfolding coordinate_about
  coordinate_about-Sound (some r) old c msg now s h e f =
      on_replacement-Sound r c msg now s h (ground arith)
  coordinate_about-Sound none (some old) c msg now s h e f =
      on_previous-Sound old msg.op now s h (ground arith)
  coordinate_about-Sound none none c msg now s h e f = run_peer _ (
      run_branch (λ _. on_route-Sound s.peer.route.phase msg.op msg now s h refl)
        (λ _. run_when h (λ _. retire-Sound _ now s h)))

  coordinate_proved-Sound :
      (c : ℕ) (msg : Message) (now : ℕ) (s : State)
      → IsSound s.peer
      → Runs Sound (coordinate_proved W m c msg now) s
  unfolding coordinate_proved answer_prepare
  coordinate_proved-Sound c msg now s h = run_peer _ (
      run_branch
        (λ e. run_peer _ (answer_qualified-Sound (qualified m s.peer c now) c msg now s h e))
        (λ _. coordinate_about-Sound _ _ c msg now s h refl refl))

  coordinate_proof-Sound :
      (c : ℕ) (msg : Message) (now : ℕ) (s : State)
      → IsSound s.peer
      → Runs Sound (coordinate_proof W m c msg now) s
  unfolding coordinate_proof
  coordinate_proof-Sound c msg now s h =
      run_branch (λ _. coordinate_proved-Sound c msg now s h)
        (λ _.
          let polled = poll_psk-Sound W m now s h in
          run_bind polled (λ valid.
            run_branch (λ _. run_done polled.after)
              (λ _. run_ask _ _ (
                run_peer _ (
                  run_branch (λ _. run_done polled.after)
                    (λ _. coordinate_proved-Sound c msg _ _ polled.after))))))

  coordinate_switch-Sound :
      (op : Op) (c : ℕ) (msg : Message) (now : ℕ) (s : State)
      → IsSound s.peer
      → Runs Sound (coordinate_switch W m op c msg now) s
  unfolding coordinate_switch
  coordinate_switch-Sound Op.rosenpass_select c msg now s h =
      run_peer _ (run_when h (λ _. run_last _ (ground arith)))
  coordinate_switch-Sound Op.prepare c msg now s h = run_peer _ (
      run_branch (λ _. run_last _ (ground arith))
        (λ _. run_branch (λ _. run_done h) (λ _. coordinate_proof-Sound c msg now s h)))
  coordinate_switch-Sound _ c msg now s h =
      run_branch (λ _. coordinate_rekey-Sound W m c msg now s h)
        (λ _. coordinate_proof-Sound c msg now s h)

  pub coordinate-Sound :
      (c : ℕ) (msg : Message) (now : ℕ) (s : State)
      → IsSound s.peer
      → Runs Sound (coordinate W m c msg now) s
  unfolding coordinate
  coordinate-Sound c msg now s h =
      run_branch (λ _. run_done h) (λ _. coordinate_switch-Sound msg.op c msg now s h)
