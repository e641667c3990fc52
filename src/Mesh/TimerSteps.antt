-- ===== src/Mesh/TimerSteps.antt =====
-- The timer keeps the shape of a coordinated route (mesh.go).
use wireguard_mesh.Prelude.{ℕ, ◌≡◌, Bool, true, false, Option, none, some, arith}
use wireguard_mesh.Mesh.State.{
  MeshPeer, RouteProposal, PskTransition, Phase, idle, prepare, prepared, trial, active, Op,
  is_trial,
}
use wireguard_mesh.Mesh.Monad.{Mesh, World, State}
use wireguard_mesh.Mesh.Runs.{
  Runs, run_then, run_peer, run_modify, run_branch, run_done, run_last, run_when,
}
use wireguard_mesh.Mesh.Command.{retire_token}
use wireguard_mesh.Mesh.Advance.{
  activate, Verdict, good, undecided, bad, report, advance_proposal, advance_replacement,
  advance_waiting, advance_trial, advance_judged, advance_measured, advance_running, advance_phase,
  advance,
}
use wireguard_mesh.Mesh.Sound.{IsSound}
use wireguard_mesh.Mesh.RouteSteps.{
  Sound, rollback-Sound, restore-Sound, cancel-Sound, command-Sound, path_command-Sound,
}
use wireguard_mesh.Mesh.RekeySteps.{advance_rekey-Sound}

module _ (W : World) (m : Mesh) where
  report-Sound : (s : State) → IsSound s.peer → Runs Sound (report W m) s
  unfolding report
  report-Sound s h =
      run_peer _ (run_branch (λ _. command-Sound W m _ s h) (λ _. command-Sound W m _ s h))

  advance_proposal-Sound :
      (r : Option RouteProposal) (now : ℕ) (s : State)
      → IsSound s.peer
      → Runs Sound (advance_proposal W m r now) s
  unfolding advance_proposal
  advance_proposal-Sound none now s h = run_done h
  advance_proposal-Sound (some r) now s h =
      run_peer _
        (run_branch (λ _. cancel-Sound W m now s h) (λ _. path_command-Sound W m _ _ _ s h))

  advance_replacement-Sound :
      (now : ℕ) (s : State) → IsSound s.peer → Runs Sound (advance_replacement W m now) s
  unfolding advance_replacement
  advance_replacement-Sound now s h = run_peer _ (advance_proposal-Sound s.peer.replacement now s h)

  activate-IsSound :
      (now : ℕ) (p : MeshPeer)
      → IsSound p
      → is_trial p.route.phase ≡ true
      → IsSound (activate m now p)
  unfolding activate retire_token
  activate-IsSound now p h e = ground arith

  advance_trial-Sound :
      (now : ℕ) (s : State)
      → IsSound s.peer
      → is_trial s.peer.route.phase ≡ true
      → Runs Sound (advance_trial W m now) s
  unfolding advance_trial
  advance_trial-Sound now s h e = run_peer _ (
      run_branch (λ _. rollback-Sound W m now s h)
        (λ _.
          let activated =
            run_when h (λ _. run_last (activate m now) (activate-IsSound now s.peer h e)) in
          let reported = report-Sound _ activated.after in
          run_then activated (run_then reported (advance_replacement-Sound now _ reported.after))))

  local_good-IsSound :
      (b : Bool) (p : MeshPeer)
      → IsSound p
      → IsSound (record p { route = record p.route { local_good = b } })
  local_good-IsSound b p h = ground arith

  advance_judged-Sound :
      (v : Verdict) (now : ℕ) (s : State)
      → IsSound s.peer
      → is_trial s.peer.route.phase ≡ true
      → Runs Sound (advance_judged W m v now) s
  unfolding advance_judged
  advance_judged-Sound bad now s h e = rollback-Sound W m now s h
  advance_judged-Sound good now s h e =
      run_modify _ (advance_trial-Sound now _ (local_good-IsSound true s.peer h) e)
  advance_judged-Sound undecided now s h e = advance_trial-Sound now s h e

  advance_measured-Sound :
      (now : ℕ) (s : State) → IsSound s.peer → Runs Sound (advance_measured W m now) s
  unfolding advance_measured
  advance_measured-Sound now s h = run_peer _ (
      run_branch
        (λ _.
          let reported = report-Sound s h in
          run_then reported (advance_replacement-Sound now _ reported.after))
        (λ e.
          run_modify _
            (advance_judged-Sound _ now _ (local_good-IsSound false s.peer h) (ground arith))))

  advance_running-Sound :
      (now : ℕ) (s : State) → IsSound s.peer → Runs Sound (advance_running W m now) s
  unfolding advance_running
  advance_running-Sound now s h = run_peer _ (
      run_branch (λ _. rollback-Sound W m now s h)
        (λ _.
          let commanded = run_when h (λ _. command-Sound W m Op.commit s h) in
          run_then commanded (advance_measured-Sound now _ commanded.after)))

  advance_waiting-Sound :
      (now : ℕ) (s : State) → IsSound s.peer → Runs Sound (advance_waiting W m now) s
  unfolding advance_waiting
  advance_waiting-Sound now s h = run_peer _ (
      run_branch (λ _. restore-Sound W m now s h)
        (λ _.
          let commanded = command-Sound W m _ s h in
          run_then commanded (advance_replacement-Sound now _ commanded.after)))

  advance_phase-Sound :
      (r : Option PskTransition) (phase : Phase) (now : ℕ) (s : State)
      → IsSound s.peer
      → Runs Sound (advance_phase W m r phase now) s
  unfolding advance_phase
  advance_phase-Sound (some r) phase now s h = advance_rekey-Sound W m r now s h
  advance_phase-Sound none prepare now s h = advance_waiting-Sound now s h
  advance_phase-Sound none prepared now s h = advance_waiting-Sound now s h
  advance_phase-Sound none trial now s h = advance_running-Sound now s h
  advance_phase-Sound none active now s h = advance_running-Sound now s h
  advance_phase-Sound none idle now s h = advance_replacement-Sound now s h

  pub advance-Sound : (now : ℕ) (s : State) → IsSound s.peer → Runs Sound (advance W m now) s
  unfolding advance
  advance-Sound now s h = run_peer _ (
      run_branch (λ _. rollback-Sound W m now s h)
        (λ _. advance_phase-Sound s.peer.rekey s.peer.route.phase now s h))
