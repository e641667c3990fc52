-- ===== src/Mesh/PathSteps.antt =====
-- What leaves the candidate paths of a peer as they are: the commands and the timer (mesh.go).
use wireguard_mesh.Prelude.{ℕ, ◌≡◌, refl, Bool, Option, none, some, arith}
use wireguard_mesh.Mesh.State.{
  MeshPeer, RouteState, RouteProposal, PskTransition, Phase, prepare, prepared, trial, active, idle,
  Message, Op,
}
use wireguard_mesh.Mesh.Monad.{Mesh, World}
use wireguard_mesh.Mesh.Command.{retire_token}
use wireguard_mesh.Mesh.Coordinate.{
  accept_proposal, answer_qualified, answer_prepare, replacement_commit, replacement_switch,
  on_replacement, on_previous, on_commit, on_route, coordinate_about, coordinate_proved,
  coordinate_proof, coordinate_switch, coordinate,
}
use wireguard_mesh.Mesh.Advance.{
  activate, report, advance_proposal, advance_replacement, advance_waiting, advance_trial, Verdict,
  good, undecided, bad, advance_judged, advance_measured, advance_running, advance_phase, advance,
}
use wireguard_mesh.Mesh.Propose.{Best, propose_path, offer_best, propose, settle}
use wireguard_mesh.Mesh.PathKeys.{
  Kept, keep_bind, keep_then, keep_branch, keep_when, keep_peer, keep_ask, keep_done, keep_modify,
  path_command-Kept, command-Kept, cancel-Kept, restore-Kept, poll_psk-Kept,
}
use wireguard_mesh.Mesh.PathRoutes.{
  apply-Kept, rollback-Kept, coordinate_rekey-Kept, advance_rekey-Kept,
}

retire_token-paths : (token now : ℕ) (p : MeshPeer) → (retire_token token now p).paths ≡ p.paths
unfolding retire_token
retire_token-paths token now p = refl

accept_proposal-paths :
    (c : ℕ) (msg : Message) (now base : ℕ) (p : MeshPeer)
    → (accept_proposal c msg now base p).paths ≡ p.paths
unfolding accept_proposal
accept_proposal-paths c msg now base p = ground arith

propose_path-paths :
    (b : Best) (token now : ℕ) (p : MeshPeer) → (propose_path b token now p).paths ≡ p.paths
unfolding propose_path
propose_path-paths b token now p = ground arith

activate-paths : (m : Mesh) (now : ℕ) (p : MeshPeer) → (activate m now p).paths ≡ p.paths
unfolding activate retire_token
activate-paths m now p = refl

module _ (W : World) (m : Mesh) where
  answer_qualified-Kept :
      (o : Option ℕ) (c : ℕ) (msg : Message) (now : ℕ) → Kept (answer_qualified W m o c msg now)
  unfolding answer_qualified
  answer_qualified-Kept none c msg now = keep_modify _ (retire_token-paths msg.token now)
  answer_qualified-Kept (some base) c msg now =
      keep_then (keep_modify _ (accept_proposal-paths c msg now base)) (path_command-Kept W m _ _ _)

  replacement_commit-Kept :
      (c : ℕ) (msg : Message) (now : ℕ) → Kept (replacement_commit W m c msg now)
  unfolding replacement_commit
  replacement_commit-Kept c msg now =
      keep_then (apply-Kept W m now)
        (keep_peer (λ p. keep_when _ (keep_then (keep_modify _ (λ q. refl)) (command-Kept W m _))))

  replacement_switch-Kept :
      (r : RouteProposal) (op : Op) (c : ℕ) (msg : Message) (now : ℕ)
      → Kept (replacement_switch W m r op c msg now)
  unfolding replacement_switch
  replacement_switch-Kept r Op.prepare c msg now = keep_when _ (path_command-Kept W m _ _ _)
  replacement_switch-Kept r Op.ready c msg now =
      keep_when _ (keep_then (keep_modify _ (λ q. refl)) (apply-Kept W m now))
  replacement_switch-Kept r Op.commit c msg now = keep_when _ (replacement_commit-Kept c msg now)
  replacement_switch-Kept r Op.abort c msg now = cancel-Kept W m now
  replacement_switch-Kept r _ c msg now = keep_done

  on_replacement-Kept :
      (r : RouteProposal) (c : ℕ) (msg : Message) (now : ℕ) → Kept (on_replacement W m r c msg now)
  unfolding on_replacement
  on_replacement-Kept r c msg now =
      keep_peer (λ p. keep_branch _ (cancel-Kept W m now) (replacement_switch-Kept r _ c msg now))

  on_previous-Kept : (old : RouteState) (op : Op) (now : ℕ) → Kept (on_previous W m old op now)
  unfolding on_previous
  on_previous-Kept old Op.abort now =
      keep_then (keep_modify _ (retire_token-paths old.trial now)) (keep_modify _ (λ p. refl))
  on_previous-Kept old Op.keep now = keep_modify _ (λ p. refl)
  on_previous-Kept old Op.hold now = keep_modify _ (λ p. refl)
  on_previous-Kept old _ now = keep_done

  on_commit-Kept : (now : ℕ) → Kept (on_commit W m now)
  unfolding on_commit
  on_commit-Kept now = keep_peer (λ p.
      keep_then (keep_when _ (apply-Kept W m now))
        (keep_peer (λ q. keep_when _ (keep_then (keep_modify _ (λ r. refl)) (command-Kept W m _)))))

  on_route-Kept :
      (phase : Phase) (op : Op) (msg : Message) (now : ℕ) → Kept (on_route W m phase op msg now)
  unfolding on_route
  on_route-Kept phase Op.prepare msg now = keep_when _ (command-Kept W m _)
  on_route-Kept phase Op.ready msg now =
      keep_when _ (keep_then (keep_modify _ (λ r. refl)) (apply-Kept W m now))
  on_route-Kept phase Op.commit msg now = on_commit-Kept now
  on_route-Kept phase Op.committed msg now = keep_modify _ (λ r. refl)
  on_route-Kept phase Op.keep msg now = keep_when _ (keep_modify _ (λ r. refl))
  on_route-Kept phase Op.hold msg now = keep_modify _ (λ r. refl)
  on_route-Kept phase Op.abort msg now = rollback-Kept W m now
  on_route-Kept phase _ msg now = keep_done

  coordinate_about-Kept :
      (r : Option RouteProposal) (old : Option RouteState) (c : ℕ) (msg : Message) (now : ℕ)
      → Kept (coordinate_about W m r old c msg now)
  unfolding coordinate_about
  coordinate_about-Kept (some r) old c msg now = on_replacement-Kept r c msg now
  coordinate_about-Kept none (some old) c msg now = on_previous-Kept old msg.op now
  coordinate_about-Kept none none c msg now = keep_peer (λ p.
      keep_branch _ (on_route-Kept _ _ msg now)
        (keep_when _ (keep_modify _ (retire_token-paths msg.token now))))

  coordinate_proof-Kept : (c : ℕ) (msg : Message) (now : ℕ) → Kept (coordinate_proof W m c msg now)
  unfolding coordinate_proof coordinate_proved answer_prepare
  coordinate_proof-Kept c msg now =
      let proved : (at : ℕ) → Kept (coordinate_proved W m c msg at) = λ at. keep_peer (λ p.
        keep_branch _ (keep_peer (λ q. answer_qualified-Kept _ c msg at))
          (coordinate_about-Kept _ _ c msg at)) in
      keep_branch _ (proved now) (
        keep_bind (poll_psk-Kept W m now) (λ polled.
          keep_branch _ keep_done
            (keep_ask _ (λ a. keep_peer (λ p. keep_branch _ keep_done (proved _))))))

  coordinate_switch-Kept :
      (op : Op) (c : ℕ) (msg : Message) (now : ℕ) → Kept (coordinate_switch W m op c msg now)
  unfolding coordinate_switch
  coordinate_switch-Kept Op.rosenpass_select c msg now =
      keep_peer (λ p. keep_when _ (keep_modify _ (λ q. refl)))
  coordinate_switch-Kept Op.prepare c msg now = keep_peer (λ p.
      keep_branch _ (keep_modify _ (λ q. refl))
        (keep_branch _ keep_done (coordinate_proof-Kept c msg now)))
  coordinate_switch-Kept _ c msg now =
      keep_branch _ (coordinate_rekey-Kept W m c msg now) (coordinate_proof-Kept c msg now)

  pub coordinate-Kept : (c : ℕ) (msg : Message) (now : ℕ) → Kept (coordinate W m c msg now)
  unfolding coordinate
  coordinate-Kept c msg now = keep_branch _ keep_done (coordinate_switch-Kept msg.op c msg now)

  report-Kept : Kept (report W m)
  unfolding report
  report-Kept = keep_peer (λ p. keep_branch _ (command-Kept W m _) (command-Kept W m _))

  advance_proposal-Kept : (o : Option RouteProposal) (now : ℕ) → Kept (advance_proposal W m o now)
  unfolding advance_proposal
  advance_proposal-Kept none now = keep_done
  advance_proposal-Kept (some r) now =
      keep_peer (λ p. keep_branch _ (cancel-Kept W m now) (path_command-Kept W m _ _ _))

  advance_replacement-Kept : (now : ℕ) → Kept (advance_replacement W m now)
  unfolding advance_replacement
  advance_replacement-Kept now = keep_peer (λ p. advance_proposal-Kept p.replacement now)

  advance_waiting-Kept : (now : ℕ) → Kept (advance_waiting W m now)
  unfolding advance_waiting
  advance_waiting-Kept now = keep_peer (λ p.
      keep_branch _ (restore-Kept W m now)
        (keep_then (command-Kept W m _) (advance_replacement-Kept now)))

  advance_trial-Kept : (now : ℕ) → Kept (advance_trial W m now)
  unfolding advance_trial
  advance_trial-Kept now = keep_peer (λ p. keep_branch _ (rollback-Kept W m now) (
      keep_then (keep_when _ (keep_modify _ (activate-paths m now)))
        (keep_then report-Kept (advance_replacement-Kept now))))

  advance_judged-Kept : (v : Verdict) (now : ℕ) → Kept (advance_judged W m v now)
  unfolding advance_judged
  advance_judged-Kept bad now = rollback-Kept W m now
  advance_judged-Kept good now = keep_then (keep_modify _ (λ p. refl)) (advance_trial-Kept now)
  advance_judged-Kept undecided now = advance_trial-Kept now

  advance_running-Kept : (now : ℕ) → Kept (advance_running W m now)
  unfolding advance_running advance_measured
  advance_running-Kept now = keep_peer (λ p. keep_branch _ (rollback-Kept W m now) (
      keep_then (keep_when _ (command-Kept W m _)) (
        keep_peer (λ q.
          keep_branch _ (keep_then report-Kept (advance_replacement-Kept now))
            (keep_then (keep_modify _ (λ r. refl)) (advance_judged-Kept _ now))))))

  advance_phase-Kept :
      (r : Option PskTransition) (phase : Phase) (now : ℕ) → Kept (advance_phase W m r phase now)
  unfolding advance_phase
  advance_phase-Kept (some r) phase now = advance_rekey-Kept W m r now
  advance_phase-Kept none prepare now = advance_waiting-Kept now
  advance_phase-Kept none prepared now = advance_waiting-Kept now
  advance_phase-Kept none trial now = advance_running-Kept now
  advance_phase-Kept none active now = advance_running-Kept now
  advance_phase-Kept none idle now = advance_replacement-Kept now

  advance-Kept : (now : ℕ) → Kept (advance W m now)
  unfolding advance
  advance-Kept now =
      keep_peer
        (λ p. keep_branch _ (rollback-Kept W m now) (advance_phase-Kept p.rekey p.route.phase now))

  offer_best-Kept : (o : Option Best) (now : ℕ) → Kept (offer_best W m o now)
  unfolding offer_best
  offer_best-Kept none now = keep_done
  offer_best-Kept (some b) now = keep_branch _ (keep_modify _ (λ p. refl)) (
      keep_ask _ (λ token.
        keep_then (keep_modify _ (propose_path-paths b token now)) (path_command-Kept W m _ _ _)))

  propose-Kept : (psk_ok : Bool) (now : ℕ) → Kept (propose W m psk_ok now)
  unfolding propose
  propose-Kept psk_ok now = keep_peer (λ p. keep_when _ (offer_best-Kept _ now))

  pub settle-Kept : (psk_ok : Bool) (now : ℕ) → Kept (settle W m psk_ok now)
  unfolding settle
  settle-Kept psk_ok now = keep_peer (λ p.
      keep_branch _ (propose-Kept psk_ok now)
        (keep_then (advance-Kept now) (keep_peer (λ q. keep_when _ (propose-Kept psk_ok now)))))
