-- ===== src/Mesh/PathRoutes.antt =====
-- What leaves the candidate paths of a peer as they are: `apply`, `rollback` and key changes (mesh.go, psk.go).
use wireguard_mesh.Prelude.{ℕ, ◌≡◌, refl, Bool, Option, none, some}
use wireguard_mesh.Mesh.State.{MeshPeer, RouteState, RouteProposal, PskTransition, Message, Op}
use wireguard_mesh.Mesh.Monad.{Mesh, World}
use wireguard_mesh.Mesh.Command.{retire_token}
use wireguard_mesh.Mesh.Apply.{
  begin_trial, resume_previous, set_endpoint, preflight, switch, apply_replacement, apply_first,
  apply_checked, apply, reset_endpoint, rollback_path, rollback_previous, rollback_route, rollback,
}
use wireguard_mesh.Mesh.Rekey.{
  rekey_command, change_device_key, update_key, finish_update, apply_transition, apply_rekey,
  answer_completed, confirm_applied, rekey_switch, on_completed, on_transition, coordinate_rekey,
  complete_rekey, observe, remind, advance_rekey,
}
use wireguard_mesh.Mesh.PathKeys.{
  Kept, keep_bind, keep_then, keep_branch, keep_when, keep_peer, keep_ask, keep_pure, keep_fail,
  keep_done, keep_emit, keep_modify, path_command-Kept, command-Kept, cancel-Kept, restore-Kept,
  poll_psk-Kept,
}

begin_trial-paths :
    (proposal : Option RouteProposal) (now : ℕ) (p : MeshPeer)
    → (begin_trial proposal now p).paths ≡ p.paths
unfolding begin_trial
begin_trial-paths none now p = refl
begin_trial-paths (some r) now p = refl

resume_previous-paths :
    (m : Mesh) (old : RouteState) (now : ℕ) (p : MeshPeer)
    → (resume_previous m old now p).paths ≡ p.paths
unfolding resume_previous retire_token
resume_previous-paths m old now p = refl

module _ (W : World) (m : Mesh) where
  complete_rekey-paths :
      (r : PskTransition) (now : ℕ) (p : MeshPeer) → (complete_rekey W m r now p).paths ≡ p.paths
  unfolding complete_rekey
  complete_rekey-paths r now p = refl

  set_endpoint-Kept : (c : ℕ) → Kept (set_endpoint W m c)
  unfolding set_endpoint
  set_endpoint-Kept c = keep_peer (λ p. keep_ask _ (λ a. keep_then (keep_emit _) (keep_pure _)))

  preflight-Kept : Kept (preflight W m)
  unfolding preflight
  preflight-Kept = keep_ask _ (λ a. keep_branch _ keep_done keep_fail)

  switch-Kept :
      (is_leader : Bool) (proposal : Option RouteProposal) (c token now : ℕ)
      → Kept (switch W m is_leader proposal c token now)
  unfolding switch
  switch-Kept is_leader proposal c token now = keep_bind (set_endpoint-Kept c) (λ a.
      keep_ask _ (λ spent.
        keep_branch _
          (keep_then (keep_modify _ (begin_trial-paths proposal _))
            (keep_when _ (command-Kept W m _)))
          (keep_then (path_command-Kept W m _ _ _) keep_fail)))

  apply_replacement-Kept :
      (is_leader : Bool) (r : RouteProposal) (checked now : ℕ)
      → Kept (apply_replacement W m is_leader r checked now)
  unfolding apply_replacement
  apply_replacement-Kept is_leader r checked now = keep_peer (λ p. keep_branch _ keep_done (
      keep_branch _ (cancel-Kept W m checked) (
        keep_branch _ (restore-Kept W m checked)
          (keep_branch _ (restore-Kept W m checked) (switch-Kept _ _ _ _ _)))))

  apply_first-Kept :
      (is_leader : Bool) (o : Option ℕ) (checked now : ℕ)
      → Kept (apply_first W m is_leader o checked now)
  unfolding apply_first
  apply_first-Kept is_leader none checked now = keep_done
  apply_first-Kept is_leader (some c) checked now =
      keep_peer (λ p. keep_branch _ (restore-Kept W m checked) (switch-Kept _ _ _ _ _))

  apply_checked-Kept :
      (is_leader : Bool) (o : Option RouteProposal) (checked now : ℕ)
      → Kept (apply_checked W m is_leader o checked now)
  unfolding apply_checked
  apply_checked-Kept is_leader (some r) checked now = apply_replacement-Kept is_leader r checked now
  apply_checked-Kept is_leader none checked now =
      keep_peer (λ p. apply_first-Kept is_leader _ checked now)

  pub apply-Kept : (now : ℕ) → Kept (apply W m now)
  unfolding apply
  apply-Kept now = keep_peer (λ p. keep_then preflight-Kept (
      keep_ask _ (λ a.
        keep_bind (poll_psk-Kept W m _)
          (λ polled. keep_branch _ keep_done (keep_ask _ (λ b. apply_checked-Kept _ _ _ _))))))

  reset_endpoint-Kept :
      (old : RouteState) (c received_at : ℕ) → Kept (reset_endpoint W m old c received_at)
  unfolding reset_endpoint
  reset_endpoint-Kept old c received_at = keep_bind (set_endpoint-Kept c) (λ a. keep_ask _ (λ spent.
      keep_branch _ (keep_then (command-Kept W m _) (keep_modify _ (resume_previous-paths m old _)))
        keep_fail))

  rollback_path-Kept :
      (old : RouteState) (o : Option ℕ) (now received_at : ℕ)
      → Kept (rollback_path W m old o now received_at)
  unfolding rollback_path
  rollback_path-Kept old none now received_at = restore-Kept W m now
  rollback_path-Kept old (some c) now received_at =
      keep_peer (λ p. keep_branch _ (restore-Kept W m now) (reset_endpoint-Kept old c received_at))

  rollback_route-Kept : (o : Option RouteState) (now : ℕ) → Kept (rollback_route W m o now)
  unfolding rollback_route rollback_previous
  rollback_route-Kept none now = restore-Kept W m now
  rollback_route-Kept (some old) now = keep_then preflight-Kept (
      keep_ask _ (λ a. keep_bind (poll_psk-Kept W m _) (λ polled.
        keep_peer (λ p. keep_branch _ keep_done (keep_ask _ (λ b. rollback_path-Kept _ _ _ _))))))

  pub rollback-Kept : (now : ℕ) → Kept (rollback W m now)
  unfolding rollback
  rollback-Kept now = keep_peer (λ p. rollback_route-Kept p.previous now)

  rekey_command-Kept : (r : PskTransition) (op : Op) → Kept (rekey_command W m r op)
  unfolding rekey_command
  rekey_command-Kept r op = record { kept = λ s. refl }

  change_device_key-Kept : (r : PskTransition) (o : Option ℕ) → Kept (change_device_key W m r o)
  unfolding change_device_key
  change_device_key-Kept r none = keep_pure _
  change_device_key-Kept r (some at) =
      keep_peer (λ p. keep_ask _ (λ a. keep_then (keep_emit _) (keep_pure _)))

  finish_update-Kept :
      (r : PskTransition) (o : Option ℕ) (now : ℕ) → Kept (finish_update W m r o now)
  unfolding finish_update
  finish_update-Kept r none now = restore-Kept W m now
  finish_update-Kept r (some at) now = keep_ask _ (λ a. keep_modify _ (λ q. refl))

  apply_transition-Kept : (o : Option PskTransition) (now : ℕ) → Kept (apply_transition W m o now)
  unfolding apply_transition update_key
  apply_transition-Kept none now = keep_done
  apply_transition-Kept (some r) now =
      keep_branch _ (restore-Kept W m now)
        (keep_bind (keep_ask _ (λ a. change_device_key-Kept r a)) (λ u. finish_update-Kept r u now))

  apply_rekey-Kept : (now : ℕ) → Kept (apply_rekey W m now)
  unfolding apply_rekey
  apply_rekey-Kept now = keep_then preflight-Kept (
      keep_ask _ (λ a.
        keep_bind (poll_psk-Kept W m _)
          (λ polled. keep_peer (λ p. keep_branch _ keep_done (apply_transition-Kept _ now)))))

  answer_completed-Kept :
      (p : MeshPeer) (o : Option PskTransition) (msg : Message) (now : ℕ)
      → Kept (on_completed W m p o msg now)
  unfolding on_completed answer_completed
  answer_completed-Kept p none msg now = keep_done
  answer_completed-Kept p (some r) msg now = keep_when _ (rekey_command-Kept r _)

  confirm_applied-Kept : (o : Option PskTransition) → Kept (confirm_applied W m o)
  unfolding confirm_applied
  confirm_applied-Kept none = keep_done
  confirm_applied-Kept (some r) =
      keep_when _ (keep_then (keep_modify _ (λ p. refl)) (rekey_command-Kept _ _))

  rekey_switch-Kept :
      (lead : Bool) (r : PskTransition) (op : Op) (now : ℕ) → Kept (rekey_switch W m lead r op now)
  unfolding rekey_switch
  rekey_switch-Kept lead r Op.rekey_offer now = keep_when _ (rekey_command-Kept r _)
  rekey_switch-Kept lead r Op.rekey_ready now =
      keep_when _ (keep_then (rekey_command-Kept r _) (apply_rekey-Kept now))
  rekey_switch-Kept lead r Op.rekey_commit now = keep_when _ (
      keep_then (keep_when _ (apply_rekey-Kept now))
        (keep_peer (λ p. confirm_applied-Kept p.rekey)))
  rekey_switch-Kept lead r Op.rekey_applied now = keep_when _ (keep_modify _ (λ p. refl))
  rekey_switch-Kept lead r Op.rekey_observed now = keep_when _ (keep_modify _ (λ p. refl))
  rekey_switch-Kept lead r Op.rekey_finished now = keep_when _ (keep_modify _ (λ p. refl))
  rekey_switch-Kept lead r _ now = keep_done

  on_transition-Kept :
      (o : Option PskTransition) (msg : Message) (now : ℕ) → Kept (on_transition W m o msg now)
  unfolding on_transition
  on_transition-Kept (some r) msg now = keep_peer (λ p. keep_branch _ keep_done (
      keep_branch _ (restore-Kept W m now)
        (keep_then (keep_modify _ (λ q. refl)) (keep_when _ (rekey_switch-Kept _ _ _ now)))))
  on_transition-Kept none msg now =
      keep_peer (λ p. answer_completed-Kept p p.completed_rekey msg now)

  pub coordinate_rekey-Kept :
      (c : ℕ) (msg : Message) (now : ℕ) → Kept (coordinate_rekey W m c msg now)
  unfolding coordinate_rekey
  coordinate_rekey-Kept c msg now = keep_peer (λ p. keep_branch _ keep_done (
      keep_bind (poll_psk-Kept W m now)
        (λ polled. keep_peer (λ q. keep_branch _ keep_done (on_transition-Kept q.rekey msg now)))))

  observe-Kept : (r : PskTransition) (o : Option ℕ) (now : ℕ) → Kept (observe W m r o now)
  unfolding observe
  observe-Kept r none now = keep_fail
  observe-Kept r (some at) now = keep_when _ (
      keep_then (rekey_command-Kept r _) (keep_when _ (keep_modify _ (complete_rekey-paths r now))))

  pub advance_rekey-Kept : (r : PskTransition) (now : ℕ) → Kept (advance_rekey W m r now)
  unfolding advance_rekey remind
  advance_rekey-Kept r now = keep_peer (λ p.
      keep_branch _
        (keep_branch _ (restore-Kept W m now)
          (keep_then (keep_when _ (rekey_command-Kept r _)) (keep_when _ (rekey_command-Kept r _))))
        (keep_branch _ (restore-Kept W m now) (
          keep_then (keep_when _ (rekey_command-Kept r _))
            (keep_ask _ (λ a. observe-Kept r a now)))))
