-- ===== src/Mesh/RekeySteps.antt =====
-- The change of a key in place keeps the shape of a route (psk.go).
use wireguard_mesh.Prelude.{ℕ, ◌+◌, ◌≡◌, refl, Bool, true, Option, none, some, is_some, arith}
use wireguard_mesh.Mesh.State.{MeshPeer, PskTransition, Op, Message}
use wireguard_mesh.Mesh.Monad.{Mesh, World, State, effects_run}
use wireguard_mesh.Mesh.Runs.{
  Runs, run, run_bind, run_then, run_peer, run_ask, run_modify, run_branch, run_done, run_fail,
  run_last, run_when,
}
use wireguard_mesh.Mesh.Psk.{poll_psk, leader}
use wireguard_mesh.Mesh.Rekey.{
  rekey_command, change_device_key, update_key, finish_update, apply_transition, apply_rekey,
  answer_completed, confirm_applied, rekey_switch, take_offer, on_completed, on_transition,
  coordinate_rekey, complete_rekey, observe, remind, advance_rekey,
}
use wireguard_mesh.Mesh.Sound.{IsSound}
use wireguard_mesh.Mesh.KeySteps.{poll_psk-Polled}
use wireguard_mesh.Mesh.RouteSteps.{Sound, preflight-Sound, restore-Sound}

module _ (W : World) (m : Mesh) where
  pub poll_psk-Sound : (now : ℕ) (s : State) → IsSound s.peer → Runs Sound (poll_psk W m now) s
  poll_psk-Sound now s h = run _ _ s (poll_psk-Polled W m now s h).sound

  rekey_command-Sound :
      (r : PskTransition) (op : Op) (s : State)
      → IsSound s.peer
      → Runs Sound (rekey_command W m r op) s
  unfolding rekey_command effects_run
  rekey_command-Sound r op s h = run _ _ s h

  set_rekey-IsSound :
      (r : PskTransition) (p : MeshPeer)
      → IsSound p
      → is_some p.rekey ≡ true
      → IsSound (record p { rekey = some r })
  set_rekey-IsSound r p h e = ground arith

  change_device_key-peer :
      (r : PskTransition) (at : Option ℕ) (s : State)
      → (change_device_key W m r at s).1.peer ≡ s.peer
  unfolding change_device_key effects_run
  change_device_key-peer r none s = refl
  change_device_key-peer r (some at) s = refl

  update_key-peer : (r : PskTransition) (s : State) → (update_key W m r s).1.peer ≡ s.peer
  unfolding update_key effects_run
  update_key-peer r s =
      change_device_key-peer r (W.handshake s.calls) (record s { calls = s.calls + 1 })

  finish_update-Sound :
      (r : PskTransition) (at : Option ℕ) (now : ℕ) (s : State)
      → IsSound s.peer
      → is_some s.peer.rekey ≡ true
      → Runs Sound (finish_update W m r at now) s
  unfolding finish_update
  finish_update-Sound r none now s h e = restore-Sound W m now s h
  finish_update-Sound r (some at) now s h e = run_ask _ _ (run_last _ (ground arith))

  apply_transition-Sound :
      (r : Option PskTransition) (now : ℕ) (s : State)
      → IsSound s.peer
      → s.peer.rekey ≡ r
      → Runs Sound (apply_transition W m r now) s
  unfolding apply_transition
  apply_transition-Sound none now s h e = run_done h
  apply_transition-Sound (some r) now s h e =
      let u = update_key-peer r s in
      run_branch (λ _. restore-Sound W m now s h)
        (λ _.
          run_bind (run _ _ s (rw u h))
            (λ updated. finish_update-Sound r updated now _ (rw u h) (rw u (rw e refl))))

  apply_rekey-Sound : (now : ℕ) (s : State) → IsSound s.peer → Runs Sound (apply_rekey W m now) s
  unfolding apply_rekey
  apply_rekey-Sound now s h =
      let begun = preflight-Sound W m s h in
      run_then begun (
        run_ask _ _ (
          let polled = poll_psk-Sound _ _ begun.after in
          run_bind polled (λ valid. run_peer _ (
            run_branch (λ _. run_done polled.after)
              (λ _. apply_transition-Sound _ now _ polled.after refl)))))

  answer_completed-Sound :
      (p : MeshPeer) (r : PskTransition) (msg : Message) (now : ℕ) (s : State)
      → IsSound s.peer
      → Runs Sound (answer_completed W m p r msg now) s
  unfolding answer_completed
  answer_completed-Sound p r msg now s h = run_when h (λ _. rekey_command-Sound r _ s h)

  confirm_applied-Sound :
      (r : Option PskTransition) (s : State)
      → IsSound s.peer
      → s.peer.rekey ≡ r
      → Runs Sound (confirm_applied W m r) s
  unfolding confirm_applied
  confirm_applied-Sound none s h e = run_done h
  confirm_applied-Sound (some r) s h e =
      let next = set_rekey-IsSound _ s.peer h (rw e refl) in
      run_when h (λ _. run_modify _ (rekey_command-Sound r _ _ next))

  rekey_switch-Sound :
      (lead : Bool) (r : PskTransition) (op : Op) (now : ℕ) (s : State)
      → IsSound s.peer
      → is_some s.peer.rekey ≡ true
      → Runs Sound (rekey_switch W m lead r op now) s
  unfolding rekey_switch
  rekey_switch-Sound lead r Op.rekey_offer now s h e = run_when h (λ _. rekey_command-Sound r _ s h)
  rekey_switch-Sound lead r Op.rekey_ready now s h e = run_when h (λ _.
      let commanded = rekey_command-Sound r Op.rekey_commit s h in
      run_then commanded (apply_rekey-Sound now _ commanded.after))
  rekey_switch-Sound lead r Op.rekey_commit now s h e = run_when h (λ _.
      let applied = run_when h (λ _. apply_rekey-Sound now s h) in
      run_then applied (run_peer _ (confirm_applied-Sound _ _ applied.after refl)))
  rekey_switch-Sound lead r Op.rekey_applied now s h e =
      run_when h (λ _. run_last _ (set_rekey-IsSound _ s.peer h e))
  rekey_switch-Sound lead r Op.rekey_observed now s h e =
      run_when h (λ _. run_last _ (set_rekey-IsSound _ s.peer h e))
  rekey_switch-Sound lead r Op.rekey_finished now s h e =
      run_when h (λ _. run_last _ (set_rekey-IsSound _ s.peer h e))
  rekey_switch-Sound lead r _ now s h e = run_done h

  on_completed-Sound :
      (p : MeshPeer) (r : Option PskTransition) (msg : Message) (now : ℕ) (s : State)
      → IsSound s.peer
      → Runs Sound (on_completed W m p r msg now) s
  unfolding on_completed
  on_completed-Sound p none msg now s h = run_done h
  on_completed-Sound p (some r) msg now s h = answer_completed-Sound p r msg now s h

  on_transition-Sound :
      (r : Option PskTransition) (msg : Message) (now : ℕ) (s : State)
      → IsSound s.peer
      → s.peer.rekey ≡ r
      → Runs Sound (on_transition W m r msg now) s
  unfolding on_transition
  on_transition-Sound (some r) msg now s h e =
      let next = set_rekey-IsSound (take_offer W m (leader m s.peer) r msg) s.peer h (rw e refl) in
      run_peer _ (
        run_branch (λ _. run_done h)
          (λ _.
            run_branch (λ _. restore-Sound W m now s h)
              (λ _.
                run_modify _ (run_when next (λ _. rekey_switch-Sound _ _ msg.op now _ next refl)))))
  on_transition-Sound none msg now s h e =
      run_peer _ (on_completed-Sound s.peer s.peer.completed_rekey msg now s h)

  pub coordinate_rekey-Sound :
      (c : ℕ) (msg : Message) (now : ℕ) (s : State)
      → IsSound s.peer
      → Runs Sound (coordinate_rekey W m c msg now) s
  unfolding coordinate_rekey
  coordinate_rekey-Sound c msg now s h = run_peer _ (
      run_branch (λ _. run_done h)
        (λ _.
          let polled = poll_psk-Sound now s h in
          run_bind polled (λ valid. run_peer _ (
            run_branch (λ _. run_done polled.after)
              (λ _. on_transition-Sound _ msg now _ polled.after refl)))))

  complete_rekey-IsSound :
      (r : PskTransition) (now : ℕ) (p : MeshPeer)
      → IsSound p
      → IsSound (complete_rekey W m r now p)
  unfolding complete_rekey
  complete_rekey-IsSound r now p h = ground arith

  observe-Sound :
      (r : PskTransition) (at : Option ℕ) (now : ℕ) (s : State)
      → IsSound s.peer
      → Runs Sound (observe W m r at now) s
  unfolding observe
  observe-Sound r none now s h = run_fail h
  observe-Sound r (some at) now s h = run_when h (λ _.
      let commanded = rekey_command-Sound r Op.rekey_observed s h in
      run_then commanded (
        run_when commanded.after
          (λ _. run_last _ (complete_rekey-IsSound r now _ commanded.after))))

  remind-Sound : (r : PskTransition) (s : State) → IsSound s.peer → Runs Sound (remind W m r) s
  unfolding remind
  remind-Sound r s h =
      let offered = run_when h (λ _. rekey_command-Sound r Op.rekey_offer s h) in
      run_then offered (run_when offered.after (λ _. rekey_command-Sound r _ _ offered.after))

  pub advance_rekey-Sound :
      (r : PskTransition) (now : ℕ) (s : State)
      → IsSound s.peer
      → Runs Sound (advance_rekey W m r now) s
  unfolding advance_rekey
  advance_rekey-Sound r now s h = run_peer _ (
      run_branch (λ _. run_branch (λ _. restore-Sound W m now s h) (λ _. remind-Sound r s h))
        (λ _.
          run_branch (λ _. restore-Sound W m now s h)
            (λ _.
              let committed = run_when h (λ _. rekey_command-Sound r Op.rekey_commit s h) in
              run_then committed (run_ask _ _ (observe-Sound r _ now _ committed.after)))))
