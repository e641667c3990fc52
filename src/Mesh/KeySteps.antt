-- ===== src/Mesh/KeySteps.antt =====
-- Reading the key keeps the shape of a route (psk.go).
use wireguard_mesh.Prelude.{
  ℕ, ◌≡◌, Bool, true, ◌+◌, ◌*◌, ltb, if◌then◌else◌, Option, none, some, arith,
}
use wireguard_mesh.Secure.State.{second}
use wireguard_mesh.Mesh.State.{MeshPeer, RosenpassResponse, is_active}
use wireguard_mesh.Mesh.Monad.{Mesh, World, State, effects_run}
use wireguard_mesh.Mesh.Runs.{
  Runs, run, run_bind, run_then, run_peer, run_ask, run_modify, run_branch, run_pure,
}
use wireguard_mesh.Mesh.Command.{cancel_replacement, retire_token, path_command}
use wireguard_mesh.Mesh.Psk.{
  choose_path, announce_path, query, confirmed_key, read_peer_psk, replace_key, begin_rekey,
  change_key, poll_valid, poll_read, may_rekey, poll_psk, drop_previous, new_transition,
}
use wireguard_mesh.Mesh.Sound.{IsSound, Polled, Polled-refl, Polled-trans, restore-Polled}

abbrev OnPeer : MeshPeer → State → Type 0
OnPeer p s = Polled p s.peer

module _ (W : World) (m : Mesh) where
  choose_path-Polled :
      (now : ℕ) (s : State) → IsSound s.peer → Polled s.peer (choose_path W m now s).1.peer
  unfolding choose_path effects_run
  choose_path-Polled now s h = ground arith

  announce_path-peer : (s : State) → (announce_path W m s).1.peer ≡ s.peer
  unfolding announce_path effects_run
  announce_path-peer s = ground arith

  query-peer : (now : ℕ) (s : State) → (query W m now s).1.peer ≡ s.peer
  unfolding query effects_run
  query-peer now s = ground arith

  confirmed_key-peer : (now : ℕ) (s : State) → (confirmed_key W m now s).1.peer ≡ s.peer
  unfolding confirmed_key effects_run
  confirmed_key-peer now s = grind (arith, query-peer)

  read_peer_psk-Polled :
      (now : ℕ) (s : State) → IsSound s.peer → Polled s.peer (read_peer_psk W m now s).1.peer
  unfolding read_peer_psk effects_run
  read_peer_psk-Polled now s h = grind (
    arith,
    choose_path-Polled now s h,
    announce_path-peer (choose_path W m now s).1,
    confirmed_key-peer now (announce_path W m (choose_path W m now s).1).1,
  )

  replace_key-Polled :
      (found : Option (ℕ × RosenpassResponse)) (now : ℕ) (s : State)
      → IsSound s.peer
      → Polled s.peer (replace_key W m found now s).1.peer
  unfolding replace_key effects_run
  replace_key-Polled found now s h = ground (arith, restore-Polled W m now s h)

  begin_rekey-Polled :
      (key now : ℕ) (s : State)
      → IsSound s.peer
      → is_active s.peer.route.phase ≡ true
      → Polled s.peer (begin_rekey W m key now s).1.peer
  unfolding begin_rekey new_transition cancel_replacement path_command retire_token effects_run
  begin_rekey-Polled key now s h a = ground arith

  may_rekey-active :
      (steady : Bool) (p : MeshPeer) → may_rekey steady p ≡ true → is_active p.route.phase ≡ true
  unfolding may_rekey effects_run
  may_rekey-active steady p h = ground arith

  status-Polled :
      (status : RosenpassResponse) (p : MeshPeer)
      → IsSound p
      → Polled p (record p { psk_status = status })
  status-Polled status p h = ground arith

  change_key-Polled :
      (steady : Bool) (key : ℕ) (status : RosenpassResponse) (now : ℕ) (s : State)
      → IsSound s.peer
      → Polled s.peer (change_key W m steady key status now s).1.peer
  unfolding change_key
  change_key-Polled steady key status now s h =
      let result : Runs (OnPeer s.peer) (change_key W m steady key status now) s = run_peer _ (
        run_branch
          (λ a.
            let b = begin_rekey-Polled key now s h (may_rekey-active steady s.peer a) in
            run_then (run _ _ s b) (
              run_peer _ (
                run_branch
                  (λ _. run_modify _ (
                    run_pure _ (
                      Polled-trans _ _ _ b
                        (status-Polled status (begin_rekey W m key now s).1.peer b.sound))))
                  (λ _. run _ _ _ (
                    Polled-trans _ _ _ b (
                      replace_key-Polled (some (key, status)) now (begin_rekey W m key now s).1
                        b.sound))))))
          (λ _. run _ _ s (replace_key-Polled (some (key, status)) now s h))) in
      result.after

  drop_previous-Polled : (now : ℕ) (p : MeshPeer) → IsSound p → Polled p (drop_previous now p)
  unfolding drop_previous retire_token effects_run
  drop_previous-Polled now p h = ground arith

  poll_valid-Polled :
      (key : ℕ) (status : RosenpassResponse) (now : ℕ) (s : State)
      → IsSound s.peer
      → Polled s.peer (poll_valid W m key status now s).1.peer
  unfolding poll_valid
  poll_valid-Polled key status now s h =
      let d = drop_previous-Polled now s.peer h in
      let result : Runs (OnPeer s.peer) (poll_valid W m key status now) s = run_peer _ (
        run_branch (λ _. run_modify _ (run_pure _ (status-Polled status s.peer h)))
          (λ _. run_modify _ (
            run _ _ _ (
              Polled-trans _ _ _ d (
                change_key-Polled _ key status now (record s { peer = drop_previous now s.peer })
                  d.sound))))) in
      result.after

  poll_read-Polled :
      (found : Option (ℕ × RosenpassResponse)) (now : ℕ) (s : State)
      → IsSound s.peer
      → Polled s.peer (poll_read W m found now s).1.peer
  unfolding poll_read effects_run
  poll_read-Polled (some (key, status)) now s h = poll_valid-Polled key status now s h
  poll_read-Polled none now s h =
      let until =
        if ltb now s.peer.psk_log_after then s.peer.psk_log_after else now + 60 * second in
      let q = record s.peer { psk_log_after = until } in
      let a : Polled s.peer q = ground arith in
      let d = drop_previous-Polled now q a.sound in
      let t : State = record s { peer = drop_previous now q } in
      Polled-trans _ _ _ a (Polled-trans _ _ _ d (replace_key-Polled none now t d.sound))

  -- From a sound peer, reading the key keeps the peer sound, and the route is what it was, or no
  -- path is selected.
  pub poll_psk-Polled :
      (now : ℕ) (s : State) → IsSound s.peer → Polled s.peer (poll_psk W m now s).1.peer
  unfolding poll_psk
  poll_psk-Polled now s h =
      let a = read_peer_psk-Polled now s h in
      let t = (read_peer_psk W m now s).1 in
      let result : Runs (OnPeer s.peer) (poll_psk W m now) s = run_peer _ (
        run_branch (λ _. run_pure _ (Polled-refl s.peer h))
          (λ _. run_bind (run _ _ s a) (λ found. run_ask _ _ (
            run _ _ _ (
              Polled-trans _ _ _ a (
                poll_read-Polled found (now + W.elapsed t.calls) (record t { calls = t.calls + 1 })
                  a.sound)))))) in
      result.after
