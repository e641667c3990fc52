-- ===== src/Mesh/History.antt =====
-- What a peer's route can be after any messages, timer steps and key reads (mesh.go).
use wireguard_mesh.Prelude.{ℕ, ◌≡◌, Bool, true, ◌||◌, Option, none, some, List, [], ◌∷◌, arith}
use wireguard_mesh.Mesh.State.{MeshPeer, Message, is_active, is_idle}
use wireguard_mesh.Mesh.Monad.{Mesh, World, State}
use wireguard_mesh.Mesh.Runs.{
  Runs, run_then, run_peer, run_ask, run_modify, run_branch, run_done, run_last, run_when,
}
use wireguard_mesh.Mesh.Psk.{poll_psk}
use wireguard_mesh.Mesh.Refresh.{refresh, refresh-Sound}
use wireguard_mesh.Mesh.Coordinate.{coordinate}
use wireguard_mesh.Mesh.Propose.{Best, may_propose, propose_path, offer_best, propose, settle}
use wireguard_mesh.Mesh.Sound.{IsSound}
use wireguard_mesh.Mesh.RouteSteps.{Sound, path_command-Sound}
use wireguard_mesh.Mesh.RekeySteps.{poll_psk-Sound}
use wireguard_mesh.Mesh.PeerSteps.{coordinate-Sound}
use wireguard_mesh.Mesh.TimerSteps.{advance-Sound}

-- The calls that the event loop makes for one peer: a command that came over a path, the key read
-- of a tick, the rest of the tick, and a refresh of the links, which may take the interface of a path.
pub data Event : Type 0 where
  message : ℕ → Message → ℕ → Event
  key_read : ℕ → Event
  timer : Bool → ℕ → Event
  refreshed : List ℕ → ℕ → Event

module _ (W : World) (m : Mesh) where
  unfoldable pub handle : Event → State → State
  handle (message c msg now) s = (coordinate W m c msg now s).1
  handle (key_read now) s = (poll_psk W m now s).1
  handle (timer psk_ok now) s = (settle W m psk_ok now s).1
  handle (refreshed links now) s = (refresh W (record m { links = links }) now s).1

  propose_path-IsSound :
      (b : Best) (token now : ℕ) (psk_ok : Bool) (at : ℕ) (p : MeshPeer)
      → IsSound p
      → (is_idle p.route.phase || is_active p.route.phase) ≡ true
      → may_propose m p psk_ok at ≡ true
      → IsSound (propose_path b token now p)
  unfolding propose_path
  propose_path-IsSound b token now psk_ok at p h e f = ground arith

  cooled-IsSound : (until : ℕ) (p : MeshPeer) → IsSound p → IsSound (record p { cooldown = until })
  cooled-IsSound until p h = ground arith

  offer_best-Sound :
      (b : Option Best) (now : ℕ) (psk_ok : Bool) (s : State)
      → IsSound s.peer
      → (is_idle s.peer.route.phase || is_active s.peer.route.phase) ≡ true
      → may_propose m s.peer psk_ok now ≡ true
      → Runs Sound (offer_best W m b now) s
  unfolding offer_best
  offer_best-Sound none now psk_ok s h e f = run_done h
  offer_best-Sound (some b) now psk_ok s h e f =
      run_branch (λ _. run_last _ (cooled-IsSound _ s.peer h))
        (λ _. run_ask _ _ (
          run_modify _ (
            path_command-Sound W m _ _ _ _ (propose_path-IsSound b _ now psk_ok now s.peer h e f))))

  propose-Sound :
      (psk_ok : Bool) (now : ℕ) (s : State)
      → IsSound s.peer
      → (is_idle s.peer.route.phase || is_active s.peer.route.phase) ≡ true
      → Runs Sound (propose W m psk_ok now) s
  unfolding propose
  propose-Sound psk_ok now s h e =
      run_peer _ (run_when h (λ f. offer_best-Sound _ now psk_ok s h e f))

  settle-Sound :
      (psk_ok : Bool) (now : ℕ) (s : State) → IsSound s.peer → Runs Sound (settle W m psk_ok now) s
  unfolding settle
  settle-Sound psk_ok now s h = run_peer _ (
      run_branch (λ e. propose-Sound psk_ok now s h (ground arith))
        (λ _.
          let advanced = advance-Sound W m now s h in
          run_then advanced (
            run_peer _ (
              run_when advanced.after
                (λ e. propose-Sound psk_ok now _ advanced.after (ground arith))))))

  -- One call of the event loop keeps the shape of the route, with any outcome of what it calls
  -- and after an error too.
  pub handle-IsSound : (e : Event) (s : State) → IsSound s.peer → IsSound (handle e s).peer
  unfolding handle
  handle-IsSound (message c msg now) s h = (coordinate-Sound W m c msg now s h).after
  handle-IsSound (key_read now) s h = (poll_psk-Sound W m now s h).after
  handle-IsSound (timer psk_ok now) s h = (settle-Sound psk_ok now s h).after
  handle-IsSound (refreshed links now) s h =
      (refresh-Sound W (record m { links = links }) now s h).after

-- the links that are known after an event
abbrev pub relinked : Mesh → Event → Mesh
relinked m (refreshed links _) = record m { links = links }
relinked m (message _ _ _) = m
relinked m (key_read _) = m
relinked m (timer _ _) = m

module _ (W : World) where
  unfoldable pub history : Mesh → List Event → State → State
  unfolding handle
  history m [] s = s
  history m (e ∷ es) s = history (relinked m e) es (handle W m e s)

  -- From a sound route, every sequence of messages, key reads, timer steps and refreshes of the links,
  -- with any outcome of the calls and after errors too, leads to a sound route: a path is selected
  -- exactly when a coordination stands, a replacement or a key change stands only beside an active
  -- route and never both, and only a trial has a fallback, which is an active route.
  pub history-IsSound :
      (m : Mesh) (es : List Event) (s : State) → IsSound s.peer → IsSound (history m es s).peer
  unfolding history
  history-IsSound m [] s h = h
  history-IsSound m (e ∷ es) s h =
      history-IsSound (relinked m e) es (handle W m e s) (handle-IsSound W m e s h)
