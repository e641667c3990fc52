-- ===== src/Mesh/Paths.antt =====
-- The candidate paths of a peer over a run of the event loop (mesh.go).
use wireguard_mesh.Prelude.{ℕ, ◌≤◌, Bool, Option, List, [], ◌∷◌, length, Distinct}
use wireguard_mesh.Mesh.State.{AddrPort, Message}
use wireguard_mesh.Mesh.Monad.{Mesh, World, State}
use wireguard_mesh.Mesh.Probe.{candidate, on_pong}
use wireguard_mesh.Mesh.History.{Event, handle, relinked}
use wireguard_mesh.Mesh.Runs.{Runs}

-- At most 16 paths stand, each under a name of its own.
abbrev pub FewPaths : List (ℕ × ℕ) → Type 0
FewPaths paths = Distinct paths × (length paths ≤ 16)

abbrev HasFew : State → Type 0
HasFew s = FewPaths s.peer.paths

-- What the event loop does to a peer: a path is found, by its name, its cell, its link, its address and the
-- time; a pong arrives; or one of the calls of `Event`.
pub data PathEvent : Type 0 where
  found : ℕ → ℕ → ℕ → AddrPort → ℕ → PathEvent
  ponged : Bool → ℕ → Message → Option ℕ → ℕ → PathEvent
  called : Event → PathEvent

module _ (W : World) where
  unfoldable pub path_history : Mesh → List PathEvent → State → State
  unfolding handle
  path_history m [] s = s
  path_history m (found name new link addr now ∷ es) s =
      path_history m es (record s { peer = (candidate name new link addr now s.peer).1 })
  path_history m (ponged tunnel id msg target now ∷ es) s =
      path_history m es (record s { peer = on_pong m.c tunnel id msg target now s.peer })
  path_history m (called e ∷ es) s = path_history (relinked m e) es (handle W m e s)
