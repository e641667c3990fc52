-- ===== src/Mesh/Refresh.antt =====
-- The paths that lose their interface (`refresh` in mesh.go).
use wireguard_mesh.Prelude.{ℕ, Bool, false, ◌==◌, Option, none, some, List, [], ◌∷◌, any, erase}
use wireguard_mesh.Mesh.State.{MeshPeer, RouteProposal}
use wireguard_mesh.Mesh.Monad.{Mesh, World, State, M, ◌>>=◌, ◌>>◌, done, peer, modify, branch}
use wireguard_mesh.Mesh.Apply.{rollback}
use wireguard_mesh.Mesh.Command.{cancel_replacement}
use wireguard_mesh.Mesh.Runs.{Runs, run_then, run_peer, run_last, run_branch, run_done}
use wireguard_mesh.Mesh.Sound.{IsSound}
use wireguard_mesh.Mesh.RouteSteps.{Sound, rollback-Sound, cancel-Sound}

abbrev pub is_cell : Option ℕ → ℕ → Bool
is_cell none c = false
is_cell (some d) c = d == c

abbrev pub is_replacement : Option RouteProposal → ℕ → Bool
is_replacement none c = false
is_replacement (some r) c = r.path == c

-- `slices.Contains(links, candidate.link)`
abbrev pub has_link : List ℕ → ℕ → Bool
has_link links link = any (λ l. l == link) links

module _ (W : World) (m : Mesh) where
  -- the route over this path is given up, or the replacement that would take it
  unfoldable pub lose_path : ℕ → ℕ → M (Unit {0})
  lose_path c now = do
    p ← peer
    branch (is_cell p.route.selected c) (rollback W m now)
        (branch (is_replacement p.replacement c) (cancel_replacement W m now) done)

  abbrev pub drop_path : ℕ → M (Unit {0})
  drop_path name = modify (λ p. record p { paths = erase name p.paths })

  unfoldable pub refresh_path : ℕ → ℕ → ℕ → M (Unit {0})
  refresh_path name c now = do
    p ← peer
    branch (has_link m.links (p.cell c).link) done (lose_path c now >> drop_path name)

  -- the loop over the paths of one peer
  unfoldable pub refresh_paths : List (ℕ × ℕ) → ℕ → M (Unit {0})
  refresh_paths [] now = done
  refresh_paths ((name, c) ∷ rest) now = refresh_path name c now >> refresh_paths rest now

  -- `refresh` for one peer, with the links that were read
  unfoldable pub refresh : ℕ → M (Unit {0})
  refresh now = do p ← peer; refresh_paths p.paths now

  lose_path-Sound : (c now : ℕ) (s : State) → IsSound s.peer → Runs Sound (lose_path c now) s
  unfolding lose_path
  lose_path-Sound c now s h = run_peer _ (
      run_branch (λ _. rollback-Sound W m now s h)
        (λ _. run_branch (λ _. cancel-Sound W m now s h) (λ _. run_done h)))

  drop_path-IsSound :
      (name : ℕ) (p : MeshPeer) → IsSound p → IsSound (record p { paths = erase name p.paths })
  drop_path-IsSound name p h = record {
    selects = h.selects;
    replaces = h.replaces;
    rekeys = h.rekeys;
    exclusive = h.exclusive;
    falls_back = h.falls_back;
    fallback = h.fallback;
  }

  refresh_path-Sound :
      (name c now : ℕ) (s : State) → IsSound s.peer → Runs Sound (refresh_path name c now) s
  unfolding refresh_path
  refresh_path-Sound name c now s h = run_peer _ (
      run_branch (λ _. run_done h)
        (λ _.
          let lost = lose_path-Sound c now s h in
          run_then lost (run_last _ (drop_path-IsSound name _ lost.after))))

  refresh_paths-Sound :
      (paths : List (ℕ × ℕ)) (now : ℕ) (s : State)
      → IsSound s.peer
      → Runs Sound (refresh_paths paths now) s
  unfolding refresh_paths
  refresh_paths-Sound [] now s h = run_done h
  refresh_paths-Sound ((name, c) ∷ rest) now s h =
      let first = refresh_path-Sound name c now s h in
      run_then first (refresh_paths-Sound rest now _ first.after)

  pub refresh-Sound : (now : ℕ) (s : State) → IsSound s.peer → Runs Sound (refresh now) s
  unfolding refresh
  refresh-Sound now s h = run_peer _ (refresh_paths-Sound s.peer.paths now s h)
