-- ===== src/Mesh/Apply.antt =====
-- The change of the WireGuard endpoint, and the way back from it (`apply` and `rollback`, mesh.go).
use wireguard_mesh.Prelude.{
  ℕ, ◌+◌, ◌-◌, Bool, false, not, ◌||◌, Option, none, some, [], is_none, leb, contains,
}
use wireguard_mesh.Mesh.State.{
  MeshPeer, RouteState, RouteProposal, trial, commit, abort, is_prepare, no_measurements,
}
use wireguard_mesh.Mesh.Monad.{
  Mesh, World, applied, M, pure, fail, ◌>>=◌, ◌>>◌, done, peer, modify, emit, ask, when, branch,
}
use wireguard_mesh.Mesh.Measure.{fresh}
use wireguard_mesh.Mesh.Command.{path_command, command, cancel_replacement, retire_token}
use wireguard_mesh.Mesh.Restore.{restore}
use wireguard_mesh.Mesh.Psk.{poll_psk}

-- a path that is nil is not fresh: `fresh(p.selected, …)` is called on a selected path only
abbrev pub fresh_path : Mesh → MeshPeer → Option ℕ → ℕ → Bool
fresh_path m p none now = false
fresh_path m p (some c) now = fresh (p.cell c) now m.c

-- `checkedAt.Sub(r.since) >= Failure`
abbrev pub timed_out : Mesh → ℕ → ℕ → Bool
timed_out m since now = leb m.c.failure (now - since)

-- the state after the endpoint is set: a trial, with the old route behind it if one was replaced
unfoldable pub begin_trial : Option RouteProposal → ℕ → MeshPeer → MeshPeer
begin_trial proposal now p₀ =
    let p : MeshPeer = elim proposal [
      | none ↦ p₀
      | some r ↦ record p₀ {
        previous = some p₀.route;
        route = record p₀.route {
          selected = some r.path;
          trial = r.token;
          baseline = r.baseline;
          remote_rekey = r.remote_rekey;
          local_good = false;
          remote_good = false;
          committed = false;
        };
        replacement = none;
      }
    ] in
    record p {
      route = record p.route {
        phase = trial;
        since = now;
        resumed = 0;
        tunnel = no_measurements now;
        last_tunnel = 0;
      };
      pending = [];
    }

-- the state after the old endpoint is set again
unfoldable pub resume_previous : Mesh → RouteState → ℕ → MeshPeer → MeshPeer
resume_previous m old now p₀ =
    let p = retire_token p₀.route.trial now p₀ in
    record p {
      route = record old { resumed = now };
      previous = none;
      cooldown = now + m.c.cooldown;
      pending = [];
    }

-- `leader` in `apply`: this node sent the "prepare"
abbrev pub leads_apply : MeshPeer → Bool
leads_apply p =
    is_prepare p.route.phase || (elim p.replacement [ none ↦ false | some r ↦ is_prepare r.phase ])

module _ (W : World) (m : Mesh) where
  -- `m.control.Apply` with the address of the path and the port that its peer gave
  unfoldable pub set_endpoint : ℕ → M Bool
  set_endpoint c = do
    p ← peer
    applied_ok ← ask W.apply
    let path = p.cell c
    emit (
        applied p.spec.key p.spec.ip p.spec.psk (record { addr = path.addr.addr; port = path.port })
          applied_ok)
    pure applied_ok

  unfoldable pub preflight : M (Unit {0})
  preflight = do verified ← ask W.verify; branch verified done fail

  -- the end of `apply`, once the path and the token are chosen
  unfoldable pub switch : Bool → Option RouteProposal → ℕ → ℕ → ℕ → M (Unit {0})
  switch is_leader proposal c token now = do
    applied_ok ← set_endpoint c
    spent ← ask W.elapsed
    branch applied_ok
        (do modify (begin_trial proposal (now + spent)); when is_leader (command W m commit))
        (path_command W m (some c) token abort >> fail)

  -- `apply` of a replacement
  unfoldable pub apply_replacement : Bool → RouteProposal → ℕ → ℕ → M (Unit {0})
  apply_replacement is_leader r checked now = do
    p ← peer
    branch (is_none p.replacement) done (
        branch (not (fresh (p.cell r.path) checked m.c) || timed_out m r.since checked)
          (cancel_replacement W m checked)
          (branch (not (fresh_path m p p.route.selected checked)) (restore W m checked) (
            branch (timed_out m p.route.last_tunnel checked) (restore W m checked)
              (switch is_leader (some r) r.path r.token now))))

  -- `apply` of the first route, on the path that is selected after the key was read
  unfoldable pub apply_first : Bool → Option ℕ → ℕ → ℕ → M (Unit {0})
  apply_first is_leader none checked now = done
  apply_first is_leader (some c) checked now = do
    p ← peer
    branch (not (fresh (p.cell c) checked m.c) || timed_out m p.route.since checked)
        (restore W m checked) (switch is_leader none c p.route.trial now)

  -- the part of `apply` behind the reading of the key
  unfoldable pub apply_checked : Bool → Option RouteProposal → ℕ → ℕ → M (Unit {0})
  apply_checked is_leader (some r) checked now = apply_replacement is_leader r checked now
  apply_checked is_leader none checked now = do
    p ← peer
    apply_first is_leader p.route.selected checked now

  unfoldable pub apply : ℕ → M (Unit {0})
  apply now = do
    p ← peer
    preflight
    spent ← ask W.elapsed
    polled ← poll_psk W m (now + spent)
    branch (not polled) done
        (do spent ← ask W.elapsed; apply_checked (leads_apply p) p.replacement (now + spent) now)

  -- the end of `rollback`: an owned peer changes its endpoint only
  unfoldable pub reset_endpoint : RouteState → ℕ → ℕ → M (Unit {0})
  reset_endpoint old c received_at = do
    applied_ok ← set_endpoint c
    spent ← ask W.elapsed
    branch applied_ok (do command W m abort; modify (resume_previous m old (received_at + spent)))
        fail

  -- `rollback` to the path of the old route, if it is usable; a route that was active has one
  unfoldable pub rollback_path : RouteState → Option ℕ → ℕ → ℕ → M (Unit {0})
  rollback_path old none now received_at = restore W m now
  rollback_path old (some c) now received_at = do
    p ← peer
    branch (not (contains m.links (p.cell c).link) || not (fresh (p.cell c) now m.c))
        (restore W m now) (reset_endpoint old c received_at)

  unfoldable pub rollback_previous : RouteState → ℕ → M (Unit {0})
  rollback_previous old received_at = do
    preflight
    spent ← ask W.elapsed
    polled ← poll_psk W m (received_at + spent)
    p ← peer
    branch (not polled || is_none p.previous) done
        (do spent ← ask W.elapsed; rollback_path old old.selected (received_at + spent) received_at)

  unfoldable pub rollback_route : Option RouteState → ℕ → M (Unit {0})
  rollback_route none now = restore W m now
  rollback_route (some old) now = rollback_previous old now

  unfoldable pub rollback : ℕ → M (Unit {0})
  rollback now = do p ← peer; rollback_route p.previous now
