-- ===== src/Mesh/Advance.antt =====
-- The timer's step of a coordinated route (`advance` in mesh.go).
use wireguard_mesh.Prelude.{
  ℕ, ◌+◌, ◌*◌, ◌-◌, Bool, true, false, not, ◌&&◌, ◌||◌, Option, none, some, ltb, leb, if◌then◌else◌,
  ◌==◌,
}
use wireguard_mesh.Secure.State.{second}
use wireguard_mesh.Mesh.State.{
  MeshPeer, RouteState, RouteProposal, PskTransition, Phase, idle, prepare, prepared, trial, active,
  Op, is_prepare, is_trial,
}
use wireguard_mesh.Mesh.Monad.{
  Mesh, World, M, ◌>>=◌, ◌>>◌, done, peer, modify, modify_route, when, branch,
}
use wireguard_mesh.Mesh.Measure.{fresh, median, improves}
use wireguard_mesh.Mesh.Command.{
  path_command, command, cancel_replacement, retire_token, previous_trial,
}
use wireguard_mesh.Mesh.Restore.{restore}
use wireguard_mesh.Mesh.Psk.{leader}
use wireguard_mesh.Mesh.Apply.{rollback, timed_out, fresh_path}
use wireguard_mesh.Mesh.Rekey.{advance_rekey}

-- the last sign of life through the tunnel, or what stands in for it
unfoldable pub last_sign : RouteState → ℕ
last_sign r =
    let last = if r.last_tunnel == 0 then r.since else r.last_tunnel in
    if ltb last r.resumed then r.resumed else last

-- all that makes a trial an active route
unfoldable pub confirmed : Mesh → RouteState → ℕ → Bool
confirmed m r now =
    r.local_good && r.remote_good && ltb (now - r.remote_at) m.c.failure && r.committed

unfoldable pub activate : Mesh → ℕ → MeshPeer → MeshPeer
activate m now p = record (retire_token (previous_trial p) now p) {
  previous = none;
  route = record p.route { phase = active };
  cooldown = now + m.c.cooldown;
}

-- what the measurements of a trial decide
pub data Verdict : Type 0 where
  good undecided bad : Verdict

unfoldable pub judge : Mesh → RouteState → ℕ → Verdict
judge m r now = elim (median r.tunnel now m.c) [
  | some rtt ↦ if improves rtt r.baseline m.c then good else bad
  | none ↦ if leb m.c.window (now - r.since) then bad else undecided
]

abbrev pub set_local_good : Bool → M (Unit {0})
set_local_good b = modify_route (λ r. record r { local_good = b })

module _ (W : World) (m : Mesh) where
  -- "keep" or "hold", by the local measurement
  unfoldable pub report : M (Unit {0})
  report = do p ← peer; branch p.route.local_good (command W m Op.keep) (command W m Op.hold)

  -- the step of a replacement that is not yet applied
  unfoldable pub advance_proposal : Option RouteProposal → ℕ → M (Unit {0})
  advance_proposal none now = done
  advance_proposal (some r) now = do
    p ← peer
    branch (not (fresh (p.cell r.path) now m.c) || timed_out m r.since now)
        (cancel_replacement W m now)
        (path_command W m (some r.path) r.token
          (if is_prepare r.phase then Op.prepare else Op.ready))

  unfoldable pub advance_replacement : ℕ → M (Unit {0})
  advance_replacement now = do p ← peer; advance_proposal p.replacement now

  unfoldable pub advance_waiting : ℕ → M (Unit {0})
  advance_waiting now = do
    p ← peer
    branch (timed_out m p.route.since now) (restore W m now) (do
      command W m (if is_prepare p.route.phase then Op.prepare else Op.ready)
      advance_replacement now)

  -- a trial that goes on: too long, confirmed, or neither
  unfoldable pub advance_trial : ℕ → M (Unit {0})
  advance_trial now = do
    p ← peer
    branch (ltb (120 * second) (now - p.route.since)) (rollback W m now) (do
      when (confirmed m p.route now) (modify (activate m now))
      report
      advance_replacement now)

  unfoldable pub advance_judged : Verdict → ℕ → M (Unit {0})
  advance_judged bad now = rollback W m now
  advance_judged good now = set_local_good true >> advance_trial now
  advance_judged undecided now = advance_trial now

  unfoldable pub advance_measured : ℕ → M (Unit {0})
  advance_measured now = do
    p ← peer
    branch (not (is_trial p.route.phase)) (report >> advance_replacement now)
        (set_local_good false >> advance_judged (judge m p.route now) now)

  unfoldable pub advance_running : ℕ → M (Unit {0})
  advance_running now = do
    p ← peer
    branch (timed_out m (last_sign p.route) now) (rollback W m now) (do
      when (not p.route.committed && leader m p) (command W m Op.commit)
      advance_measured now)

  unfoldable pub advance_phase : Option PskTransition → Phase → ℕ → M (Unit {0})
  advance_phase (some r) _ now = advance_rekey W m r now
  advance_phase none prepare now = advance_waiting now
  advance_phase none prepared now = advance_waiting now
  advance_phase none trial now = advance_running now
  advance_phase none active now = advance_running now
  advance_phase none idle now = advance_replacement now

  unfoldable pub advance : ℕ → M (Unit {0})
  advance now = do
    p ← peer
    branch (not (fresh_path m p p.route.selected now)) (rollback W m now)
        (advance_phase p.rekey p.route.phase now)
