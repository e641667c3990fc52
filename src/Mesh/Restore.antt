-- ===== src/Mesh/Restore.antt =====
-- The return to the stable route (`restore` in mesh.go).
use wireguard_mesh.Prelude.{ℕ, ◌+◌, false, none, []}
use wireguard_mesh.Mesh.State.{MeshPeer, idle, abort, no_measurements}
use wireguard_mesh.Mesh.Monad.{
  Mesh, World, restored, M, ◌>>=◌, ◌>>◌, done, peer, modify, emit, ask, branch, fail,
}
use wireguard_mesh.Mesh.Command.{command, cancel_replacement, retire_token, previous_trial}

-- what `restore` leaves once the controller has restored the stable route
unfoldable pub forget_route : Mesh → ℕ → MeshPeer → MeshPeer
forget_route m now p₀ =
    let p = retire_token p₀.route.trial now p₀ in
    let q = retire_token (previous_trial p) now p in
    record q {
      previous = none;
      route = record q.route {
        selected = none;
        phase = idle;
        trial = 0;
        local_good = false;
        remote_good = false;
        committed = false;
        remote_rekey = false;
        tunnel = no_measurements now;
        last_tunnel = 0;
      };
      rekey = none;
      completed_rekey = none;
      cooldown = now + m.c.cooldown;
      pending = [];
    }

module _ (W : World) (m : Mesh) where
  unfoldable pub restore_route : M (Unit {0})
  restore_route = do
    p ← peer
    restored_ok ← ask W.restore
    emit (restored p.spec.key restored_ok)
    branch restored_ok done fail

  unfoldable pub restore : ℕ → M (Unit {0})
  restore now = do
    cancel_replacement W m now
    command W m abort
    restore_route
    modify (forget_route m now)
