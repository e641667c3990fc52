-- ===== src/Mesh/Propose.antt =====
-- The part of `tick` in mesh.go that follows the probes of a peer: its route goes on, and the
-- leader of the pair proposes the best path.
use wireguard_mesh.Prelude.{
  ℕ, ◌+◌, Bool, false, not, ◌&&◌, Option, none, some, List, [], ◌∷◌, is_none, ltb, if◌then◌else◌,
}
use wireguard_mesh.Mesh.State.{MeshPeer, prepare, Op, is_idle, is_active}
use wireguard_mesh.Mesh.Monad.{Mesh, World, M, ◌>>=◌, ◌>>◌, done, peer, modify, ask, when, branch}
use wireguard_mesh.Mesh.Measure.{median}
use wireguard_mesh.Mesh.Command.{path_command}
use wireguard_mesh.Mesh.Rekey.{is_selected}
use wireguard_mesh.Mesh.Coordinate.{qualified}
use wireguard_mesh.Mesh.Advance.{advance}

-- a path, its round-trip time and the baseline
pub record Best : Type 0 where
  pub path : ℕ
  pub rtt : ℕ
  pub base : ℕ

abbrev median_or_zero : Option ℕ → ℕ
median_or_zero none = 0
median_or_zero (some rtt) = rtt

abbrev faster : Option Best → Best → Option Best
faster none b = some b
faster (some a) b = if ltb b.rtt a.rtt then some b else some a

unfoldable pub consider : Mesh → MeshPeer → ℕ → ℕ → Option Best → Option Best
consider m p now c best = if is_selected p c then best else elim (qualified m p c now) [
  | none ↦ best
  | some base ↦
      faster best
        (record { path = c; rtt = median_or_zero (median (p.cell c).stats now m.c); base = base })
]

unfoldable pub best_of : Mesh → MeshPeer → ℕ → List (ℕ × ℕ) → Option Best → Option Best
best_of m p now [] best = best
best_of m p now ((_, c) ∷ rest) best = best_of m p now rest (consider m p now c best)

-- what holds a proposal back
abbrev pub may_propose : Mesh → MeshPeer → Bool → ℕ → Bool
may_propose m p psk_ok now =
    psk_ok
    && is_none p.rekey
    && is_none p.replacement
    && not (ltb now p.cooldown)
    && ltb m.public p.spec.key

-- a new coordination, or the replacement of an active route
unfoldable pub propose_path : Best → ℕ → ℕ → MeshPeer → MeshPeer
propose_path b token now p =
    if is_active p.route.phase
    then record p {
      replacement = some (record {
        path = b.path;
        phase = prepare;
        token = token;
        since = now;
        baseline = b.base;
        remote_rekey = false;
      });
    }
    else record p {
      route = record p.route {
        selected = some b.path;
        phase = prepare;
        trial = token;
        since = now;
        baseline = b.base;
        local_good = false;
        remote_good = false;
        committed = false;
      };
    }

module _ (W : World) (m : Mesh) where
  unfoldable pub offer_best : Option Best → ℕ → M (Unit {0})
  offer_best none now = done
  offer_best (some b) now =
      branch m.dry (modify (λ p. record p { cooldown = now + m.c.cooldown })) (do
        token ← ask W.random_text
        modify (propose_path b token now)
        path_command W m (some b.path) token Op.prepare)

  unfoldable pub propose : Bool → ℕ → M (Unit {0})
  propose psk_ok now = do
    p ← peer
    when (may_propose m p psk_ok now) (offer_best (best_of m p now p.paths none) now)

  unfoldable pub settle : Bool → ℕ → M (Unit {0})
  settle psk_ok now = do
    p ← peer
    branch (is_idle p.route.phase) (propose psk_ok now)
        (do advance W m now; q ← peer; when (is_active q.route.phase) (propose psk_ok now))
