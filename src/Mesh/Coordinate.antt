-- ===== src/Mesh/Coordinate.antt =====
-- The handling of a peer's commands (`qualified` and `coordinate` in mesh.go).
use wireguard_mesh.Prelude.{
  ℕ, ◌+◌, Bool, true, false, not, ◌&&◌, ◌||◌, Option, none, some, is_none, ltb, if◌then◌else◌, ◌==◌,
}
use wireguard_mesh.Mesh.State.{
  MeshPeer, RouteState, RouteProposal, Phase, prepared, Message, Op, is_idle, is_prepare,
  is_prepared, is_trial, is_active, is6, is_link_local_unicast,
}
use wireguard_mesh.Mesh.Monad.{
  Mesh, World, M, ◌>>=◌, ◌>>◌, done, peer, modify, modify_route, ask, when, branch,
}
use wireguard_mesh.Mesh.Measure.{fresh, median, improves}
use wireguard_mesh.Mesh.Command.{
  path_command, command, cancel_replacement, check_psk_proof, retire, is_retired,
  retired_token_lifetime,
}
use wireguard_mesh.Mesh.Psk.{poll_psk}
use wireguard_mesh.Mesh.Apply.{apply, rollback, timed_out}
use wireguard_mesh.Mesh.Rekey.{coordinate_rekey, is_selected}

abbrev pub is_rekey_op : Op → Bool
is_rekey_op Op.rekey_offer = true
is_rekey_op Op.rekey_ready = true
is_rekey_op Op.rekey_commit = true
is_rekey_op Op.rekey_applied = true
is_rekey_op Op.rekey_observed = true
is_rekey_op Op.rekey_finished = true
is_rekey_op (Op.rekey_other _) = true
is_rekey_op _ = false

abbrev pub is_prepare_op : Op → Bool
is_prepare_op Op.prepare = true
is_prepare_op _ = false

-- "prepare", "ready" and "commit" prove the key
abbrev pub is_proved_op : Op → Bool
is_proved_op Op.prepare = true
is_proved_op Op.ready = true
is_proved_op Op.commit = true
is_proved_op _ = false

-- The follower of a pair is the node with the larger key.
abbrev pub follower : Mesh → MeshPeer → Bool
follower m p = ltb p.spec.key m.public

-- `qualified`: the baseline, where the path is better than what is used now. With no selected path
-- an active route cannot be measured.
unfoldable pub qualified : Mesh → MeshPeer → ℕ → ℕ → Option ℕ
qualified m p c now =
    let path = p.cell c in
    if is6 path.addr.addr && is_link_local_unicast path.addr.addr
    then none
    else elim (median p.route.tunnel now m.c) [
      | none ↦ none
      | some base ↦ elim (median path.stats now m.c) [
        | none ↦ none
        | some lan ↦
            let compared : Option ℕ =
              if is_active p.route.phase
              then elim p.route.selected [ none ↦ none | some d ↦ median (p.cell d).stats now m.c ]
              else some base in
            elim compared [
              | none ↦ none
              | some rtt ↦ if fresh path now m.c && improves lan rtt m.c then some base else none
            ]
      ]
    ]

-- the guard on a proposal of the peer
abbrev pub may_prepare : Mesh → MeshPeer → ℕ → Message → ℕ → Bool
may_prepare m p c msg now =
    is_prepare_op msg.op
    && is_none p.rekey
    && is_none p.replacement
    && (is_idle p.route.phase || is_active p.route.phase && not (is_selected p c))
    && not (ltb now p.cooldown)
    && follower m p

-- the proposal that a follower accepts
unfoldable pub accept_proposal : ℕ → Message → ℕ → ℕ → MeshPeer → MeshPeer
accept_proposal c msg now base p =
    if is_active p.route.phase
    then record p {
      replacement = some (record {
        path = c;
        phase = prepared;
        token = msg.token;
        since = now;
        baseline = base;
        remote_rekey = msg.rekey;
      });
    }
    else record p {
      route = record p.route {
        selected = some c;
        phase = prepared;
        trial = msg.token;
        since = now;
        baseline = base;
        local_good = false;
        remote_good = false;
        committed = false;
        remote_rekey = msg.rekey;
      };
    }

-- the replacement that this message is about
abbrev pub about_replacement : MeshPeer → ℕ → ℕ → Option RouteProposal
about_replacement p c token = elim p.replacement [
  | none ↦ none
  | some r ↦ if r.path == c && r.token == token then some r else none
]

-- the route before the trial, where this message is about it
abbrev pub about_previous : MeshPeer → ℕ → ℕ → Option RouteState
about_previous p c token = elim p.previous [
  | none ↦ none
  | some old ↦
      if (elim old.selected [ none ↦ false | some d ↦ d == c ]) && old.trial == token
      then some old
      else none
]

-- the selected route is the one that this message is about
abbrev pub about_route : MeshPeer → ℕ → ℕ → Bool
about_route p c token = is_selected p c && p.route.trial == token

module _ (W : World) (m : Mesh) where
  unfoldable pub answer_qualified : Option ℕ → ℕ → Message → ℕ → M (Unit {0})
  answer_qualified none c msg now = retire msg.token now
  answer_qualified (some base) c msg now = do
    modify (accept_proposal c msg now base)
    path_command W m (some c) msg.token Op.ready

  unfoldable pub answer_prepare : ℕ → Message → ℕ → M (Unit {0})
  answer_prepare c msg now = do p ← peer; answer_qualified (qualified m p c now) c msg now

  unfoldable pub replacement_commit : ℕ → Message → ℕ → M (Unit {0})
  replacement_commit c msg now = do
    apply W m now
    p ← peer
    when (about_route p c msg.token)
        (do modify_route (λ r. record r { committed = true }); command W m Op.committed)

  unfoldable pub replacement_switch : RouteProposal → Op → ℕ → Message → ℕ → M (Unit {0})
  replacement_switch r Op.prepare c msg now =
      when (is_prepared r.phase) (path_command W m (some c) r.token Op.ready)
  replacement_switch r Op.ready c msg now = when (is_prepare r.phase) (do
    modify (λ q. record q { replacement = some (record r { remote_rekey = msg.rekey }) })
    apply W m now)
  replacement_switch r Op.commit c msg now =
      when (is_prepared r.phase) (replacement_commit c msg now)
  replacement_switch r Op.abort c msg now = cancel_replacement W m now
  replacement_switch r _ c msg now = done

  unfoldable pub on_replacement : RouteProposal → ℕ → Message → ℕ → M (Unit {0})
  on_replacement r c msg now = do
    p ← peer
    branch (not (fresh (p.cell c) now m.c) || timed_out m r.since now) (cancel_replacement W m now)
        (replacement_switch r msg.op c msg now)

  unfoldable pub on_previous : RouteState → Op → ℕ → M (Unit {0})
  on_previous old Op.abort now = retire old.trial now >> modify (λ p. record p { previous = none })
  on_previous old Op.keep now =
      modify
        (λ p. record p { previous = some (record old { remote_good = true; remote_at = now }) })
  on_previous old Op.hold now =
      modify (λ p. record p { previous = some (record old { remote_good = false }) })
  on_previous old _ now = done

  unfoldable pub on_commit : ℕ → M (Unit {0})
  on_commit now = do
    p ← peer
    when (is_prepared p.route.phase) (apply W m now)
    q ← peer
    when (is_trial q.route.phase || is_active q.route.phase)
        (do modify_route (λ r. record r { committed = true }); command W m Op.committed)

  unfoldable pub on_route : Phase → Op → Message → ℕ → M (Unit {0})
  on_route phase Op.prepare msg now = when (is_prepared phase) (command W m Op.ready)
  on_route phase Op.ready msg now =
      when (is_prepare phase)
        (do modify_route (λ r. record r { remote_rekey = msg.rekey }); apply W m now)
  on_route phase Op.commit msg now = on_commit now
  on_route phase Op.committed msg now = modify_route (λ r. record r { committed = true })
  on_route phase Op.keep msg now =
      when (is_trial phase || is_active phase)
        (modify_route (λ r. record r { remote_good = true; remote_at = now }))
  on_route phase Op.hold msg now = modify_route (λ r. record r { remote_good = false })
  on_route phase Op.abort msg now = rollback W m now
  on_route phase _ msg now = done

  -- a message about the replacement, about the route before the trial, or about the route
  unfoldable pub coordinate_about :
      Option RouteProposal → Option RouteState → ℕ → Message → ℕ → M (Unit {0})
  coordinate_about (some r) old c msg now = on_replacement r c msg now
  coordinate_about none (some old) c msg now = on_previous old msg.op now
  coordinate_about none none c msg now = do
    p ← peer
    branch (about_route p c msg.token) (on_route p.route.phase msg.op msg now)
        (when (is_prepare_op msg.op) (retire msg.token now))

  -- what is left once the key is proved
  unfoldable pub coordinate_proved : ℕ → Message → ℕ → M (Unit {0})
  coordinate_proved c msg now = do
    p ← peer
    branch (may_prepare m p c msg now) (answer_prepare c msg now) (
        coordinate_about (about_replacement p c msg.token) (about_previous p c msg.token) c msg now)

  -- the key, read anew, and the proof of it
  unfoldable pub coordinate_proof : ℕ → Message → ℕ → M (Unit {0})
  coordinate_proof c msg received_at =
      branch (not (is_proved_op msg.op)) (coordinate_proved c msg received_at) (do
        polled ← poll_psk W m received_at
        branch (not polled) done (do
          spent ← ask W.elapsed
          p ← peer
          branch (not (check_psk_proof W m p.spec.psk msg p.spec.key m.public)) done
              (coordinate_proved c msg (received_at + spent))))

  unfoldable pub coordinate_switch : Op → ℕ → Message → ℕ → M (Unit {0})
  coordinate_switch Op.rosenpass_select c msg now = do
    p ← peer
    when (p.spec.rosenpass_socket && follower m p)
        (modify (λ q. record q { rosenpass_path = some c; rosenpass_token = msg.token }))
  coordinate_switch Op.prepare c msg now = do
    p ← peer
    branch (ltb now p.retired_until)
        (modify (λ q. record q { retired_until = now + retired_token_lifetime }))
        (branch (is_retired p msg.token now) done (coordinate_proof c msg now))
  coordinate_switch _ c msg now =
      branch (is_rekey_op msg.op) (coordinate_rekey W m c msg now) (coordinate_proof c msg now)

  unfoldable pub coordinate : ℕ → Message → ℕ → M (Unit {0})
  coordinate c msg now = branch m.dry done (coordinate_switch msg.op c msg now)
