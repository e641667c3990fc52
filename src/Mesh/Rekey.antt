-- ===== src/Mesh/Rekey.antt =====
-- The change of a preshared key in place (`coordinateRekey`, `applyRekey` and `advanceRekey` in
-- psk.go).
use wireguard_mesh.Prelude.{
  ℕ, ◌+◌, ◌*◌, ◌-◌, Bool, true, false, not, ◌&&◌, ◌||◌, Option, none, some, ◌∷◌, ltb, leb,
  if◌then◌else◌, ◌==◌,
}
use wireguard_mesh.Secure.State.{second}
use wireguard_mesh.Mesh.State.{
  MeshPeer, PskTransition, RekeyPhase, waiting, offer, prepared, observing, Message, Op,
  rekey_offer, rekey_ready, rekey_commit, rekey_applied, rekey_observed, rekey_finished, is_active,
}
use wireguard_mesh.Mesh.Monad.{
  Mesh, World, sent, rekeyed, M, pure, fail, ◌>>=◌, ◌>>◌, done, peer, modify, emit, ask, when,
  branch, Result,
}
use wireguard_mesh.Mesh.Command.{psk_proof, check_psk_proof}
use wireguard_mesh.Mesh.Restore.{restore}
use wireguard_mesh.Mesh.Psk.{poll_psk, leader}
use wireguard_mesh.Mesh.Apply.{preflight, timed_out}

abbrev pub rekey_observation_timeout : ℕ
rekey_observation_timeout = 150 * second

abbrev pub is_observing : RekeyPhase → Bool
is_observing observing = true
is_observing _ = false

abbrev pub is_rekey_prepared : RekeyPhase → Bool
is_rekey_prepared prepared = true
is_rekey_prepared _ = false

abbrev pub is_offer : RekeyPhase → Bool
is_offer offer = true
is_offer _ = false

abbrev pub is_waiting : RekeyPhase → Bool
is_waiting waiting = true
is_waiting _ = false

abbrev pub is_offer_op : Op → Bool
is_offer_op rekey_offer = true
is_offer_op _ = false

abbrev pub is_observed_op : Op → Bool
is_observed_op rekey_observed = true
is_observed_op _ = false

-- `p.selected == c`
abbrev pub is_selected : MeshPeer → ℕ → Bool
is_selected p c = elim p.route.selected [ none ↦ false | some d ↦ d == c ]

abbrev pub set_rekey : PskTransition → M (Unit {0})
set_rekey r = modify (λ p. record p { rekey = some r })

module _ (W : World) (m : Mesh) where
  unfoldable pub rekey_command : PskTransition → Op → M (Unit {0})
  rekey_command r op s = (
    Result.ok tt,
    record s {
      effects = elim s.peer.route.selected [
        | none ↦ s.effects
        | some c ↦
            let path = s.peer.cell c in
            let msg : Message = record {
              op = op;
              token = r.token;
              port = m.wg_port;
              proof = psk_proof W m r.key op r.token m.public s.peer.spec.key;
              rekey = false;
            } in
            sent path.session msg path.addr path.link ∷ s.effects
      ];
    },
  )

  -- the change on the device, where the last handshake could be read
  unfoldable pub change_device_key : PskTransition → Option ℕ → M (Option ℕ)
  change_device_key r none = pure none
  change_device_key r (some at) = do
    p ← peer
    rekeyed_ok ← ask W.rekey
    emit (rekeyed p.spec.key p.spec.psk r.key rekeyed_ok)
    pure (if rekeyed_ok then some at else none)

  -- the two calls of the controller
  unfoldable pub update_key : PskTransition → M (Option ℕ)
  update_key r = do handshake ← ask W.handshake; change_device_key r handshake

  -- the end of `applyRekey`, with the handshake time that the controller gave before the change
  unfoldable pub finish_update : PskTransition → Option ℕ → ℕ → M (Unit {0})
  finish_update r none now = restore W m now
  finish_update r (some at) now = do
    spent ← ask W.elapsed
    modify (λ q. record q {
      spec = record q.spec { psk = r.key };
      rekey = some (record r { phase = observing; applied_at = now + spent; handshake = at });
    })

  unfoldable pub apply_transition : Option PskTransition → ℕ → M (Unit {0})
  apply_transition none now = done
  apply_transition (some r) now =
      branch (not m.rekey_control) (restore W m now)
        (do updated ← update_key r; finish_update r updated now)

  unfoldable pub apply_rekey : ℕ → M (Unit {0})
  apply_rekey now = do
    preflight W m
    spent ← ask W.elapsed
    polled ← poll_psk W m (now + spent)
    p ← peer
    branch (not polled) done (apply_transition p.rekey now)

  -- an answer to a transition that is over on this side
  unfoldable pub answer_completed : MeshPeer → PskTransition → Message → ℕ → M (Unit {0})
  answer_completed p r msg now =
      when
        (is_observed_op msg.op
          && ltb (now - r.finished_at) rekey_observation_timeout
          && msg.token == r.token
          && check_psk_proof W m r.key msg p.spec.key m.public)
        (rekey_command r rekey_finished)

  -- the answer to "rekey-commit" once the key is changed here
  unfoldable pub confirm_applied : Option PskTransition → M (Unit {0})
  confirm_applied none = done
  confirm_applied (some r) =
      when (is_observing r.phase)
        (do set_rekey (record r { remote_applied = true }); rekey_command r rekey_applied)

  -- the switch on the operation; `r` is `p.rekey`, whose token is the message's
  unfoldable pub rekey_switch : Bool → PskTransition → Op → ℕ → M (Unit {0})
  rekey_switch lead r rekey_offer now =
      when (not lead && is_rekey_prepared r.phase) (rekey_command r rekey_ready)
  rekey_switch lead r rekey_ready now =
      when (lead && is_offer r.phase) (do rekey_command r rekey_commit; apply_rekey now)
  rekey_switch lead r rekey_commit now =
      when (not lead)
        (do when (is_rekey_prepared r.phase) (apply_rekey now); p ← peer; confirm_applied p.rekey)
  rekey_switch lead r rekey_applied now =
      when (is_observing r.phase) (set_rekey (record r { remote_applied = true }))
  rekey_switch lead r rekey_observed now =
      when (is_observing r.phase)
        (set_rekey (record r { remote_applied = true; remote_observed = now }))
  rekey_switch lead r rekey_finished now =
      when (is_observing r.phase)
        (set_rekey (record r { remote_applied = true; remote_observed = now }))
  rekey_switch lead r _ now = done

  -- the follower takes the token of the first offer
  unfoldable pub take_offer : Bool → PskTransition → Message → PskTransition
  take_offer lead r msg =
      if is_offer_op msg.op && not lead && is_waiting r.phase
      then record r { phase = prepared; token = msg.token }
      else r

  unfoldable pub on_completed : MeshPeer → Option PskTransition → Message → ℕ → M (Unit {0})
  on_completed p none msg now = done
  on_completed p (some r) msg now = answer_completed p r msg now

  -- `coordinateRekey` on the transition that stands once the key was read
  unfoldable pub on_transition : Option PskTransition → Message → ℕ → M (Unit {0})
  on_transition (some r) msg now = do
    p ← peer
    branch (not (check_psk_proof W m r.key msg p.spec.key m.public)) done (
        branch (not (is_observing r.phase) && timed_out m r.since now) (restore W m now) (do
          set_rekey (take_offer (leader m p) r msg)
          when (msg.token == (take_offer (leader m p) r msg).token)
              (rekey_switch (leader m p) (take_offer (leader m p) r msg) msg.op now)))
  on_transition none msg now = do p ← peer; on_completed p p.completed_rekey msg now

  unfoldable pub coordinate_rekey : ℕ → Message → ℕ → M (Unit {0})
  coordinate_rekey c msg now = do
    p ← peer
    branch
        (not p.spec.experimental_rekey
          || not p.route.remote_rekey
          || not (is_active p.route.phase)
          || not (is_selected p c))
        done
        (do
          polled ← poll_psk W m now
          q ← peer
          branch (not polled) done (on_transition q.rekey msg now))

  -- the end of `advanceRekey`: both sides have observed a handshake
  unfoldable pub complete_rekey : PskTransition → ℕ → MeshPeer → MeshPeer
  complete_rekey r now p =
      let until = now + rekey_observation_timeout in
      record p {
        rekey = none;
        completed_rekey = some (record r { finished_at = now });
        cooldown = if ltb p.cooldown until then until else p.cooldown;
        route = record p.route { remote_at = now };
      }

  -- a handshake that is later than the change, on this side and on the other
  unfoldable pub observe : PskTransition → Option ℕ → ℕ → M (Unit {0})
  observe r none now = fail
  observe r (some at) now = when (ltb r.handshake at && ltb r.applied_at at && not (ltb now at)) (do
    rekey_command r rekey_observed
    when (not (r.remote_observed == 0) && ltb (now - r.remote_observed) m.c.failure)
        (modify (complete_rekey r now)))

  -- the retry of a transition that waits for the other side
  unfoldable pub remind : PskTransition → M (Unit {0})
  remind r = do
    when (is_offer r.phase) (rekey_command r rekey_offer)
    when (is_rekey_prepared r.phase) (rekey_command r rekey_ready)

  unfoldable pub advance_rekey : PskTransition → ℕ → M (Unit {0})
  advance_rekey r now = do
    p ← peer
    branch (not (is_observing r.phase))
        (branch (timed_out m r.since now) (restore W m now) (remind r))
        (branch
          (leb rekey_observation_timeout (now - r.applied_at)
            || timed_out m p.route.last_tunnel now)
          (restore W m now)
          (do
            when (not r.remote_applied && leader m p) (rekey_command r rekey_commit)
            handshake ← ask W.handshake
            observe r handshake now))
