-- ===== src/Mesh/Psk.antt =====
-- The preshared key of a peer, read before each step that depends on it (`readPeerPSK` and
-- `pollPSK` in psk.go). Reading the file itself is the operating system's part.
use wireguard_mesh.Prelude.{
  ℕ, ◌+◌, ◌*◌, Bool, true, false, not, ◌&&◌, ◌||◌, Option, none, some, List, [], ◌∷◌, is_some,
  is_none, ltb, if◌then◌else◌, ◌==◌, contains,
}
use wireguard_mesh.Secure.State.{second}
use wireguard_mesh.Mesh.State.{
  MeshPeer, PskTransition, waiting, offer, RosenpassResponse, no_response, Message,
  rosenpass_select, is_active, is_idle,
}
use wireguard_mesh.Mesh.Monad.{
  Mesh, World, sent, queried, M, pure, ◌>>=◌, ◌>>◌, done, peer, modify, emit, ask, when, branch,
}
use wireguard_mesh.Mesh.Measure.{fresh}
use wireguard_mesh.Mesh.Command.{cancel_replacement, retire_token, previous_trial}
use wireguard_mesh.Mesh.Restore.{restore}

-- `before != after` on two responses
unfoldable pub same_response : RosenpassResponse → RosenpassResponse → Bool
same_response a b =
    a.instance_name == b.instance_name
    && a.generation == b.generation
    && a.key_generation == b.key_generation
    && a.hash == b.hash
    && a.expires == b.expires
    && (if a.valid then b.valid else not b.valid)

-- `p.pskStatus` was valid, and the adapter has restarted since
abbrev pub restarted : MeshPeer → RosenpassResponse → Bool
restarted p status =
    p.psk_status.valid
    && (not (status.instance_name == p.psk_status.instance_name)
        || not (status.generation == p.psk_status.generation))

abbrev pub leader : Mesh → MeshPeer → Bool
leader m p = ltb m.public p.spec.key

-- the fallback route is given up
unfoldable pub drop_previous : ℕ → MeshPeer → MeshPeer
drop_previous now p = record (retire_token (previous_trial p) now p) { previous = none }

unfoldable pub new_transition : Mesh → ℕ → ℕ → ℕ → MeshPeer → MeshPeer
new_transition m key token now p = record p {
  rekey = some (record {
    key = key;
    phase = if leader m p then offer else waiting;
    token = token;
    since = now;
    applied_at = 0;
    handshake = 0;
    finished_at = 0;
    remote_applied = false;
    remote_observed = 0;
  });
}

-- the key that a started transition waits for
abbrev pub is_rekey_key : Option PskTransition → ℕ → Bool
is_rekey_key none key = false
is_rekey_key (some r) key = key == r.key

-- the key is the one in use, and no transition to another is going on
unfoldable pub is_settled : Bool → MeshPeer → ℕ → Bool
is_settled steady p key =
    steady && key == p.spec.psk && (is_none p.rekey || is_rekey_key p.rekey key)

-- both sides can change the key of this route in place
unfoldable pub may_rekey : Bool → MeshPeer → Bool
may_rekey steady p =
    steady && is_active p.route.phase && p.spec.experimental_rekey && p.route.remote_rekey

module _ (W : World) (m : Mesh) where
  -- the closure `fresh` of `readPeerPSK`
  unfoldable pub usable : MeshPeer → ℕ → ℕ → Bool
  usable p now c = contains m.links (p.cell c).link && fresh (p.cell c) now m.c

  -- the fresh path with the least name
  unfoldable pub best_path : MeshPeer → ℕ → List (ℕ × ℕ) → Option ℕ → Option ℕ
  best_path p now [] best = best
  best_path p now ((_, c) ∷ rest) best = best_path p now rest (
      if usable p now c && elim best [
        | none ↦ true
        | some b ↦
            ltb (W.path_name (p.cell c).link (p.cell c).addr)
              (W.path_name (p.cell b).link (p.cell b).addr)
      ]
      then some c
      else best)

  -- the choice of the path that the adapter is told of
  unfoldable pub choose_path : ℕ → M (Unit {0})
  choose_path now = do
    p ← peer
    branch (elim p.rosenpass_path [ none ↦ false | some c ↦ usable p now c ]) done
        (branch (leader m p)
          (do
            token ← ask W.random_text
            modify (λ q. record q {
              rosenpass_path = best_path p now p.paths none;
              rosenpass_token = token;
            }))
          (modify (λ q. record q { rosenpass_path = none })))

  -- the message by which the leader tells the follower of the path
  unfoldable pub announce_path : M (Unit {0})
  announce_path s = elim s.peer.rosenpass_path [
    | none ↦ done s
    | some c ↦
        let path = s.peer.cell c in
        let msg : Message = record {
          op = rosenpass_select;
          token = s.peer.rosenpass_token;
          port = m.wg_port;
          proof = 0;
          rekey = false;
        } in
        when (leader m s.peer) (emit (sent path.session msg path.addr path.link)) s
  ]

  -- one query of the adapter, whose answer must be valid and not expired
  unfoldable pub query : ℕ → M (Option RosenpassResponse)
  query now = do
    p ← peer
    emit (queried p.rosenpass_path)
    answer ← ask W.rosenpass
    spent ← ask W.elapsed
    pure (elim answer [
      | none ↦ none
      | some status ↦ if status.valid && ltb (now + spent) status.expires then some status else none
    ])

  -- the key file between two equal answers of the adapter
  unfoldable pub confirmed_key : ℕ → M (Option (ℕ × RosenpassResponse))
  confirmed_key now = do
    before ← query now
    elim before [
      | none ↦ pure none
      | some first ↦ do
        spent ← ask W.elapsed
        key ← ask (λ i. W.read_psk_file i (now + spent))
        elim key [
          | none ↦ pure none
          | some k ↦ branch (not (W.sha256 k == first.hash)) (pure none) (do
            after ← query now
            pure (elim after [
              | none ↦ none
              | some second ↦ if same_response first second then some (k, second) else none
            ]))
        ]
    ]

  -- `readPeerPSK`: none is its error
  unfoldable pub read_peer_psk : ℕ → M (Option (ℕ × RosenpassResponse))
  read_peer_psk now = do
    p ← peer
    branch (not p.spec.rosenpass_socket)
        (do
          key ← ask (λ i. W.read_psk_file i now)
          pure (elim key [ none ↦ none | some k ↦ some (k, no_response) ]))
        (branch m.dry (pure none) (do
          choose_path now
          q ← peer
          branch (is_none q.rosenpass_path && is_none p.rosenpass_path) (pure none)
              (do announce_path; confirmed_key now)))

  -- The key changes or is gone: the direct route ends, and only then is the new key taken.
  unfoldable pub replace_key : Option (ℕ × RosenpassResponse) → ℕ → M Bool
  replace_key found now = do
    p ← peer
    when (is_some p.route.selected || not (is_idle p.route.phase)) (restore W m now)
    modify (λ q. elim found [
      | none ↦ record q {
        spec = record q.spec { psk = 0 };
        psk_valid = false;
        psk_status = no_response;
      }
      | some (key, status) ↦ record q {
        spec = record q.spec { psk = key };
        psk_valid = true;
        psk_status = status;
      }
    ])
    pure (is_some found)

  -- A new key on an active route, which both sides may change in place.
  unfoldable pub begin_rekey : ℕ → ℕ → M (Unit {0})
  begin_rekey key now = do
    p ← peer
    branch (is_some p.rekey) done (do
      cancel_replacement W m now
      token ← ask W.random_text
      modify (new_transition m key token now))

  -- a key that differs, or that comes after a restart of the adapter
  unfoldable pub change_key : Bool → ℕ → RosenpassResponse → ℕ → M Bool
  change_key steady key status now = do
    p ← peer
    branch (may_rekey steady p)
        (do
          begin_rekey key now
          q ← peer
          branch (is_rekey_key q.rekey key)
              (modify (λ t. record t { psk_status = status }) >> pure true)
              (replace_key (some (key, status)) now))
        (replace_key (some (key, status)) now)

  unfoldable pub poll_valid : ℕ → RosenpassResponse → ℕ → M Bool
  poll_valid key status now = do
    p ← peer
    let steady = not (restarted p status) && p.psk_valid
    branch (is_settled steady p key) (modify (λ q. record q { psk_status = status }) >> pure true)
        (modify (drop_previous now) >> change_key steady key status now)

  -- the part of `pollPSK` behind the reading
  unfoldable pub poll_read : Option (ℕ × RosenpassResponse) → ℕ → M Bool
  poll_read found now = elim found [
    | some (key, status) ↦ poll_valid key status now
    | none ↦ do
      modify (λ q. record q {
        psk_log_after = if ltb now q.psk_log_after then q.psk_log_after else now + 60 * second;
      })
      modify (drop_previous now)
      replace_key none now
  ]

  unfoldable pub poll_psk : ℕ → M Bool
  poll_psk now = do
    p ← peer
    branch (not p.spec.preshared_key_file) (pure true)
        (do found ← read_peer_psk now; spent ← ask W.elapsed; poll_read found (now + spent))
