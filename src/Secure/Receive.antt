-- ===== src/Secure/Receive.antt =====
-- The handling of an inner packet (`receive` in secure.go).
use wireguard_mesh.Prelude.{
  ℕ, ◌+◌, ◌*◌, Bool, true, false, not, ◌&&◌, ◌||◌, Option, none, some, [], ◌++◌, length, take, drop,
  lookup, insert, is_some, ltb, leb, if◌then◌else◌, ◌==◌,
}
use wireguard_mesh.Prelude.Bytes.{Bytes}
use wireguard_mesh.Secure.State.{
  Crypto, Secure, SecureSession, SecureEvent, allow, second, secure_header_n, secure_inner_max_size,
  secure_request, secure_reply, secure_data, secure_session_lifetime,
}
use wireguard_mesh.Secure.Header.{Header, read_header, secure_header}
use wireguard_mesh.Secure.Sessions.{expire, room}
use wireguard_mesh.Secure.Start
use wireguard_mesh.Secure.Window.{replayed, commit_window}

-- The global and the peer's budget for handshake packets; an unknown key has no peer budget.
unfoldable pub charge : Secure → ℕ → ℕ → ℕ → Secure × Bool
unfolding allow
charge s kind peer now =
    if kind == secure_data
    then (s, is_some (lookup peer s.limits))
    else let (global', admitted) = allow s.global now 64 in
      let s' = record s { global = global' } in
      if admitted
      then elim (lookup peer s.limits) [
        | none ↦ (s', false)
        | some limit ↦
            let (limit', within) = allow limit now 8 in
            (record s' { limits = insert peer limit' s.limits }, within)
      ]
      else (s', false)

abbrev pub event_of : ℕ → ℕ → SecureEvent
event_of peer id = record { peer = peer; id = id; body = []; reply = []; ready = false }

-- the first authentic packet makes the session ready
unfoldable pub readied : SecureSession → ℕ → SecureSession
readied session now =
    if session.ready
    then session
    else record session { ready = true; expires = now + secure_session_lifetime }

-- the end of `receive`
unfoldable pub finish : Secure → ℕ → SecureSession → SecureEvent → ℕ → Secure × Option SecureEvent
finish s id session event now = (
  record s { sessions = insert id (readied session now) s.sessions },
  some (record event { ready = true }),
)

-- the data branch
unfoldable pub open_data : Crypto → SecureSession → ℕ → Bytes → Option (SecureSession × Bytes)
open_data C session n bytes = elim session.rx [
  | none ↦ none
  | some rx ↦
      if replayed session n
      then none
      else elim (C.decrypt rx n (take secure_header_n bytes) (drop secure_header_n bytes)) [
        | none ↦ none
        | some body ↦ some (commit_window session n, body)
      ]
]

module _ (C : Crypto) where
  -- what `receive` checks of a packet before it spends a budget
  unfoldable pub well_formed : Secure → Header → ℕ → Bool
  well_formed s h size =
      not (s.private == 0)
      && leb secure_header_n size
      && leb size secure_inner_max_size
      && h.version == 2
      && h.recipient == s.public
      && not (h.sender == s.public)
      && not (h.id == 0)
      && leb h.counter C.max_nonce
      && (h.kind == secure_request && h.counter == 0 && size == secure_header_n + 96
          || h.kind == secure_reply && h.counter == 0 && size == secure_header_n + 48
          || h.kind == secure_data && ltb (secure_header_n + 16) size)

  -- the request branch: `random` is what the handshake draws from the random source
  unfoldable pub receive_request : Secure → ℕ → ℕ → Bytes → ℕ → ℕ → Secure × Option SecureEvent
  receive_request s peer id bytes random now =
      if is_some (lookup id s.sessions) || not (room s peer)
      then (s, none)
      else elim (Start.handshake C s peer id false random) [
        | none ↦ (s, none)
        | some state ↦ elim (C.read_message state (drop secure_header_n bytes)) [
          | none ↦ (s, none)
          | some read ↦
              if ltb 0 (length read.bytes) || not (C.peer_static read.state == peer)
              then (s, none)
              else elim (C.write_message read.state) [
                | none ↦ (s, none)
                | some step ↦
                    let session : SecureSession = record {
                      peer = peer;
                      seed = 0;
                      tx = some step.c2;
                      rx = some step.c1;
                      next = 0;
                      highest = 0;
                      window = 0;
                      expires = now + 10 * second;
                      unused_since = 0;
                      ready = false;
                    } in
                    let reply = secure_header secure_reply s.public peer id 0 ++ step.bytes in
                    (
                      record s { sessions = insert id session s.sessions },
                      some (record (event_of peer id) { reply = reply }),
                    )
              ]
        ]
      ]

  -- the reply branch: the handshake is built again from the seed
  unfoldable pub open_reply : Secure → ℕ → ℕ → SecureSession → Bytes → Option SecureSession
  open_reply s peer id session bytes =
      if is_some session.rx then none else elim (Start.handshake C s peer id true session.seed) [
        | none ↦ none
        | some state ↦ elim (C.write_message state) [
          | none ↦ none
          | some sent ↦ elim (C.read_message sent.state (drop secure_header_n bytes)) [
            | none ↦ none
            | some read ↦
                if ltb 0 (length read.bytes)
                then none
                else some (record session { tx = some read.c1; rx = some read.c2; seed = 0 })
          ]
        ]
      ]

  -- a reply or a data packet for a session that stands
  unfoldable pub receive_session :
      Secure → Header → SecureSession → Bytes → ℕ → Secure × Option SecureEvent
  unfolding finish
  receive_session s h session bytes now =
      let event = event_of h.sender h.id in
      if h.kind == secure_reply
      then elim (open_reply s h.sender h.id session bytes) [
        | none ↦ (s, none)
        | some session' ↦ finish s h.id session' event now
      ]
      else elim (open_data C session h.counter bytes) [
        | none ↦ (s, none)
        | some (session', body) ↦ finish s h.id session' (record event { body = body }) now
      ]

  unfoldable pub dispatch : Secure → Header → Bytes → ℕ → ℕ → Secure × Option SecureEvent
  unfolding receive_request receive_session
  dispatch s h bytes random now =
      if h.kind == secure_request
      then receive_request s h.sender h.id bytes random now
      else elim (lookup h.id s.sessions) [
        | none ↦ (s, none)
        | some session ↦
            if session.peer == h.sender then receive_session s h session bytes now else (s, none)
      ]

  unfoldable pub receive : Secure → Bytes → ℕ → ℕ → Secure × Option SecureEvent
  unfolding charge dispatch
  receive s₀ bytes random now =
      let s = expire s₀ now in
      let h = read_header bytes in
      if well_formed s h (length bytes)
      then (let (s', admitted) = charge s h.kind h.sender now in
          if admitted then dispatch s' h bytes random now else (s', none))
      else (s, none)
