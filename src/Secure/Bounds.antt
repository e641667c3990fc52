-- ===== src/Secure/Bounds.antt =====
-- Every entry point of secure.go keeps the session table bounded.
use wireguard_mesh.Prelude.{
  ℕ, ◌∷◌, ◌∙◌, length, ◌+◌, ◌≡◌, Option, some, List, [], arith, lookup, refl, Bool-cases,
  Option-cases, inl, inr, ◌==◌, true,
}
use wireguard_mesh.Prelude.Bytes.{Bytes}
use wireguard_mesh.Secure.State.{
  Crypto, Secure, SecureSession, SecureEvent, secure_request, secure_reply,
}
use wireguard_mesh.Secure.Header.{Header, read_header}
use wireguard_mesh.Secure.Window.{commit_window}
use wireguard_mesh.Secure.Sessions.{
  expire, room, IsBounded, expire-IsBounded, prune-IsBounded, insert_new-IsBounded,
  insert_old-IsBounded, erase-IsBounded,
}
use wireguard_mesh.Secure.Start
use wireguard_mesh.Secure.Receive
use wireguard_mesh.Secure.Receive.{charge, readied, finish, open_data}
use wireguard_mesh.Secure.Seal
use wireguard_mesh.Secure.Envelope

charge-sessions :
    (s : Secure) (kind peer now : ℕ) → (charge s kind peer now).0.sessions ≡ s.sessions
unfolding charge
charge-sessions s kind peer now = ground arith

readied-peer : (session : SecureSession) (now : ℕ) → (readied session now).peer ≡ session.peer
unfolding readied
readied-peer session now = ground arith

open_data-peer :
    (C : Crypto) (session : SecureSession) (n : ℕ) (bytes : Bytes) (t : SecureSession)
    (body : Bytes)
    → open_data C session n bytes ≡ some (t, body)
    → t.peer ≡ session.peer
unfolding open_data commit_window
open_data-peer C session n bytes t body h = ground arith

module _ (C : Crypto) where
  start_session-IsBounded :
      (s : Secure) (peer id : ℕ) (seed : Option ℕ) (now : ℕ)
      → room s peer ≡ true
      → IsBounded s.sessions
      → IsBounded (Start.start_session C s peer id seed now).0.sessions
  unfolding Start.start_session
  start_session-IsBounded s peer id seed now r b = grind (arith, insert_new-IsBounded)

  start-IsBounded :
      (s : Secure) (peer : ℕ) (id_key seed : Option ℕ) (now : ℕ)
      → IsBounded s.sessions
      → IsBounded (Start.start C s peer id_key seed now).0.sessions
  unfolding Start.start room
  start-IsBounded s peer id_key seed now b =
      let s' = expire s now in
      let c = expire-IsBounded s now b in
      elim (Option-cases (Start.id_cipher C s' id_key)) [
        | inl failed ↦ ground arith
        | inr (cipher, found) ↦
            let t = record s' { ids = some cipher; serial = s'.serial + 1 } in
            ground (arith, start_session-IsBounded t peer (C.aes_encrypt cipher t.serial) seed now)
      ]

  receive_request-IsBounded :
      (s : Secure) (peer id : ℕ) (bytes : Bytes) (random now : ℕ)
      → IsBounded s.sessions
      → IsBounded (Receive.receive_request C s peer id bytes random now).0.sessions
  unfolding Receive.receive_request
  receive_request-IsBounded s peer id bytes random now b = grind (arith, insert_new-IsBounded)

  finish-IsBounded :
      (s : Secure) (id : ℕ) (old session : SecureSession) (event : SecureEvent) (now : ℕ)
      → lookup id s.sessions ≡ some old
      → session.peer ≡ old.peer
      → IsBounded s.sessions
      → IsBounded (finish s id session event now).0.sessions
  unfolding finish
  finish-IsBounded s id old session event now h p b =
      insert_old-IsBounded id (readied session now) old s.sessions h (readied-peer session now ∙ p)
        b

  open_reply-peer :
      (s : Secure) (peer id : ℕ) (session t : SecureSession) (bytes : Bytes)
      → Receive.open_reply C s peer id session bytes ≡ some t
      → t.peer ≡ session.peer
  unfolding Receive.open_reply
  open_reply-peer s peer id session t bytes h = ground arith

  receive_session-IsBounded :
      (s : Secure) (h : Header) (session : SecureSession) (bytes : Bytes) (now : ℕ)
      → lookup h.id s.sessions ≡ some session
      → IsBounded s.sessions
      → IsBounded (Receive.receive_session C s h session bytes now).0.sessions
  unfolding Receive.receive_session
  receive_session-IsBounded s h session bytes now e b = elim (Bool-cases (h.kind == secure_reply)) [
    | inl k ↦ elim (Option-cases (Receive.open_reply C s h.sender h.id session bytes)) [
      | inl p ↦ rw (k, p) b
      | inr (t, p) ↦
          rw (k, p)
            (finish-IsBounded s h.id session t (Receive.event_of h.sender h.id) now e
              (open_reply-peer s h.sender h.id session t bytes p) b)
    ]
    | inr k ↦ elim (Option-cases (open_data C session h.counter bytes)) [
      | inl p ↦ rw (k, p) b
      | inr ((t, body), p) ↦
          rw (k, p)
            (finish-IsBounded s h.id session t
              (record (Receive.event_of h.sender h.id) { body = body }) now e
              (open_data-peer C session h.counter bytes t body p) b)
    ]
  ]

  dispatch-IsBounded :
      (s : Secure) (h : Header) (bytes : Bytes) (random now : ℕ)
      → IsBounded s.sessions
      → IsBounded (Receive.dispatch C s h bytes random now).0.sessions
  unfolding Receive.dispatch
  dispatch-IsBounded s h bytes random now b = elim (Bool-cases (h.kind == secure_request)) [
    | inl k ↦ rw k (receive_request-IsBounded s h.sender h.id bytes random now b)
    | inr k ↦ elim (Option-cases (lookup h.id s.sessions)) [
      | inl e ↦ rw (k, e) b
      | inr (session, e) ↦ elim (Bool-cases (session.peer == h.sender)) [
        | inl p ↦ rw (k, e, p) (receive_session-IsBounded s h session bytes now e b)
        | inr p ↦ rw (k, e, p) b
      ]
    ]
  ]

  charge-IsBounded :
      (s : Secure) (kind peer now : ℕ)
      → IsBounded s.sessions
      → IsBounded (charge s kind peer now).0.sessions
  charge-IsBounded s kind peer now b = rw (charge-sessions s kind peer now) b

  pub receive-IsBounded :
      (s : Secure) (bytes : Bytes) (random now : ℕ)
      → IsBounded s.sessions
      → IsBounded (Receive.receive C s bytes random now).0.sessions
  unfolding Receive.receive
  receive-IsBounded s bytes random now b =
      let s' = expire s now in
      let h = read_header bytes in
      let c = expire-IsBounded s now b in
      let d = charge-IsBounded s' h.kind h.sender now c in
      elim (Bool-cases (Receive.well_formed C s' h (length bytes))) [
        | inl w ↦ elim (Bool-cases (charge s' h.kind h.sender now).1) [
          | inl a ↦
              rw (w, a) (dispatch-IsBounded (charge s' h.kind h.sender now).0 h bytes random now d)
          | inr a ↦ rw (w, a) d
        ]
        | inr w ↦ rw w c
      ]

  seal-IsBounded :
      (s : Secure) (id : ℕ) (body : Bytes) (now : ℕ)
      → IsBounded s.sessions
      → IsBounded (Seal.seal C s id body now).0.sessions
  unfolding Seal.seal
  seal-IsBounded s id body now b =
      let c = expire-IsBounded s now b in
      elim (Option-cases (lookup id (expire s now).sessions)) [
        | inl e ↦ rw (e, Seal.seal) c
        | inr (session, e) ↦ elim (Bool-cases (Seal.sealable C session body)) [
          | inl p ↦ elim (Option-cases session.tx) [
            | inl q ↦ ground arith
            | inr (tx, q) ↦
                let t = record session { tx = some tx; next = session.next + 1 } in
                rw (e, p, Seal.seal)
                  (simp q (insert_old-IsBounded id t session (expire s now).sessions e refl c))
          ]
          | inr p ↦ rw (e, p, Seal.seal) c
        ]
      ]

  start_packet-IsBounded :
      (s : Secure) (peer : ℕ) (id_key seed : Option ℕ) (nonce : Option Bytes) (now : ℕ)
      → IsBounded s.sessions
      → IsBounded (Envelope.start_packet C s peer id_key seed nonce now).0.sessions
  unfolding Envelope.start_packet
  start_packet-IsBounded s peer id_key seed nonce now b =
      let (t, started) = Start.start C s peer id_key seed now in
      let c = start-IsBounded s peer id_key seed now b in
      elim (Option-cases started) [
        | inl e ↦ rw (e, Envelope.start_packet) c
        | inr ((id, inner), e) ↦ elim (Option-cases (Envelope.wrap C t peer inner nonce)) [
          | inl f ↦ rw (e, f, Envelope.start_packet) (erase-IsBounded id t.sessions c)
          | inr (wire, f) ↦ rw (e, f, Envelope.start_packet) c
        ]
      ]

  unwrap-sessions :
      (s : Secure) (bytes : Bytes) (now : ℕ)
      → (Envelope.unwrap C s bytes now).0.sessions ≡ s.sessions
  unfolding Envelope.unwrap
  unwrap-sessions s bytes now = ground arith

  receive_packet-IsBounded :
      (s : Secure) (bytes : Bytes) (random : ℕ) (nonce : Option Bytes) (now : ℕ)
      → IsBounded s.sessions
      → IsBounded (Envelope.receive_packet C s bytes random nonce now).0.sessions
  unfolding Envelope.receive_packet
  receive_packet-IsBounded s bytes random nonce now b =
      let (s', opened) = Envelope.unwrap C s bytes now in
      let c : IsBounded s'.sessions = rw (unwrap-sessions s bytes now) b in
      elim (Option-cases opened) [
        | inl e ↦ rw (e, Envelope.receive_packet) c
        | inr (inner, e) ↦
            let (t, received) = Receive.receive C s' inner random now in
            let d = receive-IsBounded s' inner random now c in
            elim (Option-cases received) [
              | inl f ↦ rw (e, f, Envelope.receive_packet) d
              | inr (event, f) ↦ elim (Bool-cases (length event.reply == 0)) [
                | inl g ↦ rw (e, f, g, Envelope.receive_packet) d
                | inr g ↦ elim (Option-cases (Envelope.wrap C t event.peer event.reply nonce)) [
                  | inl k ↦
                      rw (e, f, g, k, Envelope.receive_packet)
                        (erase-IsBounded event.id t.sessions d)
                  | inr (wire, k) ↦ rw (e, f, g, k, Envelope.receive_packet) d
                ]
              ]
            ]
      ]

  seal_packet-IsBounded :
      (s : Secure) (id : ℕ) (body : Bytes) (nonce : Option Bytes) (now : ℕ)
      → IsBounded s.sessions
      → IsBounded (Envelope.seal_packet C s id body nonce now).0.sessions
  unfolding Envelope.seal_packet
  seal_packet-IsBounded s id body drawn now b =
      let (t, sealed) = Seal.seal C s id body now in
      let c = seal-IsBounded s id body now b in
      elim (Option-cases sealed) [
        | inl e ↦ rw (e, Envelope.seal_packet) c
        | inr (inner, e) ↦ elim (Option-cases (lookup id t.sessions)) [
          | inl f ↦ rw (e, f, Envelope.seal_packet) c
          | inr (session, f) ↦ rw (e, f, Envelope.seal_packet) c
        ]
      ]

  call-IsBounded :
      (s : Secure) (call : Envelope.Call)
      → IsBounded s.sessions
      → IsBounded (Envelope.step C s call).sessions
  unfolding Envelope.step
  call-IsBounded s (Envelope.Call.start peer id_key seed nonce now) b =
      start_packet-IsBounded s peer id_key seed nonce now b
  call-IsBounded s (Envelope.Call.receive bytes random nonce now) b =
      receive_packet-IsBounded s bytes random nonce now b
  call-IsBounded s (Envelope.Call.seal id body nonce now) b =
      seal_packet-IsBounded s id body nonce now b
  call-IsBounded s (Envelope.Call.prune used now) b = prune-IsBounded s used now b

  run-keeps :
      (s : Secure) (calls : List Envelope.Call)
      → IsBounded s.sessions
      → IsBounded (Envelope.run C s calls).sessions
  unfolding Envelope.run
  run-keeps s [] b = b
  run-keeps s (call ∷ calls) b = run-keeps (Envelope.step C s call) calls (call-IsBounded s call b)

  add_peers-sessions :
      (s : Secure) (peers : List ℕ) → (Envelope.add_peers C s peers).sessions ≡ s.sessions
  unfolding Envelope.add_peers Envelope.add_peer
  add_peers-sessions s [] = refl
  add_peers-sessions s (peer ∷ peers) =
      add_peers-sessions (Envelope.add_peer C s peer) peers ∙ ground arith

  new_secure-sessions :
      (private : ℕ) (peers : List ℕ) → (Envelope.new_secure C private peers).sessions ≡ []
  unfolding Envelope.new_secure
  new_secure-sessions private peers = grind (arith, add_peers-sessions)

  -- After any sequence of calls of the entry points, with any packets, random values and times, a
  -- node that `newSecure` made holds at most 512 sessions, at most 64 with each peer, and each
  -- under an ID of its own.
  pub run-IsBounded :
      (private : ℕ) (peers : List ℕ) (calls : List Envelope.Call)
      → IsBounded (Envelope.run C (Envelope.new_secure C private peers) calls).sessions
  run-IsBounded private peers calls = run-keeps (Envelope.new_secure C private peers) calls (
      rw (new_secure-sessions private peers)
        (record { total = omega arith; shares = λ peer. omega arith; distinct = tt }))
