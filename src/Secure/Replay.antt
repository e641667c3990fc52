-- ===== src/Secure/Replay.antt =====
-- A data packet is delivered once (`receive` in secure.go).
use wireguard_mesh.Prelude.{
  Distinct, lookup-filter, subst, ℕ, ◌≡◌, true, false, Option, none, some, List, [], ◌∷◌, arith,
  length, lookup, insert, lookup-insert, is_some, ltb, Bool-cases, Option-cases, inl, inr, ◌==◌,
  ◌⊎◌, ◌∙◌,
}
use wireguard_mesh.Prelude.Bytes.{Bytes}
use wireguard_mesh.Secure.State.{Crypto, Secure, SecureSession, SecureEvent, secure_data}
use wireguard_mesh.Secure.Header.{Header, read_header}
use wireguard_mesh.Secure.Window.{
  replayed, commit_window, replayed-commit_window_self, replayed-commit_window_old,
}
use wireguard_mesh.Secure.Sessions.{expire, IsBounded}
use wireguard_mesh.Secure.Bounds.{receive-IsBounded}
use wireguard_mesh.Secure.Receive
use wireguard_mesh.Secure.Receive.{charge, readied, finish, open_data}

-- A session of this ID, if there is one, refuses the counter.
abbrev pub Refuses : List (ℕ × SecureSession) → ℕ → ℕ → Type 0
Refuses sessions id n =
    (session : SecureSession) → lookup id sessions ≡ some session → replayed session n ≡ true

module _ (C : Crypto) where
  open_data_commits :
      (session : SecureSession) (n : ℕ) (bytes : Bytes) (t : SecureSession) (body : Bytes)
      → open_data C session n bytes ≡ some (t, body)
      → (replayed session n ≡ false) × (t ≡ commit_window session n)
  unfolding open_data
  open_data_commits session n bytes t body h = ground arith

  -- A data packet is refused and leaves the table alone, or it is delivered and its counter is
  -- recorded in its session.
  abbrev Outcome : Secure → Header → ℕ → Secure × Option SecureEvent → Type 0
  Outcome s h now r =
      ((r.1 ≡ none) × (r.0.sessions ≡ s.sessions))
      ⊎ ((session : SecureSession) × (lookup h.id s.sessions ≡ some session)
          × (replayed session h.counter ≡ false)
          × (r.0.sessions ≡ insert h.id (readied (commit_window session h.counter) now) s.sessions))

  session-Outcome :
      (s : Secure) (h : Header) (session : SecureSession) (bytes : Bytes) (now : ℕ)
      → h.kind ≡ secure_data
      → lookup h.id s.sessions ≡ some session
      → Outcome s h now (Receive.receive_session C s h session bytes now)
  unfolding Receive.receive_session
  session-Outcome s h session bytes now k e =
      elim (Option-cases (open_data C session h.counter bytes)) [
        | inl none_opened ↦ inl (ground arith, ground arith)
        | inr ((t, body), opened) ↦
            let (fresh, same) = open_data_commits session h.counter bytes t body opened in
            inr (session, e, fresh, ground arith)
      ]

  dispatch-Outcome :
      (s : Secure) (h : Header) (bytes : Bytes) (random now : ℕ)
      → h.kind ≡ secure_data
      → Outcome s h now (Receive.dispatch C s h bytes random now)
  unfolding Receive.dispatch
  dispatch-Outcome s h bytes random now k = elim (Option-cases (lookup h.id s.sessions)) [
    | inl e ↦ inl (ground arith, ground arith)
    | inr (session, e) ↦ elim (Bool-cases (session.peer == h.sender)) [
      | inl p ↦
          let taken : Receive.dispatch C s h bytes random now
              ≡ Receive.receive_session C s h session bytes now =
            ground arith in
          rw taken (session-Outcome s h session bytes now k e)
      | inr p ↦ inl (ground arith, ground arith)
    ]
  ]

  receive-Outcome :
      (s : Secure) (bytes : Bytes) (random now : ℕ)
      → (read_header bytes).kind ≡ secure_data
      → Outcome (expire s now) (read_header bytes) now (Receive.receive C s bytes random now)
  unfolding Receive.receive charge
  receive-Outcome s bytes random now k =
      let s' = expire s now in
      let h = read_header bytes in
      elim (Bool-cases (Receive.well_formed C s' h (length bytes))) [
        | inl w ↦ elim (Bool-cases (is_some (lookup h.sender s'.limits))) [
          | inl a ↦
              let taken : Receive.receive C s bytes random now
                  ≡ Receive.dispatch C s' h bytes random now =
                ground arith in
              rw taken (dispatch-Outcome s' h bytes random now k)
          | inr a ↦ inl (ground arith, ground arith)
        ]
        | inr w ↦ inl (ground arith, ground arith)
      ]

  replayed-readied :
      (session : SecureSession) (now n : ℕ) → replayed (readied session now) n ≡ replayed session n
  unfolding readied replayed
  replayed-readied session now n = ground arith

  expire-Refuses :
      (s : Secure) (now id n : ℕ)
      → Distinct s.sessions
      → Refuses s.sessions id n
      → Refuses (expire s now).sessions id n
  unfolding expire
  expire-Refuses s now id n d h session e =
      h session (lookup-filter (λ x. ltb now x.1.expires) id session s.sessions d e)

  insert-Refuses :
      (m : List (ℕ × SecureSession)) (session : SecureSession) (now id k n n' : ℕ)
      → lookup k m ≡ some session
      → Refuses m id n
      → Refuses (insert k (readied (commit_window session n') now) m) id n
  insert-Refuses m session now id k n n' e h t f = elim (Bool-cases (id == k)) [
    | inl same ↦
        let found : readied (commit_window session n') now ≡ t =
          ground (arith, lookup-insert id k (readied (commit_window session n') now) m) in
        let before : replayed session n ≡ true = h session (ground arith) in
        subst (λ x. replayed x n ≡ true) found
          (replayed-readied (commit_window session n') now n
            ∙ replayed-commit_window_old session n' n before)
    | inr other ↦
        h t (ground (arith, lookup-insert id k (readied (commit_window session n') now) m))
  ]

  -- A data packet of any kind, authentic or not, never makes a session take back a counter.
  receive-Refuses :
      (s : Secure) (bytes : Bytes) (random now id n : ℕ)
      → Distinct s.sessions
      → (read_header bytes).kind ≡ secure_data
      → Refuses s.sessions id n
      → Refuses (Receive.receive C s bytes random now).0.sessions id n
  receive-Refuses s bytes random now id n d k h =
      let m = (expire s now).sessions in
      let kept : Refuses m id n = expire-Refuses s now id n d h in
      elim (receive-Outcome s bytes random now k) [
        | inl (_, same) ↦ rw same kept
        | inr (session, e, _, same) ↦ rw same (
            insert-Refuses m session now id (read_header bytes).id n (read_header bytes).counter e
              kept)
      ]

  -- A packet that was delivered is recorded.
  receive_delivered :
      (s : Secure) (bytes : Bytes) (random now : ℕ) (event : SecureEvent)
      → (read_header bytes).kind ≡ secure_data
      → (Receive.receive C s bytes random now).1 ≡ some event
      → Refuses
          (Receive.receive C s bytes random now).0.sessions
          (read_header bytes).id
          (read_header bytes).counter
  receive_delivered s bytes random now event k e =
      let h = read_header bytes in
      let m = (expire s now).sessions in
      elim (receive-Outcome s bytes random now k) [
        | inl (refused, _) ↦ cc
        | inr (session, _, _, same) ↦
            let t = readied (commit_window session h.counter) now in
            rw same (λ u f.
              let found : t ≡ u = ground (arith, lookup-insert h.id h.id t m) in
              subst (λ x. replayed x h.counter ≡ true) found
                (replayed-readied (commit_window session h.counter) now h.counter
                  ∙ replayed-commit_window_self session h.counter))
      ]

  -- the state after a list of inner packets, each with its random value and its time
  abbrev pub receive_all : Secure → List (Bytes × ℕ × ℕ) → Secure
  receive_all s [] = s
  receive_all s ((bytes, random, now) ∷ rest) =
      receive_all (Receive.receive C s bytes random now).0 rest

  abbrev pub AllData : List (Bytes × ℕ × ℕ) → Type 0
  AllData [] = Unit
  AllData ((bytes, _, _) ∷ rest) = ((read_header bytes).kind ≡ secure_data) × AllData rest

  receive_all-Refuses :
      (s : Secure) (packets : List (Bytes × ℕ × ℕ)) (id n : ℕ)
      → IsBounded s.sessions
      → AllData packets
      → Refuses s.sessions id n
      → Refuses (receive_all s packets).sessions id n × IsBounded (receive_all s packets).sessions
  receive_all-Refuses s [] id n b a h = (h, b)
  receive_all-Refuses s ((bytes, random, now) ∷ rest) id n b a h =
      receive_all-Refuses (Receive.receive C s bytes random now).0 rest id n
        (receive-IsBounded C s bytes random now b) a.1
        (receive-Refuses s bytes random now id n b.distinct a.0 h)

  -- In a bounded session table, a data packet that was delivered is not delivered again, at any time,
  -- whatever data packets arrive in between.
  pub receive_once :
      (s : Secure) (bytes : Bytes) (random now : ℕ) (event : SecureEvent)
      (between : List (Bytes × ℕ × ℕ)) (random' now' : ℕ)
      → IsBounded s.sessions
      → (read_header bytes).kind ≡ secure_data
      → AllData between
      → (Receive.receive C s bytes random now).1 ≡ some event
      → let s' = receive_all (Receive.receive C s bytes random now).0 between in
        (Receive.receive C s' bytes random' now').1 ≡ none
  receive_once s bytes random now event between random' now' b k a e =
      let h = read_header bytes in
      let s₁ = (Receive.receive C s bytes random now).0 in
      let s' = receive_all s₁ between in
      let (refuses, bounded) =
        receive_all-Refuses s₁ between h.id h.counter (receive-IsBounded C s bytes random now b) a
          (receive_delivered s bytes random now event k e) in
      let kept = expire-Refuses s' now' h.id h.counter bounded.distinct refuses in
      elim (receive-Outcome s' bytes random' now' k) [
        | inl (refused, _) ↦ refused
        | inr (session, found, fresh, _) ↦ cc (kept session found)
      ]
