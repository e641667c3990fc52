-- ===== src/Secure/Envelope.antt =====
-- The envelope of every wire packet, and the entry points that apply it (`newSecure`, `Start`,
-- `Receive`, `Seal`, `wrap` and `unwrap` in secure.go).
use wireguard_mesh.Prelude.{
  ℕ, ◌+◌, ◌-◌, not, ◌||◌, Option, none, some, List, [], ◌∷◌, ◌++◌, length, take, drop, replicate,
  all, lookup, insert, erase, ltb, if◌then◌else◌, ◌==◌,
}
use wireguard_mesh.Prelude.Bytes.{Bytes, be, of_be}
use wireguard_mesh.Secure.State.{
  Crypto, Secure, SecureRate, SecureEnvelope, SecureEvent, allow, secure_header_n, secure_max_size,
  secure_inner_max_size, secure_envelope_budget, nonce_size,
}
use wireguard_mesh.Secure.Header.{slice}
use wireguard_mesh.Secure.Sessions
use wireguard_mesh.Secure.Start
use wireguard_mesh.Secure.Receive
use wireguard_mesh.Secure.Seal

-- `plain[:]` of `wrap`: the length, the packet and zero padding up to the fixed size
unfoldable pub padded : Bytes → Bytes
padded inner = be 2 (length inner) ++ (inner ++ replicate (secure_inner_max_size - length inner) 0)

-- what `unwrap` checks of an opened envelope
unfoldable pub unpadded : ℕ → ℕ → Bytes → Option Bytes
unpadded public peer plain =
    let n = of_be (take 2 plain) in
    let inner = take n (drop 2 plain) in
    if ltb n secure_header_n || ltb secure_inner_max_size n
    then none
    else if not (of_be (slice 2 34 inner) == peer) || not (of_be (slice 34 66 inner) == public)
    then none
    else if all (λ b. b == 0) (drop (2 + n) plain)
    then some inner
    else none

-- A call of one of the entry points, with what the random source and the clock give it.
pub data Call : Type 0 where
  start : ℕ → Option ℕ → Option ℕ → Option Bytes → ℕ → Call
  receive : Bytes → ℕ → Option Bytes → ℕ → Call
  seal : ℕ → Bytes → Option Bytes → ℕ → Call
  prune : List ℕ → ℕ → Call

module _ (C : Crypto) where
  -- `nonce`: what the random source yields
  unfoldable pub wrap : Secure → ℕ → Bytes → Option Bytes → Option Bytes
  unfolding padded
  wrap s peer inner nonce = elim (lookup peer s.envelopes) [
    | none ↦ none
    | some envelope ↦
        if ltb (length inner) secure_header_n || ltb secure_inner_max_size (length inner)
        then none
        else elim nonce [
          | none ↦ none
          | some nonce ↦ some (nonce ++ C.envelope_seal envelope.tx nonce (padded inner))
        ]
  ]

  -- the loop over the envelopes: each attempt is paid from the budget
  unfoldable pub try_open :
      ℕ → Bytes → ℕ → List (ℕ × SecureEnvelope) → SecureRate → SecureRate × Option Bytes
  try_open public bytes now [] rate = (rate, none)
  try_open public bytes now ((peer, envelope) ∷ rest) rate =
      let (rate', admitted) = allow rate now secure_envelope_budget in
      let later = try_open public bytes now rest rate' in
      if admitted
      then elim (C.envelope_open envelope.rx (take nonce_size bytes) (drop nonce_size bytes)) [
        | none ↦ later
        | some plain ↦ (rate', unpadded public peer plain)
      ]
      else (rate', none)

  unfoldable pub unwrap : Secure → Bytes → ℕ → Secure × Option Bytes
  unwrap s bytes now =
      if length bytes == secure_max_size
      then (let (rate, inner) = try_open s.public bytes now s.envelopes s.open_rate in
          (record s { open_rate = rate }, inner))
      else (s, none)

  -- `Start`
  unfoldable pub start_packet :
      Secure → ℕ → Option ℕ → Option ℕ → Option Bytes → ℕ → Secure × Option (ℕ × Bytes)
  start_packet s peer id_key seed nonce now =
      let (s', started) = Start.start C s peer id_key seed now in
      elim started [
        | none ↦ (s', none)
        | some (id, inner) ↦ elim (wrap s' peer inner nonce) [
          | none ↦ (record s' { sessions = erase id s'.sessions }, none)
          | some wire ↦ (s', some (id, wire))
        ]
      ]

  -- `Receive`
  unfoldable pub receive_packet :
      Secure → Bytes → ℕ → Option Bytes → ℕ → Secure × Option SecureEvent
  receive_packet s₀ bytes random nonce now =
      let (s, opened) = unwrap s₀ bytes now in
      elim opened [
        | none ↦ (s, none)
        | some inner ↦
            let (s', received) = Receive.receive C s inner random now in
            elim received [
              | none ↦ (s', none)
              | some event ↦
                  if length event.reply == 0
                  then (s', some event)
                  else elim (wrap s' event.peer event.reply nonce) [
                    | none ↦ (record s' { sessions = erase event.id s'.sessions }, none)
                    | some wire ↦ (s', some (record event { reply = wire }))
                  ]
            ]
      ]

  -- `Seal`: the counter stays used where the envelope fails
  unfoldable pub seal_packet : Secure → ℕ → Bytes → Option Bytes → ℕ → Secure × Option Bytes
  seal_packet s id body nonce now =
      let (s', sealed) = Seal.seal C s id body now in
      elim sealed [
        | none ↦ (s', none)
        | some inner ↦ elim (lookup id s'.sessions) [
          | none ↦ (s', none)
          | some session ↦ (s', wrap s' session.peer inner nonce)
        ]
      ]

  -- one peer of `newSecure`: a key with which no secret is shared is passed over
  unfoldable pub add_peer : Secure → ℕ → Secure
  add_peer s peer =
      if peer == 0 || peer == s.public then s else elim (C.derive s.private peer s.public peer) [
        | none ↦ s
        | some tx ↦ elim (C.derive s.private peer peer s.public) [
          | none ↦ s
          | some rx ↦ record s {
            limits = insert peer (record { until = 0; used = 0 }) s.limits;
            envelopes = insert peer (record { tx = tx; rx = rx }) s.envelopes;
          }
        ]
      ]

  unfoldable pub add_peers : Secure → List ℕ → Secure
  add_peers s [] = s
  add_peers s (peer ∷ peers) = add_peers (add_peer s peer) peers

  unfoldable pub new_secure : ℕ → List ℕ → Secure
  new_secure private peers =
      let s : Secure = record {
        private = private;
        public = C.public_key private;
        limits = [];
        sessions = [];
        global = record { until = 0; used = 0 };
        ids = none;
        serial = 0;
        envelopes = [];
        open_rate = record { until = 0; used = 0 };
      } in
      if private == 0 || ltb 128 (length peers) then s else add_peers s peers

  -- the state that a call leaves
  unfoldable pub step : Secure → Call → Secure
  step s (Call.start peer id_key seed nonce now) = (start_packet s peer id_key seed nonce now).0
  step s (Call.receive bytes random nonce now) = (receive_packet s bytes random nonce now).0
  step s (Call.seal id body nonce now) = (seal_packet s id body nonce now).0
  step s (Call.prune used now) = Sessions.prune s used now

  unfoldable pub run : Secure → List Call → Secure
  run s [] = s
  run s (call ∷ calls) = run (step s call) calls
