-- ===== src/Secure/Start.antt =====
-- Handshake states, and the initiator's first packet (`handshake` and `start`, secure.go).
use wireguard_mesh.Prelude.{
  ℕ, ◌+◌, ◌*◌, ◌-◌, ◌^◌, Bool, true, false, not, ◌||◌, Option, none, some, ◌++◌, lookup, insert,
  is_none, is_some, if◌then◌else◌, ◌==◌,
}
use wireguard_mesh.Prelude.Bytes.{Bytes}
use wireguard_mesh.Secure.State.{
  Crypto, Secure, SecureSession, second, secure_request, secure_reply,
}
use wireguard_mesh.Secure.Header.{secure_header}
use wireguard_mesh.Secure.Sessions.{expire, room}

module _ (C : Crypto) where
  -- Both headers of the handshake are in the prologue.
  unfoldable pub prologue : ℕ → ℕ → ℕ → Bytes
  prologue a b id =
      C.secure_domain
      ++ (secure_header secure_request a b id 0 ++ secure_header secure_reply b a id 0)

  unfoldable pub handshake : Secure → ℕ → ℕ → Bool → ℕ → Option ℕ
  unfolding prologue
  handshake s peer id initiator random = C.new_handshake (record {
    initiator = initiator;
    prologue = if initiator then prologue s.public peer id else prologue peer s.public id;
    private = s.private;
    public = s.public;
    peer_static = if initiator then some peer else none;
    random = random;
  })

  -- The block cipher of the IDs: `key` is what the random source yields, if it is read.
  unfoldable pub id_cipher : Secure → Option ℕ → Option ℕ
  id_cipher s key = elim s.ids [
    | some cipher ↦ some cipher
    | none ↦ elim key [ none ↦ none | some k ↦ C.new_aes k ]
  ]

  -- the part of `start` behind the new ID
  unfoldable pub start_session : Secure → ℕ → ℕ → Option ℕ → ℕ → Secure × Option (ℕ × Bytes)
  start_session s peer id seed now =
      if id == 0 || is_some (lookup id s.sessions) then (s, none) else elim seed [
        | none ↦ (s, none)
        | some seed ↦
            let session : SecureSession = record {
              peer = peer;
              seed = seed;
              tx = none;
              rx = none;
              next = 0;
              highest = 0;
              window = 0;
              expires = now + 10 * second;
              unused_since = 0;
              ready = false;
            } in
            elim (handshake s peer id true seed) [
              | none ↦ (s, none)
              | some state ↦ elim (C.write_message state) [
                | none ↦ (s, none)
                | some step ↦ (
                  record s { sessions = insert id session s.sessions },
                  some (id, secure_header secure_request s.public peer id 0 ++ step.bytes),
                )
              ]
            ]
      ]

  -- A failed call returns `none`; the serial number is used up all the same.
  unfoldable pub start : Secure → ℕ → Option ℕ → Option ℕ → ℕ → Secure × Option (ℕ × Bytes)
  start s₀ peer id_key seed now =
      let s = expire s₀ now in
      if s.private == 0
        || is_none (lookup peer s.limits)
        || not (room s peer)
        || s.serial == 2 ^ 64 - 1
      then (s, none)
      else elim (id_cipher s id_key) [
        | none ↦ (s, none)
        | some cipher ↦
            let serial = s.serial + 1 in
            start_session (record s { ids = some cipher; serial = serial }) peer
              (C.aes_encrypt cipher serial) seed now
      ]
