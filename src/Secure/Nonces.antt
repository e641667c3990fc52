-- ===== src/Secure/Nonces.antt =====
-- The nonces under which a session seals (`seal` in secure.go).
use wireguard_mesh.Prelude.{
  ℕ, suc, ◌+◌, ◌≤◌, ◌≡◌, Option, none, some, List, [], ◌∷◌, ◌++◌, lookup, insert, ◌⊎◌,
}
use wireguard_mesh.Prelude.Bytes.{Bytes}
use wireguard_mesh.Secure.State.{Crypto, Secure, SecureSession, secure_data}
use wireguard_mesh.Secure.Header.{read_header, secure_header}
use wireguard_mesh.Secure.Seal.{seal}

-- The session of this ID, if there is one, has this peer and this key, and goes on with this counter or
-- a later one.
abbrev pub GoesOn : ℕ → ℕ → ℕ → ℕ → List (ℕ × SecureSession) → Type 0
GoesOn id peer tx low sessions =
    (session : SecureSession)
    → lookup id sessions ≡ some session
    → (low ≤ session.next) × (session.peer ≡ peer) × (session.tx ≡ some tx)

module _ (C : Crypto) where
  -- The packets that these calls of `seal` return, each call with a body and a time; each packet stands
  -- beside its body.
  unfoldable pub sealed_packets : Secure → ℕ → List (Bytes × ℕ) → List (Bytes × Bytes)
  sealed_packets s id [] = []
  sealed_packets s id ((body, now) ∷ rest) =
      let (s', sealed) = seal C s id body now in
      let later = sealed_packets s' id rest in
      elim sealed [ none ↦ later | some bytes ↦ (body, bytes) ∷ later ]

  -- Each packet is the header of a number and the body, encrypted under this key with that number as
  -- the nonce and that header as additional data; the numbers ascend strictly from a lower bound on.
  abbrev pub Sealed : ℕ → ℕ → ℕ → ℕ → ℕ → List (Bytes × Bytes) → Type 0
  Sealed public peer id tx low [] = Unit
  Sealed public peer id tx low ((body, bytes) ∷ rest) =
      (n : ℕ) × (low ≤ n)
      × (n ≤ C.max_nonce)
      × ((read_header bytes).counter ≡ n)
      × (bytes
          ≡ secure_header secure_data public peer id n
            ++ C.encrypt tx n (secure_header secure_data public peer id n) body)
      × Sealed public peer id tx (suc n) rest

  abbrev Outcome : Secure → ℕ → Bytes → Secure × Option Bytes → Type 0
  Outcome s id body r =
      (r.0.public ≡ s.public)
      × (((r.1 ≡ none) × (r.0.sessions ≡ s.sessions))
          ⊎ ((session : SecureSession) × (tx : ℕ) × (bytes : Bytes) × (lookup id s.sessions
                ≡ some session)
              × (session.next ≤ C.max_nonce)
              × (session.tx ≡ some tx)
              × (r.1 ≡ some bytes)
              × (bytes
                  ≡ secure_header secure_data s.public session.peer id session.next
                    ++ C.encrypt tx session.next
                        (secure_header secure_data s.public session.peer id session.next) body)
              × (r.0.sessions ≡ insert id (record session { next = session.next + 1 }) s.sessions)))
