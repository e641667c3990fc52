-- ===== src/Secure/Seal.antt =====
-- A numbered data packet (`seal` in secure.go).
use wireguard_mesh.Prelude.{
  ℕ, ◌+◌, ◌-◌, Bool, ◌&&◌, leb, Option, none, some, ◌++◌, length, lookup, insert, ltb,
  if◌then◌else◌,
}
use wireguard_mesh.Prelude.Bytes.{Bytes}
use wireguard_mesh.Secure.State.{
  Crypto, Secure, SecureSession, secure_header_n, secure_inner_max_size, secure_data,
}
use wireguard_mesh.Secure.Header.{secure_header}
use wireguard_mesh.Secure.Sessions.{expire}

module _ (C : Crypto) where
  -- the guard on the session and the body; a session that is ready has its ciphers
  unfoldable pub sealable : SecureSession → Bytes → Bool
  sealable session body =
      session.ready
      && ltb 0 (length body)
      && leb (length body) (secure_inner_max_size - secure_header_n - 16)
      && leb session.next C.max_nonce

  unfoldable pub seal : Secure → ℕ → Bytes → ℕ → Secure × Option Bytes
  seal s₀ id body now =
      let s = expire s₀ now in
      elim (lookup id s.sessions) [
        | none ↦ (s, none)
        | some session ↦
            if sealable session body
            then elim session.tx [
              | none ↦ (s, none)
              | some tx ↦
                  let h = secure_header secure_data s.public session.peer id session.next in
                  (
                    record s {
                      sessions = insert id (record session { next = session.next + 1 }) s.sessions;
                    },
                    some (h ++ C.encrypt tx session.next h body),
                  )
            ]
            else (s, none)
      ]
