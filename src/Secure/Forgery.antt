-- ===== src/Secure/Forgery.antt =====
-- What a packet that is not accepted can change, and what an accepted one proves (secure.go).
use wireguard_mesh.Prelude.{
  ℕ, ◌≡◌, refl, ◌==◌, none, some, is_some, List, arith, length, lookup, insert, lookup-insert,
  subst, Bool-cases, Option-cases, ◌⊎◌, inl, inr,
}
use wireguard_mesh.Prelude.Bytes.{Bytes}
use wireguard_mesh.Secure.State.{Crypto, Secure, SecureRate, SecureSession, allow, secure_data}
use wireguard_mesh.Secure.Header.{Header, read_header}
use wireguard_mesh.Secure.Sessions.{expire}
use wireguard_mesh.Secure.Receive
use wireguard_mesh.Secure.Receive.{charge, finish, open_data}

-- Every peer of the first table is one of the second and no other, and only this peer's budget differs.
abbrev pub OnlyBudgetOf : ℕ → List (ℕ × SecureRate) → List (ℕ × SecureRate) → Type 0
OnlyBudgetOf peer limits limits' =
    (k : ℕ)
    → (is_some (lookup k limits') ≡ is_some (lookup k limits))
      × ((lookup k limits' ≡ lookup k limits) ⊎ (k ≡ peer))

-- The two states differ in the global budget and in the budget of this peer at most.
abbrev pub OnlyCharged : ℕ → Secure → Secure → Type 0
OnlyCharged peer s t =
    (t ≡ record s { global = t.global; limits = t.limits }) × OnlyBudgetOf peer s.limits t.limits

insert-OnlyBudgetOf :
    (peer : ℕ) (old new : SecureRate) (limits : List (ℕ × SecureRate))
    → lookup peer limits ≡ some old
    → OnlyBudgetOf peer limits (insert peer new limits)
insert-OnlyBudgetOf peer old new limits e k = elim (Bool-cases (k == peer)) [
  | inl same ↦ (ground (arith, lookup-insert k peer new limits), inr (ground arith))
  | inr other ↦ (
    ground (arith, lookup-insert k peer new limits),
    inl (ground (arith, lookup-insert k peer new limits)),
  )
]

charge-OnlyCharged :
    (s : Secure) (kind peer now : ℕ) → OnlyCharged peer s (charge s kind peer now).0
unfolding charge
charge-OnlyCharged s kind peer now =
    let global' = allow s.global now 64 in
    elim (Bool-cases (kind == secure_data)) [
      | inl sent ↦ rw sent (refl, λ k. (refl, inl refl))
      | inr other ↦ elim (Bool-cases (allow s.global now 64).1) [
        | inr spent ↦ rw (other, spent) (refl, λ k. (refl, inl refl))
        | inl admitted ↦ elim (Option-cases (lookup peer s.limits)) [
          | inl none' ↦ rw (other, admitted, none') (refl, λ k. (refl, inl refl))
          | inr (old, e) ↦
              rw (other, admitted, e)
                (refl, insert-OnlyBudgetOf peer old (allow old now 8).0 s.limits e)
        ]
      ]
    ]

module _ (C : Crypto) where
  request_rejected :
      (s : Secure) (peer id : ℕ) (bytes : Bytes) (random now : ℕ)
      → (Receive.receive_request C s peer id bytes random now).1 ≡ none
      → (Receive.receive_request C s peer id bytes random now).0 ≡ s
  unfolding Receive.receive_request
  request_rejected s peer id bytes random now e = ground arith

  session_rejected :
      (s : Secure) (h : Header) (session : SecureSession) (bytes : Bytes) (now : ℕ)
      → (Receive.receive_session C s h session bytes now).1 ≡ none
      → (Receive.receive_session C s h session bytes now).0 ≡ s
  unfolding Receive.receive_session finish
  session_rejected s h session bytes now e = ground arith

  dispatch_rejected :
      (s : Secure) (h : Header) (bytes : Bytes) (random now : ℕ)
      → (Receive.dispatch C s h bytes random now).1 ≡ none
      → (Receive.dispatch C s h bytes random now).0 ≡ s
  unfolding Receive.dispatch
  dispatch_rejected s h bytes random now e =
      grind (arith, request_rejected s h.sender h.id bytes random now, session_rejected)

  -- A packet that is refused changes nothing but the global budget and the budget of the sender that
  -- it names: sessions are as expiry alone leaves them, and so are the ciphers, the replay windows and
  -- the counters, no peer is added or removed, and the budget of every other peer stays.
  pub receive_rejected :
      (s : Secure) (bytes : Bytes) (random now : ℕ)
      → (Receive.receive C s bytes random now).1 ≡ none
      → OnlyCharged
          (read_header bytes).sender
          (expire s now)
          (Receive.receive C s bytes random now).0
  unfolding Receive.receive
  receive_rejected s bytes random now e =
      let s' = expire s now in
      let h = read_header bytes in
      let (t, admitted) = charge s' h.kind h.sender now in
      let charged = charge-OnlyCharged s' h.kind h.sender now in
      elim (Bool-cases (Receive.well_formed C s' h (length bytes))) [
        | inl w ↦ elim (Bool-cases admitted) [
          | inl a ↦
              subst (OnlyCharged h.sender s')
                (ground (arith, dispatch_rejected t h bytes random now)) charged
          | inr a ↦ subst (OnlyCharged h.sender s') (ground arith) charged
        ]
        | inr w ↦ rw w (refl, λ k. (refl, inl refl))
      ]
