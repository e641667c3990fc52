-- ===== src/Secure/Roundtrip.antt =====
-- What `wrap` hides, `unwrap` finds again (secure.go).
use wireguard_mesh.Prelude.{
  ℕ, suc, ◌+◌, ◌-◌, ◌<◌, ◌≤◌, ◌≡◌, refl, true, none, some, List, [], ◌∷◌, ◌++◌, arith, length, take,
  drop, replicate, all, lookup, ltb, if◌then◌else◌, ◌==◌, All, length-append, take-append,
  drop-append, length-replicate, ap, ◌∙◌, zero, sym,
}
use mathlib.Core.List.{append_assoc}
use wireguard_mesh.Prelude.Bytes.{Bytes, be, of_be, length-be, of_be-be}
use wireguard_mesh.Secure.State.{
  Crypto, Secure, SecureRate, SecureEnvelope, allow, secure_inner_max_size, secure_envelope_budget,
  secure_header_n, nonce_size, secure_max_size,
}
use wireguard_mesh.Secure.Header.{slice}
use wireguard_mesh.Secure.Envelope.{padded, unpadded, try_open, wrap, unwrap}

all-replicate : (n : ℕ) → all (λ b. b == 0) (replicate n 0) ≡ true
all-replicate zero = refl
all-replicate (suc n) = all-replicate n

unpadded_lem :
    (public peer : ℕ) (plain inner : Bytes)
    → secure_header_n ≤ length inner
    → length inner ≤ secure_inner_max_size
    → of_be (slice 2 34 inner) ≡ peer
    → of_be (slice 34 66 inner) ≡ public
    → of_be (take 2 plain) ≡ length inner
    → take (length inner) (drop 2 plain) ≡ inner
    → all (λ b. b == 0) (drop (2 + length inner) plain) ≡ true
    → unpadded public peer plain ≡ some inner
unfolding unpadded
unpadded_lem public peer plain inner low high p q n body zeros =
    rw n (rw body (rw zeros (ground arith)))

-- `unwrap`'s checks give back a packet that `wrap` padded, where its size is one that `wrap` takes
-- and its header names these two keys.
pub unpadded-padded :
    (public peer : ℕ) (inner : Bytes)
    → secure_header_n ≤ length inner
    → length inner ≤ secure_inner_max_size
    → of_be (slice 2 34 inner) ≡ peer
    → of_be (slice 34 66 inner) ≡ public
    → unpadded public peer (padded inner) ≡ some inner
unfolding unpadded padded
unpadded-padded public peer inner low high p q =
    let n = length inner in
    let zeros : Bytes = replicate (secure_inner_max_size - n) 0 in
    let two = length-be 2 n in
    unpadded_lem public peer (padded inner) inner low high p q
      (ap of_be (take-append 2 (be 2 n) (inner ++ zeros) two) ∙ of_be-be 2 n (omega arith))
      (ap (take n) (drop-append 2 (be 2 n) (inner ++ zeros) two) ∙ take-append n inner zeros refl)
      (ap (λ (t : Bytes). all (λ b. b == 0) (drop (2 + n) t))
          (sym (append_assoc (be 2 n) inner zeros))
        ∙ ap (all (λ b. b == 0)) (
            drop-append (2 + n) (be 2 n ++ inner) zeros
              (omega (arith, length-append (be 2 n) inner, two)))
        ∙ all-replicate (secure_inner_max_size - n))

-- The attempts that are left in this window.
abbrev pub budget_left : SecureRate → ℕ → ℕ
budget_left rate now =
    if ltb now rate.until then secure_envelope_budget - rate.used else secure_envelope_budget

length-padded :
    (inner : Bytes)
    → length inner ≤ secure_inner_max_size
    → length (padded inner) ≡ secure_inner_max_size + 2
unfolding padded
length-padded inner h =
    let n = length inner in
    let zeros : Bytes = replicate (secure_inner_max_size - n) 0 in
    omega (
      arith,
      length-append {A = ℕ} (be 2 n) (inner ++ zeros),
      length-append {A = ℕ} inner zeros,
      length-be 2 n,
      length-replicate {A = ℕ} (secure_inner_max_size - n) 0,
    )

module _ (C : Crypto) where
  wrapped :
      (s : Secure) (peer : ℕ) (inner nonce wire : Bytes) (sent : SecureEnvelope)
      → lookup peer s.envelopes ≡ some sent
      → wrap C s peer inner (some nonce) ≡ some wire
      → (secure_header_n ≤ length inner)
        × (length inner ≤ secure_inner_max_size)
        × (wire ≡ nonce ++ C.envelope_seal sent.tx nonce (padded inner))
  unfolding wrap
  wrapped s peer inner nonce wire sent l w = ground arith

  -- The envelopes in the list do not open the packet.
  abbrev pub AllFail : Bytes → List (ℕ × SecureEnvelope) → Type 0
  AllFail bytes =
      All (λ e. C.envelope_open e.1.rx (take nonce_size bytes) (drop nonce_size bytes) ≡ none)

  try_open_found :
      (public : ℕ) (bytes : Bytes) (now : ℕ) (before : List (ℕ × SecureEnvelope)) (peer : ℕ)
      (envelope : SecureEnvelope) (after : List (ℕ × SecureEnvelope)) (rate : SecureRate)
      (plain : Bytes)
      → AllFail bytes before
      → C.envelope_open envelope.rx (take nonce_size bytes) (drop nonce_size bytes) ≡ some plain
      → length before < budget_left rate now
      → (try_open C public bytes now (before ++ ((peer, envelope) ∷ after)) rate).1
        ≡ unpadded public peer plain
  unfolding try_open allow
  try_open_found public bytes now [] peer envelope after rate plain f o l = ground arith
  try_open_found public bytes now (e ∷ before) peer envelope after rate plain f o l = ground (
    arith,
    try_open_found public bytes now before peer envelope after
        (allow rate now secure_envelope_budget).0 plain f.1 o,
  )

  -- A packet that one node wraps for another is opened there, whatever other peers the receiver
  -- knows, where the two hold the two ends of one cipher, the packet's header names them, no earlier
  -- envelope opens the packet, and the budget of this second is not used up by them.
  pub unwrap-wrap :
      (s t : Secure) (inner nonce wire : Bytes) (now : ℕ) (sent : SecureEnvelope)
      (before : List (ℕ × SecureEnvelope)) (held : SecureEnvelope)
      (after : List (ℕ × SecureEnvelope))
      → ((plain : Bytes)
          → C.envelope_open held.rx nonce (C.envelope_seal sent.tx nonce plain) ≡ some plain)
      → ((plain : Bytes) → length (C.envelope_seal sent.tx nonce plain) ≡ length plain + 16)
      → length nonce ≡ nonce_size
      → lookup t.public s.envelopes ≡ some sent
      → t.envelopes ≡ before ++ ((s.public, held) ∷ after)
      → of_be (slice 2 34 inner) ≡ s.public
      → of_be (slice 34 66 inner) ≡ t.public
      → wrap C s t.public inner (some nonce) ≡ some wire
      → AllFail wire before
      → length before < budget_left t.open_rate now
      → (unwrap C t wire now).1 ≡ some inner
  unfolding wrap unwrap
  unwrap-wrap s t inner nonce wire now sent before held after opens grows n l e p q w f b =
      let sealed = C.envelope_seal sent.tx nonce (padded inner) in
      let (low, high, same) = wrapped s t.public inner nonce wire sent l w in
      let front : take nonce_size wire ≡ nonce =
        ap (take nonce_size) same ∙ take-append nonce_size nonce sealed n in
      let rest : drop nonce_size wire ≡ sealed =
        ap (drop nonce_size) same ∙ drop-append nonce_size nonce sealed n in
      let size : length wire ≡ secure_max_size =
        ap length same
        ∙ omega (
          arith,
          length-append nonce sealed,
          grows (padded inner),
          length-padded inner high,
          n,
        ) in
      let opened : C.envelope_open held.rx (take nonce_size wire) (drop nonce_size wire)
          ≡ some (padded inner) =
        rw (front, rest) (opens (padded inner)) in
      ground (
        arith,
        try_open_found t.public wire now before s.public held after t.open_rate (padded inner),
        unpadded-padded t.public s.public inner low high p q,
      )
