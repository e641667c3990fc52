-- ===== src/Secure/State.antt =====
-- The state of secure.go, its rate limiter, and the cryptographic libraries as a parameter.
-- A key or an ID is the number of its big-endian bytes, so that the all-zero value is 0 and
-- `bytes.Compare` is the order of numbers. A time is a number of nanoseconds; `time.Time{}` is 0.
use wireguard_mesh.Prelude.{
  ℕ, ◌+◌, ◌*◌, ◌-◌, Bool, true, false, Option, List, ltb, leb, if◌then◌else◌,
}
use wireguard_mesh.Prelude.Bytes.{Bytes}

-- The number of nanoseconds in a second.
abbrev pub second : ℕ
second = 1000000000

abbrev pub secure_header_n : ℕ
secure_header_n = 90

abbrev pub secure_max_size : ℕ
secure_max_size = 512

-- The nonce of XChaCha20-Poly1305 has 24 bytes, and its tag 16.
abbrev pub nonce_size : ℕ
nonce_size = 24

abbrev pub overhead : ℕ
overhead = 16

abbrev pub secure_inner_max_size : ℕ
secure_inner_max_size = secure_max_size - nonce_size - overhead - 2

abbrev pub secure_envelope_budget : ℕ
secure_envelope_budget = 128 * 1024

abbrev pub secure_request : ℕ
secure_request = 1

abbrev pub secure_reply : ℕ
secure_reply = 2

abbrev pub secure_data : ℕ
secure_data = 3

abbrev pub secure_session_lifetime : ℕ
secure_session_lifetime = 600 * second

pub record SecureRate : Type 0 where
  pub until : ℕ
  pub used : ℕ

unfoldable pub allow : SecureRate → ℕ → ℕ → SecureRate × Bool
allow r now limit =
    let r' = if ltb now r.until then r else record { until = now + second; used = 0 } in
    if leb limit r'.used then (r', false) else (record r' { used = r'.used + 1 }, true)

pub record SecureEnvelope : Type 0 where
  pub tx : ℕ
  pub rx : ℕ

-- `tx` and `rx` are nil until the handshake ends; a nil `[]byte` is the empty list.
pub record SecureSession : Type 0 where
  pub peer : ℕ
  pub seed : ℕ
  pub tx : Option ℕ
  pub rx : Option ℕ
  pub next : ℕ
  pub highest : ℕ
  pub window : ℕ
  pub expires : ℕ
  pub unused_since : ℕ
  pub ready : Bool

pub record SecureEvent : Type 0 where
  pub peer : ℕ
  pub id : ℕ
  pub body : Bytes
  pub reply : Bytes
  pub ready : Bool

-- `limits` is the source's map `peers`.
pub record Secure : Type 0 where
  pub private : ℕ
  pub public : ℕ
  pub limits : List (ℕ × SecureRate)
  pub sessions : List (ℕ × SecureSession)
  pub global : SecureRate
  pub ids : Option ℕ
  pub serial : ℕ
  pub envelopes : List (ℕ × SecureEnvelope)
  pub open_rate : SecureRate

-- The configuration that `handshake` hands to the Noise library. `random` is what the reader
-- yields: the stored seed on the initiator's side, fresh bytes on the responder's.
pub record HandshakeConfig : Type 0 where
  pub initiator : Bool
  pub prologue : Bytes
  pub private : ℕ
  pub public : ℕ
  pub peer_static : Option ℕ
  pub random : ℕ

-- What a step of a handshake returns: the message or its payload, the state after it, and the two
-- ciphers of the split.
pub record HandshakeStep : Type 0 where
  pub bytes : Bytes
  pub state : ℕ
  pub c1 : ℕ
  pub c2 : ℕ

-- Libraries outside the repository: X25519 with HKDF (`derive`), the envelope's AEAD, AES, and
-- Noise. The opaque values that the code only passes back to them are numbers; `none` is an error.
pub record Crypto : Type 0 where
  pub public_key : ℕ → ℕ
  pub derive : ℕ → ℕ → ℕ → ℕ → Option ℕ
  pub envelope_seal : ℕ → Bytes → Bytes → Bytes
  pub envelope_open : ℕ → Bytes → Bytes → Option Bytes
  pub new_aes : ℕ → Option ℕ
  pub aes_encrypt : ℕ → ℕ → ℕ
  pub new_handshake : HandshakeConfig → Option ℕ
  pub write_message : ℕ → Option HandshakeStep
  pub read_message : ℕ → Bytes → Option HandshakeStep
  pub peer_static : ℕ → ℕ
  pub encrypt : ℕ → ℕ → Bytes → Bytes → Bytes
  pub decrypt : ℕ → ℕ → Bytes → Bytes → Option Bytes
  pub max_nonce : ℕ
  pub secure_domain : Bytes
