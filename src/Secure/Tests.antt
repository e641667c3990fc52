-- ===== src/Secure/Tests.antt =====
-- Concrete packets, sessions and a toy cipher, for the packet layer (secure.go).
use wireguard_mesh.Prelude.{
  ℕ, ◌+◌, ◌*◌, ◌-◌, ◌^◌, ◌≡◌, refl, true, ◌==◌, Option, none, some, [], ◌∷◌, ◌++◌, arith, length,
  drop, replicate, if◌then◌else◌, if◌then◌else◌,
}
use wireguard_mesh.Prelude.Bytes.{Bytes, be, of_be}
use wireguard_mesh.Prelude.Bits.{test_bit, set_bit, shift_left}
use wireguard_mesh.Secure.State.{
  Crypto, Secure, SecureSession, SecureEvent, SecureRate, HandshakeStep, allow, secure_data,
}
use wireguard_mesh.Secure.Window.{replayed, commit_window, accepted, NoRepeat, accepted-NoRepeat}
use wireguard_mesh.Secure.Header.{secure_header, read_header, read_header-secure_header, slice}
use wireguard_mesh.Secure.Sessions.{IsBounded, expire, prune, room}
use wireguard_mesh.Secure.Start
use wireguard_mesh.Secure.Receive
use wireguard_mesh.Secure.Seal.{seal, sealable}
use wireguard_mesh.Secure.Envelope.{Call, padded, unpadded, wrap, try_open, unwrap, new_secure, run}
use wireguard_mesh.Secure.Bounds.{run-IsBounded}
use wireguard_mesh.Secure.Replay.{receive_once}
use wireguard_mesh.Secure.Forgery.{OnlyCharged, receive_rejected}
use wireguard_mesh.Secure.Nonces.{sealed_packets}
use wireguard_mesh.Secure.Roundtrip.{unpadded-padded, unwrap-wrap}
use wireguard_mesh.Secure.Serials.{StartCall, started_ids, started_ids-NoRepeat}
use wireguard_mesh.Secure.Rates.{granted, granted_window}

-- A cipher that writes its key 16 times, before a text that it does not hide.
abbrev toy_seal : ℕ → Bytes → Bytes
toy_seal key plain = replicate 16 key ++ plain

abbrev toy_open : ℕ → Bytes → Option Bytes
toy_open key [] = none
toy_open key (k ∷ rest) = if k == key then some (drop 15 rest) else none

abbrev toy_step : ℕ → ℕ → Bytes → HandshakeStep
toy_step state n bytes = record { bytes = bytes; state = state; c1 = 8; c2 = 9 }

abbrev toy : Crypto
toy = record {
  public_key = λ key. key;
  derive = λ private peer a b. some (1000 * a + b);
  envelope_seal = λ key nonce plain. toy_seal key plain;
  envelope_open = λ key nonce bytes. toy_open key bytes;
  new_aes = λ key. some key;
  aes_encrypt = λ key serial. serial + 100;
  new_handshake = λ config. some 5;
  write_message = λ state. some (toy_step state 96 (replicate 96 0));
  read_message = λ state bytes. some (toy_step state 0 []);
  peer_static = λ state. 2;
  encrypt = λ key n header plain. toy_seal key plain;
  decrypt = λ key n header bytes. toy_open key bytes;
  max_nonce = 2 ^ 64 - 2;
  secure_domain = [];
}

abbrev rate : SecureRate
rate = record { until = 0; used = 0 }

abbrev session : SecureSession
session = record {
  peer = 2;
  seed = 0;
  tx = some 9;
  rx = some 8;
  next = 4;
  highest = 3;
  window = 5;
  expires = 700;
  unused_since = 0;
  ready = true;
}

-- node 1, which has the session 7 with node 2
abbrev node : Secure
node = record {
  private = 1;
  public = 1;
  limits = (2, rate) ∷ [];
  sessions = (7, session) ∷ [];
  global = rate;
  ids = none;
  serial = 0;
  envelopes = (2, record { tx = 1002; rx = 2001 }) ∷ [];
  open_rate = rate;
}

abbrev other : Secure
other = record node {
  private = 2;
  public = 2;
  envelopes = (3, record { tx = 2003; rx = 3002 }) ∷ (1, record { tx = 2001; rx = 1002 }) ∷ [];
}

abbrev header : ℕ → Bytes
header n = secure_header secure_data 2 1 7 n

abbrev packet : ℕ → ℕ → Bytes
packet key n = header n ++ toy_seal key (42 ∷ [])

abbrev delivered : SecureEvent
delivered = record { peer = 2; id = 7; body = 42 ∷ []; reply = []; ready = true }

-- A definition that names this on its `unfolding` line computes with the packet layer.
unfoldable packets_run : Unit {0}
unfolding allow replayed commit_window secure_header read_header be of_be test_bit set_bit
    shift_left expire prune room Start.prologue Start.handshake Start.id_cipher Start.start_session
    Start.start Receive.charge Receive.readied Receive.finish Receive.open_data Receive.well_formed
    Receive.receive_request Receive.open_reply Receive.receive_session Receive.dispatch
    Receive.receive sealable seal padded unpadded wrap try_open unwrap accepted
packets_run = tt

session-IsBounded : IsBounded node.sessions
session-IsBounded = record {
  total = omega arith;
  shares = λ peer. ground arith;
  distinct = (refl, tt);
}

kind_of : (read_header (packet 8 4)).kind ≡ secure_data
unfolding packets_run
kind_of = refl

kind_between : (read_header (packet 8 5)).kind ≡ secure_data
unfolding packets_run
kind_between = refl

delivered_once : (Receive.receive toy node (packet 8 4) 0 100).1 ≡ some delivered
unfolding packets_run
delivered_once = refl

receive_once_example :
    (Receive.receive toy
      (Receive.receive toy (Receive.receive toy node (packet 8 4) 0 100).0 (packet 8 5) 0 110).0
      (packet 8 4)
      0
      120).1
    ≡ none
receive_once_example =
    receive_once toy node (packet 8 4) 0 100 delivered ((packet 8 5, 0, 110) ∷ []) 0 120
      session-IsBounded kind_of (kind_between, tt) delivered_once

run-IsBounded_example :
    IsBounded
      (run toy (new_secure toy 1 (2 ∷ [])) (
        Call.start 2 (some 6) (some 4) (some (replicate 24 0)) 50 ∷ Call.prune [] 60 ∷ [])).sessions
run-IsBounded_example =
    run-IsBounded toy 1 (2 ∷ [])
      (Call.start 2 (some 6) (some 4) (some (replicate 24 0)) 50 ∷ Call.prune [] 60 ∷ [])

-- the start of a session succeeds
started : (Start.start toy node 2 (some 6) (some 4) 50).0.serial ≡ 1
unfolding packets_run
started = refl

-- both bodies are sealed
both_sealed : length (sealed_packets toy node 7 ((1 ∷ [], 100) ∷ (2 ∷ [], 110) ∷ [])) ≡ 2
unfolding packets_run sealed_packets
both_sealed = refl

forged : (Receive.receive toy node (packet 6 4) 0 100).1 ≡ none
unfolding packets_run
forged = refl

receive_rejected_example :
    OnlyCharged
      (read_header (packet 6 4)).sender
      (expire node 100)
      (Receive.receive toy node (packet 6 4) 0 100).0
receive_rejected_example = receive_rejected toy node (packet 6 4) 0 100 forged

accepted-NoRepeat_example : NoRepeat (accepted session (4 ∷ 9 ∷ 4 ∷ 2 ∷ 9 ∷ []))
accepted-NoRepeat_example = accepted-NoRepeat session (4 ∷ 9 ∷ 4 ∷ 2 ∷ 9 ∷ [])

taken : accepted session (4 ∷ 9 ∷ 4 ∷ 2 ∷ 9 ∷ []) ≡ 4 ∷ 9 ∷ 2 ∷ []
unfolding packets_run
taken = refl

read_header-secure_header_example :
    read_header (secure_header 3 2 1 7 4 ++ (42 ∷ []))
    ≡ record { version = 2; kind = 3; sender = 2; recipient = 1; id = 7; counter = 4 }
read_header-secure_header_example =
    read_header-secure_header 3 2 1 7 4 (42 ∷ []) (omega arith) (omega arith) (omega arith)
      (omega arith)

-- a packet of node 1 for node 2
abbrev outgoing : Bytes
outgoing = secure_header secure_data 1 2 7 4 ++ toy_seal 9 (42 ∷ [])

sender_of : of_be (slice 2 34 outgoing) ≡ 1
unfolding packets_run
sender_of = refl

recipient_of : of_be (slice 34 66 outgoing) ≡ 2
unfolding packets_run
recipient_of = refl

size_of : length outgoing ≡ 107
unfolding packets_run
size_of = refl

unpadded-padded_example : unpadded 2 1 (padded outgoing) ≡ some outgoing
unpadded-padded_example =
    unpadded-padded 2 1 outgoing (rw size_of (omega arith)) (rw size_of (omega arith)) sender_of
      recipient_of

abbrev wire : Bytes
wire = replicate 24 0 ++ toy_seal 1002 (padded outgoing)

wrapped_outgoing : wrap toy node 2 outgoing (some (replicate 24 0)) ≡ some wire
unfolding packets_run
wrapped_outgoing = refl

unwrap-wrap_example : (unwrap toy other wire 100).1 ≡ some outgoing
unwrap-wrap_example =
    unwrap-wrap toy node other outgoing (replicate 24 0) wire 100 (record { tx = 1002; rx = 2001 })
      ((3, record { tx = 2003; rx = 3002 }) ∷ []) (record { tx = 2001; rx = 1002 }) []
      (λ plain. refl) (λ plain. omega arith) refl refl refl sender_of recipient_of wrapped_outgoing
      (refl, tt) (omega arith)

granted_window_example : granted (record { until = 100; used = 6 }) 8 (10 ∷ 20 ∷ 30 ∷ []) ≡ 2
granted_window_example =
    granted_window (record { until = 100; used = 6 }) 8 (10 ∷ 20 ∷ 30 ∷ [])
      (omega arith, (omega arith, (omega arith, tt)))

abbrev first_start : StartCall
first_start = record { peer = 2; id_key = some 6; seed = some 4; now = 50 }

abbrev second_start : StartCall
second_start = record { peer = 2; id_key = none; seed = some 5; now = 60 }

given_ids : started_ids toy node (first_start ∷ second_start ∷ []) ≡ 101 ∷ 102 ∷ []
unfolding packets_run started_ids
given_ids = refl

started_ids-NoRepeat_example : NoRepeat (started_ids toy node (first_start ∷ second_start ∷ []))
started_ids-NoRepeat_example =
    started_ids-NoRepeat toy node (first_start ∷ second_start ∷ []) (omega arith)
      (λ cipher a b small small' e. omega (arith, e))
