-- ===== src/Control/State.antt =====
-- The journal of the controller, the device that it reads, and what it asks of them (control.go).
-- A key is its number, 0 being the zero key, and stands for its text in the journal: `ParseKey` and
-- `String` are inverse on the texts that `newController` accepts. A hash is a number.
use wireguard_mesh.Prelude.{ℕ, Bool, true, false, Option, List}
use wireguard_mesh.Netip.{Addr, AddrPort, Prefix}

-- `unknown` is any other text that a journal file can hold
pub data ControlPhase : Type 0 where
  planning adding active rekeying restoring aborting : ControlPhase
  unknown : ℕ → ControlPhase

pub record ControlPeer : Type 0 where
  pub ip : Addr
  pub owner : ℕ
  pub prefix : Prefix
  pub psk_hash : ℕ
  pub phase : ControlPhase
  pub next_psk_hash : Option ℕ

abbrev pub Journal : Type 0
Journal = List (ℕ × ControlPeer)

-- `wgtypes.Peer`. An allowed IP is what `netip.ParsePrefix` makes of its text, none for an error;
-- the protocol version is 0, 1, or 2 for any other number.
pub record DevicePeer : Type 0 where
  pub public_key : ℕ
  pub preshared_key : ℕ
  pub allowed_ips : List (Option Prefix)
  pub persistent_keepalive : ℕ
  pub protocol_version : ℕ
  pub last_handshake_time : ℕ

pub record Device : Type 0 where
  pub public_key : ℕ
  pub private_key : ℕ
  pub listen_port : ℕ
  pub peers : List DevicePeer

-- The four configurations that the controller writes, each of one peer: a new peer with its key, its
-- address and its endpoint; a new endpoint, a new key, or a new address for a peer that is there
-- (`UpdateOnly`); and the removal of a peer.
pub data Change : Type 0 where
  add : ℕ → ℕ → Addr → AddrPort → Change
  set_endpoint : ℕ → AddrPort → Change
  set_key : ℕ → ℕ → Change
  set_host : ℕ → Addr → Change
  remove : ℕ → Change

-- Answers from outside, each to the call of this number: the device, if it can be read; whether a
-- configuration, or the writing of the journal, reports success. A journal file that was reported as
-- failed may or may not be in place. `sha256` is the hash.
pub record Outside : Type 0 where
  pub device : ℕ → Option Device
  pub configure : ℕ → Bool
  pub save : ℕ → Bool
  pub sha256 : ℕ → ℕ

-- What the controller does: it has read a device of its own identity; it has configured the device;
-- it has written the journal; it was started with a journal that a file held.
pub data Effect : Type 0 where
  inspected : Device → Effect
  configured : Change → Bool → Effect
  saved : Journal → Bool → Effect
  started : Journal → Effect

-- `effects` has the latest first.
pub record State : Type 0 where
  pub journal : Journal
  pub calls : ℕ
  pub effects : List Effect

abbrev pub is_planning : ControlPhase → Bool
is_planning planning = true
is_planning _ = false

abbrev pub is_adding : ControlPhase → Bool
is_adding adding = true
is_adding _ = false

abbrev pub is_active : ControlPhase → Bool
is_active active = true
is_active _ = false

abbrev pub is_rekeying : ControlPhase → Bool
is_rekeying rekeying = true
is_rekeying _ = false

abbrev pub is_restoring : ControlPhase → Bool
is_restoring restoring = true
is_restoring _ = false

abbrev pub is_aborting : ControlPhase → Bool
is_aborting aborting = true
is_aborting _ = false
