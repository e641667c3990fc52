-- ===== src/Mesh/State.antt =====
-- The data of mesh.go: configuration, links, paths, peers, messages.
-- Keys are numbers in the order of `bytes.Compare`; a time or a duration is a number of
-- nanoseconds, `time.Time{}` is 0, and `now.Sub(t)` is `now - t`, which is 0 where `t` is later.
-- A text (token or proof) is a number that stands for it, "" being 0: the code only compares them.
use wireguard_mesh.Prelude.{ℕ, Bool, true, false, Option, List}
pub use wireguard_mesh.Netip.{Addr, AddrPort, is4, is6, is_link_local_unicast}

-- `link` names an interface with one of its addresses (`linkAddr`): links are compared as a whole.
pub record Config : Type 0 where
  pub window : ℕ
  pub probe : ℕ
  pub failure : ℕ
  pub cooldown : ℕ
  pub min_gain : ℕ
  -- `float64(candidate) <= float64(baseline)*(1-c.Gain)`, which is floating point
  pub gain_kept : ℕ → ℕ → Bool

pub record Sample : Type 0 where
  pub at : ℕ
  pub rtt : ℕ

pub record Measurements : Type 0 where
  pub since : ℕ
  pub samples : List Sample

abbrev pub no_measurements : ℕ → Measurements
no_measurements since = record { since = since; samples = List.[] }

pub record MeshPath : Type 0 where
  pub link : ℕ
  pub addr : AddrPort
  pub session : ℕ
  pub incoming : ℕ
  pub port : ℕ
  pub last_pong : ℕ
  pub stats : Measurements

-- the texts "", "prepare", "prepared", "trial" and "active"
pub data Phase : Type 0 where
  idle prepare prepared trial active : Phase

abbrev pub is_idle : Phase → Bool
is_idle idle = true
is_idle _ = false

abbrev pub is_prepare : Phase → Bool
is_prepare prepare = true
is_prepare _ = false

abbrev pub is_prepared : Phase → Bool
is_prepared prepared = true
is_prepared _ = false

abbrev pub is_trial : Phase → Bool
is_trial trial = true
is_trial _ = false

abbrev pub is_active : Phase → Bool
is_active active = true
is_active _ = false

-- The operations of a message; `rekey_other` is any other text that begins with "rekey-".
pub data Op : Type 0 where
  ping pong prepare ready commit committed keep hold abort rosenpass_select : Op
  rekey_offer rekey_ready rekey_commit rekey_applied rekey_observed rekey_finished : Op
  rekey_other other : ℕ → Op

pub record Message : Type 0 where
  pub op : Op
  pub token : ℕ
  pub port : ℕ
  pub proof : ℕ
  pub rekey : Bool

-- A probe that waits for its pong; `path` is none for a probe through the tunnel.
pub record Probe : Type 0 where
  pub path : Option ℕ
  pub at : ℕ
  pub session : ℕ
  pub multicast : Bool
  pub measure : Bool

-- A `*path` is the number of a cell, so that two pointers are equal as in the source.
pub record RouteProposal : Type 0 where
  pub path : ℕ
  pub phase : Phase
  pub token : ℕ
  pub since : ℕ
  pub baseline : ℕ
  pub remote_rekey : Bool

pub record RouteState : Type 0 where
  pub selected : Option ℕ
  pub phase : Phase
  pub trial : ℕ
  pub since : ℕ
  pub resumed : ℕ
  pub baseline : ℕ
  pub local_good : Bool
  pub remote_good : Bool
  pub committed : Bool
  pub remote_rekey : Bool
  pub tunnel : Measurements
  pub last_tunnel : ℕ
  pub remote_at : ℕ

pub data RekeyPhase : Type 0 where
  waiting offer prepared observing : RekeyPhase

pub record PskTransition : Type 0 where
  pub key : ℕ
  pub phase : RekeyPhase
  pub token : ℕ
  pub since : ℕ
  pub applied_at : ℕ
  pub handshake : ℕ
  pub finished_at : ℕ
  pub remote_applied : Bool
  pub remote_observed : ℕ

-- The configured facts that the event loop reads; the two flags say that a file and a socket
-- are configured.
pub record PeerSpec : Type 0 where
  pub key : ℕ
  pub ip : Addr
  pub psk : ℕ
  pub preshared_key_file : Bool
  pub rosenpass_socket : Bool
  pub experimental_rekey : Bool

pub record RosenpassResponse : Type 0 where
  pub instance_name : ℕ
  pub generation : ℕ
  pub key_generation : ℕ
  pub hash : ℕ
  pub expires : ℕ
  pub valid : Bool

abbrev pub no_response : RosenpassResponse
no_response = record {
  instance_name = 0;
  generation = 0;
  key_generation = 0;
  hash = 0;
  expires = 0;
  valid = false;
}

-- `paths` maps the name of a path to its cell, and `cell` is the memory behind the pointers.
pub record MeshPeer : Type 0 where
  pub route : RouteState
  pub spec : PeerSpec
  pub psk_valid : Bool
  pub psk_log_after : ℕ
  pub psk_status : RosenpassResponse
  pub rosenpass_path : Option ℕ
  pub rosenpass_token : ℕ
  pub rekey : Option PskTransition
  pub completed_rekey : Option PskTransition
  pub paths : List (ℕ × ℕ)
  pub cell : ℕ → MeshPath
  pub pending : List (ℕ × Probe)
  pub replacement : Option RouteProposal
  pub previous : Option RouteState
  pub cooldown : ℕ
  pub retired : List (ℕ × ℕ)
  pub retired_until : ℕ
