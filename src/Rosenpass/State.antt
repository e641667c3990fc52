-- ===== src/Rosenpass/State.antt =====
-- The state of the adapter, its answers, and what it asks of the system (rosenpass.go, rosenpass_linux.go).
use wireguard_mesh.Prelude.{ℕ, ◌+◌, ◌*◌, Bool, not, ◌&&◌, ◌||◌, ◌==◌, ltb, Option, List}
use wireguard_mesh.Netip.{Addr, Prefix, same_addr, same_prefix}
use wireguard_mesh.Network.State.{Interface, LinkAddr}

abbrev pub second : ℕ
second = 1000000000

abbrev pub rosenpass_lifetime : ℕ
rosenpass_lifetime = 180 * second

pub record RosenpassRequest : Type 0 where
  pub peer : ℕ
  pub address : Addr
  pub link : LinkAddr

-- times are nanoseconds, 0 being the zero time
pub record Status : Type 0 where
  pub instance_name : ℕ
  pub generation : ℕ
  pub key_generation : ℕ
  pub hash : ℕ
  pub expires : ℕ
  pub valid : Bool

-- `child` is the address of the process's record
pub record RosenpassChild : Type 0 where
  pub address : ℕ
  pub generation : ℕ

-- `published` is the key in the key file; `failed` says that `err` is set, `starts` and `calls` count.
pub record RosenpassAdapter : Type 0 where
  pub child : Option RosenpassChild
  pub status : Status
  pub last_hash : ℕ
  pub endpoint : RosenpassRequest
  pub retry_after : ℕ
  pub failed : Bool
  pub published : Option ℕ
  pub starts : ℕ
  pub calls : ℕ

-- Answers from the system, by the number of the call: the interface of an index with its addresses, the
-- removal of the key file, whether a child has ended, whether a killed child ends in a second and its
-- files are removed, the start of a child, the key in a child's raw file, the time of that file, and the
-- writing of the key file. `sha256` is the hash.
pub record System : Type 0 where
  pub interface : ℕ → Option (Interface × List Prefix)
  pub remove : ℕ → Bool
  pub ended : ℕ → Bool
  pub stopped : ℕ → Bool
  pub cleaned : ℕ → Bool
  pub start : ℕ → Bool
  pub raw_key : ℕ → Option ℕ
  pub mod_time : ℕ → Option ℕ
  pub publish : ℕ → Bool
  pub sha256 : ℕ → ℕ

abbrev pub same_link : LinkAddr → LinkAddr → Bool
same_link a b =
    a.index == b.index
    && a.name == b.name
    && same_prefix a.prefix b.prefix
    && same_addr a.broadcast b.broadcast
    && (a.multicast && b.multicast || not a.multicast && not b.multicast)

abbrev pub same_request : RosenpassRequest → RosenpassRequest → Bool
same_request a b = a.peer == b.peer && same_addr a.address b.address && same_link a.link b.link

-- the check of a status in `queryRosenpass`
abbrev pub status_ok : ℕ → Status → Bool
status_ok now r =
    not (r.instance_name == 0)
    && not (
        r.valid
        && (r.generation == 0
            || r.key_generation == 0
            || r.hash == 0
            || not (ltb now r.expires)
            || ltb (now + rosenpass_lifetime) r.expires))
