-- ===== src/Rosenpass/Adapter.antt =====
-- The adapter's operations (`request`, `event`, `refresh`, `stop` and `invalidate` in rosenpass_linux.go).
use wireguard_mesh.Prelude.{
  ℕ, ◌+◌, Bool, true, false, not, ◌&&◌, ◌||◌, ◌==◌, ltb, leb, Option, none, some, List, is_none,
  if◌then◌else◌,
}
use wireguard_mesh.Prelude.Program.{
  ok, Program, pure, fail, ◌>>=◌, ◌>>◌, done, get, modify, require, ◌or◌,
}
use wireguard_mesh.Netip.{Prefix, is_valid, no_addr}
use wireguard_mesh.Network.State.{Interface}
use wireguard_mesh.Rosenpass.State.{
  second, rosenpass_lifetime, RosenpassRequest, Status, RosenpassChild, RosenpassAdapter, System,
  same_request,
}
use wireguard_mesh.Rosenpass.Link.{rosenpass_on_link}

abbrev pub A : Type 0 → Type 0
A = Program RosenpassAdapter

-- one more call to the system, and its answer
unfoldable pub ask_system : {B : Type 0} → (ℕ → B) → A B
ask_system answer s = (ok (answer s.calls), record s { calls = s.calls + 1 })

abbrev pub no_request : RosenpassRequest
no_request = record {
  peer = 0;
  address = no_addr;
  link = record {
    index = 0;
    name = 0;
    prefix = record { addr = no_addr; length = 0 };
    broadcast = no_addr;
    multicast = false;
  };
}

-- `parseRosenpassEvent`: other lines, those that are not understood, and the two that are
pub data RosenpassEvent : Type 0 where
  other invalid stale exchanged : RosenpassEvent

abbrev pub cleared : Status → Status
cleared r = record r { valid = false; hash = 0; expires = 0 }

abbrev pub is_child : Option RosenpassChild → RosenpassChild → Bool
is_child none c = false
is_child (some d) c = d.address == c.address

-- `publishRosenpassPSK`, and the new status
abbrev pub publish : ℕ → ℕ → ℕ → RosenpassAdapter → RosenpassAdapter
publish key hash expires s = record s {
  published = some key;
  last_hash = hash;
  status = record s.status {
    key_generation = s.status.key_generation + 1;
    hash = hash;
    expires = expires;
    valid = true;
  };
}

-- the earlier one of the event's and the file's time, with the lifetime of a key
abbrev pub expiry : ℕ → ℕ → ℕ
expiry at written =
    if ltb (written + rosenpass_lifetime) (at + rosenpass_lifetime)
    then written + rosenpass_lifetime
    else at + rosenpass_lifetime

module _ (S : System) where
  -- the withdrawal of the key, whatever comes of the file
  unfoldable pub withdraw : A (Unit {0})
  withdraw = do
    removed ← ask_system S.remove
    modify (λ s. record s {
      status = cleared s.status;
      published = if removed then none else s.published;
      failed = s.failed || not removed;
    })

  -- `a.err`
  unfoldable pub check_err : A (Unit {0})
  check_err = do s ← get; require (not s.failed)

  unfoldable pub invalidate : A (Unit {0})
  invalidate = withdraw >> check_err

  unfoldable pub clean : Bool → A (Unit {0})
  clean false = modify (λ s. record s { failed = true })
  clean true = do
    cleaned ← ask_system S.cleaned
    modify (λ s. record s { failed = s.failed || not cleaned })

  unfoldable pub reap : Option RosenpassChild → A (Unit {0})
  reap none = done
  reap (some c) = do stopped ← ask_system S.stopped; clean stopped

  unfoldable pub stop : A (Unit {0})
  stop = do withdraw; s ← get; modify (λ t. record t { child = none }); reap s.child; check_err

  unfoldable pub child_ended : Option RosenpassChild → A Bool
  child_ended none = pure false
  child_ended (some c) = ask_system S.ended

  abbrev pub is_expired : ℕ → RosenpassAdapter → Bool
  is_expired now s = s.status.valid && (is_none s.child || leb s.status.expires now)

  unfoldable pub refresh : ℕ → A (Unit {0})
  refresh now = do
    s ← get
    ended ← child_ended s.child
    if ended then stop else if is_expired now s then invalidate else check_err

  -- the endpoint changes
  unfoldable pub move_to : RosenpassRequest → Bool → A (Unit {0})
  move_to r true = done
  move_to r false = do stop; modify (λ s. record s { endpoint = r; retry_after = 0 })

  abbrev pub starting : ℕ → RosenpassAdapter → RosenpassAdapter
  starting now s = record s {
    status = record s.status { generation = s.status.generation + 1 };
    last_hash = 0;
    retry_after = now + second;
    starts = s.starts + 1;
  }

  unfoldable pub start_child : ℕ → Bool → A (Unit {0})
  start_child now false = done
  start_child now true = do
    modify (starting now)
    started ← ask_system S.start
    require started
    modify (λ s. record s {
      child = some (record { address = s.starts; generation = s.status.generation });
    })

  unfoldable pub request_valid : Option RosenpassRequest → ℕ → A Status
  request_valid none now = (stop or done) >> fail
  request_valid (some r) now = do
    refresh now
    s ← get
    move_to r (same_request r s.endpoint)
    t ← get
    start_child now (is_none t.child && leb t.retry_after now)
    u ← get
    pure u.status

  abbrev pub on_interface :
      RosenpassRequest → Option (Interface × List Prefix) → Option RosenpassRequest
  on_interface r none = none
  on_interface r (some found) = rosenpass_on_link r found.0 found.1

  -- `request`; `peer` is the one of the configuration
  unfoldable pub request : ℕ → RosenpassRequest → ℕ → A Status
  request peer r now =
      if not (r.peer == peer)
      then fail
      else if not (is_valid r.address)
      then (do modify (λ s. record s { endpoint = no_request }); stop; s ← get; pure s.status)
      else (do found ← ask_system S.interface; request_valid (on_interface r found) now)

  unfoldable pub publish_key : ℕ → ℕ → Option ℕ → A (Unit {0})
  publish_key at key none = invalidate
  publish_key at key (some written) = if not (ltb at (expiry at written)) then invalidate else (do
    published ← ask_system S.publish
    if published then modify (publish key (S.sha256 key) (expiry at written)) else invalidate)

  -- a key that was published before is not published again
  unfoldable pub publish_new : ℕ → ℕ → Bool → A (Unit {0})
  publish_new at key true = done
  publish_new at key false = do written ← ask_system S.mod_time; publish_key at key written

  unfoldable pub exchange : ℕ → Option ℕ → A (Unit {0})
  exchange at none = invalidate
  exchange at (some key) = do s ← get; publish_new at key (S.sha256 key == s.last_hash)

  unfoldable pub handle_event : RosenpassEvent → ℕ → A (Unit {0})
  handle_event other at = done
  handle_event invalid at = stop
  handle_event stale at = stop
  handle_event exchanged at = do key ← ask_system S.raw_key; exchange at key

  -- `event`; its errors stay in the state
  unfoldable pub event : RosenpassChild → RosenpassEvent → ℕ → A (Unit {0})
  event c e at = do
    s ← get
    require (is_child s.child c && c.generation == s.status.generation)
    refresh at
    t ← get
    require (is_child t.child c)
    handle_event e at

  unfoldable pub stop_if : Bool → A (Unit {0})
  stop_if true = stop
  stop_if false = done

  -- the end of a child's process, in `startProcess`
  unfoldable pub exited : RosenpassChild → A (Unit {0})
  exited c = do s ← get; stop_if (is_child s.child c)
