-- ===== src/Mesh/Tests.antt =====
-- A concrete mesh with one peer, for the event loop (mesh.go and psk.go).
use wireguard_mesh.Prelude.{
  ℕ, zero, suc, ◌<◌, ◌++◌, ◌+◌, ◌*◌, ◌-◌, ◌≤◌, ◌≡◌, ◌⊎◌, refl, true, false, none, some, List, [],
  ◌∷◌, arith, length, lookup, leb, All,
}
use wireguard_mesh.Secure.State.{second}
use wireguard_mesh.Mesh.State.{
  AddrPort, Config, Sample, Measurements, MeshPath, idle, abort, is_idle, trial, Op, is_active,
  Message, RouteState, MeshPeer, no_response,
}
use wireguard_mesh.Mesh.Monad.{Mesh, World, State, err, ok, restored, ◌>>◌, effects_run}
use wireguard_mesh.Mesh.Measure.{add, insert_sorted, sort, recent, needed, median, improves, fresh}
use wireguard_mesh.Mesh.Command.{
  retired_after, retired_until_after, retire_token, psk_proof, check_psk_proof, path_command,
  command, cancel_replacement,
}
use wireguard_mesh.Mesh.Restore.{forget_route, restore_route, restore}
use wireguard_mesh.Mesh.Psk.{
  drop_previous, new_transition, is_settled, may_rekey, replace_key, begin_rekey, change_key,
  poll_valid, poll_read, read_peer_psk, poll_psk,
}
use wireguard_mesh.Mesh.Apply.{
  begin_trial, resume_previous, set_endpoint, preflight, switch, apply_replacement, apply_first,
  apply_checked, apply, reset_endpoint, rollback_path, rollback_previous, rollback_route, rollback,
}
use wireguard_mesh.Mesh.Coordinate.{
  qualified, accept_proposal, answer_qualified, answer_prepare, replacement_commit,
  replacement_switch, on_replacement, on_previous, on_commit, on_route, coordinate_about,
  coordinate_proved, coordinate_proof, coordinate_switch, coordinate,
}
use wireguard_mesh.Mesh.Advance.{
  last_sign, confirmed, activate, judge, report, advance_proposal, advance_replacement,
  advance_waiting, advance_trial, advance_judged, advance_measured, advance_running, advance_phase,
  advance,
}
use wireguard_mesh.Mesh.Propose.{consider, best_of, propose_path, offer_best, propose, settle}
use wireguard_mesh.Mesh.Probe.{candidate, on_pong, on_pong_once, answered, add-Bounded}
use wireguard_mesh.Mesh.Guards.{
  retired_after_keeps, retired_after-Bounded, coordinate-retire_token, one_end_proposes,
}
use wireguard_mesh.Mesh.Sound.{IsSound, Polled, restore-Reported}
use wireguard_mesh.Mesh.KeySteps.{poll_psk-Polled}
use wireguard_mesh.Mesh.Medians.{IsMedianOf, median-IsMedianOf}
use wireguard_mesh.Mesh.Paths.{PathEvent, found, ponged, called}
use wireguard_mesh.Mesh.Proofs.{Untouched, coordinate-Untouched}
use wireguard_mesh.Mesh.Activation.{advance-Won}
use wireguard_mesh.Mesh.History.{Event, message, timer, refreshed, history, history-IsSound}

abbrev config : Config
config = record {
  window = 15 * second;
  probe = second;
  failure = 5 * second;
  cooldown = 30 * second;
  min_gain = 2000000;
  gain_kept = λ new old. leb (10 * new) (8 * old);
}

-- Calls succeed, and the key file holds the key 77.
abbrev world : World
world = record {
  elapsed = λ i. 10;
  verify = λ i. true;
  apply = λ i. true;
  restore = λ i. true;
  rekey = λ i. true;
  handshake = λ i. none;
  read_psk_file = λ i now. some 77;
  rosenpass = λ i. none;
  random_text = λ i. 900 + i;
  sha256 = λ key. key;
  hmac = λ key op token sender receiver. key + token;
  path_name = λ link addr. link;
}

-- node 1, which leads its pair with node 2, and node 3, which follows
abbrev node : ℕ → Mesh
node public = record {
  c = config;
  public = public;
  wg_port = 51820;
  links = 4 ∷ [];
  dry = false;
  rekey_control = true;
}

abbrev address : AddrPort
address = record { addr = record { bits = 32; value = 3232235777; zone = 0 }; port = 51823 }

-- a probe each second, from 100 s on, with this round-trip time
abbrev samples : ℕ → ℕ → List Sample
samples zero rtt = []
samples (suc n) rtt = record { at = (100 + n) * second; rtt = rtt } ∷ samples n rtt

abbrev measured : ℕ → Measurements
measured rtt = record { since = 100 * second; samples = samples 16 rtt }

abbrev now : ℕ
now = 116 * second

abbrev direct : MeshPath
direct = record {
  link = 4;
  addr = address;
  session = 7;
  incoming = 7;
  port = 51820;
  last_pong = now - second;
  stats = measured 1000000;
}

abbrev stable : RouteState
stable = record {
  selected = none;
  phase = idle;
  trial = 0;
  since = 0;
  resumed = 0;
  baseline = 0;
  local_good = false;
  remote_good = false;
  committed = false;
  remote_rekey = false;
  tunnel = measured 40000000;
  last_tunnel = now - second;
  remote_at = 0;
}

abbrev remote : MeshPeer
remote = record {
  route = stable;
  spec = record {
    key = 2;
    ip = record { bits = 32; value = 167772162; zone = 0 };
    psk = 77;
    preshared_key_file = true;
    rosenpass_socket = false;
    experimental_rekey = false;
  };
  psk_valid = true;
  psk_log_after = 0;
  psk_status = no_response;
  rosenpass_path = none;
  rosenpass_token = 0;
  rekey = none;
  completed_rekey = none;
  paths = (4, 0) ∷ [];
  cell = λ c. direct;
  pending =
      (
        55,
        record { path = some 0; at = now - 1000; session = 7; multicast = false; measure = true },
      )
      ∷ [];
  replacement = none;
  previous = none;
  cooldown = 0;
  retired = [];
  retired_until = 0;
}

abbrev initial : State
initial = record { peer = remote; calls = 0; effects = [] }

abbrev command_of : Op → ℕ → Message
command_of op token = record {
  op = op;
  token = token;
  port = 51820;
  proof = 77 + token;
  rekey = false;
}

-- A definition that names this on its `unfolding` line computes with the event loop.
unfoldable mesh_run : Unit {0}
unfolding effects_run add insert_sorted sort recent needed median improves fresh retired_after
    retired_until_after retire_token psk_proof check_psk_proof path_command command
    cancel_replacement forget_route restore_route restore drop_previous new_transition is_settled
    may_rekey replace_key begin_rekey change_key poll_valid poll_read read_peer_psk poll_psk
    begin_trial resume_previous set_endpoint preflight switch apply_replacement apply_first
    apply_checked apply reset_endpoint rollback_path rollback_previous rollback_route rollback
    qualified accept_proposal answer_qualified answer_prepare replacement_commit replacement_switch
    on_replacement on_previous on_commit on_route coordinate_about coordinate_proved
    coordinate_proof coordinate_switch coordinate last_sign confirmed activate judge report
    advance_proposal advance_replacement advance_waiting advance_trial advance_judged
    advance_measured advance_running advance_phase advance consider best_of propose_path offer_best
    propose settle candidate on_pong answered history
mesh_run = tt

-- The leader proposes the path on a timer, and applies it when the follower is ready.
abbrev leading : List Event
leading = timer true now ∷ message 0 (command_of Op.ready 900) (now + 1000) ∷ []

-- The follower accepts a proposal, applies it on "commit", and goes back on "abort".
abbrev following : List Event
following =
    message 0 (command_of Op.prepare 900) now
    ∷ message 0 (command_of Op.commit 900) (now + 1000)
    ∷ []

leading_trial : (history world (node 1) leading initial).peer.route.phase ≡ trial
unfolding mesh_run
leading_trial = refl

following_trial : (history world (node 3) following initial).peer.route.phase ≡ trial
unfolding mesh_run
following_trial = refl

following_aborted :
    (history world
      (node 3)
      (following ++ (message 0 (command_of Op.abort 900) (now + 2000) ∷ []))
      initial).peer.route.phase
    ≡ idle
unfolding mesh_run
following_aborted = refl

initial-IsSound : IsSound remote
initial-IsSound = ground arith

history-IsSound_example : IsSound (history world (node 1) leading initial).peer
history-IsSound_example = history-IsSound world (node 1) leading initial initial-IsSound

poll_psk-Polled_example : Polled remote (poll_psk world (node 1) now initial).1.peer
poll_psk-Polled_example = poll_psk-Polled world (node 1) now initial initial-IsSound

-- what the leader has after its trial began
abbrev tried : State
tried = history world (node 1) leading initial

restore-Reported_example :
    let after = (restore world (node 1) now tried).1 in
    let before =
      ((cancel_replacement world (node 1) now >> command world (node 1) abort) tried).1 in
    (((restore world (node 1) now tried).0 ≡ err)
      × (after.effects ≡ restored tried.peer.spec.key false ∷ before.effects)
      × (after.peer.route ≡ tried.peer.route)
      × (after.peer.previous ≡ tried.peer.previous))
    ⊎ (((restore world (node 1) now tried).0 ≡ ok tt)
        × (after.effects ≡ restored tried.peer.spec.key true ∷ before.effects)
        × (after.peer.route.selected ≡ none)
        × (is_idle after.peer.route.phase ≡ true)
        × (after.peer.previous ≡ none)
        × (after.peer.replacement ≡ none)
        × (after.peer.rekey ≡ none))
restore-Reported_example = restore-Reported world (node 1) now tried

abbrev retired_state : State
retired_state = record initial { peer = retire_token 900 now remote }

coordinate-retire_token_example :
    let after =
      (coordinate world (node 3) 0 (command_of Op.prepare 900) (now + second) retired_state).1 in
    (after.peer.route ≡ retired_state.peer.route)
    × (after.peer.replacement ≡ retired_state.peer.replacement)
    × (after.effects ≡ [])
coordinate-retire_token_example =
    coordinate-retire_token world (node 3) now 0 (command_of Op.prepare 900) (now + second) initial
      retired_state refl (omega arith) refl (omega arith)

retired_after_keeps_example :
    lookup 5 (retired_after 6 now ((5, now + 10) ∷ (4, now) ∷ [])) ≡ some (now + 10)
retired_after_keeps_example =
    retired_after_keeps 6 5 (now + 10) now ((5, now + 10) ∷ (4, now) ∷ []) (refl, (refl, tt)) refl
      (omega arith) (omega arith)

retired_after-Bounded_example : length (retired_after 6 now ((5, now + 10) ∷ (4, now) ∷ [])) ≤ 1024
retired_after-Bounded_example =
    retired_after-Bounded 6 now ((5, now + 10) ∷ (4, now) ∷ []) (omega arith)

abbrev pong : Message
pong = command_of Op.pong 55

on_pong_once_example :
    on_pong config false 7 pong (some 0) (now + 9) (on_pong config false 7 pong (some 0) now remote)
    ≡ on_pong config false 7 pong (some 0) now remote
on_pong_once_example =
    on_pong_once config false 7 pong (some 0) now
      (record { path = some 0; at = now - 1000; session = 7; multicast = false; measure = true })
      remote refl refl false 7 (some 0) (now + 9)

-- a peer with no path, to which things happen
abbrev pathless : State
pathless = record initial { peer = record remote { paths = [] } }

abbrev path_events : List PathEvent
path_events =
    found 9 1 4 address now
    ∷ ponged false 7 pong (some 1) now
    ∷ called (timer true now)
    ∷ found 8 2 5 address now
    ∷ called (refreshed (5 ∷ []) now)
    ∷ []

add-Bounded_example :
    All
      (λ (s : Sample). leb (now - s.at) (3 * second) ≡ true)
      (add (measured 5) now 6 (3 * second)).samples
    × (length (add (measured 5) now 6 (3 * second)).samples ≤ 1024)
add-Bounded_example = add-Bounded (measured 5) now 6 (3 * second) (omega arith)

-- a first trial with a gain, which the peer has confirmed
abbrev winning : State
winning = record initial {
  peer = record remote {
    route = record stable {
      selected = some 0;
      phase = trial;
      trial = 900;
      since = 100 * second;
      baseline = 40000000;
      remote_good = true;
      committed = true;
      tunnel = measured 1000000;
      last_tunnel = now - second;
      remote_at = now - second;
    };
  };
}

winning-IsSound : IsSound winning.peer
winning-IsSound = ground arith

won : is_active (advance world (node 1) now winning).1.peer.route.phase ≡ true
unfolding mesh_run
won = refl

advance-Won_example :
    ((rtt : ℕ) × (median (measured 1000000) now config ≡ some rtt)
      × (improves rtt 40000000 config ≡ true))
    × (true ≡ true)
    × (true ≡ true)
    × (now - (now - second) < 5 * second)
advance-Won_example = advance-Won world (node 1) now winning winning-IsSound refl refl won

sampled : median (measured 1000000) now config ≡ some 1000000
unfolding mesh_run
sampled = refl

median-IsMedianOf_example :
    IsMedianOf (measured 1000000) now config (median (measured 1000000) now config)
median-IsMedianOf_example = median-IsMedianOf (measured 1000000) now config

-- a peer with a fixed key, and a proposal that proves another one
abbrev fixed : State
fixed = record initial {
  peer = record remote { spec = record remote.spec { preshared_key_file = false } };
}

one_end_proposes_example :
    ((propose world (node 1) true now initial).1 ≡ initial)
    ⊎ Untouched fixed (coordinate world (node 1) 0 (command_of Op.prepare 900) now fixed).1
one_end_proposes_example =
    one_end_proposes world (node 1) true now 0 (command_of Op.prepare 900) now initial fixed refl
      refl refl refl refl

abbrev unproven : Message
unproven = record (command_of Op.prepare 900) { proof = 1 }

not_proved : check_psk_proof world (node 3) 77 unproven 2 3 ≡ false
unfolding mesh_run
not_proved = refl

coordinate-Untouched_example : Untouched fixed (coordinate world (node 3) 0 unproven now fixed).1
coordinate-Untouched_example =
    coordinate-Untouched world (node 3) 0 unproven now fixed refl refl not_proved
