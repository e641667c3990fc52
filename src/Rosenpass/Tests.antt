-- ===== src/Rosenpass/Tests.antt =====
-- An adapter that starts its child and publishes a key, and its theorems at work.
use wireguard_mesh.Prelude.{ℕ, ◌+◌, ◌*◌, ◌≡◌, refl, true, false, none, some, [], ◌∷◌, ◌==◌, arith}
use wireguard_mesh.Netip.{Prefix, no_addr}
use wireguard_mesh.Prelude.Program.{program_run, bind_outcome, recover_outcome}
use wireguard_mesh.Network.State.{Interface}
use wireguard_mesh.Network.Link.{broadcast_address}
use wireguard_mesh.Rosenpass.State.{
  second, RosenpassRequest, Status, RosenpassChild, RosenpassAdapter, System, status_ok,
}
use wireguard_mesh.Rosenpass.Link.{is_neighbour, rosenpass_on_link}
use wireguard_mesh.Rosenpass.Adapter.{
  ask_system, no_request, exchanged, withdraw, check_err, invalidate, clean, reap, stop,
  child_ended, refresh, move_to, start_child, request_valid, request, publish_key, publish_new,
  exchange, handle_event, event,
}
use wireguard_mesh.Rosenpass.Events.{begun, on_event, on_request, answer-status_ok, valid_in_file}

abbrev lan : Prefix
lan = record { addr = record { bits = 32; value = 0xc0a80105; zone = 0 }; length = 24 }

abbrev ethernet : Interface
ethernet = record {
  index = 2;
  name = 6;
  up = true;
  loopback = false;
  point_to_point = false;
  broadcast = true;
  multicast = true;
}

abbrev system : System
system = record {
  interface = λ _. some (ethernet, lan ∷ []);
  remove = λ _. true;
  ended = λ _. false;
  stopped = λ _. true;
  cleaned = λ _. true;
  start = λ _. true;
  raw_key = λ _. some 9;
  mod_time = λ _. some (20 * second);
  publish = λ _. true;
  sha256 = λ k. k + 1;
}

hashed : (k : ℕ) → (system.sha256 k == 0) ≡ false
hashed k = ground arith

abbrev adapter : RosenpassAdapter
adapter = record {
  child = none;
  status = record {
    instance_name = 3;
    generation = 0;
    key_generation = 0;
    hash = 0;
    expires = 0;
    valid = false;
  };
  last_hash = 0;
  endpoint = no_request;
  retry_after = 0;
  failed = false;
  published = none;
  starts = 0;
  calls = 0;
}

abbrev to_peer : RosenpassRequest
to_peer = record {
  peer = 5;
  address = record { bits = 32; value = 0xc0a80107; zone = 0 };
  link = record { index = 2; name = 6; prefix = lan; broadcast = no_addr; multicast = true };
}

abbrev child : RosenpassChild
child = record { address = 1; generation = 1 }

-- a request, the exchange of a key, and a second request
abbrev asked : RosenpassAdapter
asked = (request system 5 to_peer (10 * second) adapter).1

abbrev keyed : RosenpassAdapter
keyed = (event system child exchanged (21 * second) asked).1

abbrev answer : Status
answer = record {
  instance_name = 3;
  generation = 1;
  key_generation = 1;
  hash = 10;
  expires = 200 * second;
  valid = true;
}

unfoldable adapter_run : Unit {0}
unfolding program_run bind_outcome recover_outcome broadcast_address is_neighbour rosenpass_on_link
    ask_system withdraw check_err invalidate clean reap stop child_ended refresh move_to start_child
    request_valid request publish_key publish_new exchange handle_event event
adapter_run = tt

answer-status_ok_example : status_ok (30 * second) answer ≡ true
unfolding adapter_run
answer-status_ok_example =
    answer-status_ok system hashed 5 adapter refl refl refl to_peer (30 * second) answer
      (on_event child exchanged (21 * second) (21 * second) (omega arith) (omega arith)
        (on_request to_peer (10 * second) (11 * second) (omega arith) (omega arith) begun))
      (omega arith) refl

valid_in_file_example : (key : ℕ) × (keyed.published ≡ some key) × (keyed.status.hash ≡ key + 1)
unfolding adapter_run
valid_in_file_example =
    valid_in_file system hashed 5 adapter refl refl refl
      (on_event child exchanged (21 * second) (21 * second) (omega arith) (omega arith)
        (on_request to_peer (10 * second) (11 * second) (omega arith) (omega arith) begun))
      refl
