-- ===== src/Config/Tests.antt =====
-- A configuration that is accepted, and some that are not (config.go).
use wireguard_mesh.Prelude.{
  ℕ, zero, suc, Bool, leb, ◌-◌, ◌≤◌, ◌+◌, ◌*◌, ◌≡◌, refl, true, false, not, none, some, List, [],
  ◌∷◌, ltb, ◌==◌,
}
use wireguard_mesh.Secure.State.{second}
use wireguard_mesh.Config.Read.{
  Netip, PeerSpec, Config, minute, milliseconds, overlay_address, groups_ok, timing_ok, peer_key,
  max_age, age_ok, file_ok, adapter_ok, rekey_ok, peer_psk, read_peer, seen_with, read_peers,
  first_seen, read_config,
}
use wireguard_mesh.Config.Checked.{PeersOk, read_config-PeersOk}
use wireguard_mesh.Mesh.State.{Sample, Measurements}
use wireguard_mesh.Mesh.Measure.{insert_sorted, sort, recent, needed, median}
use wireguard_mesh.Mesh.Medians.{votes}
use wireguard_mesh.Config.Timing.{mesh_config, needed-Attainable, median-ThreeAnswers}

-- Addresses below 1000 are of IPv4; 500 and 1500 are the groups.
abbrev net : Netip
net = record {
  is4 = λ a. ltb a 1000;
  is6 = λ a. not (ltb a 1000);
  is4_in6 = λ a. false;
  is_multicast = λ a. a == 500;
  is_link_local_multicast = λ a. a == 1500;
  is_global_unicast = λ a. ltb a 500;
  has_zone = λ a. false;
  is_abs = λ path. true;
  parse_key = λ text. some text;
}

abbrev spec : ℕ → PeerSpec
spec key = record {
  public_key = key;
  ip = key + 100;
  preshared_key = 0;
  preshared_key_file = key + 7000;
  preshared_key_max_age = none;
  rosenpass_socket = 0;
  experimental_rekey = true;
  key = 0;
  psk = 0;
}

abbrev given : List PeerSpec → Config
given peers = record {
  address = 1;
  peers = peers;
  port = 51823;
  multicast4 = 500;
  multicast6 = 1500;
  discovery = minute;
  broadcast_after = 5 * minute;
  probe = second;
  window = 15 * second;
  failure = 5 * second;
  cooldown = 30 * second;
  min_gain_negative = false;
  gain_negative = false;
  gain_too_large = false;
}

abbrev accepted_peer : ℕ → PeerSpec
accepted_peer key = record (spec key) { key = key; preshared_key_max_age = some (3 * minute) }

abbrev accepted_config : Config
accepted_config = given (accepted_peer 2 ∷ accepted_peer 3 ∷ [])

unfoldable config_run : Unit {0}
unfolding overlay_address groups_ok timing_ok peer_key max_age age_ok file_ok adapter_ok rekey_ok
    peer_psk read_peer seen_with read_peers first_seen read_config
config_run = tt

accepted : read_config net (given (spec 2 ∷ spec 3 ∷ [])) ≡ some accepted_config
unfolding config_run
accepted = refl

repeated : read_config net (given (spec 2 ∷ spec 2 ∷ [])) ≡ none
unfolding config_run
repeated = refl

without_peers : read_config net (given []) ≡ none
unfolding config_run
without_peers = refl

read_config-PeersOk_example : PeersOk net (first_seen net accepted_config) accepted_config.peers
read_config-PeersOk_example =
    read_config-PeersOk net (given (spec 2 ∷ spec 3 ∷ [])) accepted_config accepted

-- an answer each second, from 100 s on
abbrev answers : ℕ → List Sample
answers zero = []
answers (suc n) = record { at = (100 + n) * second; rtt = 1000000 } ∷ answers n

abbrev measured : Measurements
measured = record { since = 100 * second; samples = answers 16 }

abbrev by_a_fifth : ℕ → ℕ → Bool
by_a_fifth new old = leb (10 * new) (8 * old)

needed-Attainable_example :
    (3 ≤ needed (mesh_config accepted_config 2000000 by_a_fifth))
    × (needed (mesh_config accepted_config 2000000 by_a_fifth) ≤ 480)
needed-Attainable_example =
    needed-Attainable net (given (spec 2 ∷ spec 3 ∷ [])) accepted_config 2000000 by_a_fifth accepted

has_median :
    median measured (116 * second) (mesh_config accepted_config 2000000 by_a_fifth) ≡ some 1000000
unfolding insert_sorted sort recent needed median
has_median = refl

median-ThreeAnswers_example :
    (3 ≤ votes (λ _. true) (116 * second) (15 * second) (answers 16))
    × (300 * milliseconds ≤ 116 * second - 100 * second)
median-ThreeAnswers_example =
    median-ThreeAnswers net (given (spec 2 ∷ spec 3 ∷ [])) accepted_config 2000000 by_a_fifth
      measured (116 * second) 1000000 accepted has_median
