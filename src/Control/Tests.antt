-- ===== src/Control/Tests.antt =====
-- A controller with one direct peer, and its theorems at work.
use wireguard_mesh.Prelude.{
  ℕ, ◌≡◌, refl, ◌+◌, true, false, Option, none, some, List, [], ◌∷◌, ltb, inl, ◌⊎◌, all, any,
  if◌then◌else◌,
}
use wireguard_mesh.Netip.{Addr, AddrPort, Prefix}
use wireguard_mesh.Prelude.Program.{program_run, bind_outcome, recover_outcome}
use wireguard_mesh.Control.State.{
  ControlPeer, planning, adding, DevicePeer, Device, add, Outside, Effect, inspected, configured,
  saved, State, Journal,
}
use wireguard_mesh.Control.Device.{
  own_prefix, own_allowed, own_peer, own_peers, control_owner, key_ok, present_ok, peer_ok,
  ownership_ok, check_peer, no_owner,
}
use wireguard_mesh.Control.Effects.{ask, identified, device, save, configure, inspect}
use wireguard_mesh.Control.Restore.{
  restore_phase, restore_expected, is_returned, move_host, return_host, remove_found, remove_direct,
  forget, restore_marked, restore_record, restore, restore_keys, restore_all,
}
use wireguard_mesh.Control.Apply.{
  is_direct, all_settled, stable_owner, apply_change, plan_owner, plan, announce, commit,
  apply_planned, apply,
}
use wireguard_mesh.Control.Rekey.{all_active, check_all, rekey_record, rekey}
use wireguard_mesh.Control.Start.{
  Stored, record_ok, records_ok, journal_ok, accept, start_journal, new_controller,
}
use wireguard_mesh.Control.Crash.{is_recorded, may_stand}
use wireguard_mesh.Control.Reach.{
  first, call, call_apply, Moment, now, before, blank, peer_has_record, peer_in_journal,
}
use wireguard_mesh.Control.Recovered.{restore_forgets, restore_all_empties, start_recovers}
use wireguard_mesh.Control.Applied.{Applied, apply_takes_effect}
use wireguard_mesh.Control.Rekeyed.{Rekeyed, rekey_takes_effect}
use wireguard_mesh.Control.Looked.{Fresh}
use wireguard_mesh.Control.Looks.{configured_after_look}
use wireguard_mesh.Control.Longest.{beats, owns, claims, owner_is_longest}

abbrev host : Addr
host = record { bits = 32; value = 0x0a000005; zone = 0 }

abbrev there : AddrPort
there = record { addr = record { bits = 32; value = 0xc0000205; zone = 0 }; port = 51820 }

abbrev subnet : Prefix
subnet = record { addr = record { bits = 32; value = 0x0a000000; zone = 0 }; length = 24 }

abbrev peer : ℕ → ℕ → Prefix → DevicePeer
peer key psk prefix = record {
  public_key = key;
  preshared_key = psk;
  allowed_ips = some prefix ∷ [];
  persistent_keepalive = 0;
  protocol_version = 1;
  last_handshake_time = 0;
}

abbrev with_peers : List DevicePeer → Device
with_peers peers = record { public_key = 7; private_key = 8; listen_port = 51820; peers = peers }

-- the device with the stable peer 3, and with the direct peer 5 too
abbrev baseline : Device
baseline = with_peers (peer 3 0 subnet ∷ [])

abbrev direct : ℕ → Device
direct psk = with_peers (peer 3 0 subnet ∷ peer 5 psk (record { addr = host; length = 32 }) ∷ [])

-- The direct peer is there from call 5 on, has another key from call `b` on, and is gone from call `c` on.
abbrev world : ℕ → ℕ → Outside
world b c = record {
  device = λ n. some (
      if ltb n 5
      then baseline
      else if ltb n b
      then direct 9
      else if ltb n c
      then direct 10
      else baseline);
  configure = λ _. true;
  save = λ _. true;
  sha256 = λ k. k + 1;
}

-- the controller with its peer, and a restoration, a change of the key, and a crash
abbrev applied : ℕ → ℕ → State
applied b c = (apply (world b c) 7 5 host 9 there (blank 0 [])).1

unfoldable control_run : Unit {0}
unfolding program_run bind_outcome recover_outcome own_prefix own_allowed own_peer own_peers
    control_owner key_ok present_ok peer_ok ownership_ok check_peer ask identified device save
    configure inspect restore_phase restore_expected is_returned move_host return_host remove_found
    remove_direct forget restore_marked restore_record restore restore_keys restore_all is_direct
    all_settled stable_owner apply_change plan_owner plan announce commit apply_planned apply
    all_active check_all rekey_record rekey record_ok records_ok journal_ok accept start_journal
    new_controller
control_run = tt

abbrev record_of : ControlPeer
record_of = record {
  ip = host;
  owner = 3;
  prefix = subnet;
  psk_hash = 10;
  phase = adding;
  next_psk_hash = none;
}

abbrev intended : Journal
intended = (5, record_of) ∷ []

-- the effects before the device is configured, and with it
abbrev prepared : List Effect
prepared =
    saved intended true
    ∷ inspected baseline
    ∷ saved ((5, record record_of { phase = planning }) ∷ []) true
    ∷ inspected baseline
    ∷ []

abbrev adds : List Effect
adds = configured (add 5 9 host there) true ∷ prepared

added_moment : Moment (applied 11 11).effects adds
unfolding control_run
added_moment = before (before now)

peer_has_record_example : is_recorded 5 intended ≡ true
unfolding control_run
peer_has_record_example =
    peer_has_record (world 11 11) 1 7 intended 5 (call first (call_apply 5 host 9 there))
      added_moment refl (inl refl)

peer_in_journal_example : is_recorded 5 (applied 11 11).journal ≡ true
unfolding control_run
peer_in_journal_example =
    peer_in_journal (world 11 11) 1 7 5 (call first (call_apply 5 host 9 there)) refl

configured_after_look_example : Fresh (λ k. k + 1) (add 5 9 host there) prepared
configured_after_look_example =
    configured_after_look (world 11 11) 1 7 (call first (call_apply 5 host 9 there)) added_moment

restore_forgets_example :
    (is_recorded 5 (restore (world 11 11) 7 5 (applied 11 11)).1.journal ≡ false)
    × (may_stand 5 (restore (world 11 11) 7 5 (applied 11 11)).1.effects ≡ false)
unfolding control_run
restore_forgets_example =
    restore_forgets (world 11 11) 1 7 (applied 11 11) 5 (call first (call_apply 5 host 9 there))
      refl

restore_all_empties_example :
    ((restore_all (world 11 11) 7 (applied 11 11)).1.journal ≡ [])
    × ((k : ℕ) → may_stand k (restore_all (world 11 11) 7 (applied 11 11)).1.effects ≡ false)
unfolding control_run
restore_all_empties_example =
    restore_all_empties (world 11 11) 1 7 (applied 11 11) (call first (call_apply 5 host 9 there))
      refl

abbrev file : Option Stored
file = some (record { version = 1; name = 1; public = 7; canonical = true; peers = some intended })

start_recovers_example :
    ((new_controller (world 9 9) 7 1 file (blank 5 adds)).1.journal ≡ [])
    × ((k : ℕ) → may_stand k (new_controller (world 9 9) 7 1 file (blank 5 adds)).1.effects ≡ false)
unfolding control_run
start_recovers_example =
    start_recovers (world 9 9) 1 7 (applied 9 9) adds intended file 5 baseline
      (call first (call_apply 5 host 9 there)) (before (before now)) (inl refl) refl refl

apply_takes_effect_example : Applied (world 11 11) 7 5 host 9 there (applied 11 11)
unfolding control_run
apply_takes_effect_example = apply_takes_effect (world 11 11) 7 5 host 9 there (blank 0 []) refl

rekey_takes_effect_example :
    Rekeyed (world 11 20) 7 5 9 10 (rekey (world 11 20) 7 5 9 10 (applied 11 20)).1
unfolding control_run
rekey_takes_effect_example = rekey_takes_effect (world 11 20) 7 5 9 10 (applied 11 20) refl

owner_is_longest_example :
    (all
        (beats host (record { key = 5; prefix = some (record { addr = host; length = 32 }) }))
        (claims 0 (direct 9).peers)
      ≡ true)
    × (((record { key = 5; prefix = some (record { addr = host; length = 32 }) }) ≡ no_owner)
        ⊎ (any
              (owns host (record { key = 5; prefix = some (record { addr = host; length = 32 }) }))
              (claims 0 (direct 9).peers)
            ≡ true))
unfolding control_run
owner_is_longest_example =
    owner_is_longest (direct 9) host 0
      (record { key = 5; prefix = some (record { addr = host; length = 32 }) }) refl
