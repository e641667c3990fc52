-- ===== src/Control/Start.antt =====
-- The start of the controller (`newController` in control.go), behind the reading of the file.
use wireguard_mesh.Prelude.{
  ℕ, ◌==◌, Bool, true, false, not, ◌&&◌, ◌||◌, Option, none, some, List, [], ◌∷◌, lookup, is_none,
  any, if◌then◌else◌,
}
use wireguard_mesh.Prelude.Program.{fail, ◌>>◌, modify}
use wireguard_mesh.Netip.{Addr, masked, contains_addr, same_addr, same_prefix, is_valid_prefix}
use wireguard_mesh.Control.State.{
  ControlPeer, ControlPhase, unknown, Device, Outside, started, Journal, is_rekeying, is_restoring,
}
use wireguard_mesh.Control.Device.{control_host}
use wireguard_mesh.Control.Effects.{M, device}
use wireguard_mesh.Control.Restore.{restore_all}

abbrev pub is_known : ControlPhase → Bool
is_known (unknown _) = false
is_known _ = true

-- the test of the hash of the next key
abbrev pub next_ok : ControlPeer → Bool
next_ok r = elim r.next_psk_hash [
  | none ↦ not (is_rekeying r.phase)
  | some next ↦ not (next == 0) && (is_rekeying r.phase || is_restoring r.phase)
]

-- one record, without the addresses that were seen before
unfoldable pub record_ok : ℕ → Journal → ℕ → ControlPeer → Bool
record_ok public journal key r =
    control_host r.ip
    && is_valid_prefix r.prefix
    && same_prefix r.prefix (masked r.prefix)
    && contains_addr r.prefix r.ip
    && not (key == 0)
    && not (key == public)
    && not (r.owner == 0)
    && not (r.owner == key)
    && not (r.owner == public)
    && is_none (lookup r.owner journal)
    && not (r.psk_hash == 0)
    && is_known r.phase
    && next_ok r

unfoldable pub records_ok : ℕ → Journal → Journal → List Addr → Bool
records_ok public journal [] ips = true
records_ok public journal ((key, r) ∷ rest) ips =
    record_ok public journal key r
    && not (any (same_addr r.ip) ips)
    && records_ok public journal rest (r.ip ∷ ips)

-- the loop over the records of the journal
unfoldable pub journal_ok : ℕ → Journal → Bool
journal_ok public journal = records_ok public journal journal []

-- A journal file. `canonical` says that each text of a peer is the one that `String` gives for a key,
-- and that no record is null.
pub record Stored : Type 0 where
  pub version : ℕ
  pub name : ℕ
  pub public : ℕ
  pub canonical : Bool
  pub peers : Option Journal

abbrev pub new_stored : ℕ → ℕ → Stored
new_stored name public = record {
  version = 1;
  name = name;
  public = public;
  canonical = true;
  peers = some [];
}

-- the journal that a file holds, or the empty one where there is no file, for a device of this key
unfoldable pub accept : ℕ → ℕ → Option Stored → Option Journal
accept name public file =
    let c : Stored = elim file [ none ↦ new_stored name public | some stored ↦ stored ] in
    elim c.peers [
      | none ↦ none
      | some journal ↦
          if c.version == 1
            && c.name == name
            && not (c.public == 0)
            && c.public == public
            && c.canonical
            && journal_ok public journal
          then some journal
          else none
    ]

module _ (W : Outside) (public : ℕ) where
  unfoldable pub start_journal : Option Journal → M Device
  start_journal none = fail
  start_journal (some journal) = do
    modify (λ s. record s { journal = journal; effects = started journal ∷ s.effects })
    restore_all W public
    device W public

  -- `public` is the key of the device that was read first
  unfoldable pub new_controller : ℕ → Option Stored → M Device
  new_controller name file = start_journal (accept name public file)
