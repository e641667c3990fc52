-- ===== src/Config/Read.antt =====
-- The checks of `readConfig` in config.go on a decoded configuration. The JSON decoder, the parser
-- of keys, the predicates of net/netip and `filepath.IsAbs` are parameters; "" is the text 0.
use wireguard_mesh.Prelude.{
  ℕ, ◌*◌, Bool, true, false, not, ◌&&◌, ◌||◌, Option, none, some, List, [], ◌∷◌, length, contains,
  ltb, leb, ◌==◌, is_none, if◌then◌else◌,
}
use wireguard_mesh.Secure.State.{second}

-- `netip.Addr` is comparable; here a number stands for it.
pub record Netip : Type 0 where
  pub is4 : ℕ → Bool
  pub is6 : ℕ → Bool
  pub is4_in6 : ℕ → Bool
  pub is_multicast : ℕ → Bool
  pub is_link_local_multicast : ℕ → Bool
  pub is_global_unicast : ℕ → Bool
  pub has_zone : ℕ → Bool
  pub is_abs : ℕ → Bool
  -- `wgtypes.ParseKey`
  pub parse_key : ℕ → Option ℕ

-- The durations can be negative in the source; a negative one is below the bound of the probe
-- interval, which stands below all others, and only `min_gain` has its own sign.
pub record PeerSpec : Type 0 where
  pub public_key : ℕ
  pub ip : ℕ
  pub preshared_key : ℕ
  pub preshared_key_file : ℕ
  pub preshared_key_max_age : Option ℕ
  pub rosenpass_socket : ℕ
  pub experimental_rekey : Bool
  pub key : ℕ
  pub psk : ℕ

pub record Config : Type 0 where
  pub address : ℕ
  pub peers : List PeerSpec
  pub port : ℕ
  pub multicast4 : ℕ
  pub multicast6 : ℕ
  pub discovery : ℕ
  pub broadcast_after : ℕ
  pub probe : ℕ
  pub window : ℕ
  pub failure : ℕ
  pub cooldown : ℕ
  -- the signs of `MinGain` and `Gain`, and `Gain >= 1`
  pub min_gain_negative : Bool
  pub gain_negative : Bool
  pub gain_too_large : Bool

-- what the loop over the peers keeps
pub record Seen : Type 0 where
  pub keys : List ℕ
  pub ips : List ℕ
  pub adapter : Bool

abbrev pub minute : ℕ
minute = 60 * second

abbrev pub milliseconds : ℕ
milliseconds = 1000000

module _ (N : Netip) where
  unfoldable pub overlay_address : ℕ → Bool
  overlay_address a = N.is_global_unicast a && not (N.is4_in6 a) && not (N.has_zone a)

  unfoldable pub groups_ok : Config → Bool
  groups_ok c =
      N.is4 c.multicast4
      && N.is_multicast c.multicast4
      && N.is6 c.multicast6
      && N.is_link_local_multicast c.multicast6
      && not (N.has_zone c.multicast6)

  unfoldable pub timing_ok : Config → Bool
  timing_ok c = not (
      ltb c.probe (100 * milliseconds)
      || ltb second c.probe
      || ltb c.window (3 * c.probe)
      || ltb minute c.window
      || ltb c.failure (2 * c.probe)
      || ltb c.window c.failure
      || ltb c.discovery c.probe
      || ltb (5 * minute) c.discovery
      || ltb c.broadcast_after c.probe
      || ltb c.cooldown c.probe
      || c.min_gain_negative
      || c.gain_negative
      || c.gain_too_large)

  -- the key of the peer, where it and the address are acceptable
  unfoldable pub peer_key : Config → Seen → PeerSpec → Option ℕ
  peer_key c seen p = elim (N.parse_key p.public_key) [
    | none ↦ none
    | some key ↦
        if key == 0
          || contains seen.keys key
          || contains seen.ips p.ip
          || not (overlay_address p.ip)
          || (if N.is4 p.ip then not (N.is4 c.address) else N.is4 c.address)
        then none
        else some key
  ]

  -- the maximum age, with its default
  unfoldable pub max_age : PeerSpec → Option ℕ
  max_age p = elim p.preshared_key_max_age [
    | none ↦ if p.preshared_key_file == 0 then none else some (3 * minute)
    | some age ↦ some age
  ]

  unfoldable pub age_ok : Option ℕ → Bool
  age_ok none = true
  age_ok (some age) = not (ltb age (130 * second) || ltb (3 * minute) age)

  -- the file of the preshared key and its age
  unfoldable pub file_ok : PeerSpec → Bool
  file_ok p =
      (if p.preshared_key_file == 0
        then is_none p.preshared_key_max_age
        else N.is_abs p.preshared_key_file && p.preshared_key == 0)
      && age_ok (max_age p)

  unfoldable pub adapter_ok : Bool → PeerSpec → Bool
  adapter_ok adapter p =
      p.rosenpass_socket == 0
      || not adapter
        && N.is_abs p.rosenpass_socket
        && not (p.preshared_key_file == 0)
        && not (p.rosenpass_socket == p.preshared_key_file)

  unfoldable pub rekey_ok : PeerSpec → Bool
  rekey_ok p = not (p.experimental_rekey && p.preshared_key_file == 0)

  -- the preshared key, 0 where none is configured
  unfoldable pub peer_psk : PeerSpec → Option ℕ
  peer_psk p = if p.preshared_key == 0 then some p.psk else elim (N.parse_key p.preshared_key) [
    | none ↦ none
    | some psk ↦ if psk == 0 then none else some psk
  ]

  unfoldable pub read_peer : Config → Seen → PeerSpec → Option PeerSpec
  read_peer c seen p = elim (peer_key c seen p) [
    | none ↦ none
    | some key ↦
        if file_ok p && adapter_ok seen.adapter p && rekey_ok p
        then elim (peer_psk p) [
          | none ↦ none
          | some psk ↦ some (record p { key = key; psk = psk; preshared_key_max_age = max_age p })
        ]
        else none
  ]

  unfoldable pub seen_with : PeerSpec → Seen → Seen
  seen_with p seen = record {
    keys = p.key ∷ seen.keys;
    ips = p.ip ∷ seen.ips;
    adapter = seen.adapter || not (p.rosenpass_socket == 0);
  }

  unfoldable pub read_peers : Config → Seen → List PeerSpec → Option (List PeerSpec)
  read_peers c seen [] = some []
  read_peers c seen (p ∷ ps) = elim (read_peer c seen p) [
    | none ↦ none
    | some q ↦ (elim (read_peers c (seen_with q seen) ps) [ none ↦ none | some qs ↦ some (q ∷ qs) ])
  ]

  unfoldable pub first_seen : Config → Seen
  first_seen c = record { keys = []; ips = c.address ∷ []; adapter = false }

  unfoldable pub read_config : Config → Option Config
  read_config c =
      if overlay_address c.address
        && not (length c.peers == 0)
        && leb (length c.peers) 128
        && leb 1024 c.port
        && groups_ok c
        && timing_ok c
      then elim (read_peers c (first_seen c) c.peers) [
        | none ↦ none
        | some peers ↦ some (record c { peers = peers })
      ]
      else none
