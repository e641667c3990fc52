-- ===== src/Config/Checked.antt =====
-- What an accepted configuration is (config.go).
use wireguard_mesh.Prelude.{
  ℕ, ◌*◌, ◌≡◌, ◌≢◌, ◌≤◌, Bool, true, false, not, ◌&&◌, ◌||◌, Option, none, some, List, [], ◌∷◌,
  contains, ◌==◌, arith, All, Option-cases, Bool-cases, ◌⊎◌, inl, inr, subst,
}
use wireguard_mesh.Secure.State.{second}
use wireguard_mesh.Config.Read.{
  Netip, PeerSpec, Config, Seen, minute, peer_key, max_age, age_ok, file_ok, adapter_ok, rekey_ok,
  read_peer, seen_with, read_peers, first_seen, read_config,
}

-- No key and no address stands twice, and none is among those given.
abbrev pub Fresh : List ℕ → List ℕ → List PeerSpec → Type 0
Fresh keys ips [] = Unit
Fresh keys ips (p ∷ ps) =
    (contains keys p.key ≡ false)
    × (contains ips p.ip ≡ false)
    × Fresh (p.key ∷ keys) (p.ip ∷ ips) ps

-- At most one peer has a Rosenpass adapter, none where one was found before.
abbrev pub OneAdapter : Bool → List PeerSpec → Type 0
OneAdapter found [] = Unit
OneAdapter found (p ∷ ps) =
    ((found && not (p.rosenpass_socket == 0)) ≡ false)
    × OneAdapter (found || not (p.rosenpass_socket == 0)) ps

-- A key changes in place, or an adapter is asked, only with a key file; and a key file has a maximum
-- age, of at least 130 seconds and at most 3 minutes.
abbrev pub HasFile : PeerSpec → Type 0
HasFile p =
    ((p.experimental_rekey || not (p.rosenpass_socket == 0)) ≡ true → p.preshared_key_file ≢ 0)
    × ((p.preshared_key_file ≡ 0)
        ⊎ ((age : ℕ) × (p.preshared_key_max_age ≡ some age)
            × (130 * second ≤ age)
            × (age ≤ 3 * minute)))

module _ (N : Netip) where
  read_peer-Fresh :
      (c : Config) (seen : Seen) (p q : PeerSpec)
      → read_peer N c seen p ≡ some q
      → (contains seen.keys q.key ≡ false) × (contains seen.ips q.ip ≡ false)
  unfolding read_peer peer_key
  read_peer-Fresh c seen p q h = ground arith

  read_peer-OneAdapter :
      (c : Config) (seen : Seen) (p q : PeerSpec)
      → read_peer N c seen p ≡ some q
      → (seen.adapter && not (q.rosenpass_socket == 0)) ≡ false
  unfolding read_peer adapter_ok
  read_peer-OneAdapter c seen p q h = ground arith

  max_age-Limited :
      (p : PeerSpec)
      → p.preshared_key_file ≢ 0
      → file_ok N p ≡ true
      → (age : ℕ) × (max_age N p ≡ some age) × (130 * second ≤ age) × (age ≤ 3 * minute)
  unfolding max_age file_ok age_ok
  max_age-Limited p filed ok = elim (Option-cases p.preshared_key_max_age) [
    | inl e ↦ (3 * minute, ground arith, omega arith, omega arith)
    | inr (age, e) ↦ (age, ground arith, ground arith, ground arith)
  ]

  read_peer-HasFile :
      (c : Config) (seen : Seen) (p q : PeerSpec) → read_peer N c seen p ≡ some q → HasFile q
  unfolding read_peer rekey_ok adapter_ok
  read_peer-HasFile c seen p q h = (
    ground arith,
    elim (Bool-cases (p.preshared_key_file == 0)) [
      | inl e ↦ inl (ground arith)
      | inr e ↦
          let (age, found, low, high) = max_age-Limited p (ground arith) (ground arith) in
          inr (age, ground arith, low, high)
    ],
  )

  -- what the peers of an accepted configuration are
  abbrev pub PeersOk : Seen → List PeerSpec → Type 0
  PeersOk seen ps = Fresh seen.keys seen.ips ps × OneAdapter seen.adapter ps × All HasFile ps

  abbrev pub AllOk : Seen → Option (List PeerSpec) → Type 0
  AllOk seen none = Unit
  AllOk seen (some ps) = PeersOk seen ps

  read_peers-AllOk :
      (c : Config) (seen : Seen) (ps : List PeerSpec) → AllOk seen (read_peers N c seen ps)
  unfolding read_peers seen_with
  read_peers-AllOk c seen [] = (tt, tt, tt)
  read_peers-AllOk c seen (p ∷ ps) = elim (Option-cases (read_peer N c seen p)) [
    | inl e ↦ rw (e, AllOk, read_peers) tt
    | inr (q, e) ↦
        rw (e, AllOk, read_peers)
          (let tail = read_peers-AllOk c (seen_with N q seen) ps in
            let new = read_peer-Fresh c seen p q e in
            let one = read_peer-OneAdapter c seen p q e in
            let filed = read_peer-HasFile c seen p q e in
            elim (Option-cases (read_peers N c (seen_with N q seen) ps)) [
              | inl f ↦ rw (f, AllOk) tt
              | inr (qs, f) ↦
                  let rest : PeersOk (seen_with N q seen) qs =
                    subst (AllOk (seen_with N q seen)) f tail in
                  rw (f, AllOk) ((new.0, new.1, rest.0), (one, rest.1), (filed, rest.2))
            ])
  ]

  read_config-peers :
      (c d : Config)
      → read_config N c ≡ some d
      → read_peers N c (first_seen N c) c.peers ≡ some d.peers
  unfolding read_config
  read_config-peers c d h = ground arith

  read_config-address : (c d : Config) → read_config N c ≡ some d → first_seen N d ≡ first_seen N c
  unfolding read_config first_seen
  read_config-address c d h = ground arith

  -- In an accepted configuration no public key stands twice, no address stands twice or is this
  -- node's, at most one peer has a Rosenpass adapter, an adapter or a key change in place stands only
  -- beside a key file, and each key file has a maximum age between 130 seconds and 3 minutes.
  pub read_config-PeersOk :
      (c d : Config) → read_config N c ≡ some d → PeersOk (first_seen N d) d.peers
  read_config-PeersOk c d h = rw (read_config-address c d h) (
      subst (AllOk (first_seen N c)) (read_config-peers c d h)
        (read_peers-AllOk c (first_seen N c) c.peers))
