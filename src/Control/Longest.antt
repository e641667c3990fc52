-- ===== src/Control/Longest.antt =====
-- The owner of an address is the peer of its longest prefix (`controlOwner` in control.go).
use wireguard_mesh.Prelude.{
  ℕ, ◌≡◌, refl, ◌∙◌, sym, ◌==◌, Bool, true, false, not, ◌&&◌, ◌||◌, Option, none, some, List, [],
  ◌∷◌, ◌++◌, map, ltb, any, all, arith, if◌then◌else◌, ◌⊎◌, inl, inr, subst,
}
use wireguard_mesh.Netip.{Addr, Prefix, masked, contains_addr, same_prefix}
use wireguard_mesh.Control.State.{DevicePeer, Device}
use wireguard_mesh.Control.Holds.{
  Holds, Holds-if, Holds-bind, Holds-map, Holds-found, Holds-some, beaten_by, had_by, or_map, stays,
  and_left, and_right,
}
use wireguard_mesh.Control.Device.{
  Owner, no_owner, as_long, same_length, own_prefix, own_allowed, own_peer, own_peers,
  control_owner,
}

-- an allowed IP with the key of its peer
abbrev pub Claim : Type 0
Claim = ℕ × Option Prefix

-- the allowed IPs of the peers, but for one key
abbrev pub claims : ℕ → List DevicePeer → List Claim
claims skip [] = []
claims skip (p ∷ ps) =
    let rest = claims skip ps in
    if p.public_key == skip then rest else map (λ n. (p.public_key, n)) p.allowed_ips ++ rest

-- this claim to the address is a shorter one, or an equal one of the owner
abbrev pub longer : Owner → ℕ → Prefix → Bool
longer o k p = elim o.prefix [
  | none ↦ false
  | some q ↦ ltb p.length q.length || p.length == q.length && k == o.key
]

abbrev pub beats : Addr → Owner → Claim → Bool
beats ip o (k, none) = false
beats ip o (k, some p) = not (contains_addr (masked p) ip) || longer o k (masked p)

-- this is the claim by which the owner has the address
abbrev pub owns : Addr → Owner → Claim → Bool
owns ip o (k, none) = false
owns ip o (k, some p) =
    contains_addr (masked p) ip
    && k == o.key
    && (elim o.prefix [ none ↦ false | some q ↦ same_prefix q (masked p) ])

longer_trans :
    (bk : ℕ) (bp : Option Prefix) (j k : ℕ) (x q : Prefix)
    → as_long q bp ≡ true
    → (same_length q bp && not (bk == k)) ≡ false
    → longer (record { key = bk; prefix = bp }) j x ≡ true
    → longer (record { key = k; prefix = some q }) j x ≡ true
longer_trans bk none j k x q a b h = absurd (ground (arith, h))
longer_trans bk (some p) j k x q a b h = ground (arith, a, b, h)

shorter-longer :
    (bk : ℕ) (bp : Option Prefix) (k : ℕ) (q : Prefix)
    → as_long q bp ≡ false
    → longer (record { key = bk; prefix = bp }) k q ≡ true
shorter-longer bk none k q a = absurd (ground (arith, a))
shorter-longer bk (some p) k q a = ground (arith, a)

-- After these claims: they are beaten, so are those that were before, and a new owner has one of them.
abbrev Steps : Addr → Owner → List Claim → Owner → Type 0
Steps ip best cs o =
    (all (beats ip o) cs ≡ true)
    × ((d : Claim) → beats ip best d ≡ true → beats ip o d ≡ true)
    × ((o ≡ best) ⊎ (any (owns ip o) cs ≡ true))

Steps-none : (ip : Addr) (best : Owner) → Steps ip best [] best
Steps-none ip best = (refl, (λ d h. h), inl refl)

all-append :
    (p : Claim → Bool) (cs ds : List Claim)
    → all p cs ≡ true
    → all p ds ≡ true
    → all p (cs ++ ds) ≡ true
all-append p [] ds h k = k
all-append p (c ∷ cs) ds h k = ground (arith, all-append p cs ds)

any-append : (p : Claim → Bool) (cs ds : List Claim) → any p (cs ++ ds) ≡ (any p cs || any p ds)
any-append p [] ds = refl
any-append p (c ∷ cs) ds = ground (arith, any-append p cs ds)

all-beats :
    (ip : Addr) (best o : Owner) (cs : List Claim)
    → ((d : Claim) → beats ip best d ≡ true → beats ip o d ≡ true)
    → all (beats ip best) cs ≡ true
    → all (beats ip o) cs ≡ true
all-beats ip best o [] h a = refl
all-beats ip best o (c ∷ cs) h a = ground (arith, h c, all-beats ip best o cs h)

Steps-append :
    (ip : Addr) (best mid o : Owner) (cs ds : List Claim)
    → Steps ip best cs mid
    → Steps ip mid ds o
    → Steps ip best (cs ++ ds) o
Steps-append ip best mid o cs ds h k = (
  all-append (beats ip o) cs ds (all-beats ip mid o cs k.1 h.0) k.0,
  (λ d a. k.1 d (h.1 d a)),
  elim k.2 [
    | inr a ↦ inr (ground (arith, any-append (owns ip o) cs ds, a))
    | inl e ↦ elim h.2 [
      | inl f ↦ inl (e ∙ f)
      | inr a ↦ inr (
          ground
            (arith, any-append (owns ip o) cs ds, subst (λ x. any (owns ip x) cs ≡ true) (sym e) a))
    ]
  ],
)

longer_refl : (k : ℕ) (q : Prefix) → longer (record { key = k; prefix = some q }) k q ≡ true
longer_refl k q = ground arith

eq_refl : (n : ℕ) → (n == n) ≡ true
eq_refl n = ground arith

same_prefix_refl : (p : Prefix) → same_prefix p p ≡ true
same_prefix_refl p = ground arith

-- a claim that is at least as long becomes the best
replaced-Steps :
    (ip : Addr) (k : ℕ) (p : Prefix) (best : Owner)
    → (contains_addr (masked p) ip && as_long (masked p) best.prefix) ≡ true
    → (same_length (masked p) best.prefix && not (best.key == k)) ≡ false
    → Steps ip best ((k, some p) ∷ []) (record { key = k; prefix = some (masked p) })
replaced-Steps ip k p best a b = (
  beaten_by (contains_addr (masked p) ip) _ (longer_refl k (masked p)),
  still,
  inr (
      had_by (contains_addr (masked p) ip) (k == k) _ (and_left _ _ a) (eq_refl k)
        (same_prefix_refl (masked p))),
)
  where
    still :
        (d : Claim)
        → beats ip best d ≡ true
        → beats ip (record { key = k; prefix = some (masked p) }) d ≡ true
    still (j, none) h = h
    still (j, some x) h =
        or_map (contains_addr (masked x) ip) _ _
          (longer_trans best.key best.prefix j k (masked x) (masked p) (and_right _ _ a) b) h

-- a claim that does not hold, or is shorter, changes nothing
stays-Steps :
    (ip : Addr) (k : ℕ) (p : Prefix) (best : Owner)
    → (contains_addr (masked p) ip && as_long (masked p) best.prefix) ≡ false
    → Steps ip best ((k, some p) ∷ []) best
stays-Steps ip k p best a = (
  stays (contains_addr (masked p) ip) _ _ a (shorter-longer best.key best.prefix k (masked p)),
  (λ d h. h),
  inl refl,
)

own_prefix-Steps :
    (ip : Addr) (k : ℕ) (p : Prefix) (best : Owner)
    → Holds (own_prefix ip k p best) (Steps ip best ((k, some p) ∷ []))
unfolding own_prefix
own_prefix-Steps ip k p best =
    Holds-if _
      (λ a.
        Holds-if _ (λ _. record { holds = tt }) (λ b. Holds-found (replaced-Steps ip k p best a b)))
      (λ a. Holds-found (stays-Steps ip k p best a))

own_allowed-Steps :
    (ip : Addr) (k : ℕ) (n : Option Prefix) (best : Owner)
    → Holds (own_allowed ip k n best) (Steps ip best ((k, n) ∷ []))
unfolding own_allowed
own_allowed-Steps ip k none best = record { holds = tt }
own_allowed-Steps ip k (some p) best = own_prefix-Steps ip k p best

own_peer-Steps :
    (ip : Addr) (key : ℕ) (ns : List (Option Prefix)) (best : Owner)
    → Holds (own_peer ip key ns best) (Steps ip best (map (λ n. (key, n)) ns))
unfolding own_peer
own_peer-Steps ip key [] best = record { holds = Steps-none ip best }
own_peer-Steps ip key (n ∷ ns) best = Holds-bind (own_allowed-Steps ip key n best) (λ mid h.
    Holds-map _ (own_peer-Steps ip key ns mid)
      (λ o k. Steps-append ip best mid o ((key, n) ∷ []) (map (λ n. (key, n)) ns) h k))

peer_or_skip :
    (b : Bool) (ip : Addr) (key skip : ℕ) (ns : List (Option Prefix)) (ps : List DevicePeer)
    (best : Owner)
    → ((mid : Owner) → Holds (own_peers ip skip ps mid) (Steps ip mid (claims skip ps)))
    → Holds
        (elim (if b then some best else own_peer ip key ns best) [
          | none ↦ none
          | some next ↦ own_peers ip skip ps next
        ])
        (Steps ip best (if b then claims skip ps else map (λ n. (key, n)) ns ++ claims skip ps))
peer_or_skip true ip key skip ns ps best rest = rest best
peer_or_skip false ip key skip ns ps best rest =
    Holds-bind (own_peer-Steps ip key ns best) (λ mid h.
      Holds-map _ (rest mid)
        (λ o k. Steps-append ip best mid o (map (λ n. (key, n)) ns) (claims skip ps) h k))

own_peers-Steps :
    (ip : Addr) (skip : ℕ) (ps : List DevicePeer) (best : Owner)
    → Holds (own_peers ip skip ps best) (Steps ip best (claims skip ps))
unfolding own_peers
own_peers-Steps ip skip [] best = record { holds = Steps-none ip best }
own_peers-Steps ip skip (p ∷ ps) best =
    peer_or_skip (p.public_key == skip) ip p.public_key skip p.allowed_ips ps best
      (own_peers-Steps ip skip ps)

-- Where `controlOwner` finds an owner, each allowed IP of the peers but `skip` is valid, and one that holds
-- the address is shorter than the owner's prefix, or as long and of the same peer; and the owner has the
-- address by one of them, or there is no owner.
pub owner_is_longest :
    (d : Device) (ip : Addr) (skip : ℕ) (o : Owner)
    → control_owner d ip skip ≡ some o
    → (all (beats ip o) (claims skip d.peers) ≡ true)
      × ((o ≡ no_owner) ⊎ (any (owns ip o) (claims skip d.peers) ≡ true))
unfolding control_owner
owner_is_longest d ip skip o e =
    let h = Holds-some o (own_peers-Steps ip skip d.peers no_owner) e in (h.0, h.2)
