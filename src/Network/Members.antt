-- ===== src/Network/Members.antt =====
-- Go maps whose keys are memberships, as association lists (network.go).
use wireguard_mesh.Prelude.{
  ◌≡◌, refl, Bool, true, false, ◌&&◌, ◌==◌, List, [], ◌∷◌, arith, if◌then◌else◌,
}
use wireguard_mesh.Netip.{Prefix, same_addr, same_prefix}
use wireguard_mesh.Network.State.{Membership}

abbrev pub same_membership : Membership → Membership → Bool
same_membership a b = a.index == b.index && a.name == b.name && same_addr a.group b.group

abbrev pub Members : Type 0
Members = List (Membership × List Prefix)

-- the addresses of a membership, nil for a missing one
abbrev pub get : Membership → Members → List Prefix
get k [] = []
get k ((j, ps) ∷ m) = if same_membership k j then ps else get k m

abbrev pub has : Membership → Members → Bool
has k [] = false
has k ((j, ps) ∷ m) = if same_membership k j then true else has k m

abbrev pub put : Membership → List Prefix → Members → Members
put k ps [] = (k, ps) ∷ []
put k ps (e ∷ m) = if same_membership k e.0 then (k, ps) ∷ m else e ∷ put k ps m

abbrev pub delete : Membership → Members → Members
delete k [] = []
delete k (e ∷ m) = let rest = delete k m in if same_membership k e.0 then rest else e ∷ rest

-- `slices.Equal`
abbrev pub same_prefixes : List Prefix → List Prefix → Bool
same_prefixes [] [] = true
same_prefixes [] (q ∷ qs) = false
same_prefixes (p ∷ ps) [] = false
same_prefixes (p ∷ ps) (q ∷ qs) = same_prefix p q && same_prefixes ps qs

pub same_membership-≡ : (a b : Membership) → same_membership a b ≡ true → a ≡ b
same_membership-≡ a b h = ground (arith, h)

pub same_membership_refl : (a : Membership) → same_membership a a ≡ true
same_membership_refl a = ground arith

pub same_prefixes_refl : (ps : List Prefix) → same_prefixes ps ps ≡ true
same_prefixes_refl [] = refl
same_prefixes_refl (p ∷ ps) = ground (arith, same_prefixes_refl ps)

-- No key stands twice.
abbrev pub Distinct : Members → Type 0
Distinct [] = Unit
Distinct ((k, ps) ∷ m) = (has k m ≡ false) × Distinct m

-- another key than the one that is put
has-put_other :
    (j k : Membership) (ps : List Prefix) (m : Members)
    → same_membership j k ≡ false
    → has j m ≡ false
    → has j (put k ps m) ≡ false
has-put_other j k ps [] n h = rw n refl
has-put_other j k ps ((i, qs) ∷ m) n h = ground (arith, n, h, has-put_other j k ps m n)

pub put-Distinct :
    (k : Membership) (ps : List Prefix) (m : Members) → Distinct m → Distinct (put k ps m)
put-Distinct k ps [] d = (refl, tt)
put-Distinct k ps ((i, qs) ∷ m) d = ground (arith, d, put-Distinct k ps m, has-put_other i k ps m)

pub has-put_old :
    (j k : Membership) (ps : List Prefix) (m : Members) → has j m ≡ true → has j (put k ps m) ≡ true
has-put_old j k ps [] h = absurd (ground (arith, h))
has-put_old j k ps ((i, qs) ∷ m) h = ground (arith, h, has-put_old j k ps m)

pub has-put_self : (k : Membership) (ps : List Prefix) (m : Members) → has k (put k ps m) ≡ true
has-put_self k ps [] = rw (same_membership_refl k) refl
has-put_self k ps ((i, qs) ∷ m) = ground (arith, has-put_self k ps m)
