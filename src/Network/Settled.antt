-- ===== src/Network/Settled.antt =====
-- A membership that `Links` wants is joined, or the call to join it fails (network.go).
use wireguard_mesh.Prelude.{
  ℕ, ◌≡◌, refl, sym, subst, Bool, true, false, ◌||◌, List, [], ◌∷◌, arith, if◌then◌else◌,
}
use wireguard_mesh.Netip.{Prefix}
use wireguard_mesh.Network.State.{Membership}
use wireguard_mesh.Network.Members.{
  Members, has, same_membership, same_membership-≡, same_membership_refl, has-put_old, has-put_self,
}
use wireguard_mesh.Network.Links.{
  GroupCall, leaves, joins, Joined, join_reported, join_one, join_missing,
}

abbrev Entry : Type 0
Entry = Membership × List Prefix

-- a join of this membership was reported as failed
abbrev pub failed : Membership → List GroupCall → Bool
failed k [] = false
failed k (leaves j ∷ calls) = failed k calls
failed k (joins j true ∷ calls) = failed k calls
failed k (joins j false ∷ calls) = same_membership k j || failed k calls

abbrev pub settled : Membership → Joined → Bool
settled k s = has k s.joined || failed k s.group_calls

join_reported-settled :
    (b : Bool) (k : Membership) (e : Entry) (s : Joined)
    → settled k s ≡ true
    → settled k (join_reported b e s) ≡ true
unfolding join_reported
join_reported-settled true k e s h = either (has k s.joined) _ _ (has-put_old k e.0 e.1 s.joined) h
  where
    either : (a b c : Bool) → (a ≡ true → b ≡ true) → (a || c) ≡ true → (b || c) ≡ true
    either true b c f h = ground (arith, f refl)
    either false b c f h = ground (arith, h)
join_reported-settled false k e s h = wider (has k s.joined) (failed k s.group_calls) _ h
  where
    wider : (a b c : Bool) → (a || b) ≡ true → (a || (c || b)) ≡ true
    wider a b c h = ground (arith, h)

join_one-settled :
    (join : ℕ → Bool) (k : Membership) (e : Entry) (s : Joined)
    → settled k s ≡ true
    → settled k (join_one join e s) ≡ true
unfolding join_one
join_one-settled join k e s h = by_case (has e.0 s.joined)
  where
    by_case : (b : Bool) → settled k (if b then s else join_reported (join s.answered) e s) ≡ true
    by_case true = h
    by_case false = join_reported-settled (join s.answered) k e s h

join_one-settled_self :
    (join : ℕ → Bool) (e : Entry) (s : Joined) → settled e.0 (join_one join e s) ≡ true
unfolding join_one join_reported
join_one-settled_self join e s = by_case (has e.0 s.joined) (join s.answered) refl
  where
    by_case :
        (b c : Bool)
        → has e.0 s.joined ≡ b
        → settled e.0 (if b then s else join_reported c e s) ≡ true
    by_case true c h = rw h refl
    by_case false true h = rw (has-put_self e.0 e.1 s.joined) refl
    by_case false false h = rw (same_membership_refl e.0) (ground arith)

pub or_left : (a b : Bool) → a ≡ true → (a || b) ≡ true
or_left a b h = ground (arith, h)

or_right : (a b : Bool) → b ≡ true → (a || b) ≡ true
or_right a b h = ground (arith, h)

or_map : (a b c : Bool) → (b ≡ true → c ≡ true) → (a || b) ≡ true → (a || c) ≡ true
or_map true b c f h = refl
or_map false b c f h = f h

pub join_missing-settled :
    (join : ℕ → Bool) (k : Membership) (es : Members) (s : Joined)
    → (has k es || settled k s) ≡ true
    → settled k (join_missing join es s) ≡ true
unfolding join_missing
join_missing-settled join k [] s h = h
join_missing-settled join k (e ∷ es) s h =
    join_missing-settled join k es _ (by_case (same_membership k e.0) refl h)
  where
    by_case :
        (b : Bool)
        → same_membership k e.0 ≡ b
        → ((if b then true else has k es) || settled k s) ≡ true
        → (has k es || settled k (join_one join e s)) ≡ true
    by_case true same h = or_right _ _ (
        subst (λ j. settled j (join_one join e s) ≡ true) (sym (same_membership-≡ k e.0 same))
          (join_one-settled_self join e s))
    by_case false other h = or_map (has k es) (settled k s) _ (join_one-settled join k e s) h
