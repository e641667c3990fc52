-- ===== src/Network/Memberships.antt =====
-- The groups that are joined after `Links` (network.go).
use wireguard_mesh.Prelude.{
  ℕ, ◌≡◌, refl, Bool, true, false, not, ◌&&◌, ◌||◌, some, List, [], ◌∷◌, ◌++◌, any, All, arith,
  if◌then◌else◌,
}
use wireguard_mesh.Netip.{Addr, Prefix}
use wireguard_mesh.Network.State.{Interface, InterfaceState, LinkAddr, Membership, UdpNetwork}
use wireguard_mesh.Network.Link.{addressed_link}
use wireguard_mesh.Network.Members.{
  Members, has, put, delete, same_membership, same_membership_refl, same_prefixes_refl, Distinct,
  put-Distinct,
}
use wireguard_mesh.Network.Settled.{settled, join_missing-settled, or_left}
use wireguard_mesh.Network.Links.{
  leaves, Joined, is_joinable, membership_of, want, want_groups, scan_prefixes, scan, fits,
  leave_one, leave_stale, join_reported, join_one, join_missing, update, links,
}

-- each group that is joined has the addresses that want it
abbrev pub Current : Members → Members → Type 0
Current wanted m = All (λ e. fits wanted e ≡ true) m

-- this membership is one of the list that does not fit
abbrev stale : Members → Members → Membership → Bool
stale wanted es k = any (λ f. same_membership f.0 k && not (fits wanted f)) es

abbrev Entry : Type 0
Entry = Membership × List Prefix

All-map : {P Q : Entry → Type 0} (m : Members) → ((e : Entry) → P e → Q e) → All P m → All Q m
All-map [] f h = tt
All-map (e ∷ m) f h = (f e h.0, All-map m f h.1)

All-unless :
    (Q : Entry → Type 0) (b : Bool) (e : Entry) (m : Members)
    → (b ≡ false → Q e)
    → All Q m
    → All Q (if b then m else e ∷ m)
All-unless Q true e m q h = h
All-unless Q false e m q h = (q refl, h)

All-delete :
    (k : Membership) (wanted rest m : Members)
    → All (λ e. (fits wanted e || stale wanted rest e.0 || same_membership k e.0) ≡ true) m
    → All (λ e. (fits wanted e || stale wanted rest e.0) ≡ true) (delete k m)
All-delete k wanted rest [] h = tt
All-delete k wanted rest (e ∷ m) h =
    All-unless _ (same_membership k e.0) e _
      (or_rest (fits wanted e) (stale wanted rest e.0) (same_membership k e.0) h.0)
      (All-delete k wanted rest m h.1)
  where
    or_rest : (a b c : Bool) → (a || b || c) ≡ true → c ≡ false → (a || b) ≡ true
    or_rest a b c h e = ground (arith, h, e)

-- one entry of the loop
leave_if :
    (b : Bool) (wanted es : Members) (f : Entry) (s : Joined)
    → All
        (λ e. (fits wanted e || (same_membership f.0 e.0 && not b || stale wanted es e.0)) ≡ true)
        s.joined
    → All
        (λ e. (fits wanted e || stale wanted es e.0) ≡ true)
        (if b then s else record s {
          joined = delete f.0 s.joined;
          group_calls = leaves f.0 ∷ s.group_calls;
        }).joined
leave_if true wanted es f s h =
    All-map s.joined (λ e. fitting (fits wanted e) (same_membership f.0 e.0) _) h
  where
    fitting : (a b c : Bool) → (a || (b && not true || c)) ≡ true → (a || c) ≡ true
    fitting a b c h = ground (arith, h)
leave_if false wanted es f s h = All-delete f.0 wanted es s.joined (
    All-map s.joined (λ e. turned (fits wanted e) (same_membership f.0 e.0) (stale wanted es e.0))
      h)
  where
    turned : (a b c : Bool) → (a || (b && not false || c)) ≡ true → (a || c || b) ≡ true
    turned a b c h = ground (arith, h)

leave_stale-Current :
    (wanted es : Members) (s : Joined)
    → All (λ e. (fits wanted e || stale wanted es e.0) ≡ true) s.joined
    → Current wanted (leave_stale wanted es s).joined
unfolding leave_stale leave_one
leave_stale-Current wanted [] s h = All-map s.joined (λ e. or_none (fits wanted e)) h
  where
    or_none : (a : Bool) → (a || false) ≡ true → a ≡ true
    or_none a h = ground (arith, h)
leave_stale-Current wanted (f ∷ es) s h =
    leave_stale-Current wanted es _ (leave_if (fits wanted f) wanted es f s h)

-- each entry that does not fit is in the loop
covering : (wanted m : Members) → All (λ e. (fits wanted e || stale wanted m e.0) ≡ true) m
covering wanted [] = tt
covering wanted (e ∷ m) = (
  covers (fits wanted e) _ _ (same_membership_refl e.0),
  All-map m (λ g. later (fits wanted g) _ (stale wanted m g.0)) (covering wanted m),
)
  where
    covers : (a b c : Bool) → b ≡ true → (a || (b && not a || c)) ≡ true
    covers a b c h = ground (arith, h)

    later : (a b c : Bool) → (a || c) ≡ true → (a || (b || c)) ≡ true
    later a b c h = ground (arith, h)

-- after a join, the entry is the wanted one
put-Current :
    (wanted : Members) (k : Membership) (ps : List Prefix) (m : Members)
    → fits wanted (k, ps) ≡ true
    → Current wanted m
    → Current wanted (put k ps m)
put-Current wanted k ps [] f h = (f, tt)
put-Current wanted k ps (e ∷ m) f h =
    put_if (same_membership k e.0) _ f h.0 h.1 (put-Current wanted k ps m f h.1)
  where
    put_if :
        (b : Bool) (r : Members)
        → fits wanted (k, ps) ≡ true
        → fits wanted e ≡ true
        → Current wanted m
        → Current wanted r
        → Current wanted (if b then (k, ps) ∷ m else e ∷ r)
    put_if true r f g h i = (f, h)
    put_if false r f g h i = (g, i)

join_one-Current :
    (join : ℕ → Bool) (wanted : Members) (e : Entry) (s : Joined)
    → fits wanted e ≡ true
    → Current wanted s.joined
    → Current wanted (join_one join e s).joined
unfolding join_one join_reported
join_one-Current join wanted e s f h = join_if (has e.0 s.joined) (join s.answered)
  where
    join_if : (b c : Bool) → Current wanted (if b then s else join_reported c e s).joined
    join_if true c = h
    join_if false true = put-Current wanted e.0 e.1 s.joined f h
    join_if false false = h

join_missing-Current :
    (join : ℕ → Bool) (wanted es : Members) (s : Joined)
    → Current wanted es
    → Current wanted s.joined
    → Current wanted (join_missing join es s).joined
unfolding join_missing
join_missing-Current join wanted [] s f h = h
join_missing-Current join wanted (e ∷ es) s f h =
    join_missing-Current join wanted es _ f.1 (join_one-Current join wanted e s f.0 h)

All-both :
    {P Q R : Entry → Type 0} (m : Members)
    → ((e : Entry) → P e → Q e → R e)
    → All P m
    → All Q m
    → All R m
All-both [] f h k = tt
All-both (e ∷ m) f h k = (f e h.0 k.0, All-both m f h.1 k.1)

All-other :
    (k : Membership) (m : Members) → has k m ≡ false → All (λ e. same_membership e.0 k ≡ false) m
All-other k [] h = tt
All-other k ((j, ps) ∷ m) h = (ground (arith, h), All-other k m (ground (arith, h)))

-- the entries of a map without doubles are what its keys find
Distinct-Current : (m : Members) → Distinct m → Current m m
Distinct-Current [] d = tt
Distinct-Current ((k, ps) ∷ m) d = (
  rw (same_membership_refl k) (same_prefixes_refl ps),
  All-both m (λ e n f. rw n f) (All-other k m d.0) (Distinct-Current m d.1),
)

want_groups-Distinct :
    (n : UdpNetwork) (iface : Interface) (p : Prefix) (groups : List Addr) (wanted : Members)
    → Distinct wanted
    → Distinct (want_groups n iface p groups wanted)
unfolding want_groups
want_groups-Distinct n iface p [] wanted d = d
want_groups-Distinct n iface p (group ∷ groups) wanted d =
    want_groups-Distinct n iface p groups _
      (want_if (is_joinable n (addressed_link iface p) p.addr group))
  where
    want_if :
        (b : Bool) → Distinct (if b then want (membership_of iface group) p wanted else wanted)
    want_if true = put-Distinct _ _ wanted d
    want_if false = d

scan_prefixes-Distinct :
    (n : UdpNetwork) (iface : Interface) (ps : List Prefix) (found : List LinkAddr × Members)
    → Distinct found.1
    → Distinct (scan_prefixes n iface ps found).1
unfolding scan_prefixes
scan_prefixes-Distinct n iface [] found d = d
scan_prefixes-Distinct n iface (p ∷ ps) found d = scan_prefixes-Distinct n iface ps _ (use_if _)
  where
    use_if :
        (b : Bool)
        → Distinct
            (if b
              then (
                found.0 ++ (addressed_link iface p ∷ []),
                want_groups n iface p n.groups found.1,
              )
              else found).1
    use_if true = want_groups-Distinct n iface p n.groups found.1 d
    use_if false = d

scan-Distinct :
    (n : UdpNetwork) (states : List InterfaceState) (found : List LinkAddr × Members)
    → Distinct found.1
    → Distinct (scan n states found).1
unfolding scan
scan-Distinct n [] found d = d
scan-Distinct n (s ∷ states) found d = scan-Distinct n states _ (select_if _)
  where
    select_if :
        (b : Bool)
        → Distinct (if b then scan_prefixes n s.iface (n.sorted s.prefixes) found else found).1
    select_if true = scan_prefixes-Distinct n s.iface _ found d
    select_if false = d

update-Current :
    (join : ℕ → Bool) (wanted : Members) (s : Joined)
    → Distinct wanted
    → Current wanted (update join wanted s).joined
unfolding update
update-Current join wanted s d =
    join_missing-Current join wanted wanted _ (Distinct-Current wanted d)
      (leave_stale-Current wanted s.joined s (covering wanted s.joined))

-- After `Links` with these interfaces: each group that is joined has on its interface the addresses that want
-- it, and each membership that is wanted is joined, or the call to join it has failed.
pub links-Joined :
    (n : UdpNetwork) (join : ℕ → Bool) (states : List InterfaceState) (m : Members) (answered : ℕ)
    → let s =
        (links n join false
          (some states)
          (record { joined = m; answered = answered; group_calls = [] })).1 in
      Current (scan n states ([], [])).1 s.joined
      × ((k : Membership) → has k (scan n states ([], [])).1 ≡ true → settled k s ≡ true)
unfolding links update
links-Joined n join states m answered = (
  update-Current join (scan n states ([], [])).1
      (record { joined = m; answered = answered; group_calls = [] })
      (scan-Distinct n states ([], []) tt),
  (λ k h. join_missing-settled join k (scan n states ([], [])).1 _ (or_left _ _ h)),
)
