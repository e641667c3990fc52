-- ===== src/Network/Links.antt =====
-- The links of the host, and the multicast groups on them (`Links` in network.go).
use wireguard_mesh.Prelude.{
  ℕ, ◌+◌, Bool, true, false, not, ◌&&◌, ◌||◌, Option, none, some, List, [], ◌∷◌, ◌++◌,
  if◌then◌else◌,
}
use wireguard_mesh.Netip.{Addr, Prefix, is4, is6}
use wireguard_mesh.Network.State.{Interface, InterfaceState, LinkAddr, Membership, UdpNetwork}
use wireguard_mesh.Network.Link.{select_interface, usable_link_address, addressed_link}
use wireguard_mesh.Network.Members.{Members, get, has, put, delete, same_prefixes}

-- `groupMembership`: a group is left, whatever comes of it, or joined, with its report
pub data GroupCall : Type 0 where
  leaves : Membership → GroupCall
  joins : Membership → Bool → GroupCall

-- `n.joined`, and the calls so far, the latest first; `answered` counts the reports
pub record Joined : Type 0 where
  pub joined : Members
  pub answered : ℕ
  pub group_calls : List GroupCall

abbrev pub is_joinable : UdpNetwork → LinkAddr → Addr → Addr → Bool
is_joinable n link address group =
    link.multicast
    && (if is4 group then is4 address else not (is4 address))
    && (is4 group && n.v4 || is6 group && n.v6)

abbrev pub membership_of : Interface → Addr → Membership
membership_of iface group = record { index = iface.index; name = iface.name; group = group }

-- one more address that wants the group on this interface
abbrev pub want : Membership → Prefix → Members → Members
want key p wanted = put key (get key wanted ++ (p ∷ [])) wanted

unfoldable pub want_groups : UdpNetwork → Interface → Prefix → List Addr → Members → Members
want_groups n iface p [] wanted = wanted
want_groups n iface p (group ∷ groups) wanted = want_groups n iface p groups (
    if is_joinable n (addressed_link iface p) p.addr group
    then want (membership_of iface group) p wanted
    else wanted)

unfoldable pub scan_prefixes :
    UdpNetwork → Interface → List Prefix → List LinkAddr × Members → List LinkAddr × Members
scan_prefixes n iface [] found = found
scan_prefixes n iface (p ∷ ps) found = scan_prefixes n iface ps (
    if usable_link_address p.addr
    then (found.0 ++ (addressed_link iface p ∷ []), want_groups n iface p n.groups found.1)
    else found)

-- the loop over the interfaces: the links, and the memberships that they want
unfoldable pub scan :
    UdpNetwork → List InterfaceState → List LinkAddr × Members → List LinkAddr × Members
scan n [] found = found
scan n (s ∷ states) found = scan n states (
    if select_interface n s.iface
    then scan_prefixes n s.iface (n.sorted s.prefixes) found
    else found)

-- the joined addresses of an interface are those that want the group
abbrev pub fits : Members → Membership × List Prefix → Bool
fits wanted e = same_prefixes e.1 (get e.0 wanted)

unfoldable pub leave_one : Members → Membership × List Prefix → Joined → Joined
leave_one wanted e s =
    if fits wanted e
    then s
    else record s { joined = delete e.0 s.joined; group_calls = leaves e.0 ∷ s.group_calls }

unfoldable pub leave_stale : Members → Members → Joined → Joined
leave_stale wanted [] s = s
leave_stale wanted (e ∷ es) s = leave_stale wanted es (leave_one wanted e s)

-- a report of `JoinGroup`
unfoldable pub join_reported : Bool → Membership × List Prefix → Joined → Joined
join_reported true e s = record {
  joined = put e.0 e.1 s.joined;
  answered = s.answered + 1;
  group_calls = joins e.0 true ∷ s.group_calls;
}
join_reported false e s = record s {
  answered = s.answered + 1;
  group_calls = joins e.0 false ∷ s.group_calls;
}

unfoldable pub join_one : (ℕ → Bool) → Membership × List Prefix → Joined → Joined
join_one join e s = if has e.0 s.joined then s else join_reported (join s.answered) e s

unfoldable pub join_missing : (ℕ → Bool) → Members → Joined → Joined
join_missing join [] s = s
join_missing join (e ∷ es) s = join_missing join es (join_one join e s)

unfoldable pub update : (ℕ → Bool) → Members → Joined → Joined
update join wanted s = join_missing join wanted (leave_stale wanted s.joined s)

-- `Links`, with the interfaces that were read, none for an error; its result is none for an error
unfoldable pub links :
    UdpNetwork
    → (ℕ → Bool)
    → Bool
    → Option (List InterfaceState)
    → Joined
    → Option (List LinkAddr) × Joined
links n join closed none s = (none, s)
links n join closed (some states) s =
    if closed
    then (none, s)
    else (some (scan n states ([], [])).0, update join (scan n states ([], [])).1 s)
