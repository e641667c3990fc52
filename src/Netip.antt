-- ===== src/Netip.antt =====
-- What the code uses of Go's `net/netip`: addresses and prefixes as numbers, and the tests on them.
use wireguard_mesh.Prelude.{
  ℕ, ◌-◌, ◌*◌, ◌/◌, ◌^◌, Bool, not, ◌&&◌, ◌||◌, ◌==◌, leb, ◌%◌, if◌then◌else◌,
}

-- `netip.Addr`: 32 or 128 bits, 0 for the invalid address; the zone is a text, "" being 0.
pub record Addr : Type 0 where
  pub bits : ℕ
  pub value : ℕ
  pub zone : ℕ

pub record AddrPort : Type 0 where
  pub addr : Addr
  pub port : ℕ

-- `netip.Prefix`: an address without a zone and a length; the zero value has an invalid address.
pub record Prefix : Type 0 where
  pub addr : Addr
  pub length : ℕ

abbrev pub no_addr : Addr
no_addr = record { bits = 0; value = 0; zone = 0 }

abbrev pub is4 : Addr → Bool
is4 a = a.bits == 32

abbrev pub is6 : Addr → Bool
is6 a = a.bits == 128

abbrev pub is_valid : Addr → Bool
is_valid a = not (a.bits == 0)

abbrev pub with_zone : ℕ → Addr → Addr
with_zone zone a = record a { zone = if is6 a then zone else 0 }

-- ::ffff:0:0/96
abbrev pub is4_in6 : Addr → Bool
is4_in6 a = is6 a && a.value / 2 ^ 32 == 0xffff

-- 169.254.0.0/16 and fe80::/10
abbrev pub is_link_local_unicast : Addr → Bool
is_link_local_unicast a = is4 a && a.value / 2 ^ 16 == 0xa9fe || is6 a && a.value / 2 ^ 118 == 0x3fa

-- 127.0.0.0/8 and ::1
abbrev pub is_loopback : Addr → Bool
is_loopback a = is4 a && a.value / 2 ^ 24 == 127 || is6 a && a.value == 1

-- 224.0.0.0/4 and ff00::/8
abbrev pub is_multicast : Addr → Bool
is_multicast a = is4 a && a.value / 2 ^ 28 == 14 || is6 a && a.value / 2 ^ 120 == 0xff

abbrev pub is_unspecified : Addr → Bool
is_unspecified a = is_valid a && a.value == 0 && a.zone == 0

abbrev pub is_global_unicast : Addr → Bool
is_global_unicast a =
    is_valid a
    && not (is4 a && a.value == 2 ^ 32 - 1)
    && not (is_unspecified a)
    && not (is_loopback a)
    && not (is_multicast a)
    && not (is_link_local_unicast a)

abbrev pub same_addr : Addr → Addr → Bool
same_addr a b = a.bits == b.bits && a.value == b.value && a.zone == b.zone

abbrev pub same_prefix : Prefix → Prefix → Bool
same_prefix p q = same_addr p.addr q.addr && p.length == q.length

abbrev pub is_valid_prefix : Prefix → Bool
is_valid_prefix p = is_valid p.addr && leb p.length p.addr.bits

-- the number of an address without the bits behind the prefix's length
abbrev pub network : Prefix → ℕ → ℕ
network p value = value / 2 ^ (p.addr.bits - p.length)

abbrev pub masked : Prefix → Prefix
masked p = record p {
  addr = record p.addr { value = network p p.addr.value * 2 ^ (p.addr.bits - p.length) };
}

abbrev pub contains_addr : Prefix → Addr → Bool
contains_addr p a =
    is_valid_prefix p
    && p.addr.bits == a.bits
    && a.zone == 0
    && network p p.addr.value == network p a.value

-- 224.0.0.0/24 and ff?2::/16
abbrev pub is_link_local_multicast : Addr → Bool
is_link_local_multicast a =
    is4 a && a.value / 2 ^ 8 == 0xe00000
    || is6 a && a.value / 2 ^ 120 == 0xff && a.value / 2 ^ 112 % 16 == 2

-- an IPv4 address for one that is mapped into IPv6
abbrev pub unmap : Addr → Addr
unmap a = if is4_in6 a then record { bits = 32; value = a.value % 2 ^ 32; zone = 0 } else a
