-- ===== src/Security.antt =====
-- src/server/security.rs: which addresses and hostnames are refused, and the real client address.
-- The standard library's parsers of addresses in text are the parameters `parse_ipv4`, `parse_ipv6`
-- and `parse_ip`; what it says of an `Ipv4Addr` or an `Ipv6Addr` is written out.
pub mod Policy
pub mod Names
pub mod Literals
pub mod RealIp
pub mod Trusted
use shrimpwisp.Prelude.{◌/◌, ◌%◌}
use shrimpwisp.Prelude.{Bool, true, false, ◌&&◌, ◌||◌, not, Option, none, some}
use shrimpwisp.Prelude.{leb, ◌==◌, if◌then◌else◌}
use shrimpwisp.Config.{ServerConfig}
use shrimpwisp.Net.{IpAddr, v4, v6, Ipv4Addr, Ipv6Addr}
use Prim.Native.Nat.{bit_and}

-- `Ipv4Addr::is_loopback`, `is_private`, `is_unspecified` and `is_link_local`.
unfoldable pub v4_loopback : Ipv4Addr → Bool
v4_loopback a = a.o0 == 127

unfoldable pub v4_private : Ipv4Addr → Bool
v4_private a =
    a.o0 == 10 || ((a.o0 == 172 && (leb 16 a.o1 && leb a.o1 31)) || (a.o0 == 192 && a.o1 == 168))

unfoldable pub v4_unspecified : Ipv4Addr → Bool
v4_unspecified a = a.o0 == 0 && (a.o1 == 0 && (a.o2 == 0 && a.o3 == 0))

unfoldable pub v4_link_local : Ipv4Addr → Bool
v4_link_local a = a.o0 == 169 && a.o1 == 254

-- `Ipv6Addr::is_loopback`, `is_unspecified` and `to_ipv4_mapped`.
abbrev pub upper_zero : Ipv6Addr → Bool
upper_zero a = a.s0 == 0 && (a.s1 == 0 && (a.s2 == 0 && (a.s3 == 0 && a.s4 == 0)))

unfoldable pub v6_loopback : Ipv6Addr → Bool
v6_loopback a = upper_zero a && (a.s5 == 0 && (a.s6 == 0 && a.s7 == 1))

unfoldable pub v6_unspecified : Ipv6Addr → Bool
v6_unspecified a = upper_zero a && (a.s5 == 0 && (a.s6 == 0 && a.s7 == 0))

unfoldable pub to_ipv4_mapped : Ipv6Addr → Option Ipv4Addr
to_ipv4_mapped a =
    if upper_zero a && a.s5 == 0xffff
    then some (record { o0 = a.s6 / 256; o1 = a.s6 % 256; o2 = a.s7 / 256; o3 = a.s7 % 256 })
    else none

-- `Option::is_some_and`.
abbrev pub is_some_and : {A : Type 0} → Option A → (A → Bool) → Bool
is_some_and none p = false
is_some_and (some a) p = p a

unfoldable pub is_ipv6_link_local : Ipv6Addr → Bool
is_ipv6_link_local a = bit_and a.s0 0xffc0 == 0xfe80

unfoldable pub is_ipv6_unique_local : Ipv6Addr → Bool
is_ipv6_unique_local a = bit_and a.s0 0xfe00 == 0xfc00

unfoldable pub is_loopback : IpAddr → Bool
unfolding v4_loopback v6_loopback to_ipv4_mapped
is_loopback (v4 a) = v4_loopback a
is_loopback (v6 a) = v6_loopback a || is_some_and (to_ipv4_mapped a) v4_loopback

unfoldable pub is_private : IpAddr → Bool
unfolding v4_private is_ipv6_unique_local to_ipv4_mapped
is_private (v4 a) = v4_private a
is_private (v6 a) = is_ipv6_unique_local a || is_some_and (to_ipv4_mapped a) v4_private

unfoldable pub is_unspecified : IpAddr → Bool
unfolding v4_unspecified v6_unspecified to_ipv4_mapped
is_unspecified (v4 a) = v4_unspecified a
is_unspecified (v6 a) = v6_unspecified a || is_some_and (to_ipv4_mapped a) v4_unspecified

unfoldable pub is_link_local : IpAddr → Bool
unfolding v4_link_local is_ipv6_link_local to_ipv4_mapped
is_link_local (v4 a) = v4_link_local a
is_link_local (v6 a) = is_ipv6_link_local a || is_some_and (to_ipv4_mapped a) v4_link_local

unfoldable pub is_ip_blocked : IpAddr → ServerConfig → Bool
is_ip_blocked ip c =
    if is_unspecified ip
    then true
    else if not c.allow_loopback && is_loopback ip
    then true
    else if not c.allow_private_ips && is_private ip
    then true
    else if not c.allow_private_ips && is_link_local ip
    then true
    else false
