-- ===== src/Security/Policy.antt =====
-- The address policy of src/server/security.rs in terms of address ranges.
use shrimpwisp.Prelude.{inl, inr}
use shrimpwisp.Prelude.{if◌then◌else◌, Bool-cases, ◌+◌, ◌≤◌, suc, zero}
use shrimpwisp.Prelude.{ℕ, zero, suc, ◌+◌, ◌*◌, ◌≤◌, ◌<◌}
use shrimpwisp.Prelude.{◌≡◌, refl, ◌↔◌, ◌⊎◌}
use shrimpwisp.Prelude.{Bool, true, false, ◌&&◌, ◌||◌, not, none, some}
use shrimpwisp.Prelude.{arith}
use shrimpwisp.Prelude.{leb, ◌==◌}
use shrimpwisp.Prelude.Bytes.{IsByte, IsU16}
use shrimpwisp.Config.{ServerConfig}
use shrimpwisp.Prelude.{Option, sym, ap, subst, ◌∙◌}
use shrimpwisp.Net.{IpAddr, v4, v6, Ipv4Addr, Ipv6Addr}
use shrimpwisp.Security.{
  v4_loopback, v4_private, v4_unspecified, v4_link_local, v6_loopback, v6_unspecified,
  to_ipv4_mapped, is_ipv6_link_local, is_ipv6_unique_local, is_loopback, is_private, is_unspecified,
  is_link_local, is_ip_blocked,
}
use Prim.Native.Nat.{bit_and}

-- The value of an IPv4 address as one number.
abbrev pub as_u32 : Ipv4Addr → ℕ
as_u32 a = a.o0 * 16777216 + (a.o1 * 65536 + (a.o2 * 256 + a.o3))

abbrev pub IsIpv4 : Ipv4Addr → Type 0
IsIpv4 a = IsByte a.o0 × IsByte a.o1 × IsByte a.o2 × IsByte a.o3

abbrev pub Within : ℕ → ℕ → Ipv4Addr → Type 0
Within lo hi a = (lo ≤ as_u32 a) × (as_u32 a ≤ hi)

-- 127.0.0.0/8, and 10.0.0.0/8, 172.16.0.0/12, 192.168.0.0/16 and 169.254.0.0/16.
abbrev pub Loopback : Ipv4Addr → Type 0
Loopback a = Within 0x7f00_0000 0x7fff_ffff a

abbrev pub Internal : Ipv4Addr → Type 0
Internal a =
    Within 0x0a00_0000 0x0aff_ffff a
    ⊎ Within 0xac10_0000 0xac1f_ffff a
    ⊎ Within 0xc0a8_0000 0xc0a8_ffff a
    ⊎ Within 0xa9fe_0000 0xa9fe_ffff a

v4_loopback_lem : (a : Ipv4Addr) → IsIpv4 a → (v4_loopback a ≡ true) ↔ Loopback a
unfolding v4_loopback
v4_loopback_lem a h = ground arith

v4_internal_lem : (a : Ipv4Addr) → IsIpv4 a → (v4_private a || v4_link_local a) ≡ true ↔ Internal a
unfolding v4_private v4_link_local
v4_internal_lem a h = ground arith

v4_unspecified_lem : (a : Ipv4Addr) → (v4_unspecified a ≡ true) ↔ (as_u32 a ≡ 0)
unfolding v4_unspecified
v4_unspecified_lem a = ground arith

classes_v4 :
    (a : Ipv4Addr)
    → (is_loopback (v4 a) ≡ v4_loopback a)
      × (is_private (v4 a) ≡ v4_private a)
      × (is_unspecified (v4 a) ≡ v4_unspecified a)
      × (is_link_local (v4 a) ≡ v4_link_local a)
unfolding is_loopback is_private is_unspecified is_link_local
classes_v4 a = (refl, refl, refl, refl)

-- An IPv4 address is blocked exactly if it is 0.0.0.0, or in 127.0.0.0/8 while loopback is not
-- allowed, or in 10.0.0.0/8, 172.16.0.0/12, 192.168.0.0/16 or 169.254.0.0/16 while private
-- addresses are not.
pub is_ip_blocked_v4 :
    (a : Ipv4Addr) (c : ServerConfig)
    → IsIpv4 a
    → (is_ip_blocked (v4 a) c ≡ true) ↔ (
        (as_u32 a ≡ 0)
        ⊎ ((c.allow_loopback ≡ false) × Loopback a)
        ⊎ ((c.allow_private_ips ≡ false) × Internal a))
unfolding is_ip_blocked
is_ip_blocked_v4 a c h = ground (
  arith,
  (classes_v4 a).0,
  (classes_v4 a).1,
  (classes_v4 a).2,
  (classes_v4 a).3,
  v4_loopback_lem a h,
  v4_internal_lem a h,
  v4_unspecified_lem a,
)

-- ::ffff:a.b.c.d.
abbrev pub mapped : Ipv4Addr → Ipv6Addr
mapped a = record {
  s0 = 0;
  s1 = 0;
  s2 = 0;
  s3 = 0;
  s4 = 0;
  s5 = 0xffff;
  s6 = a.o0 * 256 + a.o1;
  s7 = a.o2 * 256 + a.o3;
}

to_ipv4_mapped-mapped : (a : Ipv4Addr) → IsIpv4 a → to_ipv4_mapped (mapped a) ≡ some a
unfolding to_ipv4_mapped
to_ipv4_mapped-mapped a h = ground arith

loopback-mapped : (a : Ipv4Addr) → IsIpv4 a → is_loopback (v6 (mapped a)) ≡ is_loopback (v4 a)
unfolding is_loopback
loopback-mapped a h = ground arith

private-mapped : (a : Ipv4Addr) → IsIpv4 a → is_private (v6 (mapped a)) ≡ is_private (v4 a)
unfolding is_private
private-mapped a h = ground arith

unspecified-mapped :
    (a : Ipv4Addr) → IsIpv4 a → is_unspecified (v6 (mapped a)) ≡ is_unspecified (v4 a)
unfolding is_unspecified
unspecified-mapped a h = ground arith

link_local-mapped : (a : Ipv4Addr) → IsIpv4 a → is_link_local (v6 (mapped a)) ≡ is_link_local (v4 a)
unfolding is_link_local
link_local-mapped a h = ground arith

-- An IPv4-mapped IPv6 address has the verdict of the IPv4 address, under every configuration.
pub is_ip_blocked-mapped :
    (a : Ipv4Addr) (c : ServerConfig)
    → IsIpv4 a
    → is_ip_blocked (v6 (mapped a)) c ≡ is_ip_blocked (v4 a) c
unfolding is_ip_blocked
is_ip_blocked-mapped a c h =
    ground (
      arith,
      loopback-mapped a h,
      private-mapped a h,
      unspecified-mapped a h,
      link_local-mapped a h,
    )

-- The masks of fe80::/10 and fc00::/7 are ranges of the first segment.
each_from : (ℕ → Bool) → ℕ → ℕ → Bool
each_from test start zero = true
each_from test start (suc more) =
    let rest = each_from test (start + 1) more in if test start then rest else false

each_from_sound :
    (test : ℕ → Bool) (start more s : ℕ)
    → each_from test start more ≡ true
    → start ≤ s
    → s < start + more
    → test s ≡ true
unfolding each_from
each_from_sound test start zero s h lo hi = absurd (omega arith)
each_from_sound test start (suc more) s h lo hi = elim (Bool-cases (s == start)) [
  | inl e ↦ ground arith
  | inr e ↦ ground (arith, each_from_sound test (start + 1) more s)
]

abbrev agree : Bool → Bool → Bool
agree true b = b
agree false b = not b

masks_agree : ℕ → Bool
masks_agree s =
    agree (bit_and s 0xffc0 == 0xfe80) (leb 0xfe80 s && leb s 0xfebf)
    && agree (bit_and s 0xfe00 == 0xfc00) (leb 0xfc00 s && leb s 0xfdff)

masks_table : each_from masks_agree 0 65536 ≡ true
unfolding each_from masks_agree
masks_table = refl

unique_local_lem :
    (a : Ipv6Addr)
    → IsU16 a.s0
    → (is_ipv6_unique_local a ≡ (leb 0xfc00 a.s0 && leb a.s0 0xfdff))
      × (is_ipv6_link_local a ≡ (leb 0xfe80 a.s0 && leb a.s0 0xfebf))
unfolding is_ipv6_unique_local is_ipv6_link_local masks_agree
unique_local_lem a h =
    let t = each_from_sound masks_agree 0 65536 a.s0 masks_table (omega arith) (omega arith) in
    (ground arith, ground arith)

or_false : (b : Bool) → (b || false) ≡ b
or_false true = refl
or_false false = refl

classes_v6 :
    (a : Ipv6Addr)
    → to_ipv4_mapped a ≡ none
    → (is_loopback (v6 a) ≡ v6_loopback a)
      × (is_private (v6 a) ≡ is_ipv6_unique_local a)
      × (is_unspecified (v6 a) ≡ v6_unspecified a)
      × (is_link_local (v6 a) ≡ is_ipv6_link_local a)
classes_v6 a m = (
  unfold is_loopback in ground arith,
  unfold is_private in ground arith,
  unfold is_unspecified in ground arith,
  unfold is_link_local in ground arith,
)

-- An IPv6 address that maps no IPv4 address is blocked exactly if it is ::, or ::1 while loopback
-- is not allowed, or its first segment lies in fc00::/7 or fe80::/10 while private addresses are
-- not.
pub is_ip_blocked_v6 :
    (a : Ipv6Addr) (c : ServerConfig)
    → IsU16 a.s0
    → to_ipv4_mapped a ≡ none
    → (is_ip_blocked (v6 a) c ≡ true) ↔ (
        (v6_unspecified a ≡ true)
        ⊎ ((c.allow_loopback ≡ false) × (v6_loopback a ≡ true))
        ⊎ ((c.allow_private_ips ≡ false)
            × ((0xfc00 ≤ a.s0) × (a.s0 ≤ 0xfdff) ⊎ (0xfe80 ≤ a.s0) × (a.s0 ≤ 0xfebf))))
unfolding is_ip_blocked
is_ip_blocked_v6 a c h m = ground (
  arith,
  (classes_v6 a m).0,
  (classes_v6 a m).1,
  (classes_v6 a m).2,
  (classes_v6 a m).3,
  (unique_local_lem a h).0,
  (unique_local_lem a h).1,
)

-- A mapped address comes back from its segments.
mapped-to_ipv4_mapped :
    (a : Ipv6Addr) (m : Ipv4Addr)
    → IsU16 a.s6
    → IsU16 a.s7
    → to_ipv4_mapped a ≡ some m
    → (a ≡ mapped m) × IsIpv4 m
unfolding to_ipv4_mapped
mapped-to_ipv4_mapped a m h6 h7 e = (ground arith, ground arith)

-- What the policy refuses: of IPv4, of IPv6 that maps no IPv4 address, and of both.
abbrev pub Refused4 : ServerConfig → Ipv4Addr → Type 0
Refused4 c a =
    (as_u32 a ≡ 0)
    ⊎ ((c.allow_loopback ≡ false) × Loopback a)
    ⊎ ((c.allow_private_ips ≡ false) × Internal a)

abbrev pub Refused6 : ServerConfig → Ipv6Addr → Option Ipv4Addr → Type 0
Refused6 c a (some m) = Refused4 c m
Refused6 c a none =
    (v6_unspecified a ≡ true)
    ⊎ ((c.allow_loopback ≡ false) × (v6_loopback a ≡ true))
    ⊎ ((c.allow_private_ips ≡ false)
        × ((0xfc00 ≤ a.s0) × (a.s0 ≤ 0xfdff) ⊎ (0xfe80 ≤ a.s0) × (a.s0 ≤ 0xfebf)))

abbrev pub Refused : ServerConfig → IpAddr → Type 0
Refused c (v4 a) = Refused4 c a
Refused c (v6 a) = Refused6 c a (to_ipv4_mapped a)

abbrev pub IsIp : IpAddr → Type 0
IsIp (v4 a) = IsIpv4 a
IsIp (v6 a) = IsU16 a.s0 × IsU16 a.s6 × IsU16 a.s7

blocked_v6 :
    (a : Ipv6Addr) (c : ServerConfig) (o : Option Ipv4Addr)
    → to_ipv4_mapped a ≡ o
    → IsIp (v6 a)
    → (is_ip_blocked (v6 a) c ≡ true) ↔ Refused6 c a o
blocked_v6 a c none e h = is_ip_blocked_v6 a c h.0 e
blocked_v6 a c (some m) e h =
    let (same, ok) = mapped-to_ipv4_mapped a m h.1 h.2 e in
    subst (λ b. (b ≡ true) ↔ Refused4 c m)
      (sym (ap (λ x. is_ip_blocked (v6 x) c) same ∙ is_ip_blocked-mapped m c ok))
      (is_ip_blocked_v4 m c ok)

-- The address policy, for addresses whose parts fit their widths. An IPv4 address is blocked
-- exactly if it is 0.0.0.0, or in 127.0.0.0/8 while loopback is not allowed, or in 10.0.0.0/8,
-- 172.16.0.0/12, 192.168.0.0/16 or 169.254.0.0/16 while private addresses are not. An IPv6
-- address that maps an IPv4 address is blocked exactly if that is; any other exactly if it is ::,
-- or ::1 while loopback is not allowed, or its first segment lies in fc00::/7 or fe80::/10 while
-- private addresses are not.
pub is_ip_blocked_lem :
    (ip : IpAddr) (c : ServerConfig) → IsIp ip → (is_ip_blocked ip c ≡ true) ↔ Refused c ip
is_ip_blocked_lem (v4 a) c h = is_ip_blocked_v4 a c h
is_ip_blocked_lem (v6 a) c h = blocked_v6 a c (to_ipv4_mapped a) refl h
