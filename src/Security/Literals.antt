-- ===== src/Security/Literals.antt =====
-- The checks of src/server/security.rs on a hostname that is an IPv4 address in dotted text.
use shrimpwisp.Prelude.{ℕ, ◌+◌, ◌/◌, ◌%◌}
use shrimpwisp.Prelude.{◌≡◌, refl, inl, inr}
use shrimpwisp.Prelude.{Bool, true, false, ◌&&◌, ◌||◌, not, Option, none, some}
use shrimpwisp.Prelude.{[], ◌∷◌, ◌++◌, arith}
use shrimpwisp.Prelude.{ltb, leb, ◌==◌, if◌then◌else◌, Bool-cases}
use shrimpwisp.Prelude.Bytes.{Bytes, IsByte}
use shrimpwisp.Prelude.Bytes.{bytes_eq}
use shrimpwisp.Prelude.Bytes.{starts_with}
use shrimpwisp.Config.{codes, ServerConfig}
use shrimpwisp.Security.{
  v4_loopback, v4_private, v4_unspecified, v4_link_local, is_loopback, is_private, is_unspecified,
  is_link_local, is_ip_blocked,
}
use shrimpwisp.Net.{v4, Ipv4Addr, Ipv6Addr}
use shrimpwisp.Security.Policy.{IsIpv4}
use shrimpwisp.Security.Names.{
  digits_value, parse_u8, strip_prefix, before_dot, hostname_is_private_172,
  is_hostname_blocked_pre_resolution, local_name, private_name,
}

-- An octet in decimal, and an address as `Ipv4Addr` prints it.
unfoldable pub decimal : ℕ → Bytes
decimal n =
    if ltb n 10
    then (48 + n) ∷ []
    else if ltb n 100
    then (48 + n / 10) ∷ (48 + n % 10) ∷ []
    else (48 + n / 100) ∷ (48 + n / 10 % 10) ∷ (48 + n % 10) ∷ []

unfoldable pub dotted : Ipv4Addr → Bytes
unfolding decimal
dotted a =
    decimal a.o0 ++ (b'.' ∷ (decimal a.o1 ++ (b'.' ∷ (decimal a.o2 ++ (b'.' ∷ decimal a.o3)))))

starts-10 :
    (n : ℕ) (rest : Bytes)
    → IsByte n
    → starts_with (codes "10.") (decimal n ++ (b'.' ∷ rest)) ≡ (n == 10)
unfolding decimal
starts-10 n rest h = ground arith

starts-127 :
    (n : ℕ) (rest : Bytes)
    → IsByte n
    → starts_with (codes "127.") (decimal n ++ (b'.' ∷ rest)) ≡ (n == 127)
unfolding decimal
starts-127 n rest h = ground arith

parse_u8-decimal : (n : ℕ) → IsByte n → parse_u8 (decimal n) ≡ some n
unfolding decimal parse_u8 digits_value
parse_u8-decimal n h = ground arith

before_dot-decimal :
    (n : ℕ) (rest : Bytes) → IsByte n → before_dot (decimal n ++ (b'.' ∷ rest)) ≡ some (decimal n)
unfolding decimal before_dot
before_dot-decimal n rest h = ground arith

starts-192 :
    (n m : ℕ) (rest : Bytes)
    → IsByte n
    → IsByte m
    → starts_with (codes "192.168.") (decimal n ++ (b'.' ∷ (decimal m ++ (b'.' ∷ rest))))
      ≡ (n == 192 && m == 168)
unfolding decimal
starts-192 n m rest h k = ground arith

starts-169 :
    (n m : ℕ) (rest : Bytes)
    → IsByte n
    → IsByte m
    → starts_with (codes "169.254.") (decimal n ++ (b'.' ∷ (decimal m ++ (b'.' ∷ rest))))
      ≡ (n == 169 && m == 254)
unfolding decimal
starts-169 n m rest h k = ground arith

strip-172 :
    (n : ℕ) (rest : Bytes)
    → IsByte n
    → strip_prefix (codes "172.") (decimal n ++ (b'.' ∷ rest))
      ≡ (if n == 172 then some rest else none)
unfolding decimal strip_prefix
strip-172 n rest h = ground arith

private-172 :
    (n m : ℕ) (rest : Bytes)
    → IsByte n
    → IsByte m
    → hostname_is_private_172 (decimal n ++ (b'.' ∷ (decimal m ++ (b'.' ∷ rest))))
      ≡ (n == 172 && (leb 16 m && leb m 31))
unfolding hostname_is_private_172
private-172 n m rest h k = elim (Bool-cases (n == 172)) [
  | inl e ↦
      rw
        (
          hostname_is_private_172,
          strip-172 n (decimal m ++ (b'.' ∷ rest)) h,
          e,
          before_dot-decimal m rest k,
          parse_u8-decimal m k,
        )
        refl
  | inr e ↦ rw (hostname_is_private_172, strip-172 n (decimal m ++ (b'.' ∷ rest)) h, e) refl
]

-- No address reads "localhost", "::1" or "::".
dotted-names :
    (a : Ipv4Addr)
    → IsIpv4 a
    → (bytes_eq (dotted a) (codes "localhost") ≡ false)
      × (bytes_eq (dotted a) (codes "::1") ≡ false)
      × (bytes_eq (dotted a) (codes "::") ≡ false)
unfolding dotted decimal
dotted-names a h = ground arith

bytes_eq-starts_with : (s p : Bytes) → bytes_eq s p ≡ true → starts_with p s ≡ true
bytes_eq-starts_with [] [] e = refl
bytes_eq-starts_with [] (p ∷ ps) e = cc
bytes_eq-starts_with (b ∷ bs) [] e = cc
bytes_eq-starts_with (b ∷ bs) (p ∷ ps) e = ground (arith, bytes_eq-starts_with bs ps)

starts_with-append : (p q s : Bytes) → starts_with (p ++ q) s ≡ true → starts_with p s ≡ true
starts_with-append [] q s e = refl
starts_with-append (x ∷ p) q [] e = cc
starts_with-append (x ∷ p) q (b ∷ s) e = ground (arith, starts_with-append p q s)

zero-octet :
    (n : ℕ) (r s : Bytes)
    → IsByte n
    → bytes_eq (decimal n ++ (b'.' ∷ r)) (b'0' ∷ b'.' ∷ s) ≡ (n == 0 && bytes_eq r s)
unfolding decimal
zero-octet n r s h = ground arith

last-octet : (n : ℕ) → IsByte n → bytes_eq (decimal n) (b'0' ∷ []) ≡ (n == 0)
unfolding decimal
last-octet n h = ground arith

dotted-0 : (a : Ipv4Addr) → IsIpv4 a → bytes_eq (dotted a) (codes "0.0.0.0") ≡ v4_unspecified a
unfolding dotted v4_unspecified
dotted-0 a h = cc (
  zero-octet a.o0 (decimal a.o1 ++ (b'.' ∷ (decimal a.o2 ++ (b'.' ∷ decimal a.o3)))) (codes "0.0.0")
      h.0,
  zero-octet a.o1 (decimal a.o2 ++ (b'.' ∷ decimal a.o3)) (codes "0.0") h.1,
  zero-octet a.o2 (decimal a.o3) (codes "0") h.2,
  last-octet a.o3 h.3,
)

-- The names of one machine.
local_name-dotted :
    (parse_ipv4 : Bytes → Option Ipv4Addr) (parse_ipv6 : Bytes → Option Ipv6Addr) (a : Ipv4Addr)
    → IsIpv4 a
    → (local_name parse_ipv4 parse_ipv6 (dotted a) || starts_with (codes "127.") (dotted a))
      ≡ (v4_unspecified a || v4_loopback a)
local_name-dotted parse_ipv4 parse_ipv6 a h = ground (
  arith,
  (dotted-names a h).0,
  (dotted-names a h).1,
  (dotted-names a h).2,
  dotted-0 a h,
  bytes_eq-starts_with (dotted a) (codes "127.0.0.1"),
  loopback,
  starts_with-append (codes "127.") (codes "0.0.1") (dotted a),
)
  where
    loopback : starts_with (codes "127.") (dotted a) ≡ v4_loopback a
    loopback = unfold dotted v4_loopback in starts-127 a.o0 _ h.0

private_name-dotted :
    (parse_ipv4 : Bytes → Option Ipv4Addr) (parse_ipv6 : Bytes → Option Ipv6Addr) (a : Ipv4Addr)
    → IsIpv4 a
    → private_name parse_ipv4 parse_ipv6 (dotted a) ≡ (v4_private a || v4_link_local a)
unfolding dotted v4_private v4_link_local
private_name-dotted parse_ipv4 parse_ipv6 a h =
    let tail = decimal a.o2 ++ (b'.' ∷ decimal a.o3) in
    ground (
      arith,
      starts-10 a.o0 (decimal a.o1 ++ (b'.' ∷ tail)) h.0,
      starts-192 a.o0 a.o1 tail h.0 h.1,
      starts-169 a.o0 a.o1 tail h.0 h.1,
      private-172 a.o0 a.o1 tail h.0 h.1,
    )

-- The two checks as chains of tests.
checks_agree :
    (loopback_ok private_ok local_ loop_ private_ u l p k : Bool)
    → (local_ || loop_) ≡ (u || l)
    → private_ ≡ (p || k)
    → (u ≡ true → (p || k) ≡ false)
    → (if not loopback_ok && local_
        then true
        else if not private_ok && private_
        then true
        else if not loopback_ok && loop_
        then true
        else false)
      ≡ ((if u
            then true
            else if not loopback_ok && l
            then true
            else if not private_ok && p
            then true
            else if not private_ok && k
            then true
            else false)
          && not (u && loopback_ok))
checks_agree true true local_ loop_ private_ u l p k e f g = ground arith
checks_agree true false local_ loop_ private_ u l p k e f g = ground arith
checks_agree false true local_ loop_ private_ u l p k e f g = ground arith
checks_agree false false local_ loop_ private_ u l p k e f g = ground arith

-- On the text of an IPv4 address, where direct addresses are allowed, the check of the name
-- before the resolution says what `is_ip_blocked` says of the address behind it; but where
-- loopback is allowed, it lets 0.0.0.0 pass, which `is_ip_blocked` refuses.
pub hostname_dotted_lem :
    (parse_ipv4 : Bytes → Option Ipv4Addr) (parse_ipv6 : Bytes → Option Ipv6Addr) (a : Ipv4Addr)
    (c : ServerConfig)
    → IsIpv4 a
    → c.allow_direct_ip ≡ true
    → is_hostname_blocked_pre_resolution parse_ipv4 parse_ipv6 (dotted a) c
      ≡ (is_ip_blocked (v4 a) c && not (v4_unspecified a && c.allow_loopback))
unfolding is_hostname_blocked_pre_resolution is_ip_blocked is_loopback is_private is_unspecified
    is_link_local
hostname_dotted_lem parse_ipv4 parse_ipv6 a c h direct = rw direct (
    checks_agree c.allow_loopback c.allow_private_ips (local_name parse_ipv4 parse_ipv6 (dotted a))
      (starts_with (codes "127.") (dotted a)) (private_name parse_ipv4 parse_ipv6 (dotted a))
      (v4_unspecified a) (v4_loopback a) (v4_private a) (v4_link_local a)
      (local_name-dotted parse_ipv4 parse_ipv6 a h) (private_name-dotted parse_ipv4 parse_ipv6 a h)
      (unfold v4_unspecified v4_private v4_link_local in ground arith))
