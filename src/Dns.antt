-- ===== src/Dns.antt =====
-- src/server/dns.rs, and `dns_resolve_no_hold` of src/server/connection.rs. Time is a number of
-- ticks, an argument of each call; the resolver of the system is the parameter `lookup_host`.
pub mod Laws
use shrimpwisp.Prelude.{ℕ, ◌+◌}
use shrimpwisp.Prelude.{Bool, false, ◌&&◌, Option, none, some}
use shrimpwisp.Prelude.{List, [], ◌∷◌, ◌++◌}
use shrimpwisp.Prelude.{ltb, ◌==◌, if◌then◌else◌}
use shrimpwisp.Prelude.{is_empty}
use shrimpwisp.Prelude.Bytes.{Bytes}
use shrimpwisp.Prelude.Bytes.{bytes_eq}
use shrimpwisp.Config.{ipv4first, ServerConfig}
use shrimpwisp.Net.{IpAddr, v4, v6, Ipv4Addr, Ipv6Addr, SocketAddr}

pub record CacheEntry : Type 0 where
  pub addrs : List IpAddr
  pub expires_at : ℕ

-- `cache` is the `HashMap`; the first entry of a name counts.
pub record DnsCache : Type 0 where
  pub cache : List (Bytes × CacheEntry)
  pub ttl : ℕ
  pub ipv4_first : Bool

unfoldable pub new_cache : ServerConfig → DnsCache
new_cache c = record {
  cache = [];
  ttl = c.dns_ttl;
  ipv4_first = bytes_eq c.dns_result_order ipv4first;
}

-- `HashMap::get` and `HashMap::insert`.
unfoldable pub find_entry : Bytes → List (Bytes × CacheEntry) → Option CacheEntry
find_entry h [] = none
find_entry h ((k, e) ∷ m) = if bytes_eq k h then some e else find_entry h m

unfoldable pub insert_entry :
    Bytes → CacheEntry → List (Bytes × CacheEntry) → List (Bytes × CacheEntry)
insert_entry h e [] = (h, e) ∷ []
insert_entry h e ((k, d) ∷ m) = if bytes_eq k h then (k, e) ∷ m else (k, d) ∷ insert_entry h e m

-- `entry.addrs[0]`, where `none` stands for the panic on an empty vector.
abbrev pub first_addr : List IpAddr → Option IpAddr
first_addr [] = none
first_addr (a ∷ addrs) = some a

-- What `get_cached` does: the entry's first address, a miss, or a panic.
pub data Cached : Type 0 where
  hit : IpAddr → Cached
  miss panicked : Cached

abbrev pub of_first : Option IpAddr → Cached
of_first none = panicked
of_first (some a) = hit a

unfoldable pub get_cached : ℕ → Bytes → DnsCache → Cached
unfolding find_entry
get_cached now hostname d = elim (find_entry hostname d.cache) [
  | none ↦ miss
  | some e ↦ if ltb now e.expires_at then of_first (first_addr e.addrs) else miss
]

unfoldable pub insert_resolved : ℕ → Bytes → List IpAddr → DnsCache → DnsCache
unfolding insert_entry
insert_resolved now hostname addrs d = record d {
  cache = insert_entry hostname (record { addrs = addrs; expires_at = now + d.ttl }) d.cache;
}

-- `HashMap::retain`, with the test of `evict_expired`.
unfoldable pub retain : ℕ → List (Bytes × CacheEntry) → List (Bytes × CacheEntry)
retain now [] = []
retain now ((k, e) ∷ m) = if ltb now e.expires_at then (k, e) ∷ retain now m else retain now m

unfoldable pub evict_expired : ℕ → DnsCache → DnsCache
unfolding retain
evict_expired now d = record d { cache = retain now d.cache }

abbrev pub v4_eq : Ipv4Addr → Ipv4Addr → Bool
v4_eq a b = a.o0 == b.o0 && (a.o1 == b.o1 && (a.o2 == b.o2 && a.o3 == b.o3))

abbrev pub v6_eq : Ipv6Addr → Ipv6Addr → Bool
v6_eq a b =
    a.s0 == b.s0
    && (a.s1 == b.s1
        && (a.s2 == b.s2
            && (a.s3 == b.s3
                && (a.s4 == b.s4 && (a.s5 == b.s5 && (a.s6 == b.s6 && a.s7 == b.s7))))))

unfoldable pub ip_eq : IpAddr → IpAddr → Bool
ip_eq (v4 a) (v4 b) = v4_eq a b
ip_eq (v6 a) (v6 b) = v6_eq a b
ip_eq _ _ = false

-- `Vec::dedup`: of equal neighbours the first stays.
unfoldable pub dedup_after : IpAddr → List IpAddr → List IpAddr
unfolding ip_eq
dedup_after last [] = []
dedup_after last (a ∷ addrs) =
    let rest = dedup_after a addrs in if ip_eq last a then rest else a ∷ rest

unfoldable pub dedup : List IpAddr → List IpAddr
unfolding dedup_after
dedup [] = []
dedup (a ∷ addrs) = a ∷ dedup_after a addrs

-- The stable sort by family: the IPv4 addresses in their order, then the others in theirs.
unfoldable pub only_v4 : List IpAddr → List IpAddr
only_v4 [] = []
only_v4 (v4 a ∷ addrs) = v4 a ∷ only_v4 addrs
only_v4 (v6 a ∷ addrs) = only_v4 addrs

unfoldable pub only_v6 : List IpAddr → List IpAddr
only_v6 [] = []
only_v6 (v4 a ∷ addrs) = only_v6 addrs
only_v6 (v6 a ∷ addrs) = v6 a ∷ only_v6 addrs

unfoldable pub sort_ipv4_first : List IpAddr → List IpAddr
unfolding only_v4 only_v6
sort_ipv4_first addrs = only_v4 addrs ++ only_v6 addrs

pub data Resolved : Type 0 where
  address : SocketAddr → Resolved
  resolve_failed no_addresses dns_panic : Resolved

abbrev at_port : ℕ → IpAddr → SocketAddr
at_port port ip = record { ip = ip; port = port }

-- `insert_resolved`, which returns the first address of those that it stores.
unfoldable pub store_sorted : ℕ → Bytes → ℕ → List IpAddr → DnsCache → Resolved × DnsCache
unfolding insert_resolved
store_sorted now hostname port [] d = (dns_panic, d)
store_sorted now hostname port (first ∷ addrs) d =
    (address (at_port port first), insert_resolved now hostname (first ∷ addrs) d)

unfoldable pub order_addrs : Bool → List IpAddr → List IpAddr
unfolding sort_ipv4_first dedup
order_addrs ipv4_first addrs = if ipv4_first then sort_ipv4_first (dedup addrs) else dedup addrs

-- The last two steps: order the addresses, store them, return the first.
unfoldable pub store_resolved : ℕ → Bytes → ℕ → List IpAddr → DnsCache → Resolved × DnsCache
unfolding order_addrs store_sorted
store_resolved now hostname port addrs d =
    store_sorted now hostname port (order_addrs d.ipv4_first addrs) d

-- `before` is the time of the look into the cache, `after` that of the answer. `lookup_host` gives
-- the addresses, or `none` for an error.
module _ (parse_ip : Bytes → Option IpAddr) (lookup_host : Bytes → ℕ → Option (List IpAddr)) where
  unfoldable pub lookup_and_store : ℕ → Bytes → ℕ → DnsCache → Resolved × DnsCache
  unfolding store_resolved
  lookup_and_store after hostname port d = elim (lookup_host hostname port) [
    | none ↦ (resolve_failed, d)
    | some addrs ↦
        if is_empty addrs then (no_addresses, d) else store_resolved after hostname port addrs d
  ]

  unfoldable pub dns_resolve : ℕ → ℕ → Bytes → ℕ → DnsCache → Resolved × DnsCache
  unfolding get_cached
  dns_resolve before after hostname port d = elim (parse_ip hostname) [
    | some ip ↦ (address (at_port port ip), d)
    | none ↦ elim (get_cached before hostname d) [
      | hit ip ↦ (address (at_port port ip), d)
      | panicked ↦ (dns_panic, d)
      | miss ↦ lookup_and_store after hostname port d
    ]
  ]
