-- ===== src/Dns/Laws.antt =====
-- The cache invariant of src/server/dns.rs, and its lookups after an insert.
use shrimpwisp.Prelude.{ℕ, ◌+◌}
use shrimpwisp.Prelude.{◌≡◌, refl, ◌∙◌, ◌≢◌, inl, inr}
use shrimpwisp.Prelude.{Bool, true, false, Option, none, some}
use shrimpwisp.Prelude.{List, [], ◌∷◌, ◌++◌, arith}
use shrimpwisp.Prelude.{ltb, if◌then◌else◌, Bool-cases, Option-cases}
use shrimpwisp.Prelude.{is_empty}
use shrimpwisp.Prelude.Bytes.{Bytes}
use shrimpwisp.Prelude.Bytes.{bytes_eq, bytes_eq→eq, bytes_eq_refl}
use shrimpwisp.Net.{IpAddr, v4, v6}
use shrimpwisp.Dns.{
  CacheEntry, DnsCache, find_entry, insert_entry, first_addr, Cached, hit, miss, panicked, of_first,
  get_cached, insert_resolved, retain, evict_expired, dedup, only_v4, only_v6, sort_ipv4_first,
  Resolved, address, resolve_failed, no_addresses, dns_panic, store_sorted, order_addrs,
  store_resolved, lookup_and_store, dns_resolve,
}

-- Every entry has an address.
abbrev pub IsCache : List (Bytes × CacheEntry) → Type 0
IsCache [] = Unit
IsCache ((k, e) ∷ m) = (is_empty e.addrs ≡ false) × IsCache m

insert_entry-IsCache :
    (h : Bytes) (e : CacheEntry) (m : List (Bytes × CacheEntry))
    → is_empty e.addrs ≡ false
    → IsCache m
    → IsCache (insert_entry h e m)
unfolding insert_entry
insert_entry-IsCache h e [] n c = (n, c)
insert_entry-IsCache h e ((k, d) ∷ m) n c = ground (arith, insert_entry-IsCache h e m n c.1)

find_entry-IsCache :
    (h : Bytes) (m : List (Bytes × CacheEntry)) (e : CacheEntry)
    → IsCache m
    → find_entry h m ≡ some e
    → is_empty e.addrs ≡ false
unfolding find_entry
find_entry-IsCache h [] e c f = cc
find_entry-IsCache h ((k, d) ∷ m) e c f = ground (arith, find_entry-IsCache h m e c.1, c.0)

find_entry-insert_entry :
    (h k : Bytes) (e : CacheEntry) (m : List (Bytes × CacheEntry))
    → find_entry k (insert_entry h e m) ≡ (if bytes_eq h k then some e else find_entry k m)
unfolding find_entry insert_entry
find_entry-insert_entry h k e [] = refl
find_entry-insert_entry h k e ((j, d) ∷ m) = ground (
  arith,
  find_entry-insert_entry h k e m,
  bytes_eq→eq j h,
  bytes_eq→eq j k,
  bytes_eq→eq h k,
  bytes_eq_refl k,
)

get_cached-ne-panicked :
    (now : ℕ) (h : Bytes) (d : DnsCache) → IsCache d.cache → get_cached now h d ≢ panicked
unfolding get_cached
get_cached-ne-panicked now h d c = elim (Option-cases (find_entry h d.cache)) [
  | inl e ↦ rw (e, get_cached) (λ f. cc)
  | inr (x, e) ↦
      rw (e, get_cached)
        λ f. entry_ok x.addrs (find_entry-IsCache h d.cache x c e) (ltb now x.expires_at) f
]
  where
    entry_ok :
        (as_ : List IpAddr)
        → is_empty as_ ≡ false
        → (b : Bool) → (if b then of_first (first_addr as_) else miss) ≢ panicked
    entry_ok [] e b = λ f. cc
    entry_ok (a ∷ as_) e true = λ f. ground arith
    entry_ok (a ∷ as_) e false = λ f. ground arith

-- After a name is stored with some addresses, a look into the cache gives the first of them until
-- the time to live is over and nothing from then on, and other names have the answers of before.
pub get_cached-insert_resolved :
    (now then_ : ℕ) (h k : Bytes) (a : IpAddr) (addrs : List IpAddr) (d : DnsCache)
    → get_cached then_ k (insert_resolved now h (a ∷ addrs) d) ≡ (
        if bytes_eq h k
        then if ltb then_ (now + d.ttl) then hit a else miss
        else get_cached then_ k d)
unfolding get_cached insert_resolved
get_cached-insert_resolved now then_ h k a addrs d =
    let e : CacheEntry = record { addrs = a ∷ addrs; expires_at = now + d.ttl } in
    elim (Bool-cases (bytes_eq h k)) [
      | inl t ↦ rw (find_entry-insert_entry h k e d.cache, t, get_cached)
      | inr f ↦ rw (find_entry-insert_entry h k e d.cache, f, get_cached)
    ]

retain-IsCache : (now : ℕ) (m : List (Bytes × CacheEntry)) → IsCache m → IsCache (retain now m)
unfolding retain
retain-IsCache now [] c = c
retain-IsCache now ((k, e) ∷ m) c = ground (arith, retain-IsCache now m c.1)

pub evict_expired-IsCache :
    (now : ℕ) (d : DnsCache) → IsCache d.cache → IsCache (evict_expired now d).cache
unfolding evict_expired
evict_expired-IsCache now d c = retain-IsCache now d.cache c

dedup_nonempty : (addrs : List IpAddr) → is_empty (dedup addrs) ≡ is_empty addrs
unfolding dedup
dedup_nonempty [] = refl
dedup_nonempty (a ∷ addrs) = refl

sort_nonempty : (addrs : List IpAddr) → is_empty (sort_ipv4_first addrs) ≡ is_empty addrs
unfolding sort_ipv4_first only_v4 only_v6
sort_nonempty [] = refl
sort_nonempty (v4 a ∷ addrs) = refl
sort_nonempty (v6 a ∷ addrs) = not_empty (only_v4 addrs)
  where
    not_empty : (xs : List IpAddr) → is_empty (xs ++ (v6 a ∷ only_v6 addrs)) ≡ false
    not_empty [] = refl
    not_empty (x ∷ xs) = refl

-- What a resolution leaves: a cache whose entries all have addresses, no panic, and an address at the
-- port that was asked for.
abbrev pub Sound : ℕ → Resolved × DnsCache → Type 0
Sound port (address a, d) = IsCache d.cache × (a.port ≡ port)
Sound port (resolve_failed, d) = IsCache d.cache
Sound port (no_addresses, d) = IsCache d.cache
Sound port (dns_panic, d) = ⊥

store_resolved-Sound :
    (now : ℕ) (h : Bytes) (port : ℕ) (addrs : List IpAddr) (d : DnsCache)
    → is_empty addrs ≡ false
    → IsCache d.cache
    → Sound port (store_resolved now h port addrs d)
unfolding store_resolved insert_resolved
store_resolved-Sound now h port addrs d n c =
    stored (order_addrs d.ipv4_first addrs) (order_nonempty d.ipv4_first addrs ∙ n)
  where
    order_nonempty : (b : Bool) (as_ : List IpAddr) → is_empty (order_addrs b as_) ≡ is_empty as_
    order_nonempty true as_ = unfold order_addrs in sort_nonempty (dedup as_) ∙ dedup_nonempty as_
    order_nonempty false as_ = unfold order_addrs in dedup_nonempty as_

    stored : (as_ : List IpAddr) → is_empty as_ ≡ false → Sound port (store_sorted now h port as_ d)
    stored [] e = cc
    stored (a ∷ as_) e = unfold store_sorted in (insert_entry-IsCache h _ d.cache refl c, refl)

module _ (parse_ip : Bytes → Option IpAddr) (lookup_host : Bytes → ℕ → Option (List IpAddr)) where
  -- On a cache without empty entries, `dns_resolve_no_hold` never panics, leaves such a cache,
  -- and an address that it returns has the port that was asked for.
  pub dns_resolve-Sound :
      (before after : ℕ) (h : Bytes) (port : ℕ) (d : DnsCache)
      → IsCache d.cache
      → Sound port (dns_resolve parse_ip lookup_host before after h port d)
  unfolding dns_resolve lookup_and_store
  dns_resolve-Sound before after h port d c = elim (Option-cases (parse_ip h)) [
    | inr (ip, e) ↦ rw (e, dns_resolve) (c, refl)
    | inl e ↦
        rw (e, dns_resolve) (answered (get_cached before h d) (get_cached-ne-panicked before h d c))
  ]
    where
      looked_up :
          (r : Option (List IpAddr))
          → Sound port (elim r [
            | none ↦ (resolve_failed, d)
            | some addrs ↦
                if is_empty addrs then (no_addresses, d) else store_resolved after h port addrs d
          ])
      looked_up none = c
      looked_up (some []) = c
      looked_up (some (a ∷ as_)) = store_resolved-Sound after h port (a ∷ as_) d refl c

      answered :
          (r : Cached)
          → r ≢ panicked
          → Sound port (elim r [
            | hit ip ↦ (address (record { ip = ip; port = port }), d)
            | panicked ↦ (dns_panic, d)
            | miss ↦ lookup_and_store parse_ip lookup_host after h port d
          ])
      answered (hit ip) n = (c, refl)
      answered miss n = looked_up (lookup_host h port)
      answered panicked n = n refl
