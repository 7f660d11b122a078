-- ===== src/Accept/Rate.antt =====
-- The rate of one address in `accept_loop` of src/server/mod.rs, over any sequence of accepts and ends.
use shrimpwisp.Prelude.{ℕ, ◌+◌, ◌-◌, ◌≤◌, ◌<◌}
use shrimpwisp.Prelude.{◌≡◌, refl, sym, ap, subst, ◌∙◌, ◌⊎◌, inl, inr}
use shrimpwisp.Prelude.{Bool, true, false, ◌&&◌, Option, none, some}
use shrimpwisp.Prelude.{List, [], ◌∷◌, arith}
use shrimpwisp.Prelude.{ltb, leb, if◌then◌else◌, Bool-cases, some_inj, min}
use shrimpwisp.Config.{ServerConfig}
use shrimpwisp.Dns.{ip_eq}
use shrimpwisp.Net.{IpAddr}
use shrimpwisp.Accept.{
  Window, Worker, find_window, set_window, current_window, evict, counted, accept_one,
  connection_ends,
}
use shrimpwisp.Accept.Laws.{ip_eq→eq, ip_eq_refl, evict-none, IsRateMap}
use shrimpwisp.Accept.Laws.{set_window-IsRateMap}
use shrimpwisp.Accept.Runs.{accept_one-IsRateMap}

-- What a worker meets: a connection from an address at a time, or the end of a task.
pub data Event : Type 0 where
  arrives : ℕ → IpAddr → Event
  leaves : Event

find-set_same :
    (ip : IpAddr) (x : Window) (m : List (IpAddr × Window))
    → find_window ip (set_window ip x m) ≡ some x
unfolding find_window set_window
find-set_same ip x [] = rw (ip_eq_refl ip) refl
find-set_same ip x ((k, y) ∷ m) = elim (Bool-cases (ip_eq k ip)) [
  | inl e ↦ rw (e, find_window, e) refl
  | inr e ↦ rw (e, find_window, e) (find-set_same ip x m)
]

find-set_other :
    (ip k : IpAddr) (x : Window) (m : List (IpAddr × Window))
    → ip_eq k ip ≡ false
    → find_window ip (set_window k x m) ≡ find_window ip m
unfolding find_window set_window
find-set_other ip k x [] n = rw n refl
find-set_other ip k x ((j, y) ∷ m) n = elim (Bool-cases (ip_eq j k)) [
  | inl e ↦ let other = ap (λ a. ip_eq a ip) (ip_eq→eq j k e) ∙ n in rw (e, find_window, other) refl
  | inr e ↦
      rw (e, find_window) (ap (λ o. if ip_eq j ip then some y else o) (find-set_other ip k x m n))
]

-- Of an address, cleaning drops at most a window that is over.
find-evict :
    (window now : ℕ) (ip : IpAddr) (m : List (IpAddr × Window))
    → IsRateMap m
    → (find_window ip (evict window now m) ≡ find_window ip m)
      ⊎ ((find_window ip (evict window now m) ≡ none)
          × (x : Window) × (find_window ip m ≡ some x)
          × (window ≤ now - x.start))
unfolding find_window evict
find-evict window now ip [] v = inl refl
find-evict window now ip ((k, x) ∷ m) v = elim (Bool-cases (ip_eq k ip)) [
  | inr e ↦ elim (Bool-cases (ltb (now - x.start) window)) [
    | inl kept ↦ rw (kept, find_window, e) (find-evict window now ip m v.1)
    | inr gone ↦ rw (gone, find_window, e) (find-evict window now ip m v.1)
  ]
  | inl e ↦ elim (Bool-cases (ltb (now - x.start) window)) [
    | inl kept ↦ rw (kept, find_window, e) (inl refl)
    | inr gone ↦
        rw (gone, find_window, e)
          (inr (
            evict-none window now ip m (ap (λ j. find_window j m) (sym (ip_eq→eq k ip e)) ∙ v.0),
            x,
            refl,
            ground arith,
          ))
  ]
]

-- The map after an accept: as it was, or with the window counted, cleaned or not.
accept_one-map :
    (config : ServerConfig) (t : ℕ) (k : IpAddr) (s : Worker)
    → 0 < config.max_connections_per_ip
    → ((0 < config.max_connections)
        × ((accept_one config t k s).0 ≡ false)
        × ((accept_one config t k s).1.ip_rate_map ≡ s.ip_rate_map))
      ⊎ (((accept_one config t k s).0
            ≡ leb (counted config t k s).count config.max_connections_per_ip)
          × (((accept_one config t k s).1.ip_rate_map
                ≡ set_window k (counted config t k s) s.ip_rate_map)
              ⊎ ((accept_one config t k s).1.ip_rate_map
                  ≡ evict config.connection_window_secs t
                      (set_window k (counted config t k s) s.ip_rate_map))))
unfolding accept_one
accept_one-map config t k s h = ground arith

module _ (config : ServerConfig) (ip : IpAddr) (start : ℕ) where
  -- What the map holds of the address: nothing, or a window that is over at `start`, or one that
  -- has begun since and counts `n`.
  abbrev pub Used : ℕ → Option Window → Type 0
  Used n o =
      ((n ≡ 0)
        × ((o ≡ none)
            ⊎ ((x : Window) × (o ≡ some x) × (config.connection_window_secs ≤ start - x.start))))
      ⊎ ((x : Window) × (o ≡ some x) × (start ≤ x.start) × (x.count ≡ n))

  -- Every connection of the sequence arrives within one window's length of `start`.
  abbrev pub Within : List Event → Type 0
  Within [] = Unit
  Within (leaves ∷ es) = Within es
  Within (arrives t k ∷ es) = (start ≤ t) × (t < start + config.connection_window_secs) × Within es

  abbrev one_if : Bool → ℕ
  one_if true = 1
  one_if false = 0

  -- The connections of the address that are served.
  abbrev pub served : List Event → Worker → ℕ
  served [] s = 0
  served (leaves ∷ es) s = served es (connection_ends s)
  served (arrives t k ∷ es) s =
      one_if ((accept_one config t k s).0 && ip_eq k ip) + served es (accept_one config t k s).1

  abbrev pub arrived : List Event → ℕ
  arrived [] = 0
  arrived (leaves ∷ es) = arrived es
  arrived (arrives t k ∷ es) = one_if (ip_eq k ip) + arrived es

  -- No more than `limit`; and all of them up to `limit`, where a worker may serve any number.
  abbrev pub Limited : ℕ → ℕ → ℕ → Type 0
  Limited limit arrivals n = (n ≤ limit) × ((0 < config.max_connections) ⊎ (n ≡ min arrivals limit))

  counted-Used :
      (n t : ℕ) (s : Worker)
      → start ≤ t
      → t < start + config.connection_window_secs
      → Used n (find_window ip s.ip_rate_map)
      → ((counted config t ip s).count ≡ n + 1) × (start ≤ (counted config t ip s).start)
  unfolding current_window
  counted-Used n t s h h' (inl (e, inl o)) = rw (counted, current_window, o) (ground arith)
  counted-Used n t s h h' (inl (e, inr (x, o, old))) =
      rw (counted, current_window, o) (ground arith)
  counted-Used n t s h h' (inr (x, o, new, c)) = rw (counted, current_window, o) (ground arith)

  evict-Used :
      (n t : ℕ) (m : List (IpAddr × Window))
      → start ≤ t
      → t < start + config.connection_window_secs
      → IsRateMap m
      → Used n (find_window ip m)
      → Used n (find_window ip (evict config.connection_window_secs t m))
  evict-Used n t m h h' v u = elim (find-evict config.connection_window_secs t ip m v) [
    | inl same ↦ rw same u
    | inr (e, x, o, old) ↦ rw e (dropped x o old u)
  ]
    where
      dropped :
          (x : Window)
          → find_window ip m ≡ some x
          → config.connection_window_secs ≤ t - x.start
          → Used n (find_window ip m)
          → Used n none
      dropped x o old (inl (z, r)) = inl (z, inl refl)
      dropped x o old (inr (y, p, new, c)) =
          let same : x.start ≡ y.start = ap (λ w. w.start) (some_inj (sym o ∙ p)) in
          absurd (omega (arith, same, old, new, h'))

  map-Used :
      (n t : ℕ) (m m' : List (IpAddr × Window))
      → start ≤ t
      → t < start + config.connection_window_secs
      → IsRateMap m
      → (m' ≡ m) ⊎ (m' ≡ evict config.connection_window_secs t m)
      → Used n (find_window ip m)
      → Used n (find_window ip m')
  map-Used n t m m' h h' v (inl e) u = rw e u
  map-Used n t m m' h h' v (inr e) u = rw e (evict-Used n t m h h' v u)

  -- The rate of an address, where `max_connections_per_ip` is not 0 and the rate map has no
  -- address twice: take any sequence of ends of tasks and of connections of any addresses that
  -- arrive less than `connection_window_secs` after a time `start`, and not before it. If the map
  -- counts `n` connections of the address in a window that began at `start` or later, or has
  -- nothing of it but a window that is over at `start`, with `n` = 0, then the worker serves no
  -- more than `max_connections_per_ip - n` connections of that address, also where the map is
  -- cleaned meanwhile; and where `max_connections` is 0, it serves all that arrive, or exactly
  -- that number if more do.
  pub served-Limited :
      (es : List Event) (n : ℕ) (s : Worker)
      → 0 < config.max_connections_per_ip
      → Within es
      → IsRateMap s.ip_rate_map
      → Used n (find_window ip s.ip_rate_map)
      → Limited (config.max_connections_per_ip - n) (arrived es) (served es s)
  unfolding connection_ends
  served-Limited [] n s p h v u = ground arith
  served-Limited (leaves ∷ es) n s p h v u = served-Limited es n (connection_ends s) p h v u
  served-Limited (arrives t k ∷ es) n s p (h, h', within) v u =
      let s' : Worker = (accept_one config t k s).1 in
      let c : Window = counted config t k s in
      let m = set_window k c s.ip_rate_map in
      let rest : (j : ℕ)
          → Used j (find_window ip s'.ip_rate_map)
          → Limited (config.max_connections_per_ip - j) (arrived es) (served es s') =
        λ j u'. served-Limited es j s' p within (accept_one-IsRateMap config t k s v) u' in
      let set_ok = set_window-IsRateMap k c s.ip_rate_map v in
      elim (accept_one-map config t k s p) [
        | inl (some_max, refused, same) ↦
            let r = rest n (rw same u) in rw refused (omega (arith, r.0), inl some_max)
        | inr (fits, kept) ↦ elim (Bool-cases (ip_eq k ip)) [
          | inr other ↦
              let r = rest n (
                map-Used n t m s'.ip_rate_map h h' set_ok kept
                  (rw (find-set_other ip k c s.ip_rate_map other) u)) in
              rw (other, fits) (ground (arith, r))
          | inl e ↦
              let k_ip = ip_eq→eq k ip e in
              let new = counted-Used n t s h h' u in
              let c_ip : c ≡ counted config t ip s = ap (λ a. counted config t a s) k_ip in
              let found : find_window ip m ≡ some c =
                ap (λ a. find_window a m) (sym k_ip) ∙ find-set_same k c s.ip_rate_map in
              let begun : start ≤ c.start =
                subst (λ (x : Window). start ≤ x.start) (sym c_ip) new.1 in
              let one_more : c.count ≡ n + 1 = ap (λ (x : Window). x.count) c_ip ∙ new.0 in
              let r = rest (n + 1) (
                map-Used (n + 1) t m s'.ip_rate_map h h' set_ok kept
                  (rw found (inr (c, refl, begun, one_more)))) in
              rw (e, fits, one_more) (ground (arith, r))
        ]
      ]
