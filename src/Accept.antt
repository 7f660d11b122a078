-- ===== src/Accept.antt =====
-- The admission of connections in `accept_loop` of src/server/mod.rs: the limit of a worker and the
-- rate of an IP address. Times are numbers of ticks.
pub mod Laws
pub mod Rate
pub mod Runs
pub mod Server
use shrimpwisp.Prelude.{ℕ, ◌+◌, ◌-◌, ◌%◌}
use shrimpwisp.Prelude.{Bool, true, false, ◌&&◌, Option, none, some}
use shrimpwisp.Prelude.{List, [], ◌∷◌}
use shrimpwisp.Prelude.{ltb, leb, ◌==◌, if◌then◌else◌}
use shrimpwisp.Config.{ServerConfig}
use shrimpwisp.Dns.{ip_eq}
use shrimpwisp.Net.{IpAddr}

-- `(usize, Instant)`: the connections of a window and its start.
pub record Window : Type 0 where
  pub count : ℕ
  pub start : ℕ

pub record Worker : Type 0 where
  pub conn_count : ℕ
  pub ip_rate_map : List (IpAddr × Window)
  pub accept_count : ℕ

abbrev pub new_worker : Worker
new_worker = record { conn_count = 0; ip_rate_map = []; accept_count = 0 }

unfoldable pub find_window : IpAddr → List (IpAddr × Window) → Option Window
find_window ip [] = none
find_window ip ((k, x) ∷ m) = if ip_eq k ip then some x else find_window ip m

-- `HashMap::insert`, or a write through the entry.
unfoldable pub set_window : IpAddr → Window → List (IpAddr × Window) → List (IpAddr × Window)
set_window ip x [] = (ip, x) ∷ []
set_window ip x ((k, y) ∷ m) = if ip_eq k ip then (k, x) ∷ m else (k, y) ∷ set_window ip x m

abbrev pub expired : ℕ → ℕ → Window → Bool
expired window now x = leb window (now - x.start)

abbrev pub restart : ℕ → ℕ → Window → Window
restart window now x = if expired window now x then record { count = 0; start = now } else x

-- `entry(ip).or_insert((0, now))`, and the restart of a window that is over.
unfoldable pub current_window : ℕ → ℕ → IpAddr → List (IpAddr × Window) → Window
unfolding find_window
current_window window now ip m = elim (find_window ip m) [
  | none ↦ restart window now (record { count = 0; start = now })
  | some x ↦ restart window now x
]

-- `ip_rate_map.retain`.
unfoldable pub evict : ℕ → ℕ → List (IpAddr × Window) → List (IpAddr × Window)
evict window now [] = []
evict window now ((k, x) ∷ m) =
    if ltb (now - x.start) window then (k, x) ∷ evict window now m else evict window now m

module _ (config : ServerConfig) where
  abbrev full : Worker → Bool
  full s = ltb 0 config.max_connections && leb config.max_connections s.conn_count

  abbrev pub counted : ℕ → IpAddr → Worker → Window
  counted now ip s =
      let x = current_window config.connection_window_secs now ip s.ip_rate_map in
      record x { count = x.count + 1 }

  abbrev admit : Worker → Worker
  admit s = record s { conn_count = s.conn_count + 1 }

  -- Every 1024 accepts, the windows that are over go.
  abbrev clean : ℕ → Worker → Worker
  clean now s =
      let n = (s.accept_count + 1) % 18446744073709551616 in
      record s {
        accept_count = n;
        ip_rate_map =
            if n % 1024 == 0
            then evict config.connection_window_secs now s.ip_rate_map
            else s.ip_rate_map;
      }

  -- One connection that is accepted from `ip`: the Boolean is true where it is served.
  unfoldable pub accept_one : ℕ → IpAddr → Worker → Bool × Worker
  unfolding current_window set_window evict
  accept_one now ip s =
      let x : Window = counted now ip s in
      let s' : Worker = record s { ip_rate_map = set_window ip x s.ip_rate_map } in
      if full s
      then (false, s)
      else if ltb 0 config.max_connections_per_ip
      then if ltb config.max_connections_per_ip x.count
        then (false, s')
        else (true, admit (clean now s'))
      else (true, admit s)

-- The task of a connection ends: `saturating_sub`.
unfoldable pub connection_ends : Worker → Worker
connection_ends s = record s { conn_count = s.conn_count - 1 }
