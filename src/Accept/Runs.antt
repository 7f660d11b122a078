-- ===== src/Accept/Runs.antt =====
-- The life of a worker of src/server/mod.rs: connections are accepted, and the tasks of those that are
-- served end.
use shrimpwisp.Prelude.{ℕ, ◌+◌, ◌-◌, ◌≤◌, ◌<◌}
use shrimpwisp.Prelude.{◌≡◌, refl, ◌⊎◌, inr}
use shrimpwisp.Prelude.{List, [], ◌∷◌, arith}
use shrimpwisp.Prelude.{if◌then◌else◌}
use shrimpwisp.Config.{ServerConfig}
use shrimpwisp.Net.{IpAddr}
use shrimpwisp.Accept.{
  Window, Worker, new_worker, set_window, evict, counted, accept_one, connection_ends,
}
use shrimpwisp.Accept.Laws.{evict-none, IsRateMap, set_window-IsRateMap, accept_one_limits}

-- A worker with the number of its connections that are being served.
pub record Serving : Type 0 where
  pub worker : Worker
  pub live : ℕ

evict-IsRateMap :
    (window now : ℕ) (m : List (IpAddr × Window)) → IsRateMap m → IsRateMap (evict window now m)
unfolding evict
evict-IsRateMap window now [] v = tt
evict-IsRateMap window now ((k, x) ∷ m) v =
    ground (arith, evict-none window now k m v.0, evict-IsRateMap window now m v.1)

pub accept_one-IsRateMap :
    (config : ServerConfig) (now : ℕ) (ip : IpAddr) (s : Worker)
    → IsRateMap s.ip_rate_map
    → IsRateMap (accept_one config now ip s).1.ip_rate_map
unfolding accept_one
accept_one-IsRateMap config now ip s v = ground (
  arith,
  v,
  set_window-IsRateMap ip (counted config now ip s) s.ip_rate_map v,
  evict-IsRateMap config.connection_window_secs now
      (set_window ip (counted config now ip s) s.ip_rate_map)
      (set_window-IsRateMap ip (counted config now ip s) s.ip_rate_map v),
)

accept_one-count :
    (config : ServerConfig) (now : ℕ) (ip : IpAddr) (s : Worker)
    → (accept_one config now ip s).1.conn_count
      ≡ (if (accept_one config now ip s).0 then s.conn_count + 1 else s.conn_count)
unfolding accept_one
accept_one-count config now ip s = ground arith

module _ (config : ServerConfig) where
  pub data WorkerMove : Serving → Serving → Type 0 where
    accepts :
        (now : ℕ) (ip : IpAddr) (s : Serving)
        → WorkerMove s (record {
          worker = (accept_one config now ip s.worker).1;
          live = if (accept_one config now ip s.worker).0 then s.live + 1 else s.live;
        })
    ends :
        (s : Serving)
        → 0 < s.live
        → WorkerMove s (record { worker = connection_ends s.worker; live = s.live - 1 })

  pub data WorkerRuns : Serving → Type 0 where
    starts : WorkerRuns (record { worker = new_worker; live = 0 })
    goes_on : (s s' : Serving) → WorkerRuns s → WorkerMove s s' → WorkerRuns s'

  -- The counter of the connections, the limit, and the rate map.
  pub record IsServing (s : Serving) : Type 0 where
    pub exact : s.worker.conn_count ≡ s.live
    pub bounded : (config.max_connections ≡ 0) ⊎ (s.live ≤ config.max_connections)
    pub rates_ok : IsRateMap s.worker.ip_rate_map

  pub WorkerMove-IsServing : (s s' : Serving) → WorkerMove s s' → IsServing s → IsServing s'
  WorkerMove-IsServing _ _ (accepts now ip s) v = record {
    exact = ground (arith, accept_one-count config now ip s.worker, v.exact);
    bounded = ground (
      arith,
      accept_one-count config now ip s.worker,
      v.exact,
      v.bounded,
      (accept_one_limits config now ip s.worker (ground (arith, v.exact, v.bounded))).0,
    );
    rates_ok = accept_one-IsRateMap config now ip s.worker v.rates_ok;
  }
  WorkerMove-IsServing _ _ (ends s h) v =
      unfold connection_ends in
      record {
        exact = omega (arith, v.exact, h);
        bounded = ground (arith, v.bounded);
        rates_ok = v.rates_ok;
      }

  -- In every state that a worker reaches, its counter is the number of connections that it
  -- serves, so that the `saturating_sub` of a task that ends never saturates; it serves no more
  -- than `max_connections` (0 allows any number); and the rate map has no address twice.
  pub WorkerRuns-IsServing : (s : Serving) → WorkerRuns s → IsServing s
  WorkerRuns-IsServing _ starts = record {
    exact = refl;
    bounded = inr (omega arith);
    rates_ok = tt;
  }
  WorkerRuns-IsServing _ (goes_on s s' r m) = WorkerMove-IsServing s s' m (WorkerRuns-IsServing s r)
