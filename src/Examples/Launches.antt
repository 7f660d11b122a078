-- ===== src/Examples/Launches.antt =====
-- The start of two workers, of which the second finds the port taken.
use shrimpwisp.Prelude.{ℕ, ◌≤◌}
use shrimpwisp.Prelude.{◌≡◌, refl}
use shrimpwisp.Prelude.{Bool, true, false, none, some}
use shrimpwisp.Prelude.{[], ◌∷◌}
use shrimpwisp.Prelude.{◌==◌, not, if◌then◌else◌, length}
use shrimpwisp.Config.Startup.{choose_workers}
use shrimpwisp.Cores.{num_physical_cores}
use shrimpwisp.Launch.{
  SocketCall, new_socket, set_reuse_port, set_reuse_address, set_nodelay, set_nonblocking, bind,
  listen, tcp_fastopen, from_std, System, accepting, panicked, Thread, worker_thread, waits,
  main_panics, launch, run_thread_per_core, spawn_workers, create_reuseport_listener, attempt,
}
use shrimpwisp.Launch.Laws.{serves, AllStarted, launch-Started}
use shrimpwisp.Examples.Startup.{prod_args, prod_config}

-- Worker 1 cannot bind, and TCP_FASTOPEN is not there.
abbrev answers : ℕ → SocketCall → Bool
answers i (new_socket d) = true
answers i set_reuse_port = true
answers i set_reuse_address = true
answers i set_nodelay = true
answers i set_nonblocking = true
answers i (bind addr) = not (i == 1)
answers i (listen n) = true
answers i (tcp_fastopen n) = false
answers i from_std = true

abbrev two_cores_system : System
two_cores_system = record {
  memlock = none;
  nofile = some (record { rlim_cur = 1024; rlim_max = 4096 });
  get_core_ids = some (0 ∷ 1 ∷ []);
  spawns = λ i. true;
  fifo_allowed = λ i. i == 0;
  runtime_built = λ i. true;
  socket_answers = answers;
}

abbrev thread : ℕ → Thread
thread i = worker_thread two_cores_system prod_args.bind prod_config i

both_spawned :
    (launch two_cores_system none prod_args.bind prod_args [] none prod_config).threads
    ≡ some (thread 0 ∷ thread 1 ∷ [])
both_spawned =
    unfold launch run_thread_per_core spawn_workers choose_workers num_physical_cores in refl

first_accepts : (thread 0).ending ≡ accepting
first_accepts = unfold worker_thread create_reuseport_listener attempt in refl

second_panics : (thread 1).ending ≡ panicked
second_panics = unfold worker_thread create_reuseport_listener attempt in refl

launch-Started_example :
    (1 ≤ length (thread 0 ∷ thread 1 ∷ []))
    × (length (thread 0 ∷ thread 1 ∷ [])
        ≡ choose_workers (num_physical_cores two_cores_system.get_core_ids none) prod_args [] none)
    × AllStarted two_cores_system prod_args.bind prod_config 0 (thread 0 ∷ thread 1 ∷ [])
    × ((launch two_cores_system none prod_args.bind prod_args [] none prod_config).joined
        ≡ (if serves two_cores_system prod_args.bind 0 then waits else main_panics))
launch-Started_example =
    launch-Started two_cores_system none prod_args.bind prod_args [] none prod_config
      (thread 0 ∷ thread 1 ∷ []) both_spawned
