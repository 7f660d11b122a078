-- ===== src/Launch.antt =====
-- `run_thread_per_core` and `create_reuseport_listener` of src/server/mod.rs, and the call of the former
-- at the end of `main` in src/main.rs: what is asked of the operating system until the workers accept.
-- What the system answers is an argument.
pub mod Laws
use shrimpwisp.Prelude.{ℕ, zero, suc, min}
use shrimpwisp.Prelude.{Bool, true, false, not, Option, none, some}
use shrimpwisp.Prelude.{List, [], ◌∷◌, ◌++◌}
use shrimpwisp.Prelude.{if◌then◌else◌, get_elem?}
use shrimpwisp.Prelude.Bytes.{Bytes}
use shrimpwisp.Config.{ServerConfig, JsonConfig}
use shrimpwisp.Config.Startup.{Args, choose_workers}
use shrimpwisp.Cores.{Entry, num_physical_cores}
use shrimpwisp.Net.{IpAddr, v4, v6, SocketAddr}

-- `libc::rlimit`.
pub record Rlimit : Type 0 where
  pub rlim_cur : ℕ
  pub rlim_max : ℕ

pub data Domain : Type 0 where
  ipv4 ipv6 : Domain

pub data SocketCall : Type 0 where
  new_socket : Domain → SocketCall
  set_reuse_port set_reuse_address set_nodelay set_nonblocking : SocketCall
  bind : SocketAddr → SocketCall
  listen tcp_fastopen : ℕ → SocketCall
  from_std : SocketCall

-- What is asked for the whole process, with the number of the CPU in the path of its governor.
pub data ProcessCall : Type 0 where
  setrlimit_memlock setrlimit_nofile : Rlimit → ProcessCall
  mlockall : ProcessCall
  set_timerslack performance_governor : ℕ → ProcessCall

-- What a worker thread asks; `lower_nice n` is `setpriority` to minus `n`.
pub data WorkerCall : Type 0 where
  set_for_current sched_fifo lower_nice : ℕ → WorkerCall
  build_runtime : WorkerCall
  on_socket : SocketCall → WorkerCall

-- The answers: `memlock` and `nofile` are those of `getrlimit`, `none` for a failure; the others are
-- for each worker.
pub record System : Type 0 where
  pub memlock : Option Rlimit
  pub nofile : Option Rlimit
  pub get_core_ids : Option (List ℕ)
  pub spawns : ℕ → Bool
  pub fifo_allowed : ℕ → Bool
  pub runtime_built : ℕ → Bool
  pub socket_answers : ℕ → SocketCall → Bool

-- `unwrap_or_default`.
unfoldable pub core_ids : System → List ℕ
core_ids os = elim os.get_core_ids [ none ↦ [] | some ids ↦ ids ]

-- `getrlimit` into `rlim`, which a failure leaves as it is.
abbrev pub getrlimit : Option Rlimit → Rlimit → Rlimit
getrlimit none rlim = rlim
getrlimit (some r) rlim = r

-- One file for each of the first `num_workers` cores, by its place in the list.
unfoldable pub governors : ℕ → List ℕ → ℕ → List ProcessCall
governors i [] n = []
governors i (c ∷ ids) zero = []
governors i (c ∷ ids) (suc n) = performance_governor i ∷ governors (suc i) ids n

unfoldable pub optimise : System → ℕ → List ProcessCall
unfolding governors core_ids
optimise os num_workers =
    let r : Rlimit = getrlimit os.memlock (record { rlim_cur = 0; rlim_max = 0 }) in
    let memlock : Rlimit = record r { rlim_cur = r.rlim_max } in
    let q : Rlimit = getrlimit os.nofile memlock in
    let nofile : Rlimit = record q { rlim_cur = min q.rlim_max 1048576 } in
    setrlimit_memlock memlock
    ∷ setrlimit_nofile nofile
    ∷ mlockall
    ∷ set_timerslack 1
    ∷ governors 0 (core_ids os) num_workers

-- A call with `?`, in front of the rest.
unfoldable pub attempt :
    (SocketCall → Bool) → SocketCall → Bool × List SocketCall → Bool × List SocketCall
attempt answers call rest = if answers call then (rest.0, call ∷ rest.1) else (false, call ∷ [])

abbrev pub domain : IpAddr → Domain
domain (v4 a) = ipv4
domain (v6 a) = ipv6

-- The Boolean is true for `Ok`; the list has the calls that were made. The result of the `setsockopt`
-- for TCP_FASTOPEN is ignored.
unfoldable pub create_reuseport_listener : (SocketCall → Bool) → SocketAddr → Bool × List SocketCall
unfolding attempt
create_reuseport_listener answers addr =
    let ready : Bool × List SocketCall = attempt answers from_std (true, []) in
    let open_fast : Bool × List SocketCall = (ready.0, tcp_fastopen 256 ∷ ready.1) in
    let listening : Bool × List SocketCall = attempt answers (listen 8192) open_fast in
    let bound : Bool × List SocketCall = attempt answers (bind addr) listening in
    let nonblocking : Bool × List SocketCall = attempt answers set_nonblocking bound in
    let nodelay : Bool × List SocketCall = attempt answers set_nodelay nonblocking in
    let address : Bool × List SocketCall = attempt answers set_reuse_address nodelay in
    let port : Bool × List SocketCall = attempt answers set_reuse_port address in
    attempt answers (new_socket (domain addr.ip)) port

-- A thread is in its accept loop, or it has panicked.
pub data Ending : Type 0 where
  accepting panicked : Ending

pub record Thread : Type 0 where
  pub worker_id : ℕ
  pub calls : List WorkerCall
  pub ending : Ending

unfoldable pub on_sockets : List SocketCall → List WorkerCall
on_sockets [] = []
on_sockets (c ∷ calls) = on_socket c ∷ on_sockets calls

-- The pin to a core, where there is one, and the real-time scheduling of --prod.
unfoldable pub prepare : System → ServerConfig → ℕ → List WorkerCall
unfolding core_ids
prepare os config worker_id =
    let scheduled : List WorkerCall =
      if config.prod_mode
      then if os.fifo_allowed worker_id
        then sched_fifo 50 ∷ []
        else sched_fifo 50 ∷ lower_nice 20 ∷ []
      else [] in
    elim (get_elem? (core_ids os) worker_id) [
      | none ↦ scheduled
      | some core ↦ set_for_current core ∷ scheduled
    ]

-- The closure that a thread runs; each `expect` is a panic.
unfoldable pub worker_thread : System → SocketAddr → ServerConfig → ℕ → Thread
unfolding prepare create_reuseport_listener on_sockets
worker_thread os bind_addr config worker_id =
    let first : List WorkerCall = prepare os config worker_id ++ (build_runtime ∷ []) in
    let listener : Bool × List SocketCall =
      create_reuseport_listener (os.socket_answers worker_id) bind_addr in
    if not (os.runtime_built worker_id)
    then record { worker_id = worker_id; calls = first; ending = panicked }
    else record {
      worker_id = worker_id;
      calls = first ++ on_sockets listener.1;
      ending = if listener.0 then accepting else panicked;
    }

abbrev with_thread : Thread → Option (List Thread) → Option (List Thread)
with_thread t none = none
with_thread t (some ts) = some (t ∷ ts)

-- The workers from `worker_id` on; `none` is the panic of `main` where a thread cannot be spawned.
unfoldable pub spawn_workers : System → SocketAddr → ServerConfig → ℕ → ℕ → Option (List Thread)
unfolding worker_thread
spawn_workers os bind_addr config worker_id zero = some []
spawn_workers os bind_addr config worker_id (suc n) =
    let rest : Option (List Thread) = spawn_workers os bind_addr config (suc worker_id) n in
    if os.spawns worker_id
    then with_thread (worker_thread os bind_addr config worker_id) rest
    else none

-- What the loop over `handle.join()` comes to.
pub data Joined : Type 0 where
  waits main_panics returns : Joined

-- The result of the first `join`: that of an accept loop never comes.
abbrev pub first_join : Ending → Joined
first_join accepting = waits
first_join panicked = main_panics

unfoldable pub join_all : List Thread → Joined
join_all [] = returns
join_all (t ∷ ts) = first_join t.ending

unfoldable pub join_spawned : Option (List Thread) → Joined
unfolding join_all
join_spawned none = main_panics
join_spawned (some ts) = join_all ts

pub record Launch : Type 0 where
  pub process_calls : List ProcessCall
  pub threads : Option (List Thread)
  pub joined : Joined

unfoldable pub run_thread_per_core : System → SocketAddr → ℕ → ServerConfig → Launch
unfolding optimise spawn_workers join_spawned
run_thread_per_core os bind_addr num_workers config =
    let threads : Option (List Thread) = spawn_workers os bind_addr config 0 num_workers in
    record {
      process_calls = if config.prod_mode then optimise os num_workers else [];
      threads = threads;
      joined = join_spawned threads;
    }

-- The end of `main`: the number of workers, and their launch.
unfoldable pub launch :
    System
    → Option (List Entry)
    → SocketAddr
    → Args
    → List Bytes
    → Option JsonConfig
    → ServerConfig
    → Launch
unfolding choose_workers num_physical_cores run_thread_per_core
launch os read_dir bind_addr a argv read config =
    run_thread_per_core os bind_addr
      (choose_workers (num_physical_cores os.get_core_ids read_dir) a argv read) config
