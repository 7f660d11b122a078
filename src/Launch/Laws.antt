-- ===== src/Launch/Laws.antt =====
-- The workers that src/server/mod.rs starts.
use shrimpwisp.Prelude.{ℕ, zero, suc, ◌≤◌}
use shrimpwisp.Prelude.{◌≡◌, refl, sym, ap, ◌∙◌, ◌⊎◌, inl, inr}
use shrimpwisp.Prelude.{Bool, true, false, ◌&&◌, Option, none, some}
use shrimpwisp.Prelude.{List, [], ◌∷◌, ◌++◌, append_assoc, arith}
use shrimpwisp.Prelude.{if◌then◌else◌, get_elem?, length, Bool-cases, Option-cases, some_inj}
use shrimpwisp.Prelude.Bytes.{Bytes}
use shrimpwisp.Config.{ServerConfig, JsonConfig}
use shrimpwisp.Config.Startup.{Args, choose_workers}
use shrimpwisp.Cores.{Entry, num_physical_cores}
use shrimpwisp.Cores.Laws.{choose_workers-pos}
use shrimpwisp.Net.{SocketAddr}
use shrimpwisp.Launch.{set_for_current, sched_fifo, lower_nice}
use shrimpwisp.Launch.{
  WorkerCall, core_ids, SocketCall, new_socket, set_reuse_port, set_reuse_address, set_nodelay,
  set_nonblocking, bind, listen, domain, tcp_fastopen, from_std, build_runtime, System, attempt,
  create_reuseport_listener, accepting, panicked, Thread, on_sockets, prepare, worker_thread,
  spawn_workers, first_join, join_all, join_spawned, waits, main_panics, run_thread_per_core,
  launch,
}

-- What a listener needs of the system, and every call that opens one, in order.
abbrev needed : SocketAddr → List SocketCall
needed addr =
    new_socket (domain addr.ip)
    ∷ set_reuse_port
    ∷ set_reuse_address
    ∷ set_nodelay
    ∷ set_nonblocking
    ∷ bind addr
    ∷ listen 8192
    ∷ from_std
    ∷ []

abbrev opening : SocketAddr → List SocketCall
opening addr =
    new_socket (domain addr.ip)
    ∷ set_reuse_port
    ∷ set_reuse_address
    ∷ set_nodelay
    ∷ set_nonblocking
    ∷ bind addr
    ∷ listen 8192
    ∷ tcp_fastopen 256
    ∷ from_std
    ∷ []

abbrev succeed : (SocketCall → Bool) → List SocketCall → Bool
succeed answers [] = true
succeed answers (c ∷ calls) = answers c && succeed answers calls

-- Can worker `i` serve?
abbrev pub serves : System → SocketAddr → ℕ → Bool
serves os addr i = os.runtime_built i && succeed (os.socket_answers i) (needed addr)

-- What comes of calls: whether all that must succeed do so, and which are made then.
abbrev Opens : Bool × List SocketCall → Bool → List SocketCall → Type 0
Opens r ok calls = (r.0 ≡ ok) × ((r.0 ≡ false) ⊎ (r.1 ≡ calls))

attempt-Opens :
    (answers : SocketCall → Bool) (c : SocketCall) (r : Bool × List SocketCall) (ok : Bool)
    (calls : List SocketCall)
    → Opens r ok calls
    → Opens (attempt answers c r) (answers c && ok) (c ∷ calls)
unfolding attempt
attempt-Opens answers c r ok calls o = elim (Bool-cases (answers c)) [
  | inl e ↦ rw e (o.0, elim o.1 [ inl f ↦ inl f | inr f ↦ inr (ap (λ xs. c ∷ xs) f) ])
  | inr e ↦ rw e (refl, inl refl)
]

ignored-Opens :
    (c : SocketCall) (r : Bool × List SocketCall) (ok : Bool) (calls : List SocketCall)
    → Opens r ok calls
    → Opens (r.0, c ∷ r.1) ok (c ∷ calls)
ignored-Opens c r ok calls o = (o.0, elim o.1 [ inl f ↦ inl f | inr f ↦ inr (ap (λ xs. c ∷ xs) f) ])

create_reuseport_listener-Opens :
    (answers : SocketCall → Bool) (addr : SocketAddr)
    → Opens (create_reuseport_listener answers addr) (succeed answers (needed addr)) (opening addr)
unfolding create_reuseport_listener
create_reuseport_listener-Opens answers addr =
    let step = attempt-Opens answers in
    step (new_socket (domain addr.ip)) _ _ _ (
      step set_reuse_port _ _ _ (
        step set_reuse_address _ _ _ (
          step set_nodelay _ _ _ (
            step set_nonblocking _ _ _ (
              step (bind addr) _ _ _ (
                step (listen 8192) _ _ _ (
                  ignored-Opens (tcp_fastopen 256) _ _ _
                    (step from_std (true, []) true [] (refl, inr refl)))))))))

abbrev pub pinning : Option ℕ → List WorkerCall
pinning none = []
pinning (some core) = set_for_current core ∷ []

-- Real-time scheduling under --prod, or else a lower nice value.
abbrev pub scheduling : Bool → Bool → List WorkerCall
scheduling false allowed = []
scheduling true true = sched_fifo 50 ∷ []
scheduling true false = sched_fifo 50 ∷ lower_nice 20 ∷ []

prepare_lem :
    (os : System) (config : ServerConfig) (i : ℕ)
    → prepare os config i
      ≡ pinning (get_elem? (core_ids os) i) ++ scheduling config.prod_mode (os.fifo_allowed i)
unfolding prepare
prepare_lem os config i = elim (Option-cases (get_elem? (core_ids os) i)) [
  | inl e ↦ rw (prepare, e) (by_mode config.prod_mode (os.fifo_allowed i))
  | inr (core, e) ↦
      rw (prepare, e)
        (ap (λ cs. set_for_current core ∷ cs) (by_mode config.prod_mode (os.fifo_allowed i)))
]
  where
    by_mode :
        (prod allowed : Bool)
        → (if prod
            then if allowed then sched_fifo 50 ∷ [] else sched_fifo 50 ∷ lower_nice 20 ∷ []
            else [])
          ≡ scheduling prod allowed
    by_mode false allowed = refl
    by_mode true true = refl
    by_mode true false = refl

abbrev pub Started : System → SocketAddr → ServerConfig → ℕ → Thread → Type 0
Started os addr config i t =
    (t.worker_id ≡ i)
    × (t.ending ≡ (if serves os addr i then accepting else panicked))
    × ((t.ending ≡ panicked)
        ⊎ (t.calls
            ≡ pinning (get_elem? (core_ids os) i)
              ++ (scheduling config.prod_mode (os.fifo_allowed i)
                  ++ (build_runtime ∷ on_sockets (opening addr)))))

regroup : (p s b rest : List WorkerCall) → ((p ++ s) ++ b) ++ rest ≡ p ++ (s ++ (b ++ rest))
regroup p s b rest = append_assoc (p ++ s) b rest ∙ append_assoc p s (b ++ rest)

worker_thread-Started :
    (os : System) (addr : SocketAddr) (config : ServerConfig) (i : ℕ)
    → Started os addr config i (worker_thread os addr config i)
unfolding worker_thread
worker_thread-Started os addr config i =
    let l = create_reuseport_listener-Opens (os.socket_answers i) addr in
    elim (Bool-cases (os.runtime_built i)) [
      | inl e ↦
          rw (e, l.0)
            (
              refl,
              refl,
              elim l.1 [
                | inl f ↦ inl (rw (sym l.0 ∙ f) refl)
                | inr f ↦ inr (
                    ap (λ cs. (prepare os config i ++ (build_runtime ∷ [])) ++ on_sockets cs) f
                    ∙ (ap (λ ps. (ps ++ (build_runtime ∷ [])) ++ on_sockets (opening addr))
                          (prepare_lem os config i)
                        ∙ regroup (pinning (get_elem? (core_ids os) i))
                            (scheduling config.prod_mode (os.fifo_allowed i)) (build_runtime ∷ [])
                            (on_sockets (opening addr))))
              ],
            )
      | inr e ↦ rw e (refl, refl, inl refl)
    ]

spawn_workers-suc :
    (os : System) (addr : SocketAddr) (config : ServerConfig) (from n : ℕ) (ts : List Thread)
    → spawn_workers os addr config from (suc n) ≡ some ts
    → (rest : List Thread) × (spawn_workers os addr config (suc from) n ≡ some rest)
      × (ts ≡ worker_thread os addr config from ∷ rest)
unfolding spawn_workers
spawn_workers-suc os addr config from n ts h = elim (Bool-cases (os.spawns from)) [
  | inr p ↦ let f = rw (spawn_workers, p) at h in absurd (cc)
  | inl p ↦ elim (Option-cases (spawn_workers os addr config (suc from) n)) [
    | inl e ↦ let f = rw (spawn_workers, p, e) at h in absurd (cc)
    | inr (rest, e) ↦ let f = rw (spawn_workers, p, e) at h in (rest, e, sym (some_inj f))
  ]
]

length-spawn_workers :
    (os : System) (addr : SocketAddr) (config : ServerConfig) (from n : ℕ) (ts : List Thread)
    → spawn_workers os addr config from n ≡ some ts
    → length ts ≡ n
unfolding spawn_workers
length-spawn_workers os addr config from zero ts h = rw (sym (some_inj h)) refl
length-spawn_workers os addr config from (suc n) ts h =
    let (rest, e, t) = spawn_workers-suc os addr config from n ts h in
    rw t (ap suc (length-spawn_workers os addr config (suc from) n rest e))

first_join-if :
    (b : Bool) → first_join (if b then accepting else panicked) ≡ (if b then waits else main_panics)
first_join-if true = refl
first_join-if false = refl

join_all-first :
    (os : System) (addr : SocketAddr) (config : ServerConfig) (n : ℕ) (ts : List Thread)
    → spawn_workers os addr config 0 n ≡ some ts
    → 1 ≤ n
    → join_all ts ≡ (if serves os addr 0 then waits else main_panics)
unfolding join_all
join_all-first os addr config zero ts h p = absurd (omega (arith, p))
join_all-first os addr config (suc n) ts h p =
    let (rest, e, c) = spawn_workers-suc os addr config 0 n ts h in
    rw c
      (ap first_join (worker_thread-Started os addr config 0).1 ∙ first_join-if (serves os addr 0))

-- All threads, from worker `i` on.
abbrev pub AllStarted : System → SocketAddr → ServerConfig → ℕ → List Thread → Type 0
AllStarted os addr config i [] = Unit
AllStarted os addr config i (t ∷ ts) =
    Started os addr config i t × AllStarted os addr config (suc i) ts

spawn_workers-AllStarted :
    (os : System) (addr : SocketAddr) (config : ServerConfig) (from n : ℕ) (ts : List Thread)
    → spawn_workers os addr config from n ≡ some ts
    → AllStarted os addr config from ts
unfolding spawn_workers
spawn_workers-AllStarted os addr config from zero ts h = rw (sym (some_inj h)) tt
spawn_workers-AllStarted os addr config from (suc n) ts h =
    let (rest, e, c) = spawn_workers-suc os addr config from n ts h in
    rw c (
      worker_thread-Started os addr config from,
      spawn_workers-AllStarted os addr config (suc from) n rest e,
    )

-- Whatever the machine, the command line and the file say: where every thread can be spawned,
-- there is at least one, and there are as many as `choose_workers` says. Thread `i` is in its
-- accept loop exactly if its runtime is built and every call that opens its listener succeeds,
-- but for TCP_FASTOPEN, which may fail; in every other case it panics. The calls of a thread that
-- accepts are these and no others, in order: it is pinned to the `i`-th core of `get_core_ids`,
-- where there is one; in production mode it asks for SCHED_FIFO, and where that is refused for a
-- nice value; it builds its runtime; and it opens its listener, with SO_REUSEPORT before `bind`.
-- And `main` waits where worker 0 serves, whatever becomes of the others, and panics where it
-- does not.
pub launch-Started :
    (os : System) (read_dir : Option (List Entry)) (addr : SocketAddr) (a : Args)
    (argv : List Bytes) (read : Option JsonConfig) (config : ServerConfig) (ts : List Thread)
    → (launch os read_dir addr a argv read config).threads ≡ some ts
    → (1 ≤ length ts)
      × (length ts ≡ choose_workers (num_physical_cores os.get_core_ids read_dir) a argv read)
      × AllStarted os addr config 0 ts
      × ((launch os read_dir addr a argv read config).joined
          ≡ (if serves os addr 0 then waits else main_panics))
unfolding launch run_thread_per_core
launch-Started os read_dir addr a argv read config ts h =
    let n = choose_workers (num_physical_cores os.get_core_ids read_dir) a argv read in
    let l : length ts ≡ n = length-spawn_workers os addr config 0 n ts h in
    let p : 1 ≤ n = choose_workers-pos os.get_core_ids read_dir a argv read in
    (
      rw l p,
      l,
      spawn_workers-AllStarted os addr config 0 n ts h,
      ap join_spawned h ∙ (unfold join_spawned in join_all-first os addr config n ts h p),
    )
