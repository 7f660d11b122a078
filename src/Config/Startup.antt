-- ===== src/Config/Startup.antt =====
-- `main` of src/main.rs: the command line over the configuration file, the checks before the start,
-- and the choice of the address and of the number of workers. What reads files is an argument.
use shrimpwisp.Prelude.{implied, ◌⊎◌, refl}
use shrimpwisp.Prelude.{ℕ, ◌≤◌}
use shrimpwisp.Prelude.{◌≡◌, sym, ◌≢◌, inl, inr}
use shrimpwisp.Prelude.{Bool, true, false, ◌||◌, not, Option, none, some, is_some}
use shrimpwisp.Prelude.{List, arith}
use shrimpwisp.Prelude.{◌==◌, if◌then◌else◌, Bool-cases, Option-cases}
use shrimpwisp.Prelude.{any}
use shrimpwisp.Prelude.Bytes.{Bytes}
use shrimpwisp.Prelude.Bytes.{bytes_eq}
use shrimpwisp.Prelude.Bytes.{starts_with}
use shrimpwisp.Config.{
  codes, JsonConfig, ServerConfig, default_config, continue_threshold, is_auth_required,
  apply_prod_defaults,
}
use shrimpwisp.Config.Merge.{or_default, merge_json_config}
use shrimpwisp.Net.{SocketAddr}
use shrimpwisp.Prelude.{some_inj}

-- `Args`, after `Args::parse`.
pub record Args : Type 0 where
  pub bind : SocketAddr
  pub workers : ℕ
  pub buffer_size : ℕ
  pub no_tcp_nodelay : Bool
  pub block_loopback : Bool
  pub block_direct_ip : Bool
  pub block_private_ips : Bool
  pub max_streams : ℕ
  pub max_frame_size : ℕ
  pub password : Option Bytes
  pub prod : Bool
  pub has_config : Bool
  pub log_level : Option Bytes
  pub log_format : Option Bytes
  pub max_connections : Option ℕ
  pub idle_timeout_secs : Option ℕ
  pub max_connections_per_ip : Option ℕ
  pub connection_window_secs : Option ℕ
  pub ws_ping_interval_secs : Option ℕ
  pub ws_pong_timeout_secs : Option ℕ
  pub tcp_keepalive_secs : Option ℕ

-- `std::env::args().any(|a| a.starts_with(p))`, and the same with `a == s ||` in front.
abbrev pub any_starts : Bytes → List Bytes → Bool
any_starts p = any (starts_with p)

abbrev pub any_short : Bytes → Bytes → List Bytes → Bool
any_short s p = any (λ a. bytes_eq a s || starts_with p a)

-- Was the option written out, so that it beats the file?
abbrev pub explicit : Args → List Bytes → Bytes → Bytes → Bool
explicit a argv dashed under =
    not a.has_config || any (λ x. starts_with dashed x || starts_with under x) argv

-- The overrides before `--prod`.
unfoldable pub apply_flags : Args → List Bytes → ServerConfig → ServerConfig
apply_flags a argv c = record c {
  buffer_size =
      if explicit a argv (codes "--buffer-size") (codes "--buffer_size")
      then a.buffer_size
      else c.buffer_size;
  tcp_nodelay = if a.no_tcp_nodelay then false else c.tcp_nodelay;
  allow_loopback = if a.block_loopback then false else c.allow_loopback;
  allow_direct_ip = if a.block_direct_ip then false else c.allow_direct_ip;
  allow_private_ips = if a.block_private_ips then false else c.allow_private_ips;
  max_streams =
      if explicit a argv (codes "--max-streams") (codes "--max_streams")
      then a.max_streams
      else c.max_streams;
  max_frame_size =
      if explicit a argv (codes "--max-frame-size") (codes "--max_frame_size")
      then a.max_frame_size
      else c.max_frame_size;
  auth_password = if is_some a.password then a.password else c.auth_password;
}

unfoldable pub apply_prod : Args → ServerConfig → ServerConfig
unfolding apply_prod_defaults
apply_prod a c = if a.prod then apply_prod_defaults (record c { prod_mode = true }) else c

-- The overrides after `--prod`.
unfoldable pub apply_options : Args → ServerConfig → ServerConfig
apply_options a c = record c {
  log_level = or_default a.log_level c.log_level;
  log_format = or_default a.log_format c.log_format;
  max_connections = or_default a.max_connections c.max_connections;
  idle_timeout_secs = or_default a.idle_timeout_secs c.idle_timeout_secs;
  max_connections_per_ip = or_default a.max_connections_per_ip c.max_connections_per_ip;
  connection_window_secs = or_default a.connection_window_secs c.connection_window_secs;
  ws_ping_interval_secs = or_default a.ws_ping_interval_secs c.ws_ping_interval_secs;
  ws_pong_timeout_secs = or_default a.ws_pong_timeout_secs c.ws_pong_timeout_secs;
  tcp_keepalive_secs = or_default a.tcp_keepalive_secs c.tcp_keepalive_secs;
}

abbrev pub override_config : Args → List Bytes → ServerConfig → ServerConfig
override_config a argv c = apply_options a (apply_prod a (apply_flags a argv c))

-- The file, where one is named, or the defaults; `none` is `std::process::exit(1)`. `read` is what
-- `load_json_config` returns, `none` for an error.
unfoldable pub loaded_config : Bool → Option JsonConfig → Option ServerConfig
loaded_config false read = some default_config
loaded_config true none = none
loaded_config true (some j) = some (merge_json_config j)

-- The overrides, and the check that there is some credit.
unfoldable pub finish_config : Args → List Bytes → ServerConfig → Option ServerConfig
unfolding apply_flags apply_prod apply_options
finish_config a argv c =
    if (override_config a argv c).buffer_size == 0 then none else some (override_config a argv c)

unfoldable pub build_config : Args → List Bytes → Option JsonConfig → Option ServerConfig
unfolding loaded_config
build_config a argv read = elim (loaded_config a.has_config read) [
  | none ↦ none
  | some c ↦ finish_config a argv c
]

-- `bind_addr`; the file is read once more. `parse_addr` is the standard library's parser.
unfoldable pub choose_bind :
    (Bytes → Option SocketAddr) → Args → List Bytes → Option JsonConfig → Option SocketAddr
choose_bind parse_addr a argv read =
    if not a.has_config
    then some a.bind
    else if any_short (codes "-b") (codes "--bind") argv
    then some a.bind
    else elim read [
      | none ↦ some a.bind
      | some j ↦ elim j.bind [ none ↦ some a.bind | some text ↦ parse_addr text ]
    ]

abbrev pub cores_if_zero : ℕ → ℕ → ℕ
cores_if_zero cores n = if n == 0 then cores else n

-- `workers`; `cores` is `num_physical_cores()`, and the file is read a third time.
unfoldable pub choose_workers : ℕ → Args → List Bytes → Option JsonConfig → ℕ
choose_workers cores a argv read =
    if not a.has_config || any_short (codes "-w") (codes "--workers") argv
    then cores_if_zero cores a.workers
    else elim read [
      | none ↦ cores_if_zero cores a.workers
      | some j ↦ cores_if_zero cores (or_default j.workers 0)
    ]

-- What a start takes: the defaults or the merged file, with the overrides, and some credit.
abbrev Built : Args → List Bytes → Option JsonConfig → ServerConfig → ServerConfig → Type 0
Built a argv read c base =
    (c ≡ override_config a argv base)
    × (((override_config a argv base).buffer_size == 0) ≡ false)
    × (loaded_config a.has_config read ≡ some base)

finish_some :
    (a : Args) (argv : List Bytes) (base c : ServerConfig)
    → finish_config a argv base ≡ some c
    → (c ≡ override_config a argv base) × (((override_config a argv base).buffer_size == 0) ≡ false)
unfolding finish_config
finish_some a argv base c e = elim (Bool-cases ((override_config a argv base).buffer_size == 0)) [
  | inl z ↦ let f = rw z at e in cc
  | inr z ↦ let f = rw z at e in (sym (some_inj f), z)
]

built :
    (a : Args) (argv : List Bytes) (read : Option JsonConfig) (c : ServerConfig)
    → build_config a argv read ≡ some c
    → (base : ServerConfig) × Built a argv read c base
unfolding build_config
built a argv read c e = elim (Option-cases (loaded_config a.has_config read)) [
  | inl l ↦ let f = rw (l, build_config) at e in absurd (cc)
  | inr (base, l) ↦
      let (p, q) = finish_some a argv base c (rw (l, build_config) at e) in (base, (p, q, l))
]

-- In the configuration that `main` starts with, the CONTINUE threshold is at least 1 and at most
-- the buffer size.
pub continue_threshold_bounds :
    (a : Args) (argv : List Bytes) (read : Option JsonConfig) (c : ServerConfig)
    → build_config a argv read ≡ some c
    → (1 ≤ continue_threshold c) × (continue_threshold c ≤ c.buffer_size)
unfolding finish_config continue_threshold
continue_threshold_bounds a argv read c e =
    let (base, b) = built a argv read c e in ground (arith, b.0, b.1)

or_default-given : {A : Type 0} (o : Option A) (d : A) → (o ≡ none) ⊎ (o ≡ some (or_default o d))
or_default-given none d = inl refl
or_default-given (some x) d = inr refl

password-required :
    (a : Args) (argv : List Bytes) (base : ServerConfig)
    → (a.password ≡ none) ⊎ (is_auth_required (override_config a argv base) ≡ true)
unfolding is_auth_required apply_flags apply_prod apply_options
password-required a argv base = elim (Option-cases a.password) [
  | inl e ↦ inl e
  | inr (p, e) ↦ inr (ground (arith, e))
]

-- In the configuration that `main` starts with: the flags that block loopback, direct IPs and
-- private IPs, and the one against TCP_NODELAY, are in force; each of these has the value of the
-- command line where that gives one: the connections of a worker and of an address, the window,
-- the idle timeout, the ping interval, the pong timeout, the keepalive, and, where the argument
-- is explicit, the buffer size, the streams and the frame size; and a password on the command
-- line makes authentication required.
pub command_line_wins :
    (a : Args) (argv : List Bytes) (read : Option JsonConfig) (c : ServerConfig)
    → build_config a argv read ≡ some c
    → ((a.block_loopback ≡ false) ⊎ (c.allow_loopback ≡ false))
      × ((a.block_direct_ip ≡ false) ⊎ (c.allow_direct_ip ≡ false))
      × ((a.block_private_ips ≡ false) ⊎ (c.allow_private_ips ≡ false))
      × ((a.max_connections ≡ none) ⊎ (a.max_connections ≡ some c.max_connections))
      × ((a.idle_timeout_secs ≡ none) ⊎ (a.idle_timeout_secs ≡ some c.idle_timeout_secs))
      × ((a.max_connections_per_ip ≡ none)
          ⊎ (a.max_connections_per_ip ≡ some c.max_connections_per_ip))
      × ((a.connection_window_secs ≡ none)
          ⊎ (a.connection_window_secs ≡ some c.connection_window_secs))
      × ((a.ws_ping_interval_secs ≡ none)
          ⊎ (a.ws_ping_interval_secs ≡ some c.ws_ping_interval_secs))
      × ((a.ws_pong_timeout_secs ≡ none) ⊎ (a.ws_pong_timeout_secs ≡ some c.ws_pong_timeout_secs))
      × ((a.tcp_keepalive_secs ≡ none) ⊎ (a.tcp_keepalive_secs ≡ some c.tcp_keepalive_secs))
      × ((explicit a argv (codes "--buffer-size") (codes "--buffer_size") ≡ false)
          ⊎ (c.buffer_size ≡ a.buffer_size))
      × ((explicit a argv (codes "--max-streams") (codes "--max_streams") ≡ false)
          ⊎ (c.max_streams ≡ a.max_streams))
      × ((explicit a argv (codes "--max-frame-size") (codes "--max_frame_size") ≡ false)
          ⊎ (c.max_frame_size ≡ a.max_frame_size))
      × ((a.no_tcp_nodelay ≡ false) ⊎ (c.tcp_nodelay ≡ false))
      × ((a.password ≡ none) ⊎ (is_auth_required c ≡ true))
unfolding finish_config
command_line_wins a argv read c e =
    let (base, b) = built a argv read c e in
    rw b.0 (
      implied a.block_loopback (λ h. ground arith),
      implied a.block_direct_ip (λ h. ground arith),
      implied a.block_private_ips (λ h. ground arith),
      or_default-given a.max_connections _,
      or_default-given a.idle_timeout_secs _,
      or_default-given a.max_connections_per_ip _,
      or_default-given a.connection_window_secs _,
      or_default-given a.ws_ping_interval_secs _,
      or_default-given a.ws_pong_timeout_secs _,
      or_default-given a.tcp_keepalive_secs _,
      implied (explicit a argv (codes "--buffer-size") (codes "--buffer_size")) (λ h. ground arith),
      implied (explicit a argv (codes "--max-streams") (codes "--max_streams")) (λ h. ground arith),
      implied (explicit a argv (codes "--max-frame-size") (codes "--max_frame_size"))
          (λ h. ground arith),
      implied a.no_tcp_nodelay (λ h. ground arith),
      password-required a argv base,
    )

merged_limits :
    (j : JsonConfig)
    → ((merge_json_config j).max_connections ≡ or_default j.max_connections 0)
      × ((merge_json_config j).max_connections_per_ip ≡ or_default j.max_connections_per_ip 0)
      × ((merge_json_config j).idle_timeout_secs ≡ or_default j.idle_timeout_secs 0)
unfolding merge_json_config
merged_limits j = ground arith

-- With a configuration file and none of the three limits on the command line: under --prod no
-- limit is 0, not even one that the file sets to 0; without --prod the limits are those of the
-- file, 0 where it has none, whether or not the file says that production mode is on.
pub prod_defaults_lem :
    (a : Args) (argv : List Bytes) (j : JsonConfig) (c : ServerConfig)
    → a.has_config ≡ true
    → build_config a argv (some j) ≡ some c
    → a.max_connections ≡ none
    → a.max_connections_per_ip ≡ none
    → a.idle_timeout_secs ≡ none
    → ((a.prod ≡ true)
        × (c.max_connections ≢ 0)
        × (c.max_connections_per_ip ≢ 0)
        × (c.idle_timeout_secs ≢ 0))
      ⊎ ((a.prod ≡ false)
          × (c.max_connections ≡ or_default j.max_connections 0)
          × (c.max_connections_per_ip ≡ or_default j.max_connections_per_ip 0)
          × (c.idle_timeout_secs ≡ or_default j.idle_timeout_secs 0))
unfolding finish_config
prod_defaults_lem a argv j c hc e m1 m2 m3 =
    let (base, b) = built a argv (some j) c e in
    let from : base ≡ merge_json_config j = unfold loaded_config in ground (arith, b.2) in
    let (l1, l2, l3) = merged_limits j in
    rw (b.0, from)
      (elim (Bool-cases a.prod) [
        | inl p ↦ inl (p, ground arith, ground arith, ground arith)
        | inr p ↦ inr (p, ground arith, ground arith, ground arith)
      ])
