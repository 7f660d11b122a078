-- ===== src/Examples/Startup.antt =====
-- The configuration of src/main.rs on concrete arguments.
use shrimpwisp.Prelude.{◌⊎◌, inl}
use shrimpwisp.Prelude.{◌↔◌, ◌≢◌, ◌∷◌}
use shrimpwisp.Config.{
  JsonFilterList, JsonConfig, single, range, is_port_blocked, is_hostname_blocked,
}
use shrimpwisp.Config.Merge.{merge_json_config, or_default}
use shrimpwisp.Config.Filters.{CoversAny, NamesAny, ports_lem, hostnames_lem}
use shrimpwisp.Config.Startup.{prod_defaults_lem, explicit}
use shrimpwisp.Config.{codes}
use shrimpwisp.Examples.{example_org}
use shrimpwisp.Prelude.{◌≡◌, refl}
use shrimpwisp.Prelude.{true, false, none, some}
use shrimpwisp.Prelude.{[]}
use shrimpwisp.Config.{ServerConfig, default_config, is_auth_required}
use shrimpwisp.Examples.{hello, example_ip}
use shrimpwisp.Net.{v4}
use shrimpwisp.Config.Startup.{
  Args, loaded_config, finish_config, build_config, override_config, apply_flags, apply_prod,
  apply_options, command_line_wins,
}

abbrev pub prod_args : Args
prod_args = record {
  bind = record { ip = v4 example_ip; port = 8080 };
  workers = 0;
  buffer_size = 65535;
  no_tcp_nodelay = false;
  block_loopback = true;
  block_direct_ip = false;
  block_private_ips = true;
  max_streams = 0;
  max_frame_size = 0;
  password = some hello;
  prod = true;
  has_config = false;
  log_level = none;
  log_format = none;
  max_connections = some 100;
  idle_timeout_secs = none;
  max_connections_per_ip = none;
  connection_window_secs = none;
  ws_ping_interval_secs = none;
  ws_pong_timeout_secs = none;
  tcp_keepalive_secs = none;
}

abbrev pub prod_config : ServerConfig
prod_config = override_config prod_args [] default_config

builds : build_config prod_args [] none ≡ some prod_config
builds =
    unfold build_config loaded_config finish_config apply_flags apply_prod apply_options in refl

command_line_wins_example :
    ((prod_args.block_loopback ≡ false) ⊎ (prod_config.allow_loopback ≡ false))
    × ((prod_args.block_direct_ip ≡ false) ⊎ (prod_config.allow_direct_ip ≡ false))
    × ((prod_args.block_private_ips ≡ false) ⊎ (prod_config.allow_private_ips ≡ false))
    × ((prod_args.max_connections ≡ none)
        ⊎ (prod_args.max_connections ≡ some prod_config.max_connections))
    × ((prod_args.idle_timeout_secs ≡ none)
        ⊎ (prod_args.idle_timeout_secs ≡ some prod_config.idle_timeout_secs))
    × ((prod_args.max_connections_per_ip ≡ none)
        ⊎ (prod_args.max_connections_per_ip ≡ some prod_config.max_connections_per_ip))
    × ((prod_args.connection_window_secs ≡ none)
        ⊎ (prod_args.connection_window_secs ≡ some prod_config.connection_window_secs))
    × ((prod_args.ws_ping_interval_secs ≡ none)
        ⊎ (prod_args.ws_ping_interval_secs ≡ some prod_config.ws_ping_interval_secs))
    × ((prod_args.ws_pong_timeout_secs ≡ none)
        ⊎ (prod_args.ws_pong_timeout_secs ≡ some prod_config.ws_pong_timeout_secs))
    × ((prod_args.tcp_keepalive_secs ≡ none)
        ⊎ (prod_args.tcp_keepalive_secs ≡ some prod_config.tcp_keepalive_secs))
    × ((explicit prod_args [] (codes "--buffer-size") (codes "--buffer_size") ≡ false)
        ⊎ (prod_config.buffer_size ≡ prod_args.buffer_size))
    × ((explicit prod_args [] (codes "--max-streams") (codes "--max_streams") ≡ false)
        ⊎ (prod_config.max_streams ≡ prod_args.max_streams))
    × ((explicit prod_args [] (codes "--max-frame-size") (codes "--max_frame_size") ≡ false)
        ⊎ (prod_config.max_frame_size ≡ prod_args.max_frame_size))
    × ((prod_args.no_tcp_nodelay ≡ false) ⊎ (prod_config.tcp_nodelay ≡ false))
    × ((prod_args.password ≡ none) ⊎ (is_auth_required prod_config ≡ true))
command_line_wins_example = command_line_wins prod_args [] none prod_config builds

abbrev filters : JsonFilterList
filters = record { hostnames = example_org ∷ []; ports = single 443 ∷ range 8000 8010 ∷ [] }

abbrev white_json : JsonConfig
white_json = record {
  bind = none;
  workers = none;
  buffer_size = none;
  tcp_no_delay = none;
  allow_loopback = none;
  allow_direct_ip = none;
  allow_private_ips = none;
  max_streams = none;
  max_frame_size = none;
  prod = none;
  blacklist = none;
  whitelist = some filters;
  auth = none;
  dns = none;
  real_ip = none;
  log_level = none;
  log_format = none;
  max_connections = some 0;
  idle_timeout_secs = none;
  max_connections_per_ip = none;
  connection_window_secs = none;
  ws_ping_interval_secs = none;
  ws_pong_timeout_secs = none;
  tcp_keepalive_secs = none;
}

abbrev black_json : JsonConfig
black_json = record white_json { whitelist = none; blacklist = some filters }

ports_lem_example :
    ((white_json.whitelist ≡ some filters)
      × ((is_port_blocked 8005 (merge_json_config white_json) ≡ false)
          ↔ CoversAny (single 443 ∷ range 8000 8010 ∷ []) 8005))
    ⊎ ((white_json.whitelist ≡ none)
        × ((is_port_blocked 8005 (merge_json_config white_json) ≡ true)
            ↔ CoversAny (single 443 ∷ range 8000 8010 ∷ []) 8005))
ports_lem_example =
    ports_lem white_json filters (single 443) (range 8000 8010 ∷ []) 8005 refl (inl refl)

hostnames_lem_example :
    ((white_json.whitelist ≡ some filters)
      × ((is_hostname_blocked example_org (merge_json_config white_json) ≡ false)
          ↔ NamesAny (example_org ∷ []) example_org))
    ⊎ ((white_json.whitelist ≡ none)
        × ((is_hostname_blocked example_org (merge_json_config white_json) ≡ true)
            ↔ NamesAny (example_org ∷ []) example_org))
hostnames_lem_example = hostnames_lem white_json filters example_org [] example_org refl (inl refl)

abbrev file_args : Args
file_args = record prod_args { has_config = true; max_connections = none }

abbrev file_config : ServerConfig
file_config = override_config file_args [] (merge_json_config white_json)

builds_file : build_config file_args [] (some white_json) ≡ some file_config
builds_file =
    unfold build_config loaded_config finish_config apply_flags apply_prod apply_options
      merge_json_config in
    refl

prod_defaults_lem_example :
    ((file_args.prod ≡ true)
      × (file_config.max_connections ≢ 0)
      × (file_config.max_connections_per_ip ≢ 0)
      × (file_config.idle_timeout_secs ≢ 0))
    ⊎ ((file_args.prod ≡ false)
        × (file_config.max_connections ≡ or_default white_json.max_connections 0)
        × (file_config.max_connections_per_ip ≡ or_default white_json.max_connections_per_ip 0)
        × (file_config.idle_timeout_secs ≡ or_default white_json.idle_timeout_secs 0))
prod_defaults_lem_example =
    prod_defaults_lem file_args [] white_json file_config refl builds_file refl refl refl
