-- ===== src/Config.antt =====
-- src/server/config.rs: the configuration file, the runtime configuration, the merge of the two, and
-- the filters. A `HashSet` is a list with the same members, a `HashMap` an association list.
pub mod Merge
pub mod Filters
pub mod Startup
use shrimpwisp.Prelude.{ℕ, ◌*◌, ◌/◌, max}
use shrimpwisp.Prelude.{Bool, true, false, ◌||◌, not, Option, none, is_some}
use shrimpwisp.Prelude.{List, [], ◌∷◌}
use shrimpwisp.Prelude.{◌==◌, if◌then◌else◌}
use shrimpwisp.Prelude.{is_empty}
use shrimpwisp.Prelude.Bytes.{Bytes}
use shrimpwisp.Prelude.Bytes.{bytes_eq}
use shrimpwisp.Prelude.Bytes.{to_ascii_lowercase}
use Prim.Native.String.{String}
use Prim.Native.Char.{code}

-- The bytes of an ASCII text.
abbrev pub codes : String → Bytes
codes String.[] = []
codes (String.◌∷◌ c s) = code c ∷ codes s

abbrev pub ipv4first : Bytes
ipv4first = codes "ipv4first"

pub data PortEntry : Type 0 where
  single : ℕ → PortEntry
  range : (start end_ : ℕ) → PortEntry

pub record JsonFilterList : Type 0 where
  pub hostnames : List Bytes
  pub ports : List PortEntry

pub record JsonAuth : Type 0 where
  pub required : Bool
  pub users : List (Bytes × Bytes)

pub record JsonDns : Type 0 where
  pub servers : List Bytes
  pub ttl : Option ℕ
  pub result_order : Option Bytes

pub record JsonRealIp : Type 0 where
  pub enabled : Bool
  pub trusted_proxies : List Bytes
  pub headers : List Bytes

pub record JsonConfig : Type 0 where
  pub bind : Option Bytes
  pub workers : Option ℕ
  pub buffer_size : Option ℕ
  pub tcp_no_delay : Option Bool
  pub allow_loopback : Option Bool
  pub allow_direct_ip : Option Bool
  pub allow_private_ips : Option Bool
  pub max_streams : Option ℕ
  pub max_frame_size : Option ℕ
  pub prod : Option Bool
  pub blacklist : Option JsonFilterList
  pub whitelist : Option JsonFilterList
  pub auth : Option JsonAuth
  pub dns : Option JsonDns
  pub real_ip : Option JsonRealIp
  pub log_level : Option Bytes
  pub log_format : Option Bytes
  pub max_connections : Option ℕ
  pub idle_timeout_secs : Option ℕ
  pub max_connections_per_ip : Option ℕ
  pub connection_window_secs : Option ℕ
  pub ws_ping_interval_secs : Option ℕ
  pub ws_pong_timeout_secs : Option ℕ
  pub tcp_keepalive_secs : Option ℕ

pub record ServerConfig : Type 0 where
  pub buffer_size : ℕ
  pub tcp_nodelay : Bool
  pub allow_loopback : Bool
  pub allow_direct_ip : Bool
  pub allow_private_ips : Bool
  pub max_streams : ℕ
  pub max_frame_size : ℕ
  pub auth_password : Option Bytes
  pub auth_users : List (Bytes × Bytes)
  pub auth_required : Bool
  pub prod_mode : Bool
  pub blacklist_hostnames : List Bytes
  pub blacklist_ports : List ℕ
  pub whitelist_hostnames : List Bytes
  pub whitelist_ports : List ℕ
  pub dns_servers : List Bytes
  pub dns_ttl : ℕ
  pub dns_result_order : Bytes
  pub real_ip_enabled : Bool
  pub real_ip_trusted_proxies : List Bytes
  pub real_ip_headers : List Bytes
  pub log_level : Bytes
  pub log_format : Bytes
  pub max_connections : ℕ
  pub idle_timeout_secs : ℕ
  pub max_connections_per_ip : ℕ
  pub connection_window_secs : ℕ
  pub ws_ping_interval_secs : ℕ
  pub ws_pong_timeout_secs : ℕ
  pub tcp_keepalive_secs : ℕ

-- `ServerConfig::default`.
abbrev pub default_config : ServerConfig
default_config = record {
  buffer_size = 65535;
  tcp_nodelay = true;
  allow_loopback = true;
  allow_direct_ip = true;
  allow_private_ips = true;
  max_streams = 0;
  max_frame_size = 0;
  auth_password = none;
  auth_users = [];
  auth_required = false;
  prod_mode = false;
  blacklist_hostnames = [];
  blacklist_ports = [];
  whitelist_hostnames = [];
  whitelist_ports = [];
  dns_servers = [];
  dns_ttl = 120;
  dns_result_order = ipv4first;
  real_ip_enabled = false;
  real_ip_trusted_proxies = [];
  real_ip_headers = [];
  log_level = codes "info";
  log_format = codes "text";
  max_connections = 0;
  idle_timeout_secs = 0;
  max_connections_per_ip = 0;
  connection_window_secs = 60;
  ws_ping_interval_secs = 0;
  ws_pong_timeout_secs = 10;
  tcp_keepalive_secs = 0;
}

-- `continue_threshold`: nine tenths of the buffer, and 1 at least. The product is taken in `u64`,
-- where it does not wrap; the result fits `u32`.
unfoldable pub continue_threshold : ServerConfig → ℕ
continue_threshold c = max (c.buffer_size * 9 / 10) 1

unfoldable pub is_auth_required : ServerConfig → Bool
is_auth_required c = c.auth_required || (not (is_empty c.auth_users) || is_some c.auth_password)

unfoldable pub apply_prod_defaults : ServerConfig → ServerConfig
apply_prod_defaults c = record c {
  max_connections = if c.max_connections == 0 then 8192 else c.max_connections;
  idle_timeout_secs = if c.idle_timeout_secs == 0 then 300 else c.idle_timeout_secs;
  max_connections_per_ip = if c.max_connections_per_ip == 0 then 64 else c.max_connections_per_ip;
  connection_window_secs = if c.connection_window_secs == 60 then 60 else c.connection_window_secs;
  ws_ping_interval_secs = if c.ws_ping_interval_secs == 0 then 30 else c.ws_ping_interval_secs;
  ws_pong_timeout_secs = if c.ws_pong_timeout_secs == 10 then 10 else c.ws_pong_timeout_secs;
  tcp_keepalive_secs = if c.tcp_keepalive_secs == 0 then 60 else c.tcp_keepalive_secs;
}

unfoldable pub has_filters : ServerConfig → Bool
has_filters c =
    not (is_empty c.blacklist_hostnames)
    || (not (is_empty c.blacklist_ports)
        || (not (is_empty c.whitelist_hostnames) || not (is_empty c.whitelist_ports)))

-- `HashSet::contains`.
unfoldable pub has_name : Bytes → List Bytes → Bool
has_name n [] = false
has_name n (m ∷ ms) = bytes_eq m n || has_name n ms

unfoldable pub has_port : ℕ → List ℕ → Bool
has_port p [] = false
has_port p (q ∷ qs) = q == p || has_port p qs

unfoldable pub is_hostname_blocked : Bytes → ServerConfig → Bool
is_hostname_blocked hostname c =
    let hostname_lower = to_ascii_lowercase hostname in
    if not (is_empty c.whitelist_hostnames)
    then not (has_name hostname_lower c.whitelist_hostnames)
    else if not (is_empty c.blacklist_hostnames)
    then has_name hostname_lower c.blacklist_hostnames
    else false

unfoldable pub is_port_blocked : ℕ → ServerConfig → Bool
is_port_blocked port c =
    if not (is_empty c.whitelist_ports)
    then not (has_port port c.whitelist_ports)
    else if not (is_empty c.blacklist_ports)
    then has_port port c.blacklist_ports
    else false
