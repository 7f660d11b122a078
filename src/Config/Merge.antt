-- ===== src/Config/Merge.antt =====
-- `expand_ports` and `merge_json_config` of src/server/config.rs.
use shrimpwisp.Prelude.{ℕ, zero, suc, ◌+◌, ◌-◌}
use shrimpwisp.Prelude.{Option, none, some}
use shrimpwisp.Prelude.{List, [], ◌∷◌, ◌++◌, map}
use shrimpwisp.Prelude.{leb, if◌then◌else◌}
use shrimpwisp.Prelude.Bytes.{to_ascii_lowercase}
use shrimpwisp.Config.{
  PortEntry, single, range, JsonFilterList, JsonAuth, JsonDns, JsonRealIp, JsonConfig, ServerConfig,
  default_config,
}

-- The ports from `lo` on, `n` of them: the loop `for p in lo..=hi`.
unfoldable pub ports_from : ℕ → ℕ → List ℕ
ports_from zero lo = []
ports_from (suc n) lo = lo ∷ ports_from n (lo + 1)

unfoldable pub expand_entry : PortEntry → List ℕ
unfolding ports_from
expand_entry (single p) = p ∷ []
expand_entry (range start end_) =
    let lo = if leb start end_ then start else end_ in
    let hi = if leb start end_ then end_ else start in ports_from (hi + 1 - lo) lo

unfoldable pub expand_ports : List PortEntry → List ℕ
unfolding expand_entry
expand_ports [] = []
expand_ports (e ∷ es) = expand_entry e ++ expand_ports es

abbrev pub or_default : {A : Type 0} → Option A → A → A
or_default none d = d
or_default (some a) d = a

-- The fields of the file that the merge copies one by one.
unfoldable pub merge_scalars : JsonConfig → ServerConfig → ServerConfig
merge_scalars j d = record d {
  buffer_size = or_default j.buffer_size d.buffer_size;
  tcp_nodelay = or_default j.tcp_no_delay d.tcp_nodelay;
  allow_loopback = or_default j.allow_loopback d.allow_loopback;
  allow_direct_ip = or_default j.allow_direct_ip d.allow_direct_ip;
  allow_private_ips = or_default j.allow_private_ips d.allow_private_ips;
  max_streams = or_default j.max_streams d.max_streams;
  max_frame_size = or_default j.max_frame_size d.max_frame_size;
  prod_mode = or_default j.prod d.prod_mode;
  log_level = or_default j.log_level d.log_level;
  log_format = or_default j.log_format d.log_format;
  max_connections = or_default j.max_connections d.max_connections;
  idle_timeout_secs = or_default j.idle_timeout_secs d.idle_timeout_secs;
  max_connections_per_ip = or_default j.max_connections_per_ip d.max_connections_per_ip;
  connection_window_secs = or_default j.connection_window_secs d.connection_window_secs;
  ws_ping_interval_secs = or_default j.ws_ping_interval_secs d.ws_ping_interval_secs;
  ws_pong_timeout_secs = or_default j.ws_pong_timeout_secs d.ws_pong_timeout_secs;
  tcp_keepalive_secs = or_default j.tcp_keepalive_secs d.tcp_keepalive_secs;
}

unfoldable pub merge_blacklist : Option JsonFilterList → ServerConfig → ServerConfig
unfolding expand_ports
merge_blacklist none c = c
merge_blacklist (some bl) c = record c {
  blacklist_hostnames = map to_ascii_lowercase bl.hostnames;
  blacklist_ports = expand_ports bl.ports;
}

unfoldable pub merge_whitelist : Option JsonFilterList → ServerConfig → ServerConfig
unfolding expand_ports
merge_whitelist none c = c
merge_whitelist (some wl) c = record c {
  whitelist_hostnames = map to_ascii_lowercase wl.hostnames;
  whitelist_ports = expand_ports wl.ports;
}

unfoldable pub merge_auth : Option JsonAuth → ServerConfig → ServerConfig
merge_auth none c = c
merge_auth (some auth) c = record c { auth_required = auth.required; auth_users = auth.users }

unfoldable pub merge_dns : Option JsonDns → ServerConfig → ServerConfig
merge_dns none c = c
merge_dns (some dns) c = record c {
  dns_servers = dns.servers;
  dns_ttl = or_default dns.ttl c.dns_ttl;
  dns_result_order = or_default dns.result_order c.dns_result_order;
}

unfoldable pub merge_real_ip : Option JsonRealIp → ServerConfig → ServerConfig
merge_real_ip none c = c
merge_real_ip (some rip) c = record c {
  real_ip_enabled = rip.enabled;
  real_ip_trusted_proxies = rip.trusted_proxies;
  real_ip_headers = rip.headers;
}

unfoldable pub merge_json_config : JsonConfig → ServerConfig
unfolding merge_scalars merge_blacklist merge_whitelist merge_auth merge_dns merge_real_ip
merge_json_config j = merge_real_ip j.real_ip (
    merge_dns j.dns (
      merge_auth j.auth (
        merge_whitelist j.whitelist
          (merge_blacklist j.blacklist (merge_scalars j default_config)))))
