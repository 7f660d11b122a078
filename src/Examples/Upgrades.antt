-- ===== src/Examples/Upgrades.antt =====
-- The WebSocket upgrade of src/ws/upgrade.rs and the checks of src/server/security.rs on concrete
-- values.
use shrimpwisp.Prelude.{◌≡◌, refl}
use shrimpwisp.Prelude.{true, ◌&&◌, not, Option, none, some, is_some}
use shrimpwisp.Prelude.{List, [], ◌∷◌, map, arith}
use shrimpwisp.Prelude.{if◌then◌else◌}
use shrimpwisp.Prelude.{any}
use shrimpwisp.Prelude.Bytes.{Bytes}
use shrimpwisp.Prelude.Bytes.{bytes_eq}
use shrimpwisp.Config.{codes, ServerConfig, default_config}
use shrimpwisp.Upgrade.{
  Http, sec_websocket_protocol, Request, captured, serve, serve_all, handle_ws_upgrade,
}
use shrimpwisp.Examples.{hello, example_org, example_ip}
use shrimpwisp.Net.{IpAddr, v4, Ipv4Addr}
use shrimpwisp.Dns.{ip_eq}
use shrimpwisp.Security.{v4_unspecified, is_ip_blocked}
use shrimpwisp.Security.Names.{is_hostname_blocked_pre_resolution}
use shrimpwisp.Security.Literals.{dotted, hostname_dotted_lem}
use shrimpwisp.Security.RealIp.{client_ip, is_trusted_proxy}
use shrimpwisp.Security.Trusted.{
  Nets, IsNets, parse_trusted_proxies, entry_trusts, tests, parse_trusted_proxies_lem,
}
use shrimpwisp.Upgrade.Requests.{opened, handle_ws_upgrade-first}
use shrimpwisp.Upgrade.Headers.{readable, client_ip-captured}

-- A header map is the list of its headers; one that has "sec-websocket-key" is an upgrade.
abbrev lookup : Bytes → List (Bytes × Bytes) → Option Bytes
lookup k [] = none
lookup k ((j, v) ∷ h) = if bytes_eq k j then some v else lookup k h

abbrev without : Bytes → List (Bytes × Bytes) → List (Bytes × Bytes)
without k [] = []
without k ((j, v) ∷ h) = if bytes_eq k j then without k h else (j, v) ∷ without k h

abbrev pub list_http : Http
list_http = record {
  Headers = List (Bytes × Bytes);
  no_headers = [];
  entries = λ h. h;
  get = lookup;
  insert = λ k v h. (k, v) ∷ h;
  remove = without;
  to_str = λ v. some v;
  is_upgrade_request = λ h. is_some (lookup (codes "upgrade") h);
  upgrade = λ h. if is_some (lookup (codes "sec-websocket-key") h) then some (101, []) else none;
}

abbrev health : Request list_http
health = record { method = codes "GET"; path = codes "/health"; headers = [] }

abbrev upgrade_headers : List (Bytes × Bytes)
upgrade_headers =
    (codes "upgrade", codes "websocket")
    ∷ (codes "sec-websocket-key", hello)
    ∷ (sec_websocket_protocol, codes "wisp-v2")
    ∷ []

abbrev pub ask : Request list_http
ask = record { method = codes "GET"; path = codes "/"; headers = upgrade_headers }

handle_ws_upgrade-first_example :
    (handle_ws_upgrade list_http default_config (health ∷ ask ∷ [])
      ≡ handle_ws_upgrade list_http default_config (health ∷ []))
    × ((serve_all list_http default_config (health ∷ ask ∷ []) (opened list_http default_config)).0
        ≡ map
            (λ r. (serve list_http default_config r (opened list_http default_config)).0)
            (health ∷ ask ∷ []))
handle_ws_upgrade-first_example = handle_ws_upgrade-first list_http default_config health (ask ∷ [])

abbrev one_ip : Bytes → Option IpAddr
one_ip s = if bytes_eq s hello then some (v4 example_ip) else none

abbrev behind_proxy : ServerConfig
behind_proxy = record default_config {
  real_ip_enabled = true;
  real_ip_headers = codes "Upgrade" ∷ codes "Sec-WebSocket-Key" ∷ [];
}

client_ip-captured_example :
    client_ip one_ip behind_proxy
      (v4 example_ip)
      ((λ ip. true) ∷ [])
      (captured list_http behind_proxy upgrade_headers)
    ≡ client_ip one_ip behind_proxy
        (v4 example_ip)
        ((λ ip. true) ∷ [])
        (readable list_http one_ip upgrade_headers)
client_ip-captured_example =
    client_ip-captured list_http one_ip behind_proxy (v4 example_ip) ((λ ip. true) ∷ [])
      upgrade_headers

abbrev one_host : Ipv4Addr
one_host = record { o0 = 172; o1 = 20; o2 = 0; o3 = 1 }

hostname_dotted_lem_example :
    is_hostname_blocked_pre_resolution (λ b. none) (λ b. none) (dotted one_host) default_config ≡ (
      is_ip_blocked (v4 one_host) default_config
      && not (v4_unspecified one_host && default_config.allow_loopback))
hostname_dotted_lem_example =
    hostname_dotted_lem (λ b. none) (λ b. none) one_host default_config
      (omega arith, omega arith, omega arith, omega arith) refl

-- Networks of one address.
abbrev single_nets : Nets
single_nets = record {
  IpNet = IpAddr;
  parse_net = λ s. none;
  new_net = λ ip prefix. some ip;
  within = ip_eq;
}

single_nets-IsNets : IsNets single_nets
single_nets-IsNets = record { new_full = λ ip. (ip, refl, (λ peer. refl)) }

parse_trusted_proxies_lem_example :
    is_trusted_proxy one_ip (v4 example_ip) (
      tests single_nets one_ip
        (parse_trusted_proxies single_nets one_ip (example_org ∷ hello ∷ [])))
    ≡ any (entry_trusts single_nets one_ip (v4 example_ip)) (example_org ∷ hello ∷ [])
parse_trusted_proxies_lem_example =
    parse_trusted_proxies_lem single_nets one_ip single_nets-IsNets (v4 example_ip)
      (example_org ∷ hello ∷ [])
