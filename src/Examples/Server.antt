-- ===== src/Examples/Server.antt =====
-- The DNS cache, the admission and the authentication of src/server/ on concrete values.
use shrimpwisp.Prelude.Bytes.{bytes_eq}
use shrimpwisp.Prelude.{◌-◌}
use shrimpwisp.Prelude.{◌≡◌, refl, inl}
use shrimpwisp.Prelude.{true, none, some}
use shrimpwisp.Prelude.{List, [], ◌∷◌, arith}
use shrimpwisp.Prelude.Bytes.{Bytes}
use shrimpwisp.Prelude.Bytes.{bytes_eq}
use shrimpwisp.Config.{ServerConfig, default_config, is_auth_required}
use shrimpwisp.Dns.{dns_resolve}
use shrimpwisp.Examples.{hello, example_org, example_ip, example_net, example_at, example_dns}
use shrimpwisp.Net.{IpAddr, v4}
use shrimpwisp.Dns.Laws.{Sound, dns_resolve-Sound}
use shrimpwisp.Accept.{find_window, Window, new_worker, current_window, evict}
use shrimpwisp.Accept.Laws.{current_window-evict}
use shrimpwisp.Accept.Rate.{Event, arrives, leaves, Limited, arrived, served, served-Limited}
use shrimpwisp.Prelude.Bytes.{Bytes}
use shrimpwisp.Prelude.{Option}
use shrimpwisp.Prelude.Bytes.{u32_from_le}
use shrimpwisp.Auth.{Crypto, parse_client_info_extensions, verify_auth}
use shrimpwisp.Auth.Handshake.{
  binary_frame, ping_frame, accepted, payload_read, read_ws_binary_handshake, info_major, find_auth,
  authenticated, first_frame, after_read, handshake,
}
use shrimpwisp.Auth.Laws.{Proven, handshake-Proven}

dns_resolve-Sound_example :
    Sound 443
      (dns_resolve example_net.parse_ip example_at.lookup_host 1 2 example_org 443 example_dns)
dns_resolve-Sound_example =
    dns_resolve-Sound example_net.parse_ip example_at.lookup_host 1 2 example_org 443 example_dns tt

abbrev rates : List (IpAddr × Window)
rates = (v4 example_ip, record { count = 3; start = 0 }) ∷ []

current_window-evict_example :
    current_window 60 80 (v4 example_ip) (evict 60 70 rates)
    ≡ current_window 60 80 (v4 example_ip) rates
current_window-evict_example =
    current_window-evict 60 70 80 (v4 example_ip) rates (unfold find_window in refl, tt)
      (omega arith)

abbrev limited : ServerConfig
limited = record default_config { max_connections = 2; max_connections_per_ip = 1 }

-- Three connections of one address within a window, of which one may be served.
abbrev three_arrivals : List Event
three_arrivals =
    arrives 5 (v4 example_ip) ∷ arrives 6 (v4 example_ip) ∷ leaves ∷ arrives 7 (v4 example_ip) ∷ []

served-Limited_example :
    Limited limited
      (v4 example_ip)
      5
      (limited.max_connections_per_ip - 0)
      (arrived limited (v4 example_ip) 5 three_arrivals)
      (served limited (v4 example_ip) 5 three_arrivals new_worker)
served-Limited_example =
    served-Limited limited (v4 example_ip) 5 three_arrivals 0 new_worker (omega arith)
      (omega arith, omega arith, (omega arith, omega arith, (omega arith, omega arith, tt))) tt
      (inl (refl, inl (unfold find_window in refl)))

abbrev plain : Crypto
plain = record { bcrypt_verify = λ p h. none; ct_eq = bytes_eq }

abbrev secured : ServerConfig
secured = record default_config { auth_password = some hello }

abbrev credentials : Bytes
credentials = 5 ∷ 0 ∷ 0 ∷ 0 ∷ 0 ∷ 2 ∷ 1 ∷ 2 ∷ 5 ∷ 0 ∷ 0 ∷ 0 ∷ hello

abbrev no_frame : Option Bytes
no_frame = none

handshake-Proven_example :
    (true ≡ true)
    × (no_frame ≡ none)
    × ((payload : Bytes) × ((read_ws_binary_handshake
            (ping_frame [] ∷ binary_frame credentials ∷ [])).0
          ≡ payload_read payload)
        × Proven plain secured payload)
handshake-Proven_example =
    handshake-Proven plain secured (unfold is_auth_required in refl) true
      (ping_frame [] ∷ binary_frame credentials ∷ []) none passes
  where
    passes :
        (handshake plain secured true (ping_frame [] ∷ binary_frame credentials ∷ [])).0
        ≡ accepted none
    passes =
        unfold handshake read_ws_binary_handshake after_read first_frame info_major authenticated
          find_auth parse_client_info_extensions verify_auth is_auth_required u32_from_le in
        refl
