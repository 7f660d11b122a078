-- ===== src/Examples/Security.antt =====
-- The address policy of src/server/security.rs on concrete addresses.
use shrimpwisp.Security.Policy.{Refused, is_ip_blocked_lem}
use shrimpwisp.Prelude.{◌≡◌, refl, ◌↔◌}
use shrimpwisp.Prelude.{true, none}
use shrimpwisp.Prelude.{[], arith}
use shrimpwisp.Config.{default_config}
use shrimpwisp.Security.{is_ip_blocked}
use shrimpwisp.Net.{v4, v6, Ipv4Addr}
use shrimpwisp.Security.Policy.{mapped}
use shrimpwisp.Security.RealIp.{client_ip, client_ip_untrusted}

abbrev router : Ipv4Addr
router = record { o0 = 192; o1 = 168; o2 = 0; o3 = 1 }

-- ::ffff:192.168.0.1 is refused as the address that it maps.
is_ip_blocked_lem_example :
    (is_ip_blocked (v6 (mapped router)) default_config ≡ true)
    ↔ Refused default_config (v6 (mapped router))
is_ip_blocked_lem_example =
    is_ip_blocked_lem (v6 (mapped router)) default_config (omega arith, omega arith, omega arith)

client_ip_untrusted_example : client_ip (λ b. none) default_config (v4 router) [] [] ≡ v4 router
client_ip_untrusted_example = client_ip_untrusted (λ b. none) default_config (v4 router) [] [] refl
