-- ===== src/Examples/Connections.antt =====
-- One connection from its upgrade to its loop.
use shrimpwisp.Prelude.{◌≡◌, refl, true, none, is_some, [], ◌∷◌, ◌++◌}
use shrimpwisp.Prelude.Bytes.{Bytes, is_utf8, u32_from_le}
use shrimpwisp.Config.{is_auth_required}
use shrimpwisp.Net.{v4}
use shrimpwisp.Upgrade.{sec_websocket_protocol, handle_ws_upgrade, serve_all, serve, captured}
use shrimpwisp.Upgrade.Headers.{readable}
use shrimpwisp.Security.RealIp.{client_ip}
use shrimpwisp.Auth.{
  parse_client_info_extensions, find_user, verify_password, verify_named, verify_users, verify_auth,
}
use shrimpwisp.Auth.Handshake.{
  binary_frame, ping_frame, handshake, read_ws_binary_handshake, after_read, first_frame,
  info_major, authenticated, find_auth,
}
use shrimpwisp.Conn.{new_conn}
use shrimpwisp.Conn.Loop.{enter}
use shrimpwisp.Session.{Session, entered, Surroundings, after_upgrade, handle_connection}
use shrimpwisp.Session.Laws.{Shown, handle_connection-Shown}
use shrimpwisp.Examples.{
  slow_backend, hello, example_org, example_ip, example_net, example_dns, example_at,
}
use shrimpwisp.Examples.Machine.{plain_text, with_hello}
use shrimpwisp.Examples.Upgrades.{list_http, ask}

-- The credentials of the user "hello", after a ping.
abbrev hello_info : Bytes
hello_info = 5 ∷ 0 ∷ 0 ∷ 0 ∷ 0 ∷ 2 ∷ 1 ∷ 2 ∷ 17 ∷ 0 ∷ 0 ∷ 0 ∷ 5 ∷ (hello ++ example_org)

abbrev around : Surroundings
around = record {
  peer = v4 example_ip;
  trusted_proxies = [];
  frames = ping_frame [] ∷ binary_frame hello_info ∷ [];
  dns = example_dns;
  now = 7;
  at = example_at;
}

abbrev hello_session : Session Bytes
hello_session = record {
  client_ip = v4 example_ip;
  written = (handshake plain_text with_hello true around.frames).1;
  loop = enter slow_backend with_hello example_net example_dns 7 example_at none;
}

hello_enters :
    handle_connection list_http plain_text slow_backend with_hello example_net around (ask ∷ [])
    ≡ entered hello_session
hello_enters =
    unfold handle_connection handle_ws_upgrade serve_all serve captured after_upgrade client_ip
      handshake read_ws_binary_handshake after_read first_frame info_major authenticated find_auth
      parse_client_info_extensions verify_auth verify_users verify_named verify_password find_user
      is_auth_required u32_from_le is_utf8 in
    refl

handle_connection-Shown_example :
    (list_http.is_upgrade_request ask.headers ≡ true)
    × (is_some (list_http.get sec_websocket_protocol ask.headers) ≡ true)
    × (hello_session.client_ip
        ≡ client_ip example_net.parse_ip with_hello around.peer around.trusted_proxies
            (readable list_http example_net.parse_ip (list_http.entries ask.headers)))
    × Shown plain_text with_hello around.frames
    × (hello_session.loop.conn ≡ new_conn with_hello around.dns around.now)
handle_connection-Shown_example =
    handle_connection-Shown list_http plain_text slow_backend with_hello example_net around ask []
      hello_session (unfold is_auth_required in refl) hello_enters
