-- ===== src/Upgrade.antt =====
-- The WebSocket upgrade, src/ws/upgrade.rs. The types of `http` and the upgrade of `fastwebsockets`
-- are the parameter `Http`.
pub mod Requests
pub mod Headers
use shrimpwisp.Prelude.{ℕ, ◌+◌, ◌-◌, ◌/◌}
use shrimpwisp.Prelude.{◌≡◌}
use shrimpwisp.Prelude.{Bool, true, false, ◌&&◌, not, Option, none, some, is_some}
use shrimpwisp.Prelude.{List, [], ◌∷◌, ◌++◌}
use shrimpwisp.Prelude.{if◌then◌else◌}
use shrimpwisp.Prelude.Bytes.{Bytes}
use shrimpwisp.Prelude.Bytes.{bytes_eq}
use shrimpwisp.Prelude.Bytes.{to_ascii_lowercase}
use shrimpwisp.Config.{codes, ServerConfig}

-- Code outside the sources: the header map, with its values in order, and the upgrade of a request,
-- which checks it and answers with the status and the headers of the response.
pub record Http : Type 1 where
  pub Headers : Type 0
  pub no_headers : Headers
  pub entries : Headers → List (Bytes × Bytes)
  pub get : Bytes → Headers → Option Bytes
  pub insert : Bytes → Bytes → Headers → Headers
  pub remove : Bytes → Headers → Headers
  pub to_str : Bytes → Option Bytes
  pub is_upgrade_request : Headers → Bool
  pub upgrade : Headers → Option (ℕ × Headers)

abbrev pub sec_websocket_protocol : Bytes
sec_websocket_protocol = codes "sec-websocket-protocol"

abbrev pub sec_websocket_extensions : Bytes
sec_websocket_extensions = codes "sec-websocket-extensions"

-- The documented behaviour of a `HeaderMap`.
pub record IsHttp (http : Http) : Type 0 where
  pub get_insert : (k v : Bytes) (h : http.Headers) → http.get k (http.insert k v h) ≡ some v
  pub get_remove : (k : Bytes) (h : http.Headers) → http.get k (http.remove k h) ≡ none
  pub get_remove_other :
      (k j : Bytes) (h : http.Headers)
      → bytes_eq k j ≡ false
      → http.get j (http.remove k h) ≡ http.get j h

module _ (http : Http) where
  open http use {Headers}

  pub record Request : Type 0 where
    pub method : Bytes
    pub path : Bytes
    pub headers : Headers

  pub record Response : Type 0 where
    pub status : ℕ
    pub headers : Headers

  -- What `tx` carries besides the upgraded socket, and `UpgradeResult` gives on.
  pub record Upgraded : Type 0 where
    pub is_v2 : Bool
    pub headers : List (Bytes × Bytes)

  -- The closure's state: whether `tx` still holds the sender, and what was sent.
  pub record Service : Type 0 where
    pub has_tx : Bool
    pub sent : Option Upgraded

  -- The headers of one configured name, of those that are text.
  unfoldable pub capture_named : Bytes → List (Bytes × Bytes) → List (Bytes × Bytes)
  capture_named target_lower [] = []
  capture_named target_lower ((name, value) ∷ more) =
      let rest = capture_named target_lower more in
      if bytes_eq (to_ascii_lowercase name) target_lower
      then elim (http.to_str value) [ none ↦ rest | some v ↦ (name, v) ∷ rest ]
      else rest

  unfoldable pub capture_headers : List Bytes → List (Bytes × Bytes) → List (Bytes × Bytes)
  unfolding capture_named
  capture_headers [] headers = []
  capture_headers (target ∷ targets) headers =
      capture_named (to_ascii_lowercase target) headers ++ capture_headers targets headers

  -- `real_ip_headers` of `handle_ws_upgrade`.
  unfoldable pub captured : ServerConfig → Headers → List (Bytes × Bytes)
  unfolding capture_headers
  captured config headers =
      if config.real_ip_enabled
      then capture_headers config.real_ip_headers (http.entries headers)
      else []

  abbrev empty_response : ℕ → Response
  empty_response status = record { status = status; headers = http.no_headers }

  -- A request that is no upgrade.
  unfoldable pub health_check : Request → Response
  health_check req =
      if bytes_eq req.method (codes "GET") && bytes_eq req.path (codes "/health")
      then record {
        status = 200;
        headers = http.insert (codes "content-type") (codes "application/json") http.no_headers;
      }
      else empty_response 200

  abbrev echo_protocol : Option Bytes → Headers → Headers
  echo_protocol none headers = headers
  echo_protocol (some protocol) headers = http.insert sec_websocket_protocol protocol headers

  -- The response of `upgrade`, with its headers changed.
  unfoldable pub switching : Option Bytes → ℕ → Headers → Response
  switching requested_protocol status headers = record {
    status = status;
    headers = http.remove sec_websocket_extensions (echo_protocol requested_protocol headers);
  }

  -- The closure of `service_fn`; `tx.take()` comes first, on every request.
  unfoldable pub serve : ServerConfig → Request → Service → Response × Service
  unfolding health_check captured switching
  serve config req s =
      let taken : Service = record s { has_tx = false } in
      let requested_protocol = http.get sec_websocket_protocol req.headers in
      if not (http.is_upgrade_request req.headers)
      then (health_check req, taken)
      else elim (http.upgrade req.headers) [
        | none ↦ (empty_response 400, taken)
        | some (status, headers) ↦ (
          switching requested_protocol status headers,
          if s.has_tx
              then record taken {
                sent = some (record {
                  is_v2 = is_some requested_protocol;
                  headers = captured config req.headers;
                });
              }
              else taken,
        )
      ]

  -- The requests of one HTTP connection, which is handed over after an accepted upgrade: such a
  -- request is the last.
  unfoldable pub serve_all : ServerConfig → List Request → Service → List Response × Service
  unfolding serve
  serve_all config [] s = ([], s)
  serve_all config (req ∷ more) s =
      let r : Response × Service = serve config req s in
      let rest : List Response × Service = serve_all config more r.1 in (r.0 ∷ rest.0, rest.1)

  -- What `handle_ws_upgrade` returns after these requests: nothing stands for `UpgradeFailed`.
  unfoldable pub handle_ws_upgrade : ServerConfig → List Request → Option Upgraded
  unfolding serve_all
  handle_ws_upgrade config requests =
      (serve_all config requests (record { has_tx = true; sent = none })).1.sent
