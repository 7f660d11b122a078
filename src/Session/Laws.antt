-- ===== src/Session/Laws.antt =====
-- Which connections reach the select loop of `handle_connection` in src/server/connection.rs.
use shrimpwisp.Prelude.{ℕ}
use shrimpwisp.Prelude.{◌≡◌, refl, sym, ap, ◌∙◌, ◌⊎◌, inl, inr}
use shrimpwisp.Prelude.{true, Option, some, is_some, some_inj}
use shrimpwisp.Prelude.{List, ◌∷◌, is_empty, Bool-cases, Option-cases}
use shrimpwisp.Prelude.Bytes.{Bytes}
use shrimpwisp.Config.{ServerConfig, is_auth_required}
use shrimpwisp.Protocol.{ExtensionEntry, info}
use shrimpwisp.Protocol.Frame.{parse_wisp_frame}
use shrimpwisp.Net.{IpAddr}
use shrimpwisp.Backend.{BackendWriter}
use shrimpwisp.Upgrade.{
  Http, Request, Upgraded, handle_ws_upgrade, captured, sec_websocket_protocol, serve_all,
}
use shrimpwisp.Upgrade.Requests.{
  opened, handle_ws_upgrade-first, serve-other, serve-rejected, serve-accepted,
}
use shrimpwisp.Upgrade.Headers.{readable, client_ip-captured}
use shrimpwisp.Security.RealIp.{client_ip}
use shrimpwisp.Auth.{Crypto, verify_auth}
use shrimpwisp.Auth.Handshake.{
  Incoming, Written, Outcome, accepted, rejected, client_closed, read_failed, find_auth,
  read_ws_binary_handshake, payload_read,
}
use shrimpwisp.Auth.Laws.{Proven, handshake-Proven, Credentials, verify_auth-Credentials}
use shrimpwisp.Conn.{new_conn}
use shrimpwisp.Conn.Connect.{Resolver}
use shrimpwisp.Conn.Loop.{enter, process_deferred}
use shrimpwisp.Session.{Session, entered, Surroundings, begin, after_upgrade, handle_connection}

-- What the upgrade hands over came from the first request, which was an upgrade.
handle_ws_upgrade-some :
    (http : Http) (config : ServerConfig) (req : Request http) (more : List (Request http))
    (u : Upgraded http)
    → handle_ws_upgrade http config (req ∷ more) ≡ some u
    → (http.is_upgrade_request req.headers ≡ true)
      × (u ≡ record {
        is_v2 = is_some (http.get sec_websocket_protocol req.headers);
        headers = captured http config req.headers;
      })
unfolding handle_ws_upgrade serve_all
handle_ws_upgrade-some http config req more u h =
    let g = sym (handle_ws_upgrade-first http config req more).0 ∙ h in
    elim (Bool-cases (http.is_upgrade_request req.headers)) [
      | inr e ↦
          let f =
            sym (ap (λ p. p.1.sent) (serve-other http config req (opened http config) e)) ∙ g in
          absurd (cc)
      | inl e ↦ elim (Option-cases (http.upgrade req.headers)) [
        | inl x ↦
            let f =
              sym (ap (λ p. p.1.sent) (serve-rejected http config req (opened http config) e x))
              ∙ g in
            absurd (cc)
        | inr ((status, headers), x) ↦ (
          e,
          sym (
              some_inj
                (sym (ap (λ p. p.1.sent) (serve-accepted http config req status headers e x)) ∙ g)),
        )
      ]
    ]

-- The client has shown who it is: its first binary message is an INFO frame of major version 2 whose
-- first extension 0x02 `verify_auth` accepts, and which names a user where there are users.
abbrev pub Shown : Crypto → ServerConfig → List Incoming → Type 0
Shown crypto config frames =
    (payload : Bytes) × (minor : ℕ) × (exts : List ExtensionEntry) × (ext : ExtensionEntry)
    × ((read_ws_binary_handshake frames).0 ≡ payload_read payload)
    × (parse_wisp_frame payload ≡ some (info 0 2 minor exts))
    × (find_auth exts ≡ some ext)
    × (verify_auth crypto ext.payload config ≡ true)
    × ((is_empty config.auth_users ≡ true) ⊎ Credentials crypto config ext.payload)

shown :
    (crypto : Crypto) (config : ServerConfig) (frames : List Incoming) (payload : Bytes)
    → (read_ws_binary_handshake frames).0 ≡ payload_read payload
    → Proven crypto config payload
    → Shown crypto config frames
shown crypto config frames payload r (minor, exts, ext, p, f, v) = (
  payload,
  minor,
  exts,
  ext,
  r,
  p,
  f,
  v,
  elim (Bool-cases (is_empty config.auth_users)) [
    | inl e ↦ inl e
    | inr e ↦ inr (verify_auth-Credentials crypto config ext.payload e v)
  ],
)

module _ (http : Http) (crypto : Crypto) (w : BackendWriter) (config : ServerConfig)
    (net : Resolver) where
  open w use {Sock}

  entered_inj : {a b : Session Sock} → entered a ≡ entered b → a ≡ b
  entered_inj h = cc

  begin-entered :
      (e : Surroundings) (ip : IpAddr) (o : Outcome) (written : List Written) (s : Session Sock)
      → begin http crypto w config net e ip o written ≡ entered s
      → (d : Option Bytes) × (o ≡ accepted d)
        × (s.client_ip ≡ ip)
        × (s.loop ≡ enter w config net e.dns e.now e.at d)
  begin-entered e ip (accepted d) written s h =
      let f = sym (entered_inj h) in (d, refl, ap (λ x. x.client_ip) f, ap (λ x. x.loop) f)
  begin-entered e ip (rejected reason) written s h = absurd (cc)
  begin-entered e ip client_closed written s h = absurd (cc)
  begin-entered e ip read_failed written s h = absurd (cc)

  after_upgrade-Shown :
      (e : Surroundings) (u : Upgraded http) (s : Session Sock)
      → is_auth_required config ≡ true
      → after_upgrade http crypto w config net e u ≡ entered s
      → (u.is_v2 ≡ true)
        × (s.client_ip ≡ client_ip net.parse_ip config e.peer e.trusted_proxies u.headers)
        × Shown crypto config e.frames
        × (s.loop.conn ≡ new_conn config e.dns e.now)
  unfolding after_upgrade
  after_upgrade-Shown e u s required h =
      let (d, a, i, l) =
        begin-entered e (client_ip net.parse_ip config e.peer e.trusted_proxies u.headers) _ _ s
          h in
      let (v, n, (payload, r, p)) = handshake-Proven crypto config required u.is_v2 e.frames d a in
      (
        v,
        i,
        shown crypto config e.frames payload r p,
        ap (λ x. x.conn) l
            ∙ (ap (λ x. (enter w config net e.dns e.now e.at x).conn) n
                ∙ (unfold enter process_deferred in refl)),
      )

  -- A connection from its upgrade to its loop, where authentication is required: if it reaches
  -- the loop, the first request was an upgrade that asked for a protocol; the address of the
  -- client is the one that all readable headers of that request give; the first binary message of
  -- the client is an INFO frame for stream 0 of major version 2 whose first extension 0x02
  -- `verify_auth` accepts, and where the configuration has users, that extension names one of
  -- them, with a password that `verify_password` accepts for what is stored; and the connection
  -- is new at the top of the loop: no frame was processed before.
  pub handle_connection-Shown :
      (e : Surroundings) (req : Request http) (more : List (Request http)) (s : Session Sock)
      → is_auth_required config ≡ true
      → handle_connection http crypto w config net e (req ∷ more) ≡ entered s
      → (http.is_upgrade_request req.headers ≡ true)
        × (is_some (http.get sec_websocket_protocol req.headers) ≡ true)
        × (s.client_ip
            ≡ client_ip net.parse_ip config e.peer e.trusted_proxies
                (readable http net.parse_ip (http.entries req.headers)))
        × Shown crypto config e.frames
        × (s.loop.conn ≡ new_conn config e.dns e.now)
  unfolding handle_connection
  handle_connection-Shown e req more s required h =
      elim (Option-cases (handle_ws_upgrade http config (req ∷ more))) [
        | inl o ↦ let f = rw (handle_connection, o) at h in absurd (cc)
        | inr (u, o) ↦
            let (a, q) = handle_ws_upgrade-some http config req more u o in
            let (v, i, k, c) =
              after_upgrade-Shown e u s required (rw (handle_connection, o) at h) in
            (
              a,
              sym (ap (λ x. x.is_v2) q) ∙ v,
              i
                  ∙ (ap (λ x. client_ip net.parse_ip config e.peer e.trusted_proxies x.headers) q
                      ∙ client_ip-captured http net.parse_ip config e.peer e.trusted_proxies
                          req.headers),
              k,
              c,
            )
      ]
