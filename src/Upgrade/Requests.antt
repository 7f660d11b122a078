-- ===== src/Upgrade/Requests.antt =====
-- The HTTP side of src/ws/upgrade.rs: which request is served, and what is answered.
use shrimpwisp.Prelude.{ℕ}
use shrimpwisp.Prelude.{◌≡◌, refl, sym, ap, subst, ◌⊎◌, inl, inr}
use shrimpwisp.Prelude.{true, false, not, Option, none, some, is_some}
use shrimpwisp.Prelude.{List, [], ◌∷◌, map, arith}
use shrimpwisp.Prelude.{Bool-cases, Option-cases}
use shrimpwisp.Prelude.Bytes.{Bytes}
use shrimpwisp.Config.{ServerConfig}
use shrimpwisp.Upgrade.{
  Http, sec_websocket_protocol, sec_websocket_extensions, Request, Upgraded, Service, captured,
  health_check, switching, serve, serve_all, handle_ws_upgrade,
}

module _ (http : Http) (config : ServerConfig) where
  abbrev pub opened : Service http
  opened = record { has_tx = true; sent = none }

  -- Without the sender nothing is sent.
  serve_all-sent :
      (requests : List (Request http)) (o : Option (Upgraded http))
      → (serve_all http config requests (record { has_tx = false; sent = o })).1
        ≡ record { has_tx = false; sent = o }
  unfolding serve_all serve
  serve_all-sent [] o = refl
  serve_all-sent (req ∷ more) o =
      let rest = serve_all-sent more o in
      elim (Bool-cases (not (http.is_upgrade_request req.headers))) [
        | inl e ↦ rw e rest
        | inr e ↦ rw e (elim (Option-cases (http.upgrade req.headers)) [
          | inl u ↦ rw u rest
          | inr (r, u) ↦ rw u rest
        ])
      ]

  serve-state : (req : Request http) (s : Service http) → (serve http config req s).1.has_tx ≡ false
  unfolding serve
  serve-state req s = ground arith

  serve-Response :
      (req : Request http) (s t : Service http)
      → (serve http config req s).0 ≡ (serve http config req t).0
  unfolding serve
  serve-Response req s t = ground arith

  serve_all-Responses :
      (requests : List (Request http)) (s t : Service http)
      → (serve_all http config requests s).0 ≡ map (λ req. (serve http config req t).0) requests
  unfolding serve_all
  serve_all-Responses [] s t = refl
  serve_all-Responses (req ∷ more) s t =
      cc (serve-Response req s t, serve_all-Responses more (serve http config req s).1 t)

  -- Of the requests of one HTTP connection only the first can be served: the result of
  -- `handle_ws_upgrade` is that of the first request alone, although every other is answered as
  -- if it were the first.
  pub handle_ws_upgrade-first :
      (req : Request http) (more : List (Request http))
      → (handle_ws_upgrade http config (req ∷ more) ≡ handle_ws_upgrade http config (req ∷ []))
        × ((serve_all http config (req ∷ more) opened).0
            ≡ map (λ r. (serve http config r opened).0) (req ∷ more))
  unfolding handle_ws_upgrade
  handle_ws_upgrade-first req more = (
    unfold serve_all in
        ap (λ s. s.sent)
          (subst
            (λ b.
              (serve_all http config more
                (record { has_tx = b; sent = (serve http config req opened).1.sent })).1
              ≡ record { has_tx = b; sent = (serve http config req opened).1.sent })
            (sym (serve-state req opened))
            (serve_all-sent more (serve http config req opened).1.sent)),
    serve_all-Responses (req ∷ more) opened opened,
  )

  pub serve-other :
      (req : Request http) (s : Service http)
      → http.is_upgrade_request req.headers ≡ false
      → serve http config req s ≡ (health_check http req, record s { has_tx = false })
  unfolding serve
  serve-other req s e = rw e refl

  pub serve-rejected :
      (req : Request http) (s : Service http)
      → http.is_upgrade_request req.headers ≡ true
      → http.upgrade req.headers ≡ none
      → serve http config req s
        ≡ (record { status = 400; headers = http.no_headers }, record s { has_tx = false })
  unfolding serve
  serve-rejected req s e u = rw (e, u) refl

  pub serve-accepted :
      (req : Request http) (status : ℕ) (headers : http.Headers)
      → http.is_upgrade_request req.headers ≡ true
      → http.upgrade req.headers ≡ some (status, headers)
      → serve http config req opened ≡ (
        switching http (http.get sec_websocket_protocol req.headers) status headers,
        record {
          has_tx = false;
          sent = some (record {
            is_v2 = is_some (http.get sec_websocket_protocol req.headers);
            headers = captured http config req.headers;
          });
        },
      )
  unfolding serve
  serve-accepted req status headers e u = rw (e, u) refl

  -- A protocol that was asked for stands in the response.
  abbrev pub Echoed : Option Bytes → http.Headers → Type 0
  Echoed none headers = Unit
  Echoed (some protocol) headers = http.get sec_websocket_protocol headers ≡ some protocol

  -- The three ways in which a request is answered.
  abbrev pub Answered : Request http → Type 0
  Answered req =
      ((http.is_upgrade_request req.headers ≡ false)
        × ((serve http config req opened).0.status ≡ 200)
        × (handle_ws_upgrade http config (req ∷ []) ≡ none))
      ⊎ ((http.is_upgrade_request req.headers ≡ true)
          × ((serve http config req opened).0.status ≡ 400)
          × (http.upgrade req.headers ≡ none)
          × (handle_ws_upgrade http config (req ∷ []) ≡ none))
      ⊎ ((status : ℕ) × (headers : http.Headers) × (http.is_upgrade_request req.headers ≡ true)
          × (http.upgrade req.headers ≡ some (status, headers))
          × ((serve http config req opened).0.status ≡ status)
          × (http.get sec_websocket_extensions (serve http config req opened).0.headers ≡ none)
          × Echoed (http.get sec_websocket_protocol req.headers)
              (serve http config req opened).0.headers
          × (handle_ws_upgrade http config (req ∷ [])
              ≡ some (record {
                is_v2 = is_some (http.get sec_websocket_protocol req.headers);
                headers = captured http config req.headers;
              })))
