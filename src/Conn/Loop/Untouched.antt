-- ===== src/Conn/Loop/Untouched.antt =====
-- What the handlers of src/server/connection.rs leave alone: the CONTINUEs that are due, and the data
-- channel.
use shrimpwisp.Prelude.{ℕ}
use shrimpwisp.Prelude.{◌≡◌, refl, sym, subst, ◌∙◌, ◌⊎◌, inl, inr}
use shrimpwisp.Prelude.{Bool, true, ◌&&◌, not, Option, none, some}
use shrimpwisp.Prelude.{List, [], ◌∷◌, arith}
use shrimpwisp.Prelude.{leb, Bool-cases, Option-cases}
use shrimpwisp.Prelude.Bytes.{Bytes}
use shrimpwisp.Proxy.{ProxyStream, tcp_stream, udp_stream, connecting, new_connecting}
use shrimpwisp.Proxy.Table.{get, len}
use shrimpwisp.Backend.{BackendWriter, flush_early}
use shrimpwisp.Config.{ServerConfig}
use shrimpwisp.Dns.{Resolved, address, resolve_failed, no_addresses, dns_panic}
use shrimpwisp.Conn.{
  ControlEvent, stream_closed, tcp_connected, tcp_connect_failed, Conn, send, send_close, post,
  spawn, fresh_flag, put_stream, insert_stream, remove,
}
use shrimpwisp.Conn.Connect.{Resolver, Circumstances}
use shrimpwisp.Conn.Inbound.{
  WispFrameResult, wisp, control, ws_error, op_close, op_ping, op_pong, op_other, handle_inbound,
  connect_packet, count_stream,
}
use shrimpwisp.Conn.Control.{
  drain_control, control_branch, handle_control_event, connected, open_stream, control_event,
  control_events, handle_events, upgrade_buffers,
}
use shrimpwisp.Conn.Phases.{
  drain_writes, retain_pending, close_all, drain_one, drain_stream, Swept, Verdict, add_verdict,
  keep, dismiss, dead,
}
use shrimpwisp.Prelude.{List-cases}
use shrimpwisp.Protocol.{StreamType, tcp, udp, ConnectPayload, network_error}
use shrimpwisp.Protocol.Frame.{parse_connect_payload}
use shrimpwisp.Conn.Data.{after_write, data_for, handle_data_zerocopy, close_dead, data_packet}
use shrimpwisp.Conn.Connect.{
  resolve, post_or_hang, tcp_resolved, handle_tcp_connect, udp_insert, udp_resolved,
  handle_udp_connect, dispatch, handle_connect,
}

module _ {S : Type 0} where
  abbrev pub SameQueue : Conn S → Conn S → Type 0
  SameQueue s s' = s'.write_queue ≡ s.write_queue

  abbrev pub SameDue : Conn S → Conn S → Type 0
  SameDue s s' = s'.pending_continues ≡ s.pending_continues

  -- The channels and the CONTINUEs that are due are as they were.
  abbrev pub Same : Conn S → Conn S → Type 0
  Same s s' = SameQueue s s' × SameDue s s' × (s'.events ≡ s.events)

module _ (w : BackendWriter) (config : ServerConfig) where
  open w use {Sock}

  -- Control events.
  connected-Same :
      (id : ℕ) (x : Sock) (flag : ℕ) (o : Option (ProxyStream Sock)) (s : Conn Sock)
      → Same s (connected w config id x flag o s)
  unfolding connected open_stream insert_stream send_close send spawn
  connected-Same id x flag none s = (refl, refl, refl)
  connected-Same id x flag (some (tcp_stream t)) s = (refl, refl, refl)
  connected-Same id x flag (some (udp_stream u)) s = (refl, refl, refl)
  connected-Same id x flag (some (connecting c)) s =
      elim (Bool-cases (flush_early w c.early_data x).dead) [
        | inl e ↦ rw e (refl, refl, refl)
        | inr e ↦ rw e (refl, refl, refl)
      ]

  pub handle_control_event-Same :
      (event : ControlEvent Sock) (s : Conn Sock) → Same s (handle_control_event w config event s)
  unfolding handle_control_event send_close send remove fresh_flag
  handle_control_event-Same (stream_closed id reason) s = (refl, refl, refl)
  handle_control_event-Same (tcp_connected id x flag) s =
      connected-Same id x (fresh_flag s).0 (remove id (fresh_flag s).1).0
        (remove id (fresh_flag s).1).1
  handle_control_event-Same (tcp_connect_failed id reason) s = (refl, refl, refl)

  upgrade_buffers-Same : (s : Conn Sock) → Same s (upgrade_buffers w config s)
  unfolding upgrade_buffers
  upgrade_buffers-Same s = elim (Bool-cases (not s.buffers_upgraded && leb 2 (len s.table))) [
    | inl e ↦ rw e (refl, refl, refl)
    | inr e ↦ rw e (refl, refl, refl)
  ]

  control_event-Same :
      (event : ControlEvent Sock) (s : Conn Sock) → Same s (control_event w config event s)
  unfolding control_event
  control_event-Same event s =
      let a = handle_control_event-Same event s in
      let b = upgrade_buffers-Same (handle_control_event w config event s) in
      (b.0 ∙ a.0, b.1 ∙ a.1, b.2 ∙ a.2)

  handle_events-Same :
      (events : List (ControlEvent Sock)) (s : Conn Sock) → Same s (handle_events w config events s)
  unfolding handle_events
  handle_events-Same [] s = (refl, refl, refl)
  handle_events-Same (event ∷ more) s =
      let a = handle_control_event-Same event s in
      let b = handle_events-Same more (handle_control_event w config event s) in
      (b.0 ∙ a.0, b.1 ∙ a.1, b.2 ∙ a.2)

  control_events-Same :
      (events : List (ControlEvent Sock)) (s : Conn Sock)
      → Same s (control_events w config events s)
  unfolding control_events
  control_events-Same [] s = (refl, refl, refl)
  control_events-Same (event ∷ more) s =
      let a = control_event-Same event s in
      let b = control_events-Same more (control_event w config event s) in
      (b.0 ∙ a.0, b.1 ∙ a.1, b.2 ∙ a.2)

  pub drain_control-Same :
      (s : Conn Sock) → Same (record s { events = [] }) (drain_control w config s)
  unfolding drain_control
  drain_control-Same s = control_events-Same s.events (record s { events = [] })

  -- The elements of the channel are as many as it has; the branch takes all.
  control_branch-cases :
      (s : Conn Sock)
      → ((s.events ≡ []) × (control_branch w config s ≡ s))
        ⊎ ((event : ControlEvent Sock) × (more : List (ControlEvent Sock)) × (s.events
              ≡ event ∷ more)
            × (control_branch w config s
                ≡ handle_events w config more
                    (control_event w config event (record s { events = [] }))))
  unfolding control_branch
  control_branch-cases s = elim (List-cases s.events) [
    | inl e ↦ inl (e, rw e refl)
    | inr (event, more, e) ↦ inr (event, more, e, rw e refl)
  ]

  pub control_branch-Same :
      (s : Conn Sock)
      → SameQueue s (control_branch w config s) × SameDue s (control_branch w config s)
  control_branch-Same s = elim (control_branch-cases s) [
    | inl (e, same) ↦ rw same (refl, refl)
    | inr (event, more, e, same) ↦
        let a = control_event-Same event (record s { events = [] }) in
        let b = handle_events-Same more (control_event w config event (record s { events = [] })) in
        rw same (b.0 ∙ a.0, b.1 ∙ a.1)
  ]

  -- Phase 0.
  drain_one-Same :
      (id : ℕ) (o : Option (ProxyStream Sock)) (s : Conn Sock) → Same s (drain_one w id o s).1
  unfolding drain_one drain_stream put_stream
  drain_one-Same id none s = (refl, refl, refl)
  drain_one-Same id (some (udp_stream u)) s = (refl, refl, refl)
  drain_one-Same id (some (connecting c)) s = (refl, refl, refl)
  drain_one-Same id (some (tcp_stream t)) s = ground arith

  add_verdict-after :
      (id : ℕ) (v : Verdict w) (r : Swept w) → (add_verdict w id v r).after ≡ r.after
  add_verdict-after id keep r = refl
  add_verdict-after id dismiss r = refl
  add_verdict-after id dead r = refl

  retain_pending-Same : (ids : List ℕ) (s : Conn Sock) → Same s (retain_pending w ids s).after
  unfolding retain_pending
  retain_pending-Same [] s = (refl, refl, refl)
  retain_pending-Same (id ∷ ids) s =
      let d = drain_one w id (get id s.table) s in
      let a = drain_one-Same id (get id s.table) s in
      let b = retain_pending-Same ids d.1 in
      subst (Same s) (sym (add_verdict-after id d.0 (retain_pending w ids d.1)))
        (b.0 ∙ a.0, b.1 ∙ a.1, b.2 ∙ a.2)

  close_all-Same : (ids : List ℕ) (s : Conn Sock) → Same s (close_all w ids s)
  unfolding close_all remove send_close send
  close_all-Same [] s = (refl, refl, refl)
  close_all-Same (id ∷ ids) s = close_all-Same ids (send_close id network_error (remove id s).1)

  pub drain_writes-Same : (s : Conn Sock) → Same s (drain_writes w s)
  unfolding drain_writes
  drain_writes-Same s =
      let r : Swept w = retain_pending w s.streams_with_pending s in
      let a = retain_pending-Same s.streams_with_pending s in
      let b = close_all-Same r.dead_streams (record r.after { streams_with_pending = r.kept }) in
      (b.0 ∙ a.0, b.1 ∙ a.1, b.2 ∙ a.2)

  -- Frames of the client.
  module _ (net : Resolver) where
    tcp_resolved-Same :
        (room : Bool) (id : ℕ) (host : Bytes) (flag : ℕ) (m : Bool) (r : Resolved) (s : Conn Sock)
        → SameQueue s (tcp_resolved config net room id host flag m r s)
    unfolding tcp_resolved post_or_hang post spawn
    tcp_resolved-Same room id host flag m (address a) s = ground arith
    tcp_resolved-Same room id host flag m resolve_failed s = ground arith
    tcp_resolved-Same room id host flag m no_addresses s = ground arith
    tcp_resolved-Same room id host flag m dns_panic s = ground arith

    udp_resolved-Same :
        (id socket : ℕ) (r : Resolved) (s : Conn Sock)
        → SameQueue s (udp_resolved config net id socket r s)
    unfolding udp_resolved udp_insert fresh_flag insert_stream spawn send_close send
    udp_resolved-Same id socket (address a) s = ground arith
    udp_resolved-Same id socket resolve_failed s = refl
    udp_resolved-Same id socket no_addresses s = refl
    udp_resolved-Same id socket dns_panic s = refl

    handle_tcp_connect-Same :
        (at : Circumstances) (id : ℕ) (c : ConnectPayload) (m : Bool) (s : Conn Sock)
        → SameQueue s (handle_tcp_connect config net at id c m s)
    unfolding handle_tcp_connect fresh_flag insert_stream send_close send resolve
    handle_tcp_connect-Same at id c m s =
        let f : ℕ × Conn Sock = fresh_flag s in
        let i : Bool × Conn Sock = insert_stream id (connecting (new_connecting f.0)) f.1 in
        let r : Resolved × Conn Sock = resolve config net at c i.1 in
        elim (Bool-cases i.0) [
          | inl e ↦ rw e (tcp_resolved-Same at.room id c.hostname f.0 m r.0 r.1)
          | inr e ↦ rw e refl
        ]

    handle_udp_connect-Same :
        (at : Circumstances) (id : ℕ) (c : ConnectPayload) (s : Conn Sock)
        → SameQueue s (handle_udp_connect config net at id c s)
    unfolding handle_udp_connect send_close send resolve
    handle_udp_connect-Same at id c s =
        let r : Resolved × Conn Sock = resolve config net at c s in
        elim (Option-cases at.bound) [
          | inl e ↦ rw e refl
          | inr (socket, e) ↦ rw e (udp_resolved-Same id socket r.0 r.1)
        ]

    dispatch-Same :
        (t : StreamType) (at : Circumstances) (id : ℕ) (c : ConnectPayload) (s : Conn Sock)
        → SameQueue s (dispatch config net t at id c s)
    unfolding dispatch
    dispatch-Same tcp at id c s = handle_tcp_connect-Same at id c (leb 1 (len s.table)) s
    dispatch-Same udp at id c s = handle_udp_connect-Same at id c s

    handle_connect-Same :
        (at : Circumstances) (id : ℕ) (c : ConnectPayload) (s : Conn Sock)
        → SameQueue s (handle_connect config net at id c s)
    unfolding handle_connect send_close send
    handle_connect-Same at id c s = ground (arith, dispatch-Same c.stream_type at id c s)

    connect_packet-Same :
        (at : Circumstances) (id : ℕ) (c : Option ConnectPayload) (s : Conn Sock)
        → SameQueue s (connect_packet w config net at id c s)
    unfolding connect_packet send_close send
    connect_packet-Same at id none s = refl
    connect_packet-Same at id (some c) s = handle_connect-Same at id c s

    data_for-Same :
        (id : ℕ) (b : Bytes) (o : Option (ProxyStream Sock)) (s : Conn Sock)
        → SameQueue s (close_dead w config (data_for w config id b o s))
    unfolding data_for close_dead send_close send after_write put_stream remove
    data_for-Same id b none s = refl
    data_for-Same id b (some (udp_stream u)) s = refl
    data_for-Same id b (some (connecting c)) s = ground arith
    data_for-Same id b (some (tcp_stream t)) s = ground arith

    data_packet-Same :
        (id : ℕ) (b : Bytes) (s : Conn Sock) → SameQueue s (data_packet w config id b s)
    unfolding data_packet handle_data_zerocopy
    data_packet-Same id b s = data_for-Same id b (get id s.table) s

    -- No frame of the client touches the data channel, and one that ends the connection leaves no
    -- CONTINUE due.
    pub handle_inbound-Same :
        (at : Circumstances) (now : ℕ) (r : WispFrameResult) (s : Conn Sock)
        → SameQueue s (handle_inbound w config net at now r s).1
          × ((handle_inbound w config net at now r s).0 ≡ true
              → SameDue s (handle_inbound w config net at now r s).1)
    unfolding handle_inbound send remove
    handle_inbound-Same at now (wisp t id b) s = ground (
      arith,
      data_packet-Same id b s,
      connect_packet-Same at id (parse_connect_payload b) (count_stream w config net s),
    )
    handle_inbound-Same at now (control op_close b) s = (refl, (λ e. refl))
    handle_inbound-Same at now (control op_ping b) s = (refl, (λ e. refl))
    handle_inbound-Same at now (control op_pong b) s = (refl, (λ e. refl))
    handle_inbound-Same at now (control op_other b) s = (refl, (λ e. refl))
    handle_inbound-Same at now ws_error s = (refl, (λ e. refl))
