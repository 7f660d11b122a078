-- ===== src/Conn/Answers.antt =====
-- What a CONNECT leads to: `handle_connect` of src/server/connection.rs.
use shrimpwisp.Prelude.{ℕ}
use shrimpwisp.Prelude.{◌≡◌, refl, ◌⊎◌, inl, inr}
use shrimpwisp.Prelude.{Bool, ◌&&◌, ◌||◌, not}
use shrimpwisp.Prelude.{[], ◌∷◌, ◌++◌}
use shrimpwisp.Prelude.{leb, ◌==◌, Bool-cases}
use shrimpwisp.Prelude.Bytes.{Bytes}
use shrimpwisp.Net.{SocketAddr}
use shrimpwisp.Proxy.{udp_stream, connecting, new_connecting}
use shrimpwisp.Proxy.Table.{contains, len}
use shrimpwisp.Config.{ServerConfig, is_hostname_blocked, is_port_blocked}
use shrimpwisp.Conn.{
  tcp_connect_failed, binary, Task, tcp_connect, udp_reader, Conn, send, send_close, post, spawn,
  fresh_flag, insert_stream,
}
use shrimpwisp.Prelude.{arith, Option, none, some, true, false, if◌then◌else◌, sym, ap, ◌∙◌}
use shrimpwisp.Proxy.{ProxyStream}
use shrimpwisp.Proxy.Table.{insert}
use shrimpwisp.Conn.Connect.{post_or_hang}
use shrimpwisp.Dns.{dns_resolve, Resolved, address, resolve_failed, no_addresses, dns_panic}
use shrimpwisp.Protocol.{
  StreamType, CloseReason, network_error, invalid_info, unreachable, blocked, throttled,
  network_error, invalid_info, unreachable, blocked, throttled, ConnectPayload, stream_id_control,
}
use shrimpwisp.Protocol.Build.{build_close_frame}
use shrimpwisp.Security.{is_ip_blocked}
use shrimpwisp.Protocol.{tcp, udp}
use shrimpwisp.Security.Names.{is_raw_ip, is_hostname_blocked_pre_resolution}
use shrimpwisp.Conn.Connect.{
  Resolver, Circumstances, resolve, tcp_resolved, handle_tcp_connect, udp_insert, udp_resolved,
  handle_udp_connect, dispatch, handle_connect,
}

abbrev pub is_address : Resolved → Bool
is_address (address a) = true
is_address resolve_failed = false
is_address no_addresses = false
is_address dns_panic = false

module _ (config : ServerConfig) (net : Resolver) where
  abbrev pub filtered : ConnectPayload → Bool
  filtered c =
      is_hostname_blocked c.hostname config
      || is_port_blocked c.port config
      || is_hostname_blocked_pre_resolution net.parse_ipv4 net.parse_ipv6 c.hostname config

  -- The two ways in which an address is refused, and the failures of the resolution.
  abbrev Explains : (CloseReason → Type 0) → Bytes → Resolved → Type 0
  Explains why host (address a) =
      (is_ip_blocked a.ip config
          || (not config.allow_direct_ip && is_raw_ip net.parse_ipv4 net.parse_ipv6 host))
        ≡ true
      → why blocked
  Explains why host resolve_failed = why unreachable
  Explains why host no_addresses = why unreachable
  Explains why host dns_panic = why unreachable

module _ {S : Type 0} (config : ServerConfig) (net : Resolver) where
  -- What the name resolves to.
  abbrev pub resolved : Circumstances → ConnectPayload → Conn S → Resolved
  resolved at c s =
      (dns_resolve net.parse_ip at.lookup_host at.before at.after c.hostname c.port s.dns).0

  -- Why a CONNECT is refused with this reason.
  abbrev pub Why : Circumstances → ℕ → ConnectPayload → Conn S → CloseReason → Type 0
  Why at id c s invalid_info =
      (id == stream_id_control || contains id s.table || c.port == 0) ≡ true
  Why at id c s blocked =
      (filtered config net c ≡ true)
      ⊎ ((a : SocketAddr) × (resolved at c s ≡ address a)
          × ((is_ip_blocked a.ip config
                || (not config.allow_direct_ip
                    && is_raw_ip net.parse_ipv4 net.parse_ipv6 c.hostname))
              ≡ true))
  Why at id c s unreachable = is_address (resolved at c s) ≡ false
  Why at id c s throttled = (stream : ProxyStream S) × ((insert id stream s.table).0 ≡ false)
  Why at id c s network_error = at.bound ≡ none
  Why at id c s _ = ⊥

  -- CLOSE was sent.
  abbrev pub Closed : (CloseReason → Type 0) → ℕ → Conn S → Conn S → Type 0
  Closed why id s s' =
      (reason : CloseReason) × why reason
      × (s'.to_client ≡ s.to_client ++ (binary (build_close_frame id reason) ∷ []))
      × (s'.events ≡ s.events)
      × (s'.tasks ≡ s.tasks)

  -- The event was posted that sends CLOSE, or its handler waits for ever.
  abbrev pub Failing : (CloseReason → Type 0) → Bool → ℕ → Conn S → Conn S → Type 0
  Failing why room id s s' =
      (reason : CloseReason) × why reason
      × (s'.to_client ≡ s.to_client)
      × (s'.events ≡ (if room then s.events ++ (tcp_connect_failed id reason ∷ []) else s.events))
      × (s'.hung ≡ (if room then s.hung else true))
      × (s'.tasks ≡ s.tasks)

  -- A task was spawned: one that connects to the address of the name, or the reader of a UDP stream.
  abbrev pub Started : Resolved → Option ℕ → ℕ → Conn S → Conn S → Type 0
  Started r bound id s s' =
      (task : Task) × (((addr : SocketAddr) × (flag : ℕ) × (m : Bool) × (r ≡ address addr)
          × (task ≡ tcp_connect id addr flag m))
        ⊎ ((socket flag : ℕ) × (bound ≡ some socket) × (task ≡ udp_reader id socket flag)))
      × (s'.to_client ≡ s.to_client)
      × (s'.events ≡ s.events)
      × (s'.tasks ≡ s.tasks ++ (task ∷ []))

  abbrev AnsweredBy :
      (CloseReason → Type 0) → Bool → Resolved → Option ℕ → ℕ → Conn S → Conn S → Type 0
  AnsweredBy why room r bound id s s' =
      Closed why id s s' ⊎ Failing why room id s s' ⊎ Started r bound id s s'

  abbrev pub Answered : Circumstances → ℕ → ConnectPayload → Conn S → Conn S → Type 0
  Answered at id c s s' = AnsweredBy (Why at id c s) at.room (resolved at c s) at.bound id s s'

  closed :
      (why : CloseReason → Type 0) (room : Bool) (r : Resolved) (bound : Option ℕ) (id : ℕ)
      (reason : CloseReason) (s : Conn S)
      → why reason
      → AnsweredBy why room r bound id s (send_close id reason s)
  unfolding send_close send
  closed why room r bound id reason s y = inl (reason, y, refl, refl, refl)

  failing :
      (why : CloseReason → Type 0) (room : Bool) (r : Resolved) (bound : Option ℕ) (id : ℕ)
      (reason : CloseReason) (s : Conn S)
      → why reason
      → AnsweredBy why room r bound id s
          (post_or_hang config net room (tcp_connect_failed id reason) s)
  unfolding post_or_hang post
  failing why true r bound id reason s y = inr (inl (reason, y, refl, refl, refl, refl))
  failing why false r bound id reason s y = inr (inl (reason, y, refl, refl, refl, refl))

  explains :
      (at : Circumstances) (id : ℕ) (c : ConnectPayload) (s : Conn S) (r : Resolved)
      → resolved at c s ≡ r
      → Explains config net (Why at id c s) c.hostname r
  explains at id c s (address a) e = λ h. inr (a, e, h)
  explains at id c s resolve_failed e = rw e refl
  explains at id c s no_addresses e = rw e refl
  explains at id c s dns_panic e = rw e refl

  tcp_resolved-Answered :
      (why : CloseReason → Type 0) (room : Bool) (bound : Option ℕ) (id : ℕ) (host : Bytes)
      (flag : ℕ) (m : Bool) (r : Resolved) (s : Conn S)
      → Explains config net why host r
      → AnsweredBy why room r bound id s (tcp_resolved config net room id host flag m r s)
  unfolding tcp_resolved spawn
  tcp_resolved-Answered why room bound id host flag m (address a) s y =
      elim (Bool-cases (is_ip_blocked a.ip config)) [
        | inl e ↦ rw e (failing why room (address a) bound id blocked s (y (rw e refl)))
        | inr e ↦
            rw e
              (elim (Bool-cases
                (not config.allow_direct_ip && is_raw_ip net.parse_ipv4 net.parse_ipv6 host)) [
                  | inl d ↦
                      rw d (failing why room (address a) bound id blocked s (y (rw (e, d) refl)))
                  | inr d ↦ rw d (
                      inr (
                        inr (
                          tcp_connect id a flag m,
                          inl (a, flag, m, refl, refl),
                          refl,
                          refl,
                          refl,
                        )))
                ])
      ]
  tcp_resolved-Answered why room bound id host flag m resolve_failed s y =
      failing why room resolve_failed bound id unreachable s y
  tcp_resolved-Answered why room bound id host flag m no_addresses s y =
      failing why room no_addresses bound id unreachable s y
  tcp_resolved-Answered why room bound id host flag m dns_panic s y =
      failing why room dns_panic bound id unreachable s y

  handle_tcp_connect-Answered :
      (at : Circumstances) (id : ℕ) (c : ConnectPayload) (m : Bool) (s : Conn S)
      → Answered at id c s (handle_tcp_connect config net at id c m s)
  unfolding handle_tcp_connect fresh_flag insert_stream resolve send_close send
  handle_tcp_connect-Answered at id c m s =
      let f : ℕ × Conn S = fresh_flag s in
      let i : Bool × Conn S = insert_stream id (connecting (new_connecting f.0)) f.1 in
      let r : Resolved × Conn S = resolve config net at c i.1 in
      elim (Bool-cases i.0) [
        | inl t ↦ rw t (
            tcp_resolved-Answered (Why at id c s) at.room at.bound id c.hostname f.0 m r.0 r.1
              (explains at id c s r.0 refl))
        | inr e ↦ rw e (inl (throttled, (connecting (new_connecting f.0), e), refl, refl, refl))
      ]

  udp_insert-Answered :
      (why : CloseReason → Type 0) (room : Bool) (r : Resolved) (id socket : ℕ) (a : SocketAddr)
      (s : Conn S)
      → ((stream : ProxyStream S) → (insert id stream s.table).0 ≡ false → why throttled)
      → AnsweredBy why room r (some socket) id s (udp_insert config net id socket a s)
  unfolding udp_insert fresh_flag insert_stream send_close send spawn
  udp_insert-Answered why room r id socket a s y =
      let f : ℕ × Conn S = fresh_flag s in
      let stream : ProxyStream S =
        udp_stream (record { socket = socket; dest_addr = a; cancel = f.0 }) in
      let i : Bool × Conn S = insert_stream id stream f.1 in
      elim (Bool-cases i.0) [
        | inl t ↦
            rw t (
              inr (inr (udp_reader id socket f.0, inr (socket, f.0, refl, refl), refl, refl, refl)))
        | inr e ↦ rw e (inl (throttled, y stream e, refl, refl, refl))
      ]

  udp_resolved-Answered :
      (at : Circumstances) (id socket : ℕ) (c : ConnectPayload) (s s0 : Conn S) (r : Resolved)
      → resolved at c s0 ≡ r
      → s.table ≡ s0.table
      → AnsweredBy
          (Why at id c s0)
          at.room
          r
          (some socket)
          id
          s
          (udp_resolved config net id socket r s)
  unfolding udp_resolved
  udp_resolved-Answered at id socket c s s0 (address a) q t =
      elim (Bool-cases (is_ip_blocked a.ip config)) [
        | inl e ↦ rw e (closed _ at.room _ _ id blocked s (inr (a, q, rw e refl)))
        | inr e ↦ rw e (
            udp_insert-Answered _ at.room _ id socket a s
              (λ stream f. (stream, ap (λ x. (insert id stream x).0) (sym t) ∙ f)))
      ]
  udp_resolved-Answered at id socket c s s0 resolve_failed q t =
      closed _ at.room _ _ id unreachable s (rw q refl)
  udp_resolved-Answered at id socket c s s0 no_addresses q t =
      closed _ at.room _ _ id unreachable s (rw q refl)
  udp_resolved-Answered at id socket c s s0 dns_panic q t =
      closed _ at.room _ _ id unreachable s (rw q refl)

  dispatch-Answered :
      (ty : StreamType) (at : Circumstances) (id : ℕ) (c : ConnectPayload) (s : Conn S)
      → Answered at id c s (dispatch config net ty at id c s)
  unfolding dispatch handle_udp_connect resolve
  dispatch-Answered tcp at id c s = handle_tcp_connect-Answered at id c (leb 1 (len s.table)) s
  dispatch-Answered udp at id c s = by_bound at.bound refl
    where
      by_bound :
          (o : Option ℕ)
          → at.bound ≡ o
          → AnsweredBy (Why at id c s) at.room (resolved at c s) o id s (elim o [
            | none ↦ send_close id network_error s
            | some socket ↦
                udp_resolved config net id socket
                  (resolve config net at c s).0
                  (resolve config net at c s).1
          ])
      by_bound none e = closed _ at.room _ _ id network_error s e
      by_bound (some socket) e =
          udp_resolved-Answered at id socket c (resolve config net at c s).1 s
            (resolve config net at c s).0 refl refl

  -- Every CONNECT leads to one of three things. A CLOSE for its ID is sent, with no event and no
  -- task; or the event is posted that will send it, and nothing is sent and no task spawned,
  -- except that without room in the control channel nothing is posted and the handler waits for
  -- ever; or one task is spawned for its ID and nothing is sent or posted: one that connects to
  -- the address that the name resolves to, or the reader of the UDP socket that was bound. A
  -- CLOSE, now or by the event, has its reason: for invalid_info, the ID is 0 or in use, or the
  -- port is 0; for blocked, a filter or the check of the name refuses it, or the address that the
  -- name resolves to is blocked, or direct addresses are not allowed and the name is one; for
  -- unreachable, the name has no address; for throttled, the table takes no stream; for
  -- network_error, no UDP socket was bound. It has no other reason.
  pub handle_connect-Answered :
      (at : Circumstances) (id : ℕ) (c : ConnectPayload) (s : Conn S)
      → Answered at id c s (handle_connect config net at id c s)
  unfolding handle_connect
  handle_connect-Answered at id c s =
      let refuse = closed (Why at id c s) at.room (resolved at c s) at.bound id in
      elim (Bool-cases (id == stream_id_control || contains id s.table)) [
        | inl e ↦ rw e (refuse invalid_info s (ground (arith, e)))
        | inr e ↦ rw e (elim (Bool-cases (c.port == 0)) [
          | inl p ↦ rw p (refuse invalid_info s (ground (arith, e, p)))
          | inr p ↦ rw p (elim (Bool-cases (is_hostname_blocked c.hostname config)) [
            | inl h ↦ rw h (refuse blocked s (inl (rw h refl)))
            | inr h ↦ rw h (elim (Bool-cases (is_port_blocked c.port config)) [
              | inl q ↦ rw q (refuse blocked s (inl (rw (h, q) refl)))
              | inr q ↦
                  rw q
                    (elim (Bool-cases (
                      is_hostname_blocked_pre_resolution net.parse_ipv4 net.parse_ipv6 c.hostname
                        config)) [
                          | inl n ↦ rw n (refuse blocked s (inl (rw (h, q, n) refl)))
                          | inr n ↦ rw n (dispatch-Answered c.stream_type at id c s)
                        ])
            ])
          ])
        ])
      ]
