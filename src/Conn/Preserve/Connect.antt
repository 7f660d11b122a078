-- ===== src/Conn/Preserve/Connect.antt =====
-- The invariant and CONNECT: `handle_connect` of src/server/connection.rs.
use shrimpwisp.Prelude.{◌==◌}
use shrimpwisp.Prelude.{◌||◌}
use shrimpwisp.Prelude.{ℕ, ◌<◌}
use shrimpwisp.Prelude.{◌≡◌, refl, sym, ap, ◌∙◌, ◌≢◌, inl, inr}
use shrimpwisp.Prelude.{Bool, false, ◌&&◌, not}
use shrimpwisp.Prelude.{arith}
use shrimpwisp.Prelude.{leb, Bool-cases, Option-cases}
use shrimpwisp.Prelude.Bytes.{Bytes}
use shrimpwisp.Net.{SocketAddr}
use shrimpwisp.Proxy.{new_flag, ProxyStream, udp_stream, connecting, stream_flag, new_connecting}
use shrimpwisp.Proxy.Table.{contains}
use shrimpwisp.Proxy.Table.{len}
use shrimpwisp.Config.{is_hostname_blocked}
use shrimpwisp.Config.{ServerConfig, is_port_blocked}
use shrimpwisp.Prelude.{true, false}
use shrimpwisp.Protocol.{blocked, unreachable}
use shrimpwisp.Conn.{
  ControlEvent, tcp_connect_failed, tcp_connect, udp_reader, Conn, send, send_close, post, spawn,
  fresh_flag, insert_stream,
}
use shrimpwisp.Dns.{DnsCache, Resolved, address, resolve_failed, no_addresses, dns_panic}
use shrimpwisp.Protocol.{StreamType, ConnectPayload}
use shrimpwisp.Security.{is_ip_blocked}
use shrimpwisp.Conn.Invariant.{Permitted, Invariant}
use shrimpwisp.Conn.Changes.{
  spawn-Invariant, fresh_flag-Invariant, insert_stream-Invariant, insert_stream-Owns,
}
use shrimpwisp.Protocol.{tcp, udp}
use shrimpwisp.Security.Names.{is_raw_ip}
use shrimpwisp.Security.Names.{is_hostname_blocked_pre_resolution}
use shrimpwisp.Protocol.{stream_id_control}
use shrimpwisp.Dns.Laws.{IsCache, Sound, dns_resolve-Sound}
use shrimpwisp.Conn.Connect.{
  post_or_hang, Resolver, Circumstances, resolve, tcp_resolved, handle_tcp_connect, udp_insert,
  udp_resolved, handle_udp_connect, dispatch, handle_connect,
}

-- An answer has the port that was asked for.
abbrev pub PortIs : ℕ → Resolved → Type 0
PortIs port (address a) = a.port ≡ port
PortIs port resolve_failed = Unit
PortIs port no_addresses = Unit
PortIs port dns_panic = ⊥

pub Sound-parts :
    (port : ℕ) (r : Resolved × DnsCache) → Sound port r → IsCache r.1.cache × PortIs port r.0
Sound-parts port (address a, d) h = h
Sound-parts port (resolve_failed, d) h = (h, tt)
Sound-parts port (no_addresses, d) h = (h, tt)
Sound-parts port (dns_panic, d) h = absurd h

-- The port checks of `handle_connect`.
abbrev pub PortOk : ServerConfig → ℕ → Type 0
PortOk config port = (port ≢ 0) × (is_port_blocked port config ≡ false)

permitted :
    (config : ServerConfig) (port : ℕ) (a : SocketAddr)
    → PortOk config port
    → a.port ≡ port
    → is_ip_blocked a.ip config ≡ false
    → Permitted config a
permitted config port a ok e b =
    (b, (λ z. ok.0 (sym e ∙ z)), ap (λ p. is_port_blocked p config) e ∙ ok.1)

module _ {S : Type 0} (config : ServerConfig) (net : Resolver) where
  pub resolve-Invariant :
      (at : Circumstances) (c : ConnectPayload) (s : Conn S)
      → Invariant config s
      → Invariant config (resolve config net at c s).1 × PortIs c.port (resolve config net at c s).0
  unfolding resolve
  resolve-Invariant at c s v =
      let h = Sound-parts c.port _ (
        dns_resolve-Sound net.parse_ip at.lookup_host at.before at.after c.hostname c.port s.dns
          v.cache_ok) in
      (
        record {
          table_ok = v.table_ok;
          streams_ok = v.streams_ok;
          tasks_ok = v.tasks_ok;
          cache_ok = h.0;
          datagrams_ok = v.datagrams_ok;
        },
        h.1,
      )

  post_or_hang-Invariant :
      (room : Bool) (event : ControlEvent S) (s : Conn S)
      → Invariant config s
      → Invariant config (post_or_hang config net room event s)
  unfolding post_or_hang post
  post_or_hang-Invariant true event s v = v
  post_or_hang-Invariant false event s v = v

  tcp_resolved-Invariant :
      (room : Bool) (id : ℕ) (host : Bytes) (flag : ℕ) (m : Bool) (port : ℕ) (r : Resolved)
      (s : Conn S)
      → Invariant config s
      → flag < s.flags.next_flag
      → PortOk config port
      → PortIs port r
      → Invariant config (tcp_resolved config net room id host flag m r s)
  unfolding tcp_resolved spawn
  tcp_resolved-Invariant room id host flag m port (address a) s v lt ok p =
      elim (Bool-cases (is_ip_blocked a.ip config)) [
        | inl e ↦ rw e (post_or_hang-Invariant room (tcp_connect_failed id blocked) s v)
        | inr e ↦
            rw e
              (elim (Bool-cases
                (not config.allow_direct_ip && is_raw_ip net.parse_ipv4 net.parse_ipv6 host)) [
                  | inl d ↦ rw d (post_or_hang-Invariant room (tcp_connect_failed id blocked) s v)
                  | inr d ↦ rw d (
                      spawn-Invariant config (tcp_connect id a flag m) s v
                        (lt, permitted config port a ok p e))
                ])
      ]
  tcp_resolved-Invariant room id host flag m port resolve_failed s v lt ok p =
      post_or_hang-Invariant room (tcp_connect_failed id unreachable) s v
  tcp_resolved-Invariant room id host flag m port no_addresses s v lt ok p =
      post_or_hang-Invariant room (tcp_connect_failed id unreachable) s v
  tcp_resolved-Invariant room id host flag m port dns_panic s v lt ok p =
      post_or_hang-Invariant room (tcp_connect_failed id unreachable) s v

  handle_tcp_connect-Invariant :
      (at : Circumstances) (id : ℕ) (c : ConnectPayload) (m : Bool) (s : Conn S)
      → Invariant config s
      → PortOk config c.port
      → Invariant config (handle_tcp_connect config net at id c m s)
  unfolding handle_tcp_connect send_close send
  handle_tcp_connect-Invariant at id c m s v ok =
      let f : ℕ × Conn S = fresh_flag s in
      let vf : Invariant config f.1 = fresh_flag-Invariant config s v in
      let i : Bool × Conn S = insert_stream id (connecting (new_connecting f.0)) f.1 in
      let vi : Invariant config i.1 =
        unfold insert_stream in
        insert_stream-Invariant config id (connecting (new_connecting f.0)) s.streams_with_pending
          f.1 vf (λ j h. unfold fresh_flag in h)
          (unfold new_connecting fresh_flag new_flag in (omega arith, omega arith)) in
      let (vr, p) = resolve-Invariant at c i.1 vi in
      let lt : f.0 < (resolve config net at c i.1).1.flags.next_flag =
        unfold fresh_flag new_flag insert_stream resolve in omega arith in
      elim (Bool-cases i.0) [
        | inl t ↦ rw t (tcp_resolved-Invariant at.room id c.hostname f.0 m c.port _ _ vr lt ok p)
        | inr e ↦ rw e vi
      ]

  udp_insert-Invariant :
      (id socket : ℕ) (a : SocketAddr) (s : Conn S)
      → Invariant config s
      → Permitted config a
      → Invariant config (udp_insert config net id socket a s)
  unfolding udp_insert send_close send
  udp_insert-Invariant id socket a s v ok =
      let f : ℕ × Conn S = fresh_flag s in
      let new : ProxyStream S =
        udp_stream (record { socket = socket; dest_addr = a; cancel = f.0 }) in
      let i : Bool × Conn S = insert_stream id new f.1 in
      let vi : Invariant config i.1 =
        unfold insert_stream in
        insert_stream-Invariant config id new s.streams_with_pending f.1
          (fresh_flag-Invariant config s v) (λ j h. unfold fresh_flag in h)
          (unfold fresh_flag new_flag in (omega arith, ok)) in
      elim (Bool-cases i.0) [
        | inr e ↦ rw e vi
        | inl t ↦ rw t (
            spawn-Invariant config (udp_reader id socket f.0) i.1 vi (
              unfold fresh_flag new_flag insert_stream in omega arith,
              λ e. insert_stream-Owns config id f.0 new f.1 (unfold stream_flag in refl) t,
            ))
      ]

  udp_resolved-Invariant :
      (id socket port : ℕ) (r : Resolved) (s : Conn S)
      → Invariant config s
      → PortOk config port
      → PortIs port r
      → Invariant config (udp_resolved config net id socket r s)
  unfolding udp_resolved send_close send
  udp_resolved-Invariant id socket port (address a) s v ok p =
      elim (Bool-cases (is_ip_blocked a.ip config)) [
        | inl e ↦ rw e v
        | inr e ↦ rw e (udp_insert-Invariant id socket a s v (permitted config port a ok p e))
      ]
  udp_resolved-Invariant id socket port resolve_failed s v ok p = v
  udp_resolved-Invariant id socket port no_addresses s v ok p = v
  udp_resolved-Invariant id socket port dns_panic s v ok p = v

  handle_udp_connect-Invariant :
      (at : Circumstances) (id : ℕ) (c : ConnectPayload) (s : Conn S)
      → Invariant config s
      → PortOk config c.port
      → Invariant config (handle_udp_connect config net at id c s)
  unfolding handle_udp_connect send_close send
  handle_udp_connect-Invariant at id c s v ok = elim (Option-cases at.bound) [
    | inl e ↦ rw (e, handle_udp_connect) v
    | inr (socket, e) ↦
        let (vr, p) = resolve-Invariant at c s v in
        rw (e, handle_udp_connect) (udp_resolved-Invariant id socket c.port _ _ vr ok p)
  ]

  dispatch-Invariant :
      (ty : StreamType) (at : Circumstances) (id : ℕ) (c : ConnectPayload) (s : Conn S)
      → Invariant config s
      → PortOk config c.port
      → Invariant config (dispatch config net ty at id c s)
  unfolding dispatch
  dispatch-Invariant tcp at id c s v ok =
      handle_tcp_connect-Invariant at id c (leb 1 (len s.table)) s v ok
  dispatch-Invariant udp at id c s v ok = handle_udp_connect-Invariant at id c s v ok

  pub handle_connect-Invariant :
      (at : Circumstances) (id : ℕ) (c : ConnectPayload) (s : Conn S)
      → Invariant config s
      → Invariant config (handle_connect config net at id c s)
  unfolding handle_connect send_close send
  handle_connect-Invariant at id c s v =
      elim (Bool-cases (id == stream_id_control || contains id s.table)) [
        | inl e ↦ rw e v
        | inr e ↦ rw e (elim (Bool-cases (c.port == 0)) [
          | inl p ↦ rw p v
          | inr p ↦ rw p (elim (Bool-cases (is_hostname_blocked c.hostname config)) [
            | inl h ↦ rw h v
            | inr h ↦ rw h (elim (Bool-cases (is_port_blocked c.port config)) [
              | inl q ↦ rw q v
              | inr q ↦
                  rw q
                    (elim (Bool-cases (
                      is_hostname_blocked_pre_resolution net.parse_ipv4 net.parse_ipv6 c.hostname
                        config)) [
                          | inl n ↦ rw n v
                          | inr n ↦
                              rw n (
                                dispatch-Invariant c.stream_type at id c s v (λ z. ground arith, q))
                        ])
            ])
          ])
        ])
      ]
