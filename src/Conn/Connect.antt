-- ===== src/Conn/Connect.antt =====
-- CONNECT of the client: `handle_connect`, `handle_tcp_connect` and `handle_udp_connect` of
-- src/server/connection.rs.
use shrimpwisp.Prelude.{ℕ}
use shrimpwisp.Prelude.{Bool, true, ◌&&◌, ◌||◌, not, Option, none, some}
use shrimpwisp.Prelude.{List}
use shrimpwisp.Prelude.{leb, ◌==◌, if◌then◌else◌}
use shrimpwisp.Prelude.Bytes.{Bytes}
use shrimpwisp.Net.{SocketAddr, IpAddr, Ipv4Addr, Ipv6Addr}
use shrimpwisp.Proxy.{udp_stream, connecting, new_connecting}
use shrimpwisp.Proxy.Table.{contains, len}
use shrimpwisp.Config.{ServerConfig, is_hostname_blocked, is_port_blocked}
use shrimpwisp.Conn.{
  ControlEvent, tcp_connect_failed, tcp_connect, udp_reader, Conn, send_close, post, spawn,
  fresh_flag, insert_stream,
}
use shrimpwisp.Dns.{DnsCache, Resolved, address, dns_resolve}
use shrimpwisp.Protocol.{
  StreamType, tcp, udp, network_error, invalid_info, unreachable, blocked, throttled, network_error,
  invalid_info, unreachable, blocked, throttled, ConnectPayload, stream_id_control,
}
use shrimpwisp.Security.{is_ip_blocked}
use shrimpwisp.Security.Names.{is_raw_ip, is_hostname_blocked_pre_resolution}

-- Code outside the sources: the parsers of addresses.
pub record Resolver : Type 0 where
  pub parse_ip : Bytes → Option IpAddr
  pub parse_ipv4 : Bytes → Option Ipv4Addr
  pub parse_ipv6 : Bytes → Option Ipv6Addr

-- What a CONNECT meets: the resolver as it answers now, the time before and after the resolution, the
-- result of the UDP `bind`, and whether the control channel has room when the handler posts an event.
pub record Circumstances : Type 0 where
  pub lookup_host : Bytes → ℕ → Option (List IpAddr)
  pub before : ℕ
  pub after : ℕ
  pub bound : Option ℕ
  pub room : Bool

module _ {S : Type 0} (config : ServerConfig) (net : Resolver) where
  unfoldable pub resolve : Circumstances → ConnectPayload → Conn S → Resolved × Conn S
  unfolding dns_resolve
  resolve at c s =
      let r : Resolved × DnsCache =
        dns_resolve net.parse_ip at.lookup_host at.before at.after c.hostname c.port s.dns in
      (r.0, record s { dns = r.1 })

  -- `tx.send(..).await` on the task that alone receives from the control channel: without room it
  -- waits for ever.
  unfoldable pub post_or_hang : Bool → ControlEvent S → Conn S → Conn S
  unfolding post
  post_or_hang room event s = if room then post event s else record s { hung = true }

  -- `handle_tcp_connect`, after the resolution.
  unfoldable pub tcp_resolved : Bool → ℕ → Bytes → ℕ → Bool → Resolved → Conn S → Conn S
  unfolding post_or_hang spawn
  tcp_resolved room stream_id hostname flag multiplexed (address addr) s =
      if is_ip_blocked addr.ip config
      then post_or_hang room (tcp_connect_failed stream_id blocked) s
      else if not config.allow_direct_ip && is_raw_ip net.parse_ipv4 net.parse_ipv6 hostname
      then post_or_hang room (tcp_connect_failed stream_id blocked) s
      else spawn (tcp_connect stream_id addr flag multiplexed) s
  tcp_resolved room stream_id hostname flag multiplexed _ s =
      post_or_hang room (tcp_connect_failed stream_id unreachable) s

  unfoldable pub handle_tcp_connect : Circumstances → ℕ → ConnectPayload → Bool → Conn S → Conn S
  unfolding fresh_flag insert_stream new_connecting send_close resolve tcp_resolved
  handle_tcp_connect at stream_id c multiplexed s =
      let f : ℕ × Conn S = fresh_flag s in
      let i : Bool × Conn S = insert_stream stream_id (connecting (new_connecting f.0)) f.1 in
      let r : Resolved × Conn S = resolve at c i.1 in
      if i.0
      then tcp_resolved at.room stream_id c.hostname f.0 multiplexed r.0 r.1
      else send_close stream_id throttled i.1

  -- The last steps of `handle_udp_connect`, from the new flag on.
  unfoldable pub udp_insert : ℕ → ℕ → SocketAddr → Conn S → Conn S
  unfolding fresh_flag insert_stream spawn send_close
  udp_insert stream_id socket addr s =
      let f : ℕ × Conn S = fresh_flag s in
      let i : Bool × Conn S =
        insert_stream stream_id
          (udp_stream (record { socket = socket; dest_addr = addr; cancel = f.0 })) f.1 in
      if i.0
      then spawn (udp_reader stream_id socket f.0) i.1
      else send_close stream_id throttled i.1

  unfoldable pub udp_resolved : ℕ → ℕ → Resolved → Conn S → Conn S
  unfolding udp_insert send_close
  udp_resolved stream_id socket (address addr) s =
      if is_ip_blocked addr.ip config
      then send_close stream_id blocked s
      else udp_insert stream_id socket addr s
  udp_resolved stream_id socket _ s = send_close stream_id unreachable s

  unfoldable pub handle_udp_connect : Circumstances → ℕ → ConnectPayload → Conn S → Conn S
  unfolding resolve udp_resolved send_close
  handle_udp_connect at stream_id c s =
      let r : Resolved × Conn S = resolve at c s in
      elim at.bound [
        | none ↦ send_close stream_id network_error s
        | some socket ↦ udp_resolved stream_id socket r.0 r.1
      ]

  -- The `match connect.stream_type`.
  unfoldable pub dispatch : StreamType → Circumstances → ℕ → ConnectPayload → Conn S → Conn S
  unfolding handle_tcp_connect handle_udp_connect
  dispatch tcp at stream_id c s = handle_tcp_connect at stream_id c (leb 1 (len s.table)) s
  dispatch udp at stream_id c s = handle_udp_connect at stream_id c s

  unfoldable pub handle_connect : Circumstances → ℕ → ConnectPayload → Conn S → Conn S
  unfolding send_close dispatch
  handle_connect at stream_id c s =
      if stream_id == stream_id_control || contains stream_id s.table
      then send_close stream_id invalid_info s
      else if c.port == 0
      then send_close stream_id invalid_info s
      else if is_hostname_blocked c.hostname config
      then send_close stream_id blocked s
      else if is_port_blocked c.port config
      then send_close stream_id blocked s
      else if is_hostname_blocked_pre_resolution net.parse_ipv4 net.parse_ipv6 c.hostname config
      then send_close stream_id blocked s
      else dispatch c.stream_type at stream_id c s
