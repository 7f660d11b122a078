-- ===== src/Conn/Steps.antt =====
-- The select loop of `handle_connection` in src/server/connection.rs with its tasks, as steps in any
-- order: an order that the loop takes is one of them.
use shrimpwisp.Prelude.{ℕ}
use shrimpwisp.Prelude.{◌≡◌}
use shrimpwisp.Prelude.{Bool, true, Option, some, List}
use shrimpwisp.Prelude.{get_elem?}
use shrimpwisp.Prelude.Bytes.{Bytes}
use shrimpwisp.Net.{SocketAddr, IpAddr}
use shrimpwisp.Backend.{BackendWriter}
use shrimpwisp.Config.{ServerConfig}
use shrimpwisp.Conn.{tcp_connect, tcp_reader, udp_reader, Conn, new_conn}
use shrimpwisp.Dns.{DnsCache, dns_resolve}
use shrimpwisp.Dns.Laws.{IsCache}
use shrimpwisp.Conn.Connect.{Resolver, Circumstances}
use shrimpwisp.Conn.Inbound.{WispFrameResult, handle_inbound, process_inbound_frame}
use shrimpwisp.Conn.Control.{drain_control, control_branch}
use shrimpwisp.Conn.Phases.{drain_writes, flush_continues, take_batch, ping_due}
use shrimpwisp.Conn.Reader.{
  ConnectResult, ReadResult, connect_ends, tcp_reader_wakes, udp_reader_wakes, send_completes,
}

module _ (w : BackendWriter) (config : ServerConfig) (net : Resolver) where
  open w use {Sock}

  -- A step of the connection itself, of one of its tasks, or of another connection of the worker,
  -- which shares the DNS cache.
  pub data Step : Conn Sock → Conn Sock → Type 0 where
    deferred :
        (at : Circumstances) (b : Bytes) (s : Conn Sock)
        → Step s (process_inbound_frame w config net at b s).1
    inbound :
        (at : Circumstances) (now : ℕ) (r : WispFrameResult) (s : Conn Sock)
        → Step s (handle_inbound w config net at now r s).1
    continues : (s : Conn Sock) → Step s (flush_continues w s)
    phase0 : (s : Conn Sock) → Step s (drain_writes w s)
    phase1 : (s : Conn Sock) → Step s (drain_control w config s)
    phase2 : (s : Conn Sock) → Step s (take_batch w s).1
    control_recv : (s : Conn Sock) → Step s (control_branch w config s)
    ping_sleep : (now : ℕ) (s : Conn Sock) → Step s (ping_due w config now s).1
    connect_task :
        (i id : ℕ) (addr : SocketAddr) (flag : ℕ) (m : Bool) (r : ConnectResult Sock)
        (s : Conn Sock)
        → get_elem? s.tasks i ≡ some (tcp_connect id addr flag m)
        → Step s (connect_ends id flag r s)
    tcp_task :
        (i id flag : ℕ) (r : ReadResult) (s : Conn Sock)
        → get_elem? s.tasks i ≡ some (tcp_reader id flag)
        → Step s (tcp_reader_wakes id flag r s).1
    udp_task :
        (i id socket flag : ℕ) (r : ReadResult) (s : Conn Sock)
        → get_elem? s.tasks i ≡ some (udp_reader id socket flag)
        → Step s (udp_reader_wakes id flag r s).1
    send_completed : (i : ℕ) (s : Conn Sock) → Step s (send_completes i s)
    client_gone : (s : Conn Sock) → Step s (record s { writer_closed = true })
    other_connection :
        (lookup_host : Bytes → ℕ → Option (List IpAddr)) (before after : ℕ) (host : Bytes)
        (port : ℕ) (s : Conn Sock)
        → Step s (record s {
          dns = (dns_resolve net.parse_ip lookup_host before after host port s.dns).1;
        })

  -- The states that a connection reaches, from step 5 of `handle_connection`.
  pub data Reach : Conn Sock → Type 0 where
    opened : (dns : DnsCache) (now : ℕ) → IsCache dns.cache → Reach (new_conn config dns now)
    stepped : (s s' : Conn Sock) → Reach s → Step s s' → Reach s'
