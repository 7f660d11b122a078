-- ===== src/Conn/Loop/Moves.antt =====
-- The moves of a connection of src/server/connection.rs around its select loop: the loop goes on, a
-- frame comes in, one of its tasks or another connection of the worker acts.
use shrimpwisp.Prelude.{ℕ, ◌≤◌, max}
use shrimpwisp.Prelude.{◌≡◌}
use shrimpwisp.Prelude.{Bool, true, Option, some, List}
use shrimpwisp.Prelude.{[], ◌∷◌, ◌++◌}
use shrimpwisp.Prelude.{length, get_elem?, if◌then◌else◌}
use shrimpwisp.Prelude.Bytes.{Bytes}
use shrimpwisp.Config.{ServerConfig}
use shrimpwisp.Conn.{tcp_connect, tcp_reader, udp_reader, Conn}
use shrimpwisp.Net.{SocketAddr, IpAddr}
use shrimpwisp.Backend.{BackendWriter}
use shrimpwisp.Dns.{dns_resolve}
use shrimpwisp.Conn.Connect.{Resolver}
use shrimpwisp.Conn.Reader.{
  ConnectResult, ReadResult, connect_ends, tcp_reader_wakes, udp_reader_wakes, send_completes,
}
use shrimpwisp.Conn.Loop.{
  top, draining, selecting, Inbound, Loop, handle_frame, last_flush, count_frame, flush,
  drain_phases, to_select, select,
}

-- The capacities of the two channels.
abbrev pub write_capacity : ℕ
write_capacity = 4096

abbrev pub control_capacity : ℕ
control_capacity = 256

module _ (w : BackendWriter) (config : ServerConfig) (net : Resolver) where
  open w use {Sock}

  -- A send into one of the channels completes where the channel has room.
  abbrev pub Admitted : Conn Sock → Conn Sock → Type 0
  Admitted s s' =
      (length s'.write_queue ≤ max (length s.write_queue) write_capacity)
      × (length s'.events ≤ max (length s.events) control_capacity)

  -- What others do to the connection between two awaits of the loop.
  pub data Elsewhere : Conn Sock → Conn Sock → Type 0 where
    task_connects :
        (i id : ℕ) (addr : SocketAddr) (flag : ℕ) (m : Bool) (r : ConnectResult Sock)
        (s : Conn Sock)
        → get_elem? s.tasks i ≡ some (tcp_connect id addr flag m)
        → Admitted s (connect_ends id flag r s)
        → Elsewhere s (connect_ends id flag r s)
    task_reads_tcp :
        (i id flag : ℕ) (r : ReadResult) (s : Conn Sock)
        → get_elem? s.tasks i ≡ some (tcp_reader id flag)
        → Admitted s (tcp_reader_wakes id flag r s).1
        → Elsewhere s (tcp_reader_wakes id flag r s).1
    task_reads_udp :
        (i id socket flag : ℕ) (r : ReadResult) (s : Conn Sock)
        → get_elem? s.tasks i ≡ some (udp_reader id socket flag)
        → Admitted s (udp_reader_wakes id flag r s).1
        → Elsewhere s (udp_reader_wakes id flag r s).1
    send_completed :
        (i : ℕ) (s : Conn Sock) → Admitted s (send_completes i s) → Elsewhere s (send_completes i s)
    client_gone : (s : Conn Sock) → Elsewhere s (record s { writer_closed = true })
    shares_cache :
        (lookup_host : Bytes → ℕ → Option (List IpAddr)) (before after : ℕ) (host : Bytes)
        (port : ℕ) (s : Conn Sock)
        → Elsewhere s (record s {
          dns = (dns_resolve net.parse_ip lookup_host before after host port s.dns).1;
        })

  -- `runs` is a whole round up to `select!` in which no task acts; `takes`, `yields`, `flushes` and
  -- `drains` are its parts, between which they may.
  pub data Move (limit : ℕ) : Loop Sock → Loop Sock → Type 0 where
    takes :
        (i : Inbound) (more : List Inbound) (l : Loop Sock)
        → l.place ≡ top
        → l.buffered ≡ i ∷ more
        → Move limit l (
            if (handle_frame w config net i more l).0
            then last_flush w config net (handle_frame w config net i more l).1
            else count_frame w config net (handle_frame w config net i more l).1)
    yields :
        (l : Loop Sock)
        → l.place ≡ top
        → limit ≤ l.frames_since_yield
        → Move limit l (flush w config net (record l { frames_since_yield = 0; place = draining }))
    flushes :
        (l : Loop Sock)
        → l.place ≡ top
        → l.buffered ≡ []
        → Move limit l (flush w config net (record l { place = draining }))
    drains :
        (l : Loop Sock)
        → l.place ≡ draining
        → Move limit l (drain_phases w config net (record l { place = selecting }))
    runs : (l : Loop Sock) → l.place ≡ top → Move limit l (to_select w config net limit l)
    selects :
        (now : ℕ) (l : Loop Sock) → l.place ≡ selecting → Move limit l (select w config net now l)
    arrives :
        (i : Inbound) (l : Loop Sock)
        → Move limit l (record l { buffered = l.buffered ++ (i ∷ []) })
    elsewhere :
        (s : Conn Sock) (l : Loop Sock) → Elsewhere l.conn s → Move limit l (record l { conn = s })
