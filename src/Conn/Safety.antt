-- ===== src/Conn/Safety.antt =====
-- What holds of a connection of src/server/connection.rs in every state that it reaches.
use shrimpwisp.Prelude.{ℕ, ◌-◌, ◌≤◌}
use shrimpwisp.Prelude.{◌≡◌, sym, subst, ◌⊎◌, inl, inr}
use shrimpwisp.Prelude.{Bool, true, false, ◌&&◌, none, some}
use shrimpwisp.Prelude.{[], arith}
use shrimpwisp.Prelude.{ltb, leb, Bool-cases}
use shrimpwisp.Prelude.{is_empty, get_elem?}
use shrimpwisp.Prelude.{All-get}
use shrimpwisp.Prelude.Bytes.{Bytes, IsU32}
use shrimpwisp.Net.{SocketAddr}
use shrimpwisp.Proxy.{is_cancelled, TcpProxyStream, ProxyStream, tcp_stream}
use shrimpwisp.Proxy.Table.{sparse_get, direct_get, new_table, get, len}
use shrimpwisp.Backend.{BackendWriter}
use shrimpwisp.Config.{ServerConfig}
use shrimpwisp.Conn.{tcp_connect, tcp_reader, udp_reader, Conn, new_conn, send, post}
use shrimpwisp.Dns.{DnsCache}
use shrimpwisp.Proxy.Laws.{new_table-IsTable}
use shrimpwisp.Conn.Invariant.{Permitted, mem, StreamOk, Owns, TaskOk, Invariant}
use shrimpwisp.Dns.Laws.{IsCache, dns_resolve-Sound}
use shrimpwisp.Conn.Connect.{Resolver}
use shrimpwisp.Conn.Phases.{flush_continues, take_batch, ping_due}
use shrimpwisp.Prelude.{Option-cases}
use shrimpwisp.Conn.Steps.{send_completed, client_gone}
use shrimpwisp.Conn.Reader.{send_completes}
use shrimpwisp.Conn.Reader.{
  ConnectResult, established, connection_refused, connect_error, elapsed, ReadResult, got,
  end_of_file, read_error, connect_ends, tcp_reader_wakes, udp_reader_wakes,
}
use shrimpwisp.Conn.Steps.{
  Step, deferred, inbound, continues, phase0, phase1, phase2, control_recv, ping_sleep,
  connect_task, tcp_task, udp_task, other_connection, Reach, opened, stepped,
}
use shrimpwisp.Conn.Preserve.Connect.{Sound-parts}
use shrimpwisp.Conn.Preserve.Data.{ok_at}
use shrimpwisp.Conn.Preserve.Control.{drain_control-Invariant, control_branch-Invariant}
use shrimpwisp.Conn.Preserve.Phases.{drain_writes-Invariant}
use shrimpwisp.Conn.Preserve.Inbound.{handle_inbound-Invariant, process_inbound_frame-Invariant}

module _ (w : BackendWriter) (config : ServerConfig) (net : Resolver) where
  open w use {Sock}

  ping_due-Invariant :
      (now : ℕ) (s : Conn Sock) → Invariant config s → Invariant config (ping_due w config now s).1
  unfolding ping_due send
  ping_due-Invariant now s v = elim (Bool-cases (leb config.ws_ping_interval_secs 0)) [
    | inl e ↦ rw e v
    | inr e ↦
        rw e
          (elim (Bool-cases
            (s.awaiting_pong && ltb config.ws_pong_timeout_secs (now - s.last_pong))) [
              | inl f ↦ rw f v
              | inr f ↦ rw f v
            ])
  ]

  connect_ends-Invariant :
      (id flag : ℕ) (r : ConnectResult Sock) (s : Conn Sock)
      → Invariant config s
      → Invariant config (connect_ends id flag r s)
  unfolding connect_ends post
  connect_ends-Invariant id flag (established x) s v = v
  connect_ends-Invariant id flag connection_refused s v = v
  connect_ends-Invariant id flag connect_error s v = v
  connect_ends-Invariant id flag elapsed s v = v

  tcp_reader_wakes-Invariant :
      (id flag : ℕ) (r : ReadResult) (s : Conn Sock)
      → Invariant config s
      → Invariant config (tcp_reader_wakes id flag r s).1
  unfolding tcp_reader_wakes post
  tcp_reader_wakes-Invariant id flag r s v = elim (Bool-cases (is_cancelled flag s.flags)) [
    | inl e ↦ by_result true e r
    | inr e ↦ by_result false e r
  ]
    where
      by_result :
          (b : Bool)
          → is_cancelled flag s.flags ≡ b
          → (r' : ReadResult) → Invariant config (tcp_reader_wakes id flag r' s).1
      by_result true e end_of_file = rw e v
      by_result true e read_error = rw e v
      by_result true e (got x y) = rw e v
      by_result false e end_of_file = rw e v
      by_result false e read_error = rw e v
      by_result false e (got x y) = rw e v

  udp_reader_wakes-Invariant :
      (id flag : ℕ) (r : ReadResult) (s : Conn Sock)
      → Invariant config s
      → Invariant config (udp_reader_wakes id flag r s).1
  unfolding udp_reader_wakes post
  udp_reader_wakes-Invariant id flag r s v = elim (Bool-cases (is_cancelled flag s.flags)) [
    | inl e ↦ by_result true e r
    | inr e ↦ by_result false e r
  ]
    where
      by_result :
          (b : Bool)
          → is_cancelled flag s.flags ≡ b
          → (r' : ReadResult) → Invariant config (udp_reader_wakes id flag r' s).1
      by_result true e end_of_file = rw e v
      by_result true e read_error = rw e v
      by_result true e (got x y) = rw e v
      by_result false e end_of_file = rw e v
      by_result false e read_error = rw e v
      by_result false e (got x y) = rw e v

  send_completes-Invariant :
      (i : ℕ) (s : Conn Sock) → Invariant config s → Invariant config (send_completes i s)
  unfolding send_completes
  send_completes-Invariant i s v = elim (Option-cases (get_elem? s.parked i)) [
    | inl e ↦ rw (e, send_completes) v
    | inr (frame, e) ↦ rw (e, send_completes) v
  ]

  new_conn-Invariant :
      (dns : DnsCache) (now : ℕ)
      → IsCache dns.cache
      → Invariant config (new_conn {S = Sock} config dns now)
  unfolding new_conn
  new_conn-Invariant dns now c = record {
    table_ok = new_table-IsTable config.max_streams;
    streams_ok = λ id. subst (StreamOk {S = Sock} config [] 0 id) (sym (empty id)) tt;
    tasks_ok = tt;
    cache_ok = c;
    datagrams_ok = tt;
  }
    where
      empty : (id : ℕ) → get id (new_table {A = ProxyStream Sock} config.max_streams) ≡ none
      empty id = unfold get new_table direct_get sparse_get in ground arith

  module _ (u32 : IsU32 config.buffer_size) where
    -- Where the buffer size fits 32 bits: every step of a connection (a frame of the client,
    -- Phase 0 to 2, a control event, a timer), of one of its tasks, a parked `send` that
    -- completes among them, or of another connection on the DNS cache, and the loss of the
    -- client, preserves the invariant. That is: the stream table is consistent; pending bytes
    -- have the stream queued and listed for Phase 0; the count of packets is below the threshold;
    -- early data has at most 128 chunks; UDP streams, connect tasks and sent datagrams have
    -- permitted addresses; a reader whose flag is down owns its stream; and no entry of the DNS
    -- cache is empty.
    pub Step-Invariant :
        (s s' : Conn Sock) → Step w config net s s' → Invariant config s → Invariant config s'
    Step-Invariant _ _ (deferred at b s) v =
        process_inbound_frame-Invariant w config net u32 at b s v
    Step-Invariant _ _ (inbound at now r s) v =
        handle_inbound-Invariant w config net u32 at now r s v
    Step-Invariant _ _ (continues s) v = unfold flush_continues in v
    Step-Invariant _ _ (phase0 s) v = drain_writes-Invariant w config s v
    Step-Invariant _ _ (phase1 s) v = drain_control-Invariant w config u32 s v
    Step-Invariant _ _ (phase2 s) v = unfold take_batch in v
    Step-Invariant _ _ (control_recv s) v = control_branch-Invariant w config u32 s v
    Step-Invariant _ _ (ping_sleep now s) v = ping_due-Invariant now s v
    Step-Invariant _ _ (connect_task i id addr flag m r s e) v =
        connect_ends-Invariant id flag r s v
    Step-Invariant _ _ (tcp_task i id flag r s e) v = tcp_reader_wakes-Invariant id flag r s v
    Step-Invariant _ _ (udp_task i id k flag r s e) v = udp_reader_wakes-Invariant id flag r s v
    Step-Invariant _ _ (send_completed i s) v = send_completes-Invariant i s v
    Step-Invariant _ _ (client_gone s) v = v
    Step-Invariant _ _ (other_connection lookup_host before after host port s) v = record {
      table_ok = v.table_ok;
      streams_ok = v.streams_ok;
      tasks_ok = v.tasks_ok;
      cache_ok =
          (Sound-parts port _
            (dns_resolve-Sound net.parse_ip lookup_host before after host port s.dns v.cache_ok)).0;
      datagrams_ok = v.datagrams_ok;
    }

    -- Every state that a connection reaches satisfies the invariant.
    pub Reach-Invariant : (s : Conn Sock) → Reach w config net s → Invariant config s
    Reach-Invariant _ (opened dns now c) = new_conn-Invariant dns now c
    Reach-Invariant _ (stepped s s' r st) = Step-Invariant s s' st (Reach-Invariant s r)

    -- Where the buffer size fits 32 bits: in every state that a connection reaches, a connect
    -- task that was spawned goes to an address that `is_ip_blocked` passes and to a port that is
    -- not 0 and not filtered, and so did every datagram that was sent.
    pub Reach-Permitted :
        (s : Conn Sock)
        → Reach w config net s
        → (i id : ℕ) (addr : SocketAddr) (flag : ℕ) (m : Bool) (b : Bytes)
        → (get_elem? s.tasks i ≡ some (tcp_connect id addr flag m))
          ⊎ (get_elem? s.datagrams i ≡ some (addr, b))
        → Permitted config addr
    Reach-Permitted s r i id addr flag m b (inl e) =
        (All-get (TaskOk config s.table s.flags) s.tasks i (tcp_connect id addr flag m)
          (Reach-Invariant s r).tasks_ok e).1
    Reach-Permitted s r i id addr flag m b (inr e) =
        All-get (λ d. Permitted config d.0) s.datagrams i (addr, b)
          (Reach-Invariant s r).datagrams_ok e

    -- Where the buffer size fits 32 bits: in every state that a connection reaches, a read of a
    -- TCP or UDP reader task that passes the check of its cancel flag, so that the task goes on
    -- to `send` its frame, finds at that moment a stream under its ID that has the task's own
    -- flag. So a read that returns after the stream was removed is not sent on, even if the ID is
    -- in use again. A `send` that waits for room in the data channel has passed the check before,
    -- and does not check again.
    pub Reach-reader :
        (s : Conn Sock)
        → Reach w config net s
        → (i id flag socket : ℕ) (buf bytes : Bytes)
        → ((get_elem? s.tasks i ≡ some (tcp_reader id flag))
            × ((tcp_reader_wakes id flag (got buf bytes) s).0 ≡ true))
          ⊎ ((get_elem? s.tasks i ≡ some (udp_reader id socket flag))
              × ((udp_reader_wakes id flag (got buf bytes) s).0 ≡ true))
        → Owns config id flag (get id s.table)
    Reach-reader s r i id flag socket buf bytes (inl (e, t)) =
        (All-get (TaskOk config s.table s.flags) s.tasks i (tcp_reader id flag)
            (Reach-Invariant s r).tasks_ok e).1
          (unfold tcp_reader_wakes is_cancelled in ground arith)
    Reach-reader s r i id flag socket buf bytes (inr (e, t)) =
        (All-get (TaskOk config s.table s.flags) s.tasks i (udp_reader id socket flag)
            (Reach-Invariant s r).tasks_ok e).1
          (unfold udp_reader_wakes is_cancelled in ground arith)

    -- Where the buffer size fits 32 bits: in every state that a connection reaches, there are no
    -- more streams than `max_streams` (0 allows any number), and a TCP stream with bytes pending
    -- is in `streams_with_pending`, so that Phase 0 looks at it.
    pub Reach-pending :
        (s : Conn Sock)
        → Reach w config net s
        → ((s.table.max_streams ≡ 0) ⊎ (len s.table ≤ s.table.max_streams))
          × ((id : ℕ) (t : TcpProxyStream Sock)
              → get id s.table ≡ some (tcp_stream t)
              → is_empty t.pending ≡ false
              → mem id s.streams_with_pending ≡ true)
    Reach-pending s r =
        let v = Reach-Invariant s r in
        (
          unfold len in v.table_ok.room,
          λ id t e p.
              let ok : StreamOk config s.streams_with_pending s.flags.next_flag id
                  (some (tcp_stream t)) =
                ok_at w config id (tcp_stream t) s v e in
              ok.2 (ok.1 p),
        )
