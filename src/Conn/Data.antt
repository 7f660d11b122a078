-- ===== src/Conn/Data.antt =====
-- DATA of the client: `handle_data_zerocopy` of src/server/connection.rs.
use shrimpwisp.Prelude.{ℕ}
use shrimpwisp.Prelude.{Bool, true, ◌&&◌, not, Option, none, some}
use shrimpwisp.Prelude.{List, [], ◌∷◌, ◌++◌}
use shrimpwisp.Prelude.{ltb, if◌then◌else◌}
use shrimpwisp.Prelude.{length, is_empty}
use shrimpwisp.Prelude.Bytes.{Bytes}
use shrimpwisp.Proxy.{
  TcpProxyStream, ProxyStream, tcp_stream, udp_stream, connecting, record_packet, reset_counter,
  queue_early_data,
}
use shrimpwisp.Proxy.Table.{get}
use shrimpwisp.Backend.{BackendWriter, tcp_try_write}
use shrimpwisp.Config.{ServerConfig, continue_threshold}
use shrimpwisp.Conn.{Conn, send_close, put_stream, remove}
use shrimpwisp.Protocol.{network_error, network_error}

module _ (w : BackendWriter) (config : ServerConfig) where
  open w use {Sock}

  abbrev pub must_queue : TcpProxyStream Sock → Bool
  must_queue tcp = not (is_empty tcp.pending) && not tcp.queued_for_drain

  -- The two steps after a write that left the backend alive: queue the stream for Phase 0, and count
  -- the packet.
  unfoldable pub after_write : ℕ → TcpProxyStream Sock → Conn Sock → Conn Sock
  unfolding record_packet reset_counter put_stream
  after_write stream_id tcp s =
      let queue = must_queue tcp in
      let r : TcpProxyStream Sock × Bool =
        record_packet (continue_threshold config)
          (record tcp { queued_for_drain = if queue then true else tcp.queued_for_drain }) in
      let queued : List ℕ =
        if queue then s.streams_with_pending ++ (stream_id ∷ []) else s.streams_with_pending in
      if r.1
      then record (put_stream stream_id (tcp_stream (reset_counter r.0)) s) {
        streams_with_pending = queued;
        pending_continues = s.pending_continues ++ ((stream_id, config.buffer_size) ∷ []);
      }
      else record (put_stream stream_id (tcp_stream r.0) s) { streams_with_pending = queued }

  -- The `match stream`; the result is the ID of a stream whose backend is dead.
  unfoldable pub data_for : ℕ → Bytes → Option (ProxyStream Sock) → Conn Sock → Option ℕ × Conn Sock
  unfolding after_write put_stream remove queue_early_data
  data_for stream_id bytes none s = (none, s)
  data_for stream_id bytes (some (tcp_stream tcp)) s =
      let r : TcpProxyStream Sock × Bool = tcp_try_write w bytes tcp in
      if r.1
      then (some stream_id, (remove stream_id (put_stream stream_id (tcp_stream r.0) s)).1)
      else (none, after_write stream_id r.0 s)
  data_for stream_id bytes (some (udp_stream udp)) s =
      (none, record s { datagrams = s.datagrams ++ ((udp.dest_addr, bytes) ∷ []) })
  data_for stream_id bytes (some (connecting c)) s =
      if ltb (length c.early_data) 128
      then (none, put_stream stream_id (connecting (queue_early_data bytes c)) s)
      else (none, s)

  unfoldable pub handle_data_zerocopy : ℕ → Bytes → Conn Sock → Option ℕ × Conn Sock
  unfolding data_for
  handle_data_zerocopy stream_id bytes s = data_for stream_id bytes (get stream_id s.table) s

  -- The callers' part: a dead backend is answered with CLOSE.
  unfoldable pub close_dead : Option ℕ × Conn Sock → Conn Sock
  unfolding send_close
  close_dead (none, s) = s
  close_dead (some dead_id, s) = send_close dead_id network_error s

  unfoldable pub data_packet : ℕ → Bytes → Conn Sock → Conn Sock
  unfolding close_dead handle_data_zerocopy
  data_packet stream_id bytes s = close_dead (handle_data_zerocopy stream_id bytes s)
