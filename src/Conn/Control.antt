-- ===== src/Conn/Control.antt =====
-- `handle_control_event` of src/server/connection.rs.
use shrimpwisp.Prelude.{ℕ}
use shrimpwisp.Prelude.{true, ◌&&◌, not, Option, none, some}
use shrimpwisp.Prelude.{List, [], ◌∷◌, ◌++◌}
use shrimpwisp.Prelude.{leb, if◌then◌else◌}
use shrimpwisp.Prelude.{is_empty}
use shrimpwisp.Proxy.{ProxyStream, tcp_stream, udp_stream, connecting, with_pending}
use shrimpwisp.Proxy.Table.{len}
use shrimpwisp.Backend.{BackendWriter, Flushed, flush_early}
use shrimpwisp.Config.{ServerConfig}
use shrimpwisp.Conn.{
  ControlEvent, stream_closed, tcp_connected, tcp_connect_failed, binary, tcp_reader, Conn, send,
  send_close, spawn, fresh_flag, insert_stream, remove,
}
use shrimpwisp.Protocol.{network_error, network_error}
use shrimpwisp.Protocol.Build.{build_continue_frame}

module _ (w : BackendWriter) (config : ServerConfig) where
  open w use {Sock}

  -- The end of the arm `TcpConnected`: the stream, its CONTINUE and its reader.
  unfoldable pub open_stream : ℕ → ℕ → Flushed w → Conn Sock → Conn Sock
  unfolding with_pending insert_stream send spawn
  open_stream stream_id flag f s =
      let inserted : Conn Sock =
        (insert_stream stream_id (tcp_stream (with_pending f.writer f.pending flag)) s).1 in
      let queued : Conn Sock = record inserted {
        streams_with_pending =
            if is_empty f.pending
            then inserted.streams_with_pending
            else inserted.streams_with_pending ++ (stream_id ∷ []);
      } in
      spawn (tcp_reader stream_id flag)
        (send (binary (build_continue_frame stream_id config.buffer_size)) queued)

  -- The arm `TcpConnected`, with what `remove` returned.
  unfoldable pub connected : ℕ → Sock → ℕ → Option (ProxyStream Sock) → Conn Sock → Conn Sock
  unfolding open_stream insert_stream send_close
  connected stream_id writer flag (some (connecting c)) s =
      let f : Flushed w = flush_early w c.early_data writer in
      if f.dead then send_close stream_id network_error s else open_stream stream_id flag f s
  connected stream_id writer flag (some (tcp_stream t)) s =
      (insert_stream stream_id (tcp_stream t) s).1
  connected stream_id writer flag (some (udp_stream u)) s =
      (insert_stream stream_id (udp_stream u) s).1
  connected stream_id writer flag none s = s

  unfoldable pub handle_control_event : ControlEvent Sock → Conn Sock → Conn Sock
  unfolding remove send_close fresh_flag connected
  handle_control_event (stream_closed stream_id reason) s =
      send_close stream_id reason (remove stream_id s).1
  handle_control_event (tcp_connected stream_id writer cancel) s =
      let f : ℕ × Conn Sock = fresh_flag s in
      let r : Option (ProxyStream Sock) × Conn Sock = remove stream_id f.1 in
      connected stream_id writer f.0 r.0 r.1
  handle_control_event (tcp_connect_failed stream_id reason) s =
      send_close stream_id reason (remove stream_id s).1

  -- The socket buffers of the client grow once there are two streams.
  unfoldable pub upgrade_buffers : Conn Sock → Conn Sock
  upgrade_buffers s =
      if not s.buffers_upgraded && leb 2 (len s.table)
      then record s { buffers_upgraded = true }
      else s

  unfoldable pub control_event : ControlEvent Sock → Conn Sock → Conn Sock
  unfolding handle_control_event upgrade_buffers
  control_event event s = upgrade_buffers (handle_control_event event s)

  unfoldable pub handle_events : List (ControlEvent Sock) → Conn Sock → Conn Sock
  unfolding handle_control_event
  handle_events [] s = s
  handle_events (event ∷ more) s = handle_events more (handle_control_event event s)

  unfoldable pub control_events : List (ControlEvent Sock) → Conn Sock → Conn Sock
  unfolding control_event
  control_events [] s = s
  control_events (event ∷ more) s = control_events more (control_event event s)

  -- Phase 1: all that is in the channel.
  unfoldable pub drain_control : Conn Sock → Conn Sock
  unfolding control_events
  drain_control s = control_events s.events (record s { events = [] })

  -- `handle_control_branch!`: the first event, then all others.
  unfoldable pub control_branch : Conn Sock → Conn Sock
  unfolding control_event handle_events
  control_branch s = elim s.events [
    | [] ↦ s
    | event ∷ more ↦ handle_events more (control_event event (record s { events = [] }))
  ]
