-- ===== src/Conn/Reader.antt =====
-- The tasks of a connection in src/server/connection.rs: the connect task of `handle_tcp_connect`,
-- `backend_tcp_reader` and the reader of `handle_udp_connect`, from one await to the next.
use shrimpwisp.Prelude.{ℕ, suc, none, some, get_elem?, take, drop}
use shrimpwisp.Prelude.{Bool, true, false, not}
use shrimpwisp.Prelude.{[], ◌∷◌, ◌++◌}
use shrimpwisp.Prelude.{if◌then◌else◌}
use shrimpwisp.Prelude.Bytes.{Bytes}
use shrimpwisp.Proxy.{is_cancelled}
use shrimpwisp.Conn.{stream_closed, tcp_connected, tcp_connect_failed, Conn, post}
use shrimpwisp.Protocol.{
  voluntary, network_error, unreachable, timed_out, refused, voluntary, network_error, unreachable,
  timed_out, refused,
}
use shrimpwisp.Protocol.Build.{build_data_header}
use shrimpwisp.Wire.{ws_binary_frame}
use shrimpwisp.Wire.Preframe.{preframe}

-- The result of `timeout(10 s, TcpStream::connect(..))`.
pub data ConnectResult (S : Type 0) : Type 0 where
  established : S → ConnectResult S
  connection_refused connect_error elapsed : ConnectResult S

-- The result of a read: `Ok(0)`, `Ok(n)` or an error. `got` has the fresh buffer, too.
pub data ReadResult : Type 0 where
  end_of_file read_error : ReadResult
  got : (buf bytes : Bytes) → ReadResult

module _ {S : Type 0} where
  -- The start of the connect task: it connects unless the stream was closed before.
  unfoldable pub connect_starts : ℕ → Conn S → Bool
  unfolding is_cancelled
  connect_starts flag s = not (is_cancelled flag s.flags)

  unfoldable pub connect_ends : ℕ → ℕ → ConnectResult S → Conn S → Conn S
  unfolding post
  connect_ends stream_id flag (established writer) s = post (tcp_connected stream_id writer flag) s
  connect_ends stream_id flag connection_refused s = post (tcp_connect_failed stream_id refused) s
  connect_ends stream_id flag connect_error s = post (tcp_connect_failed stream_id unreachable) s
  connect_ends stream_id flag elapsed s = post (tcp_connect_failed stream_id timed_out) s

  -- The `send` of a reader starts: from here on the reader waits for room in the data channel.
  abbrev pub park : Bytes → Conn S → Conn S
  park frame s = record s { parked = s.parked ++ (frame ∷ []) }

  -- The `send` whose frame is at `i` completes; the flag of the stream is not asked again.
  unfoldable pub send_completes : ℕ → Conn S → Conn S
  send_completes i s = elim (get_elem? s.parked i) [
    | none ↦ s
    | some frame ↦ record s {
      parked = take i s.parked ++ drop (suc i) s.parked;
      write_queue = s.write_queue ++ (frame ∷ []);
    }
  ]

  -- A read of `backend_tcp_reader` that returns; the Boolean is true where the loop goes on.
  unfoldable pub tcp_reader_wakes : ℕ → ℕ → ReadResult → Conn S → Bool × Conn S
  unfolding is_cancelled post preframe
  tcp_reader_wakes stream_id flag end_of_file s =
      if is_cancelled flag s.flags
      then (false, s)
      else (false, post (stream_closed stream_id voluntary) s)
  tcp_reader_wakes stream_id flag (got buf bytes) s =
      if is_cancelled flag s.flags
      then (false, s)
      else (true, park (preframe stream_id buf bytes) s)
  tcp_reader_wakes stream_id flag read_error s =
      if is_cancelled flag s.flags
      then (false, s)
      else (false, post (stream_closed stream_id network_error) s)

  -- A `recv_from` of the UDP reader that returns; an empty datagram is sent on.
  unfoldable pub udp_reader_wakes : ℕ → ℕ → ReadResult → Conn S → Bool × Conn S
  unfolding is_cancelled post
  udp_reader_wakes stream_id flag (got buf bytes) s =
      if is_cancelled flag s.flags
      then (false, s)
      else (true, park (ws_binary_frame (build_data_header stream_id ++ bytes)) s)
  udp_reader_wakes stream_id flag end_of_file s =
      if is_cancelled flag s.flags
      then (false, s)
      else (true, park (ws_binary_frame (build_data_header stream_id)) s)
  udp_reader_wakes stream_id flag read_error s =
      if is_cancelled flag s.flags
      then (false, s)
      else (false, post (stream_closed stream_id network_error) s)
