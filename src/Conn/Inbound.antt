-- ===== src/Conn/Inbound.antt =====
-- What comes in from the client: `handle_inbound!` and `process_inbound_frame` of
-- src/server/connection.rs.
use shrimpwisp.Prelude.{ℕ, ◌+◌, ◌%◌}
use shrimpwisp.Prelude.{Bool, true, false, ◌&&◌, Option, none, some}
use shrimpwisp.Prelude.{◌∷◌}
use shrimpwisp.Prelude.{ltb, ◌==◌, if◌then◌else◌}
use shrimpwisp.Prelude.{length}
use shrimpwisp.Prelude.Bytes.{Bytes, u32_from_le}
use shrimpwisp.Backend.{BackendWriter}
use shrimpwisp.Config.{ServerConfig}
use shrimpwisp.Conn.{ws_close, pong, Conn, send, send_close, remove}
use shrimpwisp.Protocol.{
  invalid_info, invalid_info, ConnectPayload, WispFrame, connect, packet_connect, packet_data,
  packet_close, stream_id_control,
}
use shrimpwisp.Protocol.Frame.{parse_connect_payload, parse_wisp_frame}
use shrimpwisp.Conn.Data.{data_packet}
use shrimpwisp.Conn.Connect.{Resolver, Circumstances, handle_connect}

-- The opcodes of a control frame, and what `try_read_wisp_frame` returns.
pub data OpCode : Type 0 where
  op_close op_ping op_pong op_other : OpCode

pub data WispFrameResult : Type 0 where
  wisp : (packet_type stream_id : ℕ) → Bytes → WispFrameResult
  control : OpCode → Bytes → WispFrameResult
  ws_error : WispFrameResult

module _ (w : BackendWriter) (config : ServerConfig) (net : Resolver) where
  open w use {Sock}

  unfoldable pub connect_packet : Circumstances → ℕ → Option ConnectPayload → Conn Sock → Conn Sock
  unfolding handle_connect send_close
  connect_packet at stream_id (some c) s = handle_connect config net at stream_id c s
  connect_packet at stream_id none s = send_close stream_id invalid_info s

  -- `streams_opened += 1`, with the wrap-around of `u32`.
  abbrev pub count_stream : Conn Sock → Conn Sock
  count_stream s = record s { streams_opened = (s.streams_opened + 1) % 4294967296 }

  -- The Boolean is true where the connection ends. `now` is the time.
  unfoldable pub handle_inbound : Circumstances → ℕ → WispFrameResult → Conn Sock → Bool × Conn Sock
  unfolding data_packet connect_packet send remove parse_connect_payload
  handle_inbound at now (wisp packet_type stream_id bytes) s =
      if packet_type == packet_data
      then (false, data_packet w config stream_id bytes s)
      else if packet_type == packet_connect
      then (false, connect_packet at stream_id (parse_connect_payload bytes) (count_stream s))
      else if packet_type == packet_close
      then if stream_id == stream_id_control
        then (true, send ws_close s)
        else (false, (remove stream_id s).1)
      else (false, s)
  handle_inbound at now (control op_close bytes) s = (true, send ws_close s)
  handle_inbound at now (control op_ping bytes) s = (false, send (pong bytes) s)
  handle_inbound at now (control op_pong bytes) s =
      (false, record s { awaiting_pong = false; last_pong = now })
  handle_inbound at now (control op_other bytes) s = (false, s)
  handle_inbound at now ws_error s = (true, s)

  unfoldable pub deferred_connect : Circumstances → ℕ → Option WispFrame → Conn Sock → Conn Sock
  unfolding handle_connect send_close
  deferred_connect at stream_id (some (connect id c)) s = handle_connect config net at id c s
  deferred_connect at stream_id _ s = send_close stream_id invalid_info s

  abbrev pub too_long : Bytes → Bool
  too_long bytes = ltb 0 config.max_frame_size && ltb config.max_frame_size (length bytes)

  -- The `match packet_type`: `bytes` is the whole frame, `payload` what follows the Wisp header.
  unfoldable pub deferred_packet :
      Circumstances → ℕ → ℕ → Bytes → Bytes → Conn Sock → Bool × Conn Sock
  unfolding data_packet deferred_connect remove parse_wisp_frame
  deferred_packet at packet_type stream_id bytes payload s =
      if packet_type == packet_data
      then (false, data_packet w config stream_id payload s)
      else if packet_type == packet_connect
      then (false, deferred_connect at stream_id (parse_wisp_frame bytes) s)
      else if packet_type == packet_close
      then if stream_id == stream_id_control then (true, s) else (false, (remove stream_id s).1)
      else (false, s)

  -- The frame that the handshake put off.
  unfoldable pub process_inbound_frame : Circumstances → Bytes → Conn Sock → Bool × Conn Sock
  unfolding deferred_packet
  process_inbound_frame at (packet_type ∷ i0 ∷ i1 ∷ i2 ∷ i3 ∷ payload) s =
      let bytes : Bytes = packet_type ∷ i0 ∷ i1 ∷ i2 ∷ i3 ∷ payload in
      if too_long bytes
      then (false, s)
      else deferred_packet at packet_type (u32_from_le i0 i1 i2 i3) bytes payload s
  process_inbound_frame at _ s = (false, s)
