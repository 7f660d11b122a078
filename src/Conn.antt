-- ===== src/Conn.antt =====
-- The state of one Wisp connection, the variables of `handle_connection` in
-- src/server/connection.rs, with the tasks that it spawns and the two channels they report on.
pub mod Data
pub mod Connect
pub mod Control
pub mod Inbound
pub mod Phases
pub mod Reader
pub mod Invariant
pub mod Changes
pub mod Preserve
pub mod Steps
pub mod Loop
pub mod Safety
pub mod Delivery
pub mod Answers
pub mod Credit
use shrimpwisp.Prelude.{ℕ, ◌+◌}
use shrimpwisp.Prelude.{Bool, false, Option, none, some}
use shrimpwisp.Prelude.{List, [], ◌∷◌, ◌++◌}
use shrimpwisp.Prelude.Bytes.{Bytes}
use shrimpwisp.Net.{SocketAddr}
use shrimpwisp.Proxy.{Flags, new_flag, cancel_flag, ProxyStream, stream_flag}
use shrimpwisp.Proxy.Table.{StreamTable, new_table, put, insert, take_out}
use shrimpwisp.Config.{ServerConfig}
use shrimpwisp.Dns.{DnsCache}
use shrimpwisp.Protocol.{CloseReason}
use shrimpwisp.Protocol.Build.{build_close_frame}

pub data ControlEvent (S : Type 0) : Type 0 where
  stream_closed : (stream_id : ℕ) → CloseReason → ControlEvent S
  tcp_connected : (stream_id : ℕ) (writer : S) (cancel : ℕ) → ControlEvent S
  tcp_connect_failed : (stream_id : ℕ) → CloseReason → ControlEvent S

-- What goes to the client outside the data channel: a binary message, a close frame, a pong, a ping.
pub data ToClient : Type 0 where
  binary : Bytes → ToClient
  ws_close : ToClient
  pong : Bytes → ToClient
  ping : ToClient

-- A task of `spawn_local`, with the values that it captured. The read half of a TCP socket is the
-- task's alone.
pub data Task : Type 0 where
  tcp_connect : (stream_id : ℕ) → SocketAddr → (cancel : ℕ) (multiplexed : Bool) → Task
  tcp_reader : (stream_id cancel : ℕ) → Task
  udp_reader : (stream_id socket cancel : ℕ) → Task

-- `to_client` is what was handed to the client's write half, in order; an error of such a write is
-- ignored by the code. `events` and `write_queue` are the channels; `datagrams` what `try_send_to`
-- was called with; `dns` the cache, which all connections of a worker share.
pub record Conn (S : Type 0) : Type 0 where
  pub table : StreamTable (ProxyStream S)
  pub flags : Flags
  pub streams_with_pending : List ℕ
  pub pending_continues : List (ℕ × ℕ)
  pub to_client : List ToClient
  pub tasks : List Task
  pub events : List (ControlEvent S)
  pub write_queue : List Bytes
  pub datagrams : List (SocketAddr × Bytes)
  pub dns : DnsCache
  pub buffers_upgraded : Bool
  pub streams_opened : ℕ
  pub awaiting_pong : Bool
  pub last_pong : ℕ
  pub parked : List Bytes
  pub writer_closed : Bool
  pub hung : Bool

module _ {S : Type 0} where
  -- The state at step 5 of `handle_connection`.
  unfoldable pub new_conn : ServerConfig → DnsCache → ℕ → Conn S
  unfolding new_table
  new_conn config dns now = record {
    table = new_table config.max_streams;
    flags = record { next_flag = 0; raised = λ f. false };
    streams_with_pending = [];
    pending_continues = [];
    to_client = [];
    tasks = [];
    events = [];
    write_queue = [];
    datagrams = [];
    dns = dns;
    buffers_upgraded = false;
    streams_opened = 0;
    awaiting_pong = false;
    last_pong = now;
    parked = [];
    writer_closed = false;
    hung = false;
  }

  unfoldable pub send : ToClient → Conn S → Conn S
  send m s = record s { to_client = s.to_client ++ (m ∷ []) }

  -- `build_close_frame`, then `write_ws_binary_frame`.
  unfoldable pub send_close : ℕ → CloseReason → Conn S → Conn S
  unfolding send
  send_close stream_id reason s = send (binary (build_close_frame stream_id reason)) s

  unfoldable pub post : ControlEvent S → Conn S → Conn S
  post event s = record s { events = s.events ++ (event ∷ []) }

  unfoldable pub spawn : Task → Conn S → Conn S
  spawn task s = record s { tasks = s.tasks ++ (task ∷ []) }

  unfoldable pub fresh_flag : Conn S → ℕ × Conn S
  unfolding new_flag
  fresh_flag s = ((new_flag s.flags).0, record s { flags = (new_flag s.flags).1 })

  unfoldable pub put_stream : ℕ → ProxyStream S → Conn S → Conn S
  put_stream stream_id stream s = record s { table = put stream_id stream s.table }

  unfoldable pub insert_stream : ℕ → ProxyStream S → Conn S → Bool × Conn S
  insert_stream stream_id stream s =
      let r = insert stream_id stream s.table in (r.0, record s { table = r.1 })

  -- `StreamTable::remove`: the flag of the stream is raised.
  abbrev pub cancel_stream : Option (ProxyStream S) → Flags → Flags
  cancel_stream none fl = fl
  cancel_stream (some stream) fl = cancel_flag (stream_flag stream) fl

  unfoldable pub remove : ℕ → Conn S → Option (ProxyStream S) × Conn S
  remove stream_id s =
      let r = take_out stream_id s.table in
      (r.0, record s { table = r.1; flags = cancel_stream r.0 s.flags })
