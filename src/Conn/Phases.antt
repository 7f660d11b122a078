-- ===== src/Conn/Phases.antt =====
-- Phase 0 and Phase 2 of `drain_phases!`, `flush_continues_direct` and the timers of the select loop
-- of src/server/connection.rs, as they change the connection. Phase 1 is Conn/Control.antt.
use shrimpwisp.Prelude.{ℕ, ◌-◌}
use shrimpwisp.Prelude.{Bool, true, false, ◌&&◌, Option, some}
use shrimpwisp.Prelude.{List, [], ◌∷◌, ◌++◌}
use shrimpwisp.Prelude.{ltb, leb, if◌then◌else◌}
use shrimpwisp.Prelude.{is_empty}
use shrimpwisp.Prelude.Bytes.{Bytes}
use shrimpwisp.Proxy.{TcpProxyStream, ProxyStream, tcp_stream}
use shrimpwisp.Proxy.Table.{get}
use shrimpwisp.Backend.{BackendWriter, drain_pending}
use shrimpwisp.Config.{ServerConfig}
use shrimpwisp.Conn.{ToClient, binary, ping, Conn, send, send_close, put_stream, remove}
use shrimpwisp.Protocol.{network_error, network_error}
use shrimpwisp.Protocol.Build.{build_continue_frame}

module _ (w : BackendWriter) where
  open w use {Sock}

  -- What the closure of `retain` decides on a stream.
  pub data Verdict : Type 0 where
    keep dismiss dead : Verdict

  unfoldable pub drain_stream : ℕ → TcpProxyStream Sock → Conn Sock → Verdict × Conn Sock
  unfolding put_stream
  drain_stream sid tcp s =
      let r : TcpProxyStream Sock × Bool = drain_pending w tcp in
      let idle : Conn Sock =
        put_stream sid (tcp_stream (record r.0 { queued_for_drain = false })) s in
      if is_empty tcp.pending
      then (dismiss, put_stream sid (tcp_stream (record tcp { queued_for_drain = false })) s)
      else if r.1
      then (dead, idle)
      else if is_empty r.0.pending
      then (dismiss, idle)
      else (keep, put_stream sid (tcp_stream r.0) s)

  unfoldable pub drain_one : ℕ → Option (ProxyStream Sock) → Conn Sock → Verdict × Conn Sock
  unfolding drain_stream
  drain_one sid (some (tcp_stream tcp)) s = drain_stream sid tcp s
  drain_one sid _ s = (dismiss, s)

  pub record Swept : Type 0 where
    pub kept : List ℕ
    pub dead_streams : List ℕ
    pub after : Conn Sock

  abbrev pub add_verdict : ℕ → Verdict → Swept → Swept
  add_verdict sid keep r = record r { kept = sid ∷ r.kept }
  add_verdict sid dismiss r = r
  add_verdict sid dead r = record r { dead_streams = sid ∷ r.dead_streams }

  -- `streams_with_pending.retain`.
  unfoldable pub retain_pending : List ℕ → Conn Sock → Swept
  unfolding drain_one
  retain_pending [] s = record { kept = []; dead_streams = []; after = s }
  retain_pending (sid ∷ sids) s =
      let r : Verdict × Conn Sock = drain_one sid (get sid s.table) s in
      add_verdict sid r.0 (retain_pending sids r.1)

  unfoldable pub close_all : List ℕ → Conn Sock → Conn Sock
  unfolding remove send_close
  close_all [] s = s
  close_all (sid ∷ sids) s = close_all sids (send_close sid network_error (remove sid s).1)

  -- Phase 0; where nothing is queued the code skips it, which is the same.
  unfoldable pub drain_writes : Conn Sock → Conn Sock
  unfolding retain_pending close_all
  drain_writes s =
      let r : Swept = retain_pending s.streams_with_pending s in
      close_all r.dead_streams (record r.after { streams_with_pending = r.kept })

  abbrev pub continue_messages : List (ℕ × ℕ) → List ToClient
  continue_messages [] = []
  continue_messages ((stream_id, remaining) ∷ pending) =
      binary (build_continue_frame stream_id remaining) ∷ continue_messages pending

  -- `flush_continues_direct`, where the write succeeds.
  unfoldable pub flush_continues : Conn Sock → Conn Sock
  flush_continues s = record s {
    to_client = s.to_client ++ continue_messages s.pending_continues;
    pending_continues = [];
  }

  -- Phase 2, and `handle_write_batch!`: the whole channel becomes one batch.
  unfoldable pub take_batch : Conn Sock → List Bytes × Conn Sock
  take_batch s = (s.write_queue, record s { write_queue = [] })

  -- The branch of `ping_sleep`; the Boolean is true where the loop ends.
  unfoldable pub ping_due : ServerConfig → ℕ → Conn Sock → Bool × Conn Sock
  unfolding send
  ping_due config now s =
      if leb config.ws_ping_interval_secs 0
      then (false, s)
      else if s.awaiting_pong && ltb config.ws_pong_timeout_secs (now - s.last_pong)
      then (true, s)
      else (false, record (send ping s) { awaiting_pong = true })
