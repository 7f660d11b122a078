-- ===== src/Conn/Delivery.antt =====
-- What DATA and the end of a connect do to one stream: `handle_data_zerocopy` and the arm
-- `TcpConnected` of src/server/connection.rs.
use shrimpwisp.Prelude.{either_way}
use shrimpwisp.Prelude.{ℕ, ◌+◌, ◌%◌, ◌<◌}
use shrimpwisp.Prelude.{◌≡◌, refl, ap, ◌∙◌, ◌⊎◌, inl, inr}
use shrimpwisp.Prelude.{Bool, true, false, Option, none, some, is_some}
use shrimpwisp.Prelude.{[], ◌∷◌, ◌++◌, arith}
use shrimpwisp.Prelude.{leb, ◌==◌, if◌then◌else◌, Bool-cases}
use shrimpwisp.Prelude.{leb→le}
use shrimpwisp.Prelude.{concat}
use shrimpwisp.Prelude.Bytes.{Bytes, IsU32}
use shrimpwisp.Proxy.{
  new_flag, cancel_flag, is_cancelled, TcpProxyStream, ConnectingStream, ProxyStream, tcp_stream,
  connecting, stream_flag, with_pending, record_packet, reset_counter,
}
use shrimpwisp.Proxy.Table.{StreamTable, get, put, insert, take_out}
use shrimpwisp.Backend.{BackendWriter, IsBackend, tcp_try_write, Flushed, flush_early}
use shrimpwisp.Config.{ServerConfig, continue_threshold}
use shrimpwisp.Conn.{
  tcp_connected, binary, tcp_reader, Conn, send, send_close, spawn, fresh_flag, put_stream,
  insert_stream, cancel_stream, remove,
}
use shrimpwisp.Protocol.{network_error, network_error}
use shrimpwisp.Protocol.Build.{build_continue_frame, build_close_frame}
use shrimpwisp.Proxy.Laws.{IsTable, get-take_out, get-put, put-IsTable}
use shrimpwisp.Conn.Invariant.{Invariant}
use shrimpwisp.Conn.Changes.{insert_stream-get}
use shrimpwisp.Backend.Fields.{SameFields, tcp_try_write-SameFields}
use shrimpwisp.Backend.Drain.{total_bytes}
use shrimpwisp.Backend.Delivery.{tcp_try_write-Keeps, flush_early_total}
use shrimpwisp.Conn.Data.{after_write, data_for, handle_data_zerocopy, close_dead, data_packet}
use shrimpwisp.Conn.Control.{open_stream, connected, handle_control_event}
use shrimpwisp.Conn.Preserve.Data.{ok_at, threshold_bounds}
use shrimpwisp.Conn.Preserve.Control.{remove-room}

module _ (w : BackendWriter) (law : IsBackend w) (config : ServerConfig) where
  open w use {Sock}

  put_stream-get :
      (id : ℕ) (a b : ProxyStream Sock) (t : StreamTable (ProxyStream Sock))
      → get id t ≡ some b
      → get id (put id a t) ≡ some a
  put_stream-get id a b t e = get-put id id a b t e ∙ here id (some a) (get id t)
    where
      here : (k : ℕ) (x y : Option (ProxyStream Sock)) → (if k == k then x else y) ≡ x
      here k x y = ground arith

  -- The stream and the CONTINUEs after a packet that was counted.
  abbrev pub Counted :
      ℕ → TcpProxyStream Sock → TcpProxyStream Sock → Conn Sock → Conn Sock → Type 0
  Counted id old new s s' =
      ((new.packets_since_continue ≡ old.packets_since_continue + 1)
        × (new.packets_since_continue < continue_threshold config)
        × (s'.pending_continues ≡ s.pending_continues))
      ⊎ ((new.packets_since_continue ≡ 0)
          × (old.packets_since_continue + 1 ≡ continue_threshold config)
          × (s'.pending_continues ≡ s.pending_continues ++ ((id, config.buffer_size) ∷ [])))

  -- DATA on a TCP stream of a connection that satisfies the invariant, where the backend socket
  -- behaves as documented, the buffer size fits 32 bits and the write finds the backend alive:
  -- the stream stays; what its backend has and what is pending are the bytes of before, then the
  -- new ones; nothing is sent to the client at once; and either the count of packets went up by
  -- one and is below the threshold, or it reached the threshold, went back to 0, and a CONTINUE
  -- with all credits is due.
  pub data_packet_alive :
      (id : ℕ) (b : Bytes) (t : TcpProxyStream Sock) (s : Conn Sock)
      → IsU32 config.buffer_size
      → Invariant config s
      → get id s.table ≡ some (tcp_stream t)
      → (tcp_try_write w b t).1 ≡ false
      → (new : TcpProxyStream Sock) × (get id (data_packet w config id b s).table
          ≡ some (tcp_stream new))
        × (total_bytes w new ≡ total_bytes w t ++ b)
        × Counted id t new s (data_packet w config id b s)
        × ((data_packet w config id b s).to_client ≡ s.to_client)
  unfolding data_packet handle_data_zerocopy data_for close_dead after_write record_packet
      reset_counter put_stream
  data_packet_alive id b t s u32 v e alive =
      let r : TcpProxyStream Sock × Bool = tcp_try_write w b t in
      let same : SameFields w t r.0 = tcp_try_write-SameFields w b t in
      let bytes : total_bytes w r.0 ≡ total_bytes w t ++ b = tcp_try_write-Keeps w law b t alive in
      let n = (r.0.packets_since_continue + 1) % 4294967296 in
      let bound : t.packets_since_continue < continue_threshold config =
        (ok_at w config id (tcp_stream t) s v e).3 in
      let th = threshold_bounds config u32 in
      rw e (
        rw alive (elim (Bool-cases (leb (continue_threshold config) n)) [
          | inl full ↦ rw full (
            _,
            put_stream-get id _ (tcp_stream t) s.table e,
            bytes,
            inr (refl, omega (arith, leb→le _ _ full, same.same_packets), refl),
            refl,
          )
          | inr more ↦ rw more (
            _,
            put_stream-get id _ (tcp_stream t) s.table e,
            bytes,
            inl (omega (arith, same.same_packets), ground arith, refl),
            refl,
          )
        ]))

  -- DATA on a TCP stream of a consistent table whose write finds the backend dead: the stream is
  -- removed, its flag is raised, and the client gets one CLOSE with NetworkError for its ID.
  pub data_packet_dead :
      (id : ℕ) (b : Bytes) (t : TcpProxyStream Sock) (s : Conn Sock)
      → IsTable s.table
      → get id s.table ≡ some (tcp_stream t)
      → (tcp_try_write w b t).1 ≡ true
      → (get id (data_packet w config id b s).table ≡ none)
        × (is_cancelled t.cancel (data_packet w config id b s).flags ≡ true)
        × ((data_packet w config id b s).to_client
            ≡ s.to_client ++ (binary (build_close_frame id network_error) ∷ []))
  unfolding data_packet handle_data_zerocopy data_for close_dead remove put_stream send_close send
  data_packet_dead id b t s v e dead =
      let r : TcpProxyStream Sock × Bool = tcp_try_write w b t in
      let put_ok = put-IsTable id (tcp_stream r.0) (tcp_stream t) s.table v e in
      let (taken, gone) = get-take_out id id (put id (tcp_stream r.0) s.table) put_ok in
      rw e (
        rw dead (
          gone ∙ here id none (get id (put id (tcp_stream r.0) s.table)),
          raised r.0 _ (tcp_try_write-SameFields w b t).same_cancel
              (taken ∙ put_stream-get id (tcp_stream r.0) (tcp_stream t) s.table e),
          refl,
        ))
    where
      here : (k : ℕ) (x y : Option (ProxyStream Sock)) → (if k == k then x else y) ≡ x
      here k x y = ground arith

      raised :
          (r : TcpProxyStream Sock) (o : Option (ProxyStream Sock))
          → r.cancel ≡ t.cancel
          → o ≡ some (tcp_stream r)
          → is_cancelled t.cancel (cancel_stream o s.flags) ≡ true
      raised r o same p = rw p (unfold is_cancelled cancel_flag stream_flag in ground arith)

  -- The stream is there with a flag that is down, its reader is spawned, the backend has the early
  -- data in order or it is pending, and the client gets CONTINUE with all credits.
  abbrev pub Opened : ℕ → Sock → ConnectingStream → Conn Sock → Conn Sock → Type 0
  Opened id writer c s s' =
      (new : TcpProxyStream Sock) × (get id s'.table ≡ some (tcp_stream new))
      × (total_bytes w new ≡ w.received writer ++ concat c.early_data)
      × (is_cancelled new.cancel s'.flags ≡ false)
      × (s'.tasks ≡ s.tasks ++ (tcp_reader id new.cancel ∷ []))
      × (s'.to_client ≡ s.to_client ++ (binary (build_continue_frame id config.buffer_size) ∷ []))

  -- The stream is gone, and the client gets CLOSE.
  abbrev pub Refused : ℕ → Conn Sock → Conn Sock → Type 0
  Refused id s s' =
      (get id s'.table ≡ none)
      × (s'.to_client ≡ s.to_client ++ (binary (build_close_frame id network_error) ∷ []))

  connected_lem :
      (id : ℕ) (writer : Sock) (flag : ℕ) (c : ConnectingStream) (s : Conn Sock)
      → get id s.table ≡ none
      → ((st : ProxyStream Sock) → (insert id st s.table).0 ≡ true)
      → is_cancelled flag s.flags ≡ false
      → ((flush_early w c.early_data writer).dead ≡ false
          → Opened id writer c s (connected w config id writer flag (some (connecting c)) s))
        × ((flush_early w c.early_data writer).dead ≡ true
            → Refused id s (connected w config id writer flag (some (connecting c)) s))
  unfolding connected open_stream send_close send spawn
  connected_lem id writer flag c s free room down =
      let f : Flushed w = flush_early w c.early_data writer in
      let new : TcpProxyStream Sock = with_pending f.writer f.pending flag in
      (
        (λ alive.
            rw (alive, connected)
              (
                new,
                insert_stream-get config id (tcp_stream new) s
                    (unfold insert_stream in room (tcp_stream new)),
                unfold with_pending in flush_early_total w law c.early_data writer alive,
                unfold with_pending insert_stream in down,
                unfold with_pending insert_stream in refl,
                unfold insert_stream in refl,
              )),
        (λ dead. rw (dead, connected) (free, refl)),
      )

  tcp_connected-cases :
      (id : ℕ) (writer : Sock) (cancel : ℕ) (c : ConnectingStream) (s : Conn Sock)
      → Invariant config s
      → get id s.table ≡ some (connecting c)
      → ((flush_early w c.early_data writer).dead ≡ false
          → Opened id writer c s (handle_control_event w config (tcp_connected id writer cancel) s))
        × ((flush_early w c.early_data writer).dead ≡ true
            → Refused id s (handle_control_event w config (tcp_connected id writer cancel) s))
  unfolding handle_control_event remove fresh_flag
  tcp_connected-cases id writer cancel c s v e =
      let f : ℕ × Conn Sock = fresh_flag s in
      let (taken, gone) = get-take_out id id s.table v.table_ok in
      let out : (take_out id s.table).0 ≡ some (connecting c) = taken ∙ e in
      let lt : c.cancel < s.flags.next_flag = (ok_at w config id (connecting c) s v e).0 in
      rw (out, handle_control_event)
        (connected_lem id writer f.0 c
          (record f.1 {
            table = (take_out id s.table).1;
            flags = cancel_stream (some (connecting c)) f.1.flags;
          })
          (gone ∙ here id (get id s.table))
          (λ st. unfold remove in remove-room w config id st s v (ap is_some out))
          (unfold is_cancelled cancel_flag stream_flag new_flag in ground arith))
    where
      here : (k : ℕ) (o : Option (ProxyStream Sock)) → (if k == k then none else o) ≡ none
      here k o = ground arith

  -- A backend that is connected for a stream that waits, in a connection that satisfies the
  -- invariant: if the backend lives through the early data, the stream is a TCP stream with a
  -- flag that is down, the backend has the early data in order or it is pending, one reader is
  -- spawned with that flag, and the client gets CONTINUE with all credits; if not, the stream is
  -- gone and the client gets CLOSE with NetworkError.
  pub tcp_connected_lem :
      (id : ℕ) (writer : Sock) (cancel : ℕ) (c : ConnectingStream) (s : Conn Sock)
      → Invariant config s
      → get id s.table ≡ some (connecting c)
      → (((flush_early w c.early_data writer).dead ≡ true)
          × Refused id s (handle_control_event w config (tcp_connected id writer cancel) s))
        ⊎ (((flush_early w c.early_data writer).dead ≡ false)
            × Opened id writer c s
                (handle_control_event w config (tcp_connected id writer cancel) s))
  tcp_connected_lem id writer cancel c s v e =
      let r = tcp_connected-cases id writer cancel c s v e in
      either_way (flush_early w c.early_data writer).dead (r.1, r.0)
