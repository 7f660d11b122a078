-- ===== src/Conn/Preserve/Inbound.antt =====
-- The invariant and the frames of the client: `handle_inbound!` and `process_inbound_frame` of
-- src/server/connection.rs.
use shrimpwisp.Prelude.{ℕ}
use shrimpwisp.Prelude.{inl, inr}
use shrimpwisp.Prelude.{Option, none, some}
use shrimpwisp.Prelude.{[], ◌∷◌}
use shrimpwisp.Prelude.{◌==◌, Bool-cases}
use shrimpwisp.Prelude.Bytes.{Bytes, IsU32, u32_from_le}
use shrimpwisp.Backend.{BackendWriter}
use shrimpwisp.Config.{ServerConfig}
use shrimpwisp.Conn.{Conn, send, send_close}
use shrimpwisp.Protocol.{
  ConnectPayload, WispFrame, connect, data_frame, continue, close, info, packet_connect,
  packet_data, packet_close, stream_id_control,
}
use shrimpwisp.Protocol.Frame.{parse_connect_payload, parse_wisp_frame}
use shrimpwisp.Conn.Invariant.{Invariant}
use shrimpwisp.Conn.Changes.{remove-Invariant}
use shrimpwisp.Conn.Connect.{Resolver, Circumstances}
use shrimpwisp.Conn.Inbound.{
  op_close, op_ping, op_pong, op_other, WispFrameResult, wisp, control, ws_error, connect_packet,
  handle_inbound, count_stream, deferred_connect, too_long, deferred_packet, process_inbound_frame,
}
use shrimpwisp.Conn.Preserve.Data.{data_packet-Invariant}
use shrimpwisp.Conn.Preserve.Connect.{handle_connect-Invariant}

module _ (w : BackendWriter) (config : ServerConfig) (net : Resolver)
    (u32 : IsU32 config.buffer_size) where
  open w use {Sock}

  connect_packet-Invariant :
      (at : Circumstances) (id : ℕ) (o : Option ConnectPayload) (s : Conn Sock)
      → Invariant config s
      → Invariant config (connect_packet w config net at id o s)
  unfolding connect_packet send_close send
  connect_packet-Invariant at id (some c) s v = handle_connect-Invariant config net at id c s v
  connect_packet-Invariant at id none s v = v

  pub handle_inbound-Invariant :
      (at : Circumstances) (now : ℕ) (r : WispFrameResult) (s : Conn Sock)
      → Invariant config s
      → Invariant config (handle_inbound w config net at now r s).1
  unfolding handle_inbound send
  handle_inbound-Invariant at now (control op_close b) s v = v
  handle_inbound-Invariant at now (control op_ping b) s v = v
  handle_inbound-Invariant at now (control op_pong b) s v = v
  handle_inbound-Invariant at now (control op_other b) s v = v
  handle_inbound-Invariant at now ws_error s v = v
  handle_inbound-Invariant at now (wisp ty id b) s v = elim (Bool-cases (ty == packet_data)) [
    | inl e ↦ rw e (data_packet-Invariant w config u32 id b s v)
    | inr e ↦ rw e (elim (Bool-cases (ty == packet_connect)) [
      | inl f ↦
          rw f (
            connect_packet-Invariant at id (parse_connect_payload b) (count_stream w config net s)
              v)
      | inr f ↦ rw f (elim (Bool-cases (ty == packet_close)) [
        | inr g ↦ rw g v
        | inl g ↦ rw g (elim (Bool-cases (id == stream_id_control)) [
          | inl h ↦ rw h v
          | inr h ↦ rw h (remove-Invariant config id s v)
        ])
      ])
    ])
  ]

  deferred_connect-Invariant :
      (at : Circumstances) (id : ℕ) (o : Option WispFrame) (s : Conn Sock)
      → Invariant config s
      → Invariant config (deferred_connect w config net at id o s)
  unfolding deferred_connect send_close send
  deferred_connect-Invariant at id (some (connect k c)) s v =
      handle_connect-Invariant config net at k c s v
  deferred_connect-Invariant at id (some (data_frame k b)) s v = v
  deferred_connect-Invariant at id (some (continue k b)) s v = v
  deferred_connect-Invariant at id (some (close k b)) s v = v
  deferred_connect-Invariant at id (some (info k m n es)) s v = v
  deferred_connect-Invariant at id none s v = v

  deferred_packet-Invariant :
      (at : Circumstances) (ty id : ℕ) (b p : Bytes) (s : Conn Sock)
      → Invariant config s
      → Invariant config (deferred_packet w config net at ty id b p s).1
  unfolding deferred_packet
  deferred_packet-Invariant at ty id b p s v = elim (Bool-cases (ty == packet_data)) [
    | inl e ↦ rw e (data_packet-Invariant w config u32 id p s v)
    | inr e ↦ rw e (elim (Bool-cases (ty == packet_connect)) [
      | inl f ↦ rw f (deferred_connect-Invariant at id (parse_wisp_frame b) s v)
      | inr f ↦ rw f (elim (Bool-cases (ty == packet_close)) [
        | inr g ↦ rw g v
        | inl g ↦ rw g (elim (Bool-cases (id == stream_id_control)) [
          | inl h ↦ rw h v
          | inr h ↦ rw h (remove-Invariant config id s v)
        ])
      ])
    ])
  ]

  pub process_inbound_frame-Invariant :
      (at : Circumstances) (b : Bytes) (s : Conn Sock)
      → Invariant config s
      → Invariant config (process_inbound_frame w config net at b s).1
  unfolding process_inbound_frame
  process_inbound_frame-Invariant at (ty ∷ i0 ∷ i1 ∷ i2 ∷ i3 ∷ p) s v =
      let b : Bytes = ty ∷ i0 ∷ i1 ∷ i2 ∷ i3 ∷ p in
      elim (Bool-cases (too_long w config net b)) [
        | inl e ↦ rw e v
        | inr e ↦ rw e (deferred_packet-Invariant at ty (u32_from_le i0 i1 i2 i3) b p s v)
      ]
  process_inbound_frame-Invariant at [] s v = v
  process_inbound_frame-Invariant at (a ∷ []) s v = v
  process_inbound_frame-Invariant at (a ∷ b ∷ []) s v = v
  process_inbound_frame-Invariant at (a ∷ b ∷ c ∷ []) s v = v
  process_inbound_frame-Invariant at (a ∷ b ∷ c ∷ d ∷ []) s v = v
