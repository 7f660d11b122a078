-- ===== src/Conn/Preserve/Control.antt =====
-- The invariant and the control events: `handle_control_event` of src/server/connection.rs.
use shrimpwisp.Prelude.{ℕ, ◌+◌, ◌<◌}
use shrimpwisp.Prelude.{◌≡◌, refl, sym, ap, subst, ◌∙◌, inl, inr}
use shrimpwisp.Prelude.{true, ◌&&◌, not, Option, none, some, is_some}
use shrimpwisp.Prelude.{List, [], ◌∷◌, ◌++◌, arith}
use shrimpwisp.Prelude.{leb, ◌==◌, if◌then◌else◌, Bool-cases}
use shrimpwisp.Prelude.{is_empty}
use shrimpwisp.Prelude.Bytes.{IsU32}
use shrimpwisp.Proxy.{
  new_flag, ProxyStream, tcp_stream, udp_stream, connecting, stream_flag, with_pending,
}
use shrimpwisp.Proxy.Table.{get, len, insert, take_out}
use shrimpwisp.Backend.{BackendWriter, Flushed, flush_early}
use shrimpwisp.Config.{ServerConfig}
use shrimpwisp.Conn.{
  ControlEvent, stream_closed, tcp_connected, tcp_connect_failed, tcp_reader, Conn, send,
  send_close, spawn, fresh_flag, insert_stream, remove,
}
use shrimpwisp.Proxy.Laws.{take_out_max, HasRoom, get-insert, get-take_out, take_out-IsTable}
use shrimpwisp.Conn.Invariant.{StreamOk, Invariant}
use shrimpwisp.Conn.Changes.{
  cancel_next, insert_stream-Owns, spawn-Invariant, fresh_flag-Invariant, insert_stream-Invariant,
  remove-Invariant, insert_stream-Owns,
}
use shrimpwisp.Conn.Control.{
  open_stream, connected, handle_control_event, upgrade_buffers, control_event, handle_events,
  control_events, drain_control, control_branch,
}
use shrimpwisp.Conn.Preserve.Data.{mem-snoc, mem-snoc_last, threshold_bounds}

module _ (w : BackendWriter) (config : ServerConfig) where
  open w use {Sock}

  -- A stream that was removed leaves its ID free and room for one stream.
  pub remove-room :
      (id : ℕ) (st : ProxyStream Sock) (s : Conn Sock)
      → Invariant config s
      → is_some (remove id s).0 ≡ true
      → (insert id st (remove id s).1.table).0 ≡ true
  unfolding remove
  remove-room id st s v e =
      let out = (take_out id s.table).1 in
      let (taken, gone) = get-take_out id id s.table v.table_ok in
      let there : is_some (get id s.table) ≡ true = ap is_some (sym taken) ∙ e in
      let count = (take_out-IsTable id s.table v.table_ok).1 there in
      (get-insert id id st out).2 (gone ∙ here id (get id s.table)) (room count)
    where
      here : (k : ℕ) (o : Option (ProxyStream Sock)) → (if k == k then none else o) ≡ none
      here k o = ground arith

      room :
          (take_out id s.table).1.active_count + 1 ≡ s.table.active_count
          → HasRoom (take_out id s.table).1
      room count = ground (arith, v.table_ok.room, take_out_max id s.table)

  removed_ok :
      (id : ℕ) (s : Conn Sock)
      → Invariant config s
      → StreamOk config
          (remove id s).1.streams_with_pending
          (remove id s).1.flags.next_flag
          id
          (remove id s).0
  unfolding remove
  removed_ok id s v =
      let out : Option (ProxyStream Sock) = (take_out id s.table).0 in
      subst (λ n. StreamOk config s.streams_with_pending n id out)
        (sym (cancel_next config out s.flags))
        (subst (StreamOk config s.streams_with_pending s.flags.next_flag id)
          (sym (get-take_out id id s.table v.table_ok).0) (v.streams_ok id))

  module _ (u32 : IsU32 config.buffer_size) where
    open_stream-Invariant :
        (id flag : ℕ) (f : Flushed w) (s : Conn Sock)
        → Invariant config s
        → flag < s.flags.next_flag
        → ((st : ProxyStream Sock) → (insert id st s.table).0 ≡ true)
        → Invariant config (open_stream w config id flag f s)
    unfolding open_stream with_pending send spawn
    open_stream-Invariant id flag f s v lt room =
        let new : ProxyStream Sock = tcp_stream (with_pending f.writer f.pending flag) in
        let queue : List ℕ =
          if is_empty f.pending
          then s.streams_with_pending
          else s.streams_with_pending ++ (id ∷ []) in
        let opened : Conn Sock = record (insert_stream id new s).1 {
          streams_with_pending = queue;
        } in
        spawn-Invariant config (tcp_reader id flag) opened
          (insert_stream-Invariant config id new queue s v
            (λ j h. ground (arith, mem-snoc j id s.streams_with_pending))
            (
              lt,
              (λ h. ground arith),
              (λ h. ground (arith, mem-snoc_last id s.streams_with_pending)),
              (threshold_bounds config u32).0,
            ))
          (
            lt,
            λ h.
                insert_stream-Owns config id flag new s (unfold stream_flag in refl)
                  (unfold insert_stream in room new),
          )

    connected-Invariant :
        (id : ℕ) (writer : Sock) (flag : ℕ) (o : Option (ProxyStream Sock)) (s : Conn Sock)
        → Invariant config s
        → flag < s.flags.next_flag
        → StreamOk config s.streams_with_pending s.flags.next_flag id o
        → (is_some o ≡ true → (st : ProxyStream Sock) → (insert id st s.table).0 ≡ true)
        → Invariant config (connected w config id writer flag o s)
    unfolding connected send_close send insert_stream
    connected-Invariant id writer flag none s v lt ok room = v
    connected-Invariant id writer flag (some (tcp_stream t)) s v lt ok room =
        insert_stream-Invariant config id (tcp_stream t) s.streams_with_pending s v (λ j h. h) ok
    connected-Invariant id writer flag (some (udp_stream u)) s v lt ok room =
        insert_stream-Invariant config id (udp_stream u) s.streams_with_pending s v (λ j h. h) ok
    connected-Invariant id writer flag (some (connecting c)) s v lt ok room =
        let f : Flushed w = flush_early w c.early_data writer in
        elim (Bool-cases f.dead) [
          | inl e ↦ rw e v
          | inr e ↦ rw e (open_stream-Invariant id flag f s v lt (room refl))
        ]

    pub handle_control_event-Invariant :
        (ev : ControlEvent Sock) (s : Conn Sock)
        → Invariant config s
        → Invariant config (handle_control_event w config ev s)
    unfolding handle_control_event send_close send
    handle_control_event-Invariant (stream_closed id reason) s v = remove-Invariant config id s v
    handle_control_event-Invariant (tcp_connect_failed id reason) s v =
        remove-Invariant config id s v
    handle_control_event-Invariant (tcp_connected id writer cancel) s v =
        let f : ℕ × Conn Sock = fresh_flag s in
        let vf : Invariant config f.1 = fresh_flag-Invariant config s v in
        let r : Option (ProxyStream Sock) × Conn Sock = remove id f.1 in
        connected-Invariant id writer f.0 r.0 r.1 (remove-Invariant config id f.1 vf)
          (unfold fresh_flag new_flag remove in
            omega (arith, cancel_next config (take_out id s.table).0 f.1.flags))
          (removed_ok id f.1 vf) (λ e st. remove-room id st f.1 vf e)

    pub handle_events-Invariant :
        (evs : List (ControlEvent Sock)) (s : Conn Sock)
        → Invariant config s
        → Invariant config (handle_events w config evs s)
    unfolding handle_events
    handle_events-Invariant [] s v = v
    handle_events-Invariant (e ∷ evs) s v =
        handle_events-Invariant evs _ (handle_control_event-Invariant e s v)

    control_event-Invariant :
        (ev : ControlEvent Sock) (s : Conn Sock)
        → Invariant config s
        → Invariant config (control_event w config ev s)
    unfolding control_event upgrade_buffers
    control_event-Invariant ev s v =
        let s' : Conn Sock = handle_control_event w config ev s in
        elim (Bool-cases (not s'.buffers_upgraded && leb 2 (len s'.table))) [
          | inl e ↦ rw e (handle_control_event-Invariant ev s v)
          | inr e ↦ rw e (handle_control_event-Invariant ev s v)
        ]

    pub control_events-Invariant :
        (evs : List (ControlEvent Sock)) (s : Conn Sock)
        → Invariant config s
        → Invariant config (control_events w config evs s)
    unfolding control_events
    control_events-Invariant [] s v = v
    control_events-Invariant (e ∷ evs) s v =
        control_events-Invariant evs _ (control_event-Invariant e s v)

    pub drain_control-Invariant :
        (s : Conn Sock) → Invariant config s → Invariant config (drain_control w config s)
    unfolding drain_control
    drain_control-Invariant s v = control_events-Invariant s.events (record s { events = [] }) v

    pub control_branch-Invariant :
        (s : Conn Sock) → Invariant config s → Invariant config (control_branch w config s)
    unfolding control_branch
    control_branch-Invariant s v = branch s.events
      where
        branch :
            (evs : List (ControlEvent Sock))
            → Invariant config (elim evs [
              | [] ↦ s
              | ev ∷ more ↦
                  handle_events w config more (control_event w config ev (record s { events = [] }))
            ])
        branch [] = v
        branch (ev ∷ more) =
            handle_events-Invariant more _ (control_event-Invariant ev (record s { events = [] }) v)
