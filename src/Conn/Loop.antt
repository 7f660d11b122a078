-- ===== src/Conn/Loop.antt =====
-- The select loop of `handle_connection` in src/server/connection.rs, with its inner loop, its phases
-- and its timers. Times are seconds.
pub mod Moves
pub mod Untouched
pub mod Laws
pub mod Order
pub mod Budget
pub mod Endings
use shrimpwisp.Prelude.{ℕ, ◌+◌, ◌*◌, ◌%◌}
use shrimpwisp.Prelude.{Bool, true, false, ◌&&◌, ◌||◌, not, Option, none, some}
use shrimpwisp.Prelude.{List, [], ◌∷◌, ◌++◌}
use shrimpwisp.Prelude.{ltb, leb, if◌then◌else◌}
use shrimpwisp.Prelude.{is_empty}
use shrimpwisp.Prelude.Bytes.{Bytes}
use shrimpwisp.Backend.{BackendWriter}
use shrimpwisp.Config.{ServerConfig}
use shrimpwisp.Dns.{DnsCache}
use shrimpwisp.Conn.{Conn, new_conn}
use shrimpwisp.Conn.Connect.{Resolver, Circumstances}
use shrimpwisp.Conn.Inbound.{WispFrameResult, handle_inbound, process_inbound_frame}
use shrimpwisp.Conn.Control.{drain_control, control_branch}
use shrimpwisp.Conn.Phases.{drain_writes, flush_continues, take_batch, ping_due}

-- `core_affinity::get_core_ids()` is a parameter, as the number of cores.
unfoldable pub yield_limit : Option ℕ → ℕ
yield_limit none = 32
yield_limit (some cores) = if leb 12 cores then 64 else 32

abbrev pub a_year : ℕ
a_year = 365 * (24 * 3600)

abbrev pub idle_enabled : ServerConfig → Bool
idle_enabled config = ltb 0 config.idle_timeout_secs

abbrev pub ping_enabled : ServerConfig → Bool
ping_enabled config = ltb 0 config.ws_ping_interval_secs

unfoldable pub idle_duration : ServerConfig → ℕ
idle_duration config = if idle_enabled config then config.idle_timeout_secs else a_year

unfoldable pub ping_interval : ServerConfig → ℕ
ping_interval config = if ping_enabled config then config.ws_ping_interval_secs else a_year

-- A frame that the client sent, with what its handler will meet and the time at which it runs.
pub record Inbound : Type 0 where
  pub at : Circumstances
  pub now : ℕ
  pub frame : WispFrameResult

-- Where the loop stands: at its top, before the phases, in `select!`, or where it goes no further, since it has ended or
-- its handler waits for ever.
pub data Place : Type 0 where
  top draining selecting over : Place

unfoldable pub is_over : Place → Bool
is_over top = false
is_over draining = false
is_over selecting = false
is_over over = true

-- `buffered` is what the reader has of whole frames, `written` what Phase 2 and the branch of
-- `write_rx` gave to `write_ws_frames_batched`; `idle_timeout` and `ping_sleep` are the deadlines.
pub record Loop (S : Type 0) : Type 0 where
  pub conn : Conn S
  pub place : Place
  pub buffered : List Inbound
  pub frames_since_yield : ℕ
  pub idle_timeout : ℕ
  pub ping_sleep : ℕ
  pub written : List Bytes

-- What `select!` finds ready first.
pub data Ready : Type 0 where
  frame_ready : Inbound → List Inbound → Ready
  data_ready event_ready idle_ready ping_ready nothing_ready : Ready

module _ (w : BackendWriter) (config : ServerConfig) (net : Resolver) where
  open w use {Sock}

  -- Steps 5 and 6 up to the loop, with the deferred frame.
  unfoldable pub process_deferred : Circumstances → Option Bytes → Conn Sock → Conn Sock
  unfolding process_inbound_frame flush_continues
  process_deferred at none s = s
  process_deferred at (some b) s =
      let r : Bool × Conn Sock = process_inbound_frame w config net at b s in
      if r.1.hung then r.1 else flush_continues w r.1

  unfoldable pub enter : DnsCache → ℕ → Circumstances → Option Bytes → Loop Sock
  unfolding new_conn process_deferred idle_duration ping_interval
  enter dns now at deferred_frame = record {
    conn = process_deferred at deferred_frame (new_conn config dns now);
    place =
        if (process_deferred at deferred_frame (new_conn config dns now)).hung then over else top;
    buffered = [];
    frames_since_yield = 0;
    idle_timeout = now + idle_duration config;
    ping_sleep = now + ping_interval config;
    written = [];
  }

  -- `frames_since_yield += 1`, with the wrap-around of `u32`.
  unfoldable pub count_frame : Loop Sock → Loop Sock
  count_frame l = record l { frames_since_yield = (l.frames_since_yield + 1) % 4294967296 }

  unfoldable pub reset_idle : ℕ → Loop Sock → Loop Sock
  unfolding idle_duration
  reset_idle now l =
      if idle_enabled config then record l { idle_timeout = now + idle_duration config } else l

  -- A frame is taken out of the buffer and handled; the Boolean is true where the loop ends, or its
  -- handler waits for ever.
  unfoldable pub handle_frame : Inbound → List Inbound → Loop Sock → Bool × Loop Sock
  unfolding reset_idle handle_inbound
  handle_frame i more l =
      let r : Bool × Conn Sock = handle_inbound w config net i.at i.now i.frame l.conn in
      (r.0 || r.1.hung, record (reset_idle i.now l) { conn = r.1; buffered = more })

  -- A write that fails ends the loop, but for one of nothing, which is not tried.
  abbrev pub write_place : {A : Type 0} → List A → Loop Sock → Place → Place
  write_place sent l next = if l.conn.writer_closed && not (is_empty sent) then over else next

  -- `flush_continues_direct(..).await?`.
  unfoldable pub flush : Loop Sock → Loop Sock
  unfolding flush_continues
  flush l = record l {
    conn = flush_continues w l.conn;
    place = write_place l.conn.pending_continues l l.place;
  }

  -- The last flush where a frame ends the loop, and none where its handler waits.
  unfoldable pub last_flush : Loop Sock → Loop Sock
  unfolding flush_continues
  last_flush l = record l {
    conn = if l.conn.hung then l.conn else flush_continues w l.conn;
    place = over;
  }

  -- The tight inner loop over the frames in the buffer.
  unfoldable pub inner_loop : ℕ → List Inbound → Loop Sock → Loop Sock
  unfolding handle_frame count_frame flush last_flush
  inner_loop limit [] l = l
  inner_loop limit (i ∷ more) l =
      let r : Bool × Loop Sock = handle_frame i more l in
      let counted : Loop Sock = count_frame r.1 in
      let rest : Loop Sock = inner_loop limit more counted in
      if r.0
      then last_flush r.1
      else if leb limit counted.frames_since_yield
      then flush (record counted { frames_since_yield = 0 })
      else rest

  -- Phase 0, Phase 1 and Phase 2.
  unfoldable pub drain_phases : Loop Sock → Loop Sock
  unfolding drain_writes drain_control take_batch
  drain_phases l =
      let r : List Bytes × Conn Sock =
        take_batch w (drain_control w config (drain_writes w l.conn)) in
      record l { conn = r.1; written = l.written ++ r.0; place = write_place r.0 l l.place }

  -- From the top of the loop to `select!`.
  unfoldable pub to_select : ℕ → Loop Sock → Loop Sock
  unfolding inner_loop flush drain_phases is_over
  to_select limit l =
      let inner : Loop Sock = inner_loop limit l.buffered l in
      let flushed : Loop Sock = flush inner in
      if is_over inner.place
      then inner
      else if is_over flushed.place
      then flushed
      else drain_phases (record flushed { place = selecting })

  -- `biased`: the branches are asked in order, those of the timers only where one is enabled.
  unfoldable pub ready : ℕ → Loop Sock → Ready
  ready now l = elim l.buffered [
    | i ∷ more ↦ frame_ready i more
    | [] ↦
        if not (is_empty l.conn.write_queue)
        then data_ready
        else if not (is_empty l.conn.events)
        then event_ready
        else if not (idle_enabled config || ping_enabled config)
        then nothing_ready
        else if leb l.idle_timeout now
        then idle_ready
        else if leb l.ping_sleep now
        then ping_ready
        else nothing_ready
  ]

  -- The branch that `select!` takes.
  unfoldable pub branch : ℕ → Ready → Loop Sock → Loop Sock
  unfolding handle_frame flush count_frame take_batch control_branch ping_due
  branch now (frame_ready i more) l =
      let r : Bool × Loop Sock = handle_frame i more l in
      if r.0 then record r.1 { place = over } else count_frame (flush (record r.1 { place = top }))
  branch now data_ready l =
      let r : List Bytes × Conn Sock = take_batch w l.conn in
      record l { conn = r.1; written = l.written ++ r.0; place = write_place r.0 l top }
  branch now event_ready l = record l { conn = control_branch w config l.conn; place = top }
  branch now idle_ready l = record l { place = over }
  branch now ping_ready l =
      let r : Bool × Conn Sock = ping_due w config now l.conn in
      if r.0 then record l { conn = r.1; place = over } else record l {
        conn = r.1;
        ping_sleep =
            if ping_enabled config then now + config.ws_ping_interval_secs else l.ping_sleep;
        place = top;
      }
  branch now nothing_ready l = l

  unfoldable pub select : ℕ → Loop Sock → Loop Sock
  unfolding ready branch
  select now l = branch now (ready now l) l
