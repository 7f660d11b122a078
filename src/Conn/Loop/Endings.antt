-- ===== src/Conn/Loop/Endings.antt =====
-- How `select!` of src/server/connection.rs ends a connection.
use shrimpwisp.Prelude.{ℕ, ◌-◌, ◌≤◌, ◌<◌}
use shrimpwisp.Prelude.{◌≡◌, ◌⊎◌}
use shrimpwisp.Prelude.{true, false, ◌||◌, is_empty}
use shrimpwisp.Conn.{Conn}
use shrimpwisp.Prelude.{List, [], ◌∷◌}
use shrimpwisp.Backend.{BackendWriter}
use shrimpwisp.Config.{ServerConfig}
use shrimpwisp.Conn.Loop.{
  idle_enabled, ping_enabled, Inbound, Loop, Ready, frame_ready, data_ready, event_ready,
  idle_ready, ping_ready, nothing_ready,
}
use shrimpwisp.Conn.Connect.{Resolver}
use shrimpwisp.Conn.Inbound.{handle_inbound}

module _ (w : BackendWriter) (config : ServerConfig) (net : Resolver) where
  open w use {Sock}

  -- A frame of the client ends it, or its handler waits for ever.
  abbrev pub FrameEnds : Loop Sock → Type 0
  FrameEnds l =
      (i : Inbound) × (more : List Inbound) × (l.buffered ≡ i ∷ more)
      × (((handle_inbound w config net i.at i.now i.frame l.conn).0 ≡ true)
          ⊎ ((handle_inbound w config net i.at i.now i.frame l.conn).1.hung ≡ true))

  -- A write to the client fails: of a batch, or of the CONTINUEs after a frame.
  abbrev pub WriteFails : Loop Sock → Type 0
  WriteFails l =
      ((l.conn.writer_closed ≡ true) × (is_empty l.conn.write_queue ≡ false))
      ⊎ ((i : Inbound) × (more : List Inbound) × (l.buffered ≡ i ∷ more)
          × ((handle_inbound w config net i.at i.now i.frame l.conn).1.writer_closed ≡ true)
          × (is_empty (handle_inbound w config net i.at i.now i.frame l.conn).1.pending_continues
              ≡ false))

  -- Nothing waits: no frame of the client, no data of a backend, no control event.
  abbrev pub Quiet : Loop Sock → Type 0
  Quiet l = (l.buffered ≡ []) × (l.conn.write_queue ≡ []) × (l.conn.events ≡ [])

  abbrev pub TimerEnds : ℕ → Loop Sock → Type 0
  TimerEnds now l =
      ((idle_enabled config || ping_enabled config) ≡ true)
      × ((l.idle_timeout ≤ now)
          ⊎ ((l.ping_sleep ≤ now)
              × (ping_enabled config ≡ true)
              × (l.conn.awaiting_pong ≡ true)
              × (config.ws_pong_timeout_secs < now - l.conn.last_pong)))

  -- The branches of the timers are taken where their conditions hold.
  Taken : ℕ → Loop Sock → Ready → Type 0
  Taken now l (frame_ready i more) = l.buffered ≡ i ∷ more
  Taken now l data_ready = Unit
  Taken now l event_ready = Unit
  Taken now l idle_ready =
      Quiet l × ((idle_enabled config || ping_enabled config) ≡ true) × (l.idle_timeout ≤ now)
  Taken now l ping_ready =
      Quiet l × ((idle_enabled config || ping_enabled config) ≡ true) × (l.ping_sleep ≤ now)
  Taken now l nothing_ready = Unit
