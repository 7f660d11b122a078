-- ===== src/Conn/Loop/Order.antt =====
-- The data channel of a connection of src/server/connection.rs, between its reader tasks and the
-- client's socket.
use shrimpwisp.Prelude.{◌≡◌, refl, ap, ◌∙◌, ◌⊎◌}
use shrimpwisp.Prelude.{List, [], ◌∷◌, ◌++◌, append-nil}
use shrimpwisp.Prelude.Bytes.{Bytes}
use shrimpwisp.Backend.{BackendWriter}
use shrimpwisp.Config.{ServerConfig}
use shrimpwisp.Conn.{Conn}
use shrimpwisp.Conn.Loop.{Loop, drain_phases}
use shrimpwisp.Conn.Connect.{Resolver}
use shrimpwisp.Conn.Phases.{drain_writes, take_batch}
use shrimpwisp.Conn.Loop.Untouched.{drain_control-Same, drain_writes-Same}

module _ (w : BackendWriter) (config : ServerConfig) (net : Resolver) where
  open w use {Sock}

  -- What backends have sent to this client, in the order in which it leaves.
  abbrev pub outgoing : Loop Sock → List Bytes
  outgoing l = l.written ++ l.conn.write_queue

  -- Phase 2 empties the channel into the socket.
  pub drain_phases-outgoing :
      (l : Loop Sock)
      → (outgoing (drain_phases w config net l) ≡ outgoing l)
        × ((drain_phases w config net l).conn.write_queue ≡ [])
        × ((drain_phases w config net l).conn.events ≡ [])
  unfolding drain_phases take_batch
  drain_phases-outgoing l =
      let a = drain_writes-Same w config l.conn in
      let b = drain_control-Same w config (drain_writes w l.conn) in
      (append-nil _ ∙ ap (λ q. l.written ++ q) (b.0 ∙ a.0), refl, b.2)

  -- One frame more at the end of the channel, or the channel as it was.
  abbrev pub Appends : Conn Sock → Conn Sock → Type 0
  Appends s s' =
      (s'.write_queue ≡ s.write_queue)
      ⊎ ((frame : Bytes) × (s'.write_queue ≡ s.write_queue ++ (frame ∷ [])))
