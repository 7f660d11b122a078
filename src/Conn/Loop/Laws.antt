-- ===== src/Conn/Loop/Laws.antt =====
-- What the handling of a frame leaves as it is, in the select loop of src/server/connection.rs.
use shrimpwisp.Prelude.{◌≡◌}
use shrimpwisp.Prelude.{List, arith}
use shrimpwisp.Backend.{BackendWriter}
use shrimpwisp.Config.{ServerConfig}
use shrimpwisp.Conn.Loop.{Inbound, Loop, reset_idle, handle_frame}
use shrimpwisp.Conn.Connect.{Resolver}

module _ (w : BackendWriter) (config : ServerConfig) (net : Resolver) where
  open w use {Sock}

  pub handle_frame-place :
      (i : Inbound) (more : List Inbound) (l : Loop Sock)
      → ((handle_frame w config net i more l).1.place ≡ l.place)
        × ((handle_frame w config net i more l).1.written ≡ l.written)
        × ((handle_frame w config net i more l).1.buffered ≡ more)
        × ((handle_frame w config net i more l).1.frames_since_yield ≡ l.frames_since_yield)
  unfolding handle_frame reset_idle
  handle_frame-place i more l = ground arith
