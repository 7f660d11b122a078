-- ===== src/Conn/Loop/Budget.antt =====
-- The frame budget of the inner loop in src/server/connection.rs, and the end of the loop.
use shrimpwisp.Prelude.{ℕ, ◌-◌, ◌≤◌, ◌<◌, max}
use shrimpwisp.Prelude.{◌≡◌, refl, ◌⊎◌}
use shrimpwisp.Prelude.{List, []}
use shrimpwisp.Prelude.{drop}
use shrimpwisp.Backend.{BackendWriter}
use shrimpwisp.Config.{ServerConfig}
use shrimpwisp.Conn.Loop.{Inbound, over, Loop, flush}
use shrimpwisp.Conn.Connect.{Resolver}
use shrimpwisp.Prelude.Bytes.{Bytes}

-- How many frames a round handles: at least one of those in the buffer, at most `budget`.
pub record Budgeted (budget : ℕ) (before after : List Inbound) : Type 0 where
  pub handled : ℕ
  pub few : handled ≤ budget
  pub some_if_any : (before ≡ []) ⊎ (0 < handled)
  pub rest_in_order : after ≡ drop handled before

module _ (w : BackendWriter) (config : ServerConfig) (net : Resolver) where
  open w use {Sock}

  -- Why the inner loop stopped.
  abbrev Stopped : Loop Sock → Type 0
  Stopped r = (r.place ≡ over) ⊎ ((r.buffered ≡ []) ⊎ (r.frames_since_yield ≡ 0))

  abbrev budget_left : ℕ → Loop Sock → ℕ
  budget_left limit l = max 1 (limit - l.frames_since_yield)

  flush-buffered :
      (l : Loop Sock)
      → ((flush w config net l).buffered ≡ l.buffered)
        × ((flush w config net l).frames_since_yield ≡ l.frames_since_yield)
  unfolding flush
  flush-buffered l = (refl, refl)
