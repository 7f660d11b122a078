-- ===== src/Backend.antt =====
-- The writes of src/server/connection.rs to a backend socket: `tcp_try_write`, `drain_pending` and
-- the flush of early data. The socket is tokio's `OwnedWriteHalf`, a parameter.
pub mod Drain
pub mod Delivery
pub mod Fields
use shrimpwisp.Prelude.{ℕ, zero, suc, ◌+◌, ◌-◌, ◌≤◌, min}
use shrimpwisp.Prelude.{◌≡◌}
use shrimpwisp.Prelude.{Bool, true, false, ◌&&◌}
use shrimpwisp.Prelude.{List, [], ◌∷◌, ◌++◌}
use shrimpwisp.Prelude.{ltb, leb, ◌==◌, if◌then◌else◌}
use shrimpwisp.Prelude.{length, is_empty, take, drop, concat}
use shrimpwisp.Prelude.Bytes.{Bytes}
use shrimpwisp.Proxy.{TcpProxyStream}

-- `std::io::Result<usize>`, with the error kind that the sources test for.
pub data IoResult : Type 0 where
  wrote : ℕ → IoResult
  would_block fatal : IoResult

pub record BackendWriter : Type 1 where
  pub Sock : Type 0
  pub try_write : Sock → Bytes → IoResult × Sock
  pub try_write_vectored : Sock → List Bytes → IoResult × Sock
  pub received : Sock → Bytes

abbrev pub accepted : IoResult → Bytes → Bytes
accepted (wrote n) b = take n b
accepted would_block b = []
accepted fatal b = []

abbrev pub Fits : IoResult → Bytes → Type 0
Fits (wrote n) b = n ≤ length b
Fits would_block b = Unit
Fits fatal b = Unit

-- The documented behaviour: a call that returns `n` has passed on the first `n` bytes, of no more
-- than there are, and a call that fails has passed on none.
pub record IsBackend (w : BackendWriter) : Type 0 where
  pub write_fits : (s : w.Sock) (b : Bytes) → Fits (w.try_write s b).0 b
  pub write_received :
      (s : w.Sock) (b : Bytes)
      → w.received (w.try_write s b).1 ≡ w.received s ++ accepted (w.try_write s b).0 b
  pub vectored_fits :
      (s : w.Sock) (bs : List Bytes) → Fits (w.try_write_vectored s bs).0 (concat bs)
  pub vectored_received :
      (s : w.Sock) (bs : List Bytes)
      → w.received (w.try_write_vectored s bs).1
        ≡ w.received s ++ accepted (w.try_write_vectored s bs).0 (concat bs)

-- The `while remaining > 0` loop of `drain_pending`: what is left of the chunks after `remaining`
-- bytes.
unfoldable pub consume : ℕ → List Bytes → List Bytes
consume zero chunks = chunks
consume (suc n) [] = []
consume (suc n) (front ∷ chunks) =
    let rest = consume (suc n - length front) chunks in
    if leb (length front) (suc n) then rest else drop (suc n) front ∷ chunks

module _ (w : BackendWriter) where
  open w use {Sock, try_write, try_write_vectored}

  -- One chunk is pending.
  unfoldable pub drain_single : Bytes → TcpProxyStream Sock → TcpProxyStream Sock × Bool
  drain_single chunk tcp =
      let r : IoResult × Sock = try_write tcp.writer chunk in
      elim r.0 [
        | wrote n ↦
            if n == length chunk
            then (record tcp { writer = r.1; pending = [] }, false)
            else (record tcp { writer = r.1; pending = drop n chunk ∷ [] }, false)
        | would_block ↦ (record tcp { writer = r.1 }, false)
        | fatal ↦ (record tcp { writer = r.1; pending = [] }, true)
      ]

  -- Several are: at most 1024 go into one call.
  unfoldable pub drain_vectored : TcpProxyStream Sock → TcpProxyStream Sock × Bool
  unfolding consume
  drain_vectored tcp =
      let slice_count = min (length tcp.pending) 1024 in
      let slices : List Bytes = take slice_count tcp.pending in
      let total = length (concat slices) in
      let r : IoResult × Sock = try_write_vectored tcp.writer slices in
      elim r.0 [
        | wrote n ↦
            if n == total && slice_count == length tcp.pending
            then (record tcp { writer = r.1; pending = [] }, false)
            else if ltb 0 n
            then (record tcp { writer = r.1; pending = consume n tcp.pending }, false)
            else (record tcp { writer = r.1 }, false)
        | would_block ↦ (record tcp { writer = r.1 }, false)
        | fatal ↦ (record tcp { writer = r.1; pending = [] }, true)
      ]

  unfoldable pub drain_chunks : List Bytes → TcpProxyStream Sock → TcpProxyStream Sock × Bool
  drain_chunks [] tcp = (tcp, false)
  drain_chunks (chunk ∷ []) tcp = drain_single chunk tcp
  drain_chunks (c ∷ d ∷ chunks) tcp = drain_vectored tcp

  -- The result is true if the backend is dead.
  unfoldable pub drain_pending : TcpProxyStream Sock → TcpProxyStream Sock × Bool
  unfolding drain_chunks
  drain_pending tcp = drain_chunks tcp.pending tcp

  -- The write of `tcp_try_write`, after nothing is pending.
  unfoldable pub write_now : Bytes → TcpProxyStream Sock → TcpProxyStream Sock × Bool
  write_now bytes tcp =
      let r : IoResult × Sock = try_write tcp.writer bytes in
      elim r.0 [
        | wrote n ↦
            if n == length bytes
            then (record tcp { writer = r.1 }, false)
            else (record tcp { writer = r.1; pending = tcp.pending ++ (drop n bytes ∷ []) }, false)
        | would_block ↦ (record tcp { writer = r.1; pending = tcp.pending ++ (bytes ∷ []) }, false)
        | fatal ↦ (record tcp { writer = r.1 }, true)
      ]

  unfoldable pub tcp_try_write : Bytes → TcpProxyStream Sock → TcpProxyStream Sock × Bool
  unfolding write_now
  tcp_try_write bytes tcp =
      let d : TcpProxyStream Sock × Bool = drain_pending tcp in
      if is_empty tcp.pending
      then write_now bytes tcp
      else if d.1
      then (d.0, true)
      else if is_empty d.0.pending
      then write_now bytes d.0
      else (record d.0 { pending = d.0.pending ++ (bytes ∷ []) }, false)

  -- What the flush of early data leaves: the socket, what is still to be sent, and whether the
  -- backend is dead.
  pub record Flushed : Type 0 where
    pub writer : Sock
    pub pending : List Bytes
    pub dead : Bool

  -- The loop over the early data in `handle_control_event`; after a write that stopped short, the
  -- rest is kept.
  unfoldable pub flush_early : List Bytes → Sock → Flushed
  flush_early [] s = record { writer = s; pending = []; dead = false }
  flush_early (bytes ∷ more) s =
      let r : IoResult × Sock = try_write s bytes in
      let rest = flush_early more r.1 in
      elim r.0 [
        | wrote n ↦
            if n == length bytes
            then rest
            else record { writer = r.1; pending = drop n bytes ∷ more; dead = false }
        | would_block ↦ record { writer = r.1; pending = bytes ∷ more; dead = false }
        | fatal ↦ record { writer = r.1; pending = []; dead = true }
      ]
