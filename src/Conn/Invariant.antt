-- ===== src/Conn/Invariant.antt =====
-- The invariant of a connection of src/server/connection.rs.
use shrimpwisp.Prelude.{ℕ, ◌≤◌, ◌<◌}
use shrimpwisp.Prelude.{◌≡◌, ◌≢◌, inl, inr}
use shrimpwisp.Prelude.{Bool, true, false, ◌||◌, Option, none, some}
use shrimpwisp.Prelude.{List, [], ◌∷◌, arith}
use shrimpwisp.Prelude.{◌==◌, if◌then◌else◌, Bool-cases}
use shrimpwisp.Prelude.{length, is_empty, All}
use shrimpwisp.Net.{SocketAddr}
use shrimpwisp.Proxy.{Flags, ProxyStream, tcp_stream, udp_stream, connecting, stream_flag}
use shrimpwisp.Proxy.Table.{StreamTable, get}
use shrimpwisp.Config.{ServerConfig, continue_threshold, is_port_blocked}
use shrimpwisp.Dns.{DnsCache}
use shrimpwisp.Prelude.Bytes.{Bytes}
use shrimpwisp.Conn.{Task, tcp_connect, tcp_reader, udp_reader, Conn}
use shrimpwisp.Security.{is_ip_blocked}
use shrimpwisp.Proxy.Laws.{IsTable}
use shrimpwisp.Dns.Laws.{IsCache}

-- Where the policy lets a connection go.
abbrev pub Permitted : ServerConfig → SocketAddr → Type 0
Permitted config addr =
    (is_ip_blocked addr.ip config ≡ false)
    × (addr.port ≢ 0)
    × (is_port_blocked addr.port config ≡ false)

unfoldable pub mem : ℕ → List ℕ → Bool
mem id [] = false
mem id (j ∷ js) = j == id || mem id js

module _ {S : Type 0} (config : ServerConfig) where
  -- Pending bytes have the stream queued, a queued stream is in `streams_with_pending`, and the count
  -- is below the threshold; a UDP stream goes where it may; early data has at most 128 chunks. Flags
  -- are below `next`.
  abbrev pub StreamOk : List ℕ → ℕ → ℕ → Option (ProxyStream S) → Type 0
  StreamOk queue next id none = Unit
  StreamOk queue next id (some (tcp_stream t)) =
      (t.cancel < next)
      × (is_empty t.pending ≡ false → t.queued_for_drain ≡ true)
      × (t.queued_for_drain ≡ true → mem id queue ≡ true)
      × (t.packets_since_continue < continue_threshold config)
  StreamOk queue next id (some (udp_stream u)) = (u.cancel < next) × Permitted config u.dest_addr
  StreamOk queue next id (some (connecting c)) = (c.cancel < next) × (length c.early_data ≤ 128)

  -- The stream that a reader reads for is there, and is the reader's own.
  abbrev pub Owns : ℕ → ℕ → Option (ProxyStream S) → Type 0
  Owns id flag none = ⊥
  Owns id flag (some stream) = stream_flag stream ≡ flag

  -- A connect task goes where it may; a reader whose flag is down owns its stream.
  abbrev pub TaskOk : StreamTable (ProxyStream S) → Flags → Task → Type 0
  TaskOk table fl (tcp_connect id addr flag multiplexed) =
      (flag < fl.next_flag) × Permitted config addr
  TaskOk table fl (tcp_reader id flag) =
      (flag < fl.next_flag) × (fl.raised flag ≡ false → Owns id flag (get id table))
  TaskOk table fl (udp_reader id socket flag) =
      (flag < fl.next_flag) × (fl.raised flag ≡ false → Owns id flag (get id table))

  pub record InvariantOf (table : StreamTable (ProxyStream S)) (fl : Flags) (queue : List ℕ)
      (tasks : List Task) (dns : DnsCache) (datagrams : List (SocketAddr × Bytes)) : Type 0 where
    pub table_ok : IsTable table
    pub streams_ok : (id : ℕ) → StreamOk queue fl.next_flag id (get id table)
    pub tasks_ok : All (TaskOk table fl) tasks
    pub cache_ok : IsCache dns.cache
    pub datagrams_ok : All (λ d. Permitted config d.0) datagrams

  abbrev pub Invariant : Conn S → Type 0
  Invariant s = InvariantOf s.table s.flags s.streams_with_pending s.tasks s.dns s.datagrams

  -- `None` is no stream that could be wrong.
  pub StreamOk-if :
      (queue : List ℕ) (next id j : ℕ) (a b : Option (ProxyStream S))
      → ((id == j) ≡ false → StreamOk queue next j b)
      → (id ≡ j → StreamOk queue next j a)
      → StreamOk queue next j (if id == j then a else b)
  StreamOk-if queue next id j a b h k = elim (Bool-cases (id == j)) [
    | inl e ↦ rw e (k (ground arith))
    | inr e ↦ rw e (h e)
  ]

  -- The queue may grow, and so may the number of flags.
  pub StreamOk-mono :
      (queue queue' : List ℕ) (next next' id : ℕ) (o : Option (ProxyStream S))
      → (mem id queue ≡ true → mem id queue' ≡ true)
      → next ≤ next'
      → StreamOk queue next id o
      → StreamOk queue' next' id o
  StreamOk-mono queue queue' next next' id none q n h = h
  StreamOk-mono queue queue' next next' id (some (tcp_stream t)) q n h =
      (omega (arith, h.0), h.1, (λ e. q (h.2 e)), h.3)
  StreamOk-mono queue queue' next next' id (some (udp_stream u)) q n h = (omega (arith, h.0), h.1)
  StreamOk-mono queue queue' next next' id (some (connecting c)) q n h = (omega (arith, h.0), h.1)

  pub StreamOk-flag :
      (queue : List ℕ) (next id : ℕ) (stream : ProxyStream S)
      → StreamOk queue next id (some stream)
      → stream_flag stream < next
  unfolding stream_flag
  StreamOk-flag queue next id (tcp_stream t) h = h.0
  StreamOk-flag queue next id (udp_stream u) h = h.0
  StreamOk-flag queue next id (connecting c) h = h.0
