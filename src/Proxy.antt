-- ===== src/Proxy.antt =====
-- The stream states of src/proxy/stream.rs. The write half of a backend socket is a parameter `S`.
pub mod Table
pub mod Cells
pub mod Laws
pub mod Reference
use shrimpwisp.Prelude.{ℕ, ◌+◌, ◌%◌}
use shrimpwisp.Prelude.{Bool, true, false, not}
use shrimpwisp.Prelude.{List, [], ◌∷◌, ◌++◌}
use shrimpwisp.Prelude.{leb, ◌==◌, if◌then◌else◌}
use shrimpwisp.Prelude.{is_empty}
use shrimpwisp.Prelude.Bytes.{Bytes}
use shrimpwisp.Net.{SocketAddr}

-- The cells behind the `CancelFlag`s: a flag is its number, clones share it, and `raised` says
-- whether its cell is true.
pub record Flags : Type 0 where
  pub next_flag : ℕ
  pub raised : ℕ → Bool

-- `CancelFlag::new`: a fresh cell, not raised.
unfoldable pub new_flag : Flags → ℕ × Flags
new_flag fl = (
  fl.next_flag,
  record {
    next_flag = fl.next_flag + 1;
    raised = λ f. if f == fl.next_flag then false else fl.raised f;
  },
)

unfoldable pub cancel_flag : ℕ → Flags → Flags
cancel_flag f fl = record fl { raised = λ g. if g == f then true else fl.raised g }

unfoldable pub is_cancelled : ℕ → Flags → Bool
is_cancelled f fl = fl.raised f

pub record TcpProxyStream (S : Type 0) : Type 0 where
  pub writer : S
  pub pending : List Bytes
  pub packets_since_continue : ℕ
  pub queued_for_drain : Bool
  pub cancel : ℕ

-- `socket` names the UDP socket, which the reader task shares.
pub record UdpProxyStream : Type 0 where
  pub socket : ℕ
  pub dest_addr : SocketAddr
  pub cancel : ℕ

pub record ConnectingStream : Type 0 where
  pub early_data : List Bytes
  pub cancel : ℕ

pub data ProxyStream (S : Type 0) : Type 0 where
  tcp_stream : TcpProxyStream S → ProxyStream S
  udp_stream : UdpProxyStream → ProxyStream S
  connecting : ConnectingStream → ProxyStream S

module _ {S : Type 0} where
  -- The flag that `StreamTable::remove` raises.
  unfoldable pub stream_flag : ProxyStream S → ℕ
  stream_flag (tcp_stream t) = t.cancel
  stream_flag (udp_stream u) = u.cancel
  stream_flag (connecting c) = c.cancel

  -- `TcpProxyStream::with_pending`.
  unfoldable pub with_pending : S → List Bytes → ℕ → TcpProxyStream S
  with_pending writer pending cancel = record {
    writer = writer;
    pending = pending;
    packets_since_continue = 0;
    queued_for_drain = not (is_empty pending);
    cancel = cancel;
  }

  -- `record_packet`, with the wrap-around of `u32`.
  unfoldable pub record_packet : ℕ → TcpProxyStream S → TcpProxyStream S × Bool
  record_packet threshold t =
      let n = (t.packets_since_continue + 1) % 4294967296 in
      (record t { packets_since_continue = n }, leb threshold n)

  unfoldable pub reset_counter : TcpProxyStream S → TcpProxyStream S
  reset_counter t = record t { packets_since_continue = 0 }

-- `ConnectingStream::new` and `queue_early_data`.
unfoldable pub new_connecting : ℕ → ConnectingStream
new_connecting flag = record { early_data = []; cancel = flag }

unfoldable pub queue_early_data : Bytes → ConnectingStream → ConnectingStream
queue_early_data bytes c = record c { early_data = c.early_data ++ (bytes ∷ []) }
