-- ===== src/Examples.antt =====
-- Concrete values for the theorems on the code: a backend that takes four bytes at a time, a client
-- socket that takes three, and a connection that opens a stream.
mod Protocol
mod Wire
mod Security
mod Sessions
mod Startup
mod Server
mod Rounds
mod Upgrades
mod Machine
mod Launches
mod Connections
use shrimpwisp.Prelude.{◌+◌, ◌-◌, ◌≤◌, min}
use shrimpwisp.Prelude.{refl, ap, subst}
use shrimpwisp.Prelude.{true, false, none, some}
use shrimpwisp.Prelude.{[], ◌∷◌, ◌++◌, arith}
use shrimpwisp.Prelude.{some_inj}
use shrimpwisp.Prelude.{length, take, concat}
use shrimpwisp.Prelude.Bytes.{Bytes}
use shrimpwisp.Net.{Ipv4Addr, v4}
use shrimpwisp.Proxy.{TcpProxyStream, ConnectingStream, ProxyStream}
use shrimpwisp.Backend.{wrote, BackendWriter, IsBackend}
use shrimpwisp.Config.{codes, default_config}
use shrimpwisp.Conn.{Conn, new_conn}
use shrimpwisp.Dns.{DnsCache}
use shrimpwisp.Protocol.{tcp, ConnectPayload, packet_connect}
use shrimpwisp.Wire.Writer.{ClientWriter, IsWriter}
use shrimpwisp.Conn.Connect.{Resolver, Circumstances}
use shrimpwisp.Conn.Inbound.{wisp, handle_inbound}
use shrimpwisp.Conn.Steps.{inbound, Reach, opened, stepped}

abbrev pub slow_backend : BackendWriter
slow_backend = record {
  Sock = Bytes;
  try_write = λ s b. (wrote (min 4 (length b)), s ++ take (min 4 (length b)) b);
  try_write_vectored = λ s bs.
      (wrote (min 4 (length (concat bs))), s ++ take (min 4 (length (concat bs))) (concat bs));
  received = λ s. s;
}

pub slow_backend-IsBackend : IsBackend slow_backend
slow_backend-IsBackend = record {
  write_fits = λ s b. omega arith;
  write_received = λ s b. refl;
  vectored_fits = λ s bs. omega arith;
  vectored_received = λ s bs. refl;
}

abbrev pub slow_writer : ClientWriter
slow_writer = record {
  Sock = Bytes;
  write_all = λ s b. (true, s ++ b);
  write_vectored = λ s bs.
      (some (min 3 (length (concat bs))), s ++ take (min 3 (length (concat bs))) (concat bs));
  sent = λ s. s;
}

pub slow_writer-IsWriter : IsWriter slow_writer
slow_writer-IsWriter = record {
  write_all_sent = λ s b e. refl;
  vectored_bound = λ s bs n e. subst (λ k. k ≤ length (concat bs)) (some_inj e) (omega arith);
  vectored_sent = λ s bs n e. ap (λ k. s ++ take k (concat bs)) (some_inj e);
}

abbrev pub hello : Bytes
hello = codes "hello"

abbrev pub example_org : Bytes
example_org = codes "example.org"

abbrev pub example_ip : Ipv4Addr
example_ip = record { o0 = 93; o1 = 184; o2 = 216; o3 = 34 }

abbrev pub example_net : Resolver
example_net = record { parse_ip = λ b. none; parse_ipv4 = λ b. none; parse_ipv6 = λ b. none }

abbrev pub example_dns : DnsCache
example_dns = record { cache = []; ttl = 60; ipv4_first = true }

abbrev pub example_at : Circumstances
example_at = record {
  lookup_host = λ b p. some (v4 example_ip ∷ []);
  before = 1;
  after = 2;
  bound = some 7;
  room = true;
}

abbrev pub example_connect : ConnectPayload
example_connect = record { stream_type = tcp; port = 443; hostname = example_org }

-- TCP to port 443 of example.org.
abbrev pub example_connect_bytes : Bytes
example_connect_bytes = 1 ∷ 187 ∷ 1 ∷ example_org

abbrev pub start : Conn Bytes
start = new_conn default_config example_dns 0

abbrev pub connecting_state : Conn Bytes
connecting_state =
    (handle_inbound slow_backend default_config example_net example_at 0
      (wisp packet_connect 1 example_connect_bytes) start).1

pub connecting_Reach : Reach slow_backend default_config example_net connecting_state
connecting_Reach =
    stepped start connecting_state (opened example_dns 0 tt)
      (inbound example_at 0 (wisp packet_connect 1 example_connect_bytes) start)

-- A connection with one stream, which waits for its backend or has it.
abbrev pub waiting : ConnectingStream
waiting = record { early_data = hello ∷ []; cancel = 0 }

abbrev pub open_tcp : TcpProxyStream Bytes
open_tcp = record {
  writer = [];
  pending = [];
  packets_since_continue = 0;
  queued_for_drain = false;
  cancel = 0;
}

abbrev pub open_stream_1 : ProxyStream Bytes → Conn Bytes
open_stream_1 st = record start {
  table = record { direct = none ∷ some st ∷ []; sparse = []; active_count = 1; max_streams = 0 };
  flags = record { next_flag = 1; raised = λ f. false };
  streams_with_pending = [];
  tasks = [];
  dns = example_dns;
  datagrams = [];
}
