-- ===== src/Examples/Sessions.antt =====
-- A connection of src/server/connection.rs on concrete input.
use shrimpwisp.Proxy.Table.{put}
use shrimpwisp.Backend.{drain_pending, drain_single}
use shrimpwisp.Conn.Credit.{AllAlive, Credited, data_packets, data_packets-Credited}
use shrimpwisp.Examples.{example_ip}
use shrimpwisp.Conn.Inbound.{handle_inbound}
use shrimpwisp.Conn.Inbound.{connect_packet}
use shrimpwisp.Conn.Connect.{dispatch, handle_tcp_connect, resolve, tcp_resolved}
use shrimpwisp.Conn.{fresh_flag, insert_stream, spawn, new_conn, post, remove, send}
use shrimpwisp.Proxy.{new_flag, with_pending, stream_flag, cancel_flag}
use shrimpwisp.Proxy.Table.{insert, new_table, contains, take_out, len}
use shrimpwisp.Protocol.Frame.{parse_connect_payload}
use shrimpwisp.Protocol.{stream_type_from_byte}
use shrimpwisp.Prelude.Bytes.{u16_from_le, is_utf8}
use shrimpwisp.Dns.{
  dns_resolve, get_cached, lookup_and_store, store_resolved, store_sorted, order_addrs,
}
use shrimpwisp.Security.{is_ip_blocked, is_unspecified}
use shrimpwisp.Security.Names.{is_hostname_blocked_pre_resolution}
use shrimpwisp.Config.{is_hostname_blocked, is_port_blocked}
use shrimpwisp.Conn.Control.{
  control_events, control_event, handle_control_event, connected, open_stream,
}
use shrimpwisp.Backend.{flush_early}
use shrimpwisp.Conn.Reader.{tcp_reader_wakes}
use shrimpwisp.Conn.{Conn}
use shrimpwisp.Conn.Steps.{Reach, stepped}
use shrimpwisp.Prelude.{◌⊎◌}
use shrimpwisp.Prelude.{false, inl, append-nil, ◌++◌}
use shrimpwisp.Net.{v4}
use shrimpwisp.Proxy.{is_cancelled}
use shrimpwisp.Backend.{BackendWriter, IsBackend, fatal}
use shrimpwisp.Conn.{binary}
use shrimpwisp.Protocol.{network_error}
use shrimpwisp.Protocol.Build.{build_close_frame}
use shrimpwisp.Conn.Invariant.{Owns}
use shrimpwisp.Conn.Control.{drain_control}
use shrimpwisp.Conn.Reader.{established, connect_ends}
use shrimpwisp.Conn.Steps.{connect_task, phase1}
use shrimpwisp.Conn.Safety.{Reach-reader}
use shrimpwisp.Conn.Delivery.{data_packet_dead}
use shrimpwisp.Proxy.Cells.{count_some}
use shrimpwisp.Prelude.{ℕ, zero, suc}
use shrimpwisp.Prelude.{◌≡◌, refl, sym, subst, inl}
use shrimpwisp.Prelude.{true, false, none, some}
use shrimpwisp.Prelude.{[], ◌∷◌, ◌++◌, arith}
use shrimpwisp.Prelude.{get_elem?}
use shrimpwisp.Prelude.Bytes.{Bytes, IsU32}
use shrimpwisp.Net.{SocketAddr}
use shrimpwisp.Proxy.{ProxyStream, tcp_stream, connecting}
use shrimpwisp.Proxy.Table.{sparse_get, direct_get, get, len}
use shrimpwisp.Backend.{write_now, tcp_try_write, flush_early}
use shrimpwisp.Config.{default_config, continue_threshold}
use shrimpwisp.Conn.{tcp_connected, tcp_connect}
use shrimpwisp.Protocol.{packet_connect}
use shrimpwisp.Proxy.Laws.{IsTable}
use shrimpwisp.Conn.Invariant.{Permitted, StreamOk, Invariant}
use shrimpwisp.Examples.{
  slow_backend, slow_backend-IsBackend, hello, example_net, example_dns, example_at,
  example_connect, example_connect_bytes, start, connecting_state, connecting_Reach, waiting,
  open_tcp, open_stream_1,
}
use shrimpwisp.Conn.Data.{data_packet}
use shrimpwisp.Conn.Connect.{handle_connect}
use shrimpwisp.Conn.Control.{handle_control_event}
use shrimpwisp.Conn.Inbound.{wisp}
use shrimpwisp.Conn.Steps.{inbound, opened}
use shrimpwisp.Conn.Safety.{Step-Invariant, Reach-Invariant, Reach-Permitted}
use shrimpwisp.Conn.Delivery.{Opened, Refused, tcp_connected_lem}
use shrimpwisp.Conn.Answers.{Answered, handle_connect-Answered}

default-IsU32 : IsU32 default_config.buffer_size
default-IsU32 = omega arith

abbrev example_addr : SocketAddr
example_addr = record { ip = v4 example_ip; port = 443 }

-- The task of the first stream.
connect_spawned : get_elem? connecting_state.tasks 0 ≡ some (tcp_connect 1 example_addr 0 false)
unfolding stream_type_from_byte is_utf8 u16_from_le is_unspecified len
connect_spawned =
    unfold handle_inbound connect_packet handle_connect dispatch handle_tcp_connect fresh_flag
      new_flag insert_stream insert resolve tcp_resolved spawn new_conn new_table
      parse_connect_payload dns_resolve get_cached lookup_and_store store_resolved store_sorted
      order_addrs is_ip_blocked is_hostname_blocked is_port_blocked
      is_hostname_blocked_pre_resolution contains in
    refl

Reach-Permitted_example : Permitted default_config example_addr
Reach-Permitted_example =
    Reach-Permitted slow_backend default_config example_net default-IsU32 connecting_state
      connecting_Reach 0 1 example_addr 0 false [] (inl connect_spawned)

Step-Invariant_example : Invariant default_config connecting_state
Step-Invariant_example =
    Step-Invariant slow_backend default_config example_net default-IsU32 start connecting_state
      (inbound example_at 0 (wisp packet_connect 1 example_connect_bytes) start)
      (Reach-Invariant slow_backend default_config example_net default-IsU32 start
        (opened example_dns 0 tt))

handle_connect-Answered_example :
    Answered default_config example_net example_at 1 example_connect start
      (handle_connect default_config example_net example_at 1 example_connect start)
handle_connect-Answered_example =
    handle_connect-Answered default_config example_net example_at 1 example_connect start

-- A table with one stream at ID 1.
one-IsTable : (st : ProxyStream Bytes) → IsTable (open_stream_1 st).table
one-IsTable st = record {
  counted = unfold count_some in refl;
  short = omega arith;
  distinct = tt;
  room = inl refl;
}

one-get : (st : ProxyStream Bytes) → get 1 (open_stream_1 st).table ≡ some st
one-get st = unfold get direct_get in refl

one-StreamOk :
    (st : ProxyStream Bytes)
    → ((id : ℕ) → StreamOk default_config [] 1 id (some st))
    → (id : ℕ) → StreamOk default_config [] 1 id (get id (open_stream_1 st).table)
one-StreamOk st ok zero = unfold get direct_get in tt
one-StreamOk st ok (suc zero) = subst (StreamOk default_config [] 1 1) (sym (one-get st)) (ok 1)
one-StreamOk st ok (suc (suc n)) =
    subst (StreamOk default_config [] 1 (suc (suc n))) (sym (beyond n)) tt
  where
    beyond : (k : ℕ) → get (suc (suc k)) (open_stream_1 st).table ≡ none
    beyond k = unfold get direct_get sparse_get in ground arith

open-Invariant : Invariant default_config (open_stream_1 (tcp_stream open_tcp))
open-Invariant = record {
  table_ok = one-IsTable (tcp_stream open_tcp);
  streams_ok =
      one-StreamOk (tcp_stream open_tcp)
        λ id. (omega arith, (λ e. cc), (λ e. cc), unfold continue_threshold in omega arith);
  tasks_ok = tt;
  cache_ok = tt;
  datagrams_ok = tt;
}

waiting-Invariant : Invariant default_config (open_stream_1 (connecting waiting))
waiting-Invariant = record {
  table_ok = one-IsTable (connecting waiting);
  streams_ok = one-StreamOk (connecting waiting) (λ id. (omega arith, omega arith));
  tasks_ok = tt;
  cache_ok = tt;
  datagrams_ok = tt;
}

tcp_connected_lem_example :
    (((flush_early slow_backend (hello ∷ []) []).dead ≡ true)
      × Refused slow_backend slow_backend-IsBackend default_config 1
          (open_stream_1 (connecting waiting))
          (handle_control_event slow_backend default_config
            (tcp_connected 1 [] 0)
            (open_stream_1 (connecting waiting))))
    ⊎ (((flush_early slow_backend (hello ∷ []) []).dead ≡ false)
        × Opened slow_backend slow_backend-IsBackend default_config 1 [] waiting
            (open_stream_1 (connecting waiting))
            (handle_control_event slow_backend default_config
              (tcp_connected 1 [] 0)
              (open_stream_1 (connecting waiting))))
tcp_connected_lem_example =
    tcp_connected_lem slow_backend slow_backend-IsBackend default_config 1 [] 0 waiting
      (open_stream_1 (connecting waiting)) waiting-Invariant (one-get (connecting waiting))

-- A backend that has gone.
abbrev gone_backend : BackendWriter
gone_backend = record {
  Sock = Bytes;
  try_write = λ s b. (fatal, s);
  try_write_vectored = λ s bs. (fatal, s);
  received = λ s. s;
}

gone_backend-IsBackend : IsBackend gone_backend
gone_backend-IsBackend = record {
  write_fits = λ s b. tt;
  write_received = λ s b. sym (append-nil s);
  vectored_fits = λ s bs. tt;
  vectored_received = λ s bs. sym (append-nil s);
}

data_packet_dead_example :
    (get 1
        (data_packet gone_backend default_config 1 hello
          (open_stream_1 (tcp_stream open_tcp))).table
      ≡ none)
    × (is_cancelled 0
          (data_packet gone_backend default_config 1 hello
            (open_stream_1 (tcp_stream open_tcp))).flags
        ≡ true)
    × ((data_packet gone_backend default_config 1 hello
          (open_stream_1 (tcp_stream open_tcp))).to_client
        ≡ (open_stream_1 (tcp_stream open_tcp)).to_client
          ++ (binary (build_close_frame 1 network_error) ∷ []))
data_packet_dead_example =
    data_packet_dead gone_backend gone_backend-IsBackend default_config 1 hello open_tcp
      (open_stream_1 (tcp_stream open_tcp)) (one-IsTable (tcp_stream open_tcp))
      (one-get (tcp_stream open_tcp)) (unfold tcp_try_write write_now in refl)

-- The connect of the first stream ends, and its reader runs.
abbrev connect_done : Conn Bytes
connect_done = connect_ends 1 0 (established []) connecting_state

abbrev reading_state : Conn Bytes
reading_state = drain_control slow_backend default_config connect_done

reading_Reach : Reach slow_backend default_config example_net reading_state
reading_Reach =
    stepped connect_done reading_state
      (stepped connecting_state connect_done connecting_Reach
        (connect_task 0 1 example_addr 0 false (established []) connecting_state connect_spawned))
      (phase1 connect_done)

Reach-reader_example : Owns default_config 1 1 (get 1 reading_state.table)
unfolding stream_type_from_byte is_utf8 u16_from_le is_unspecified len tcp_reader_wakes cancel_flag
    stream_flag
Reach-reader_example =
    Reach-reader slow_backend default_config example_net default-IsU32 reading_state reading_Reach 1
      1 1 0 [] hello
      (inl (
        unfold handle_inbound connect_packet handle_connect dispatch handle_tcp_connect fresh_flag
              new_flag insert_stream insert resolve tcp_resolved spawn new_conn new_table
              parse_connect_payload dns_resolve get_cached lookup_and_store store_resolved
              store_sorted order_addrs is_ip_blocked is_hostname_blocked is_port_blocked
              is_hostname_blocked_pre_resolution contains drain_control control_events control_event
              handle_control_event connect_ends post remove take_out connected open_stream
              flush_early with_pending send in
            refl,
        unfold handle_inbound connect_packet handle_connect dispatch handle_tcp_connect fresh_flag
              new_flag insert_stream insert resolve tcp_resolved spawn new_conn new_table
              parse_connect_payload dns_resolve get_cached lookup_and_store store_resolved
              store_sorted order_addrs is_ip_blocked is_hostname_blocked is_port_blocked
              is_hostname_blocked_pre_resolution contains drain_control control_events control_event
              handle_control_event connect_ends post remove take_out connected open_stream
              flush_early with_pending send in
            refl,
      ))

-- Two packets on an open stream.
two_packets_alive :
    AllAlive slow_backend slow_backend-IsBackend default_config 1
      (hello ∷ hello ∷ [])
      (open_stream_1 (tcp_stream open_tcp))
unfolding AllAlive get tcp_try_write data_packet continue_threshold put drain_pending drain_single
two_packets_alive = (refl, (refl, tt))

data_packets-Credited_example :
    Credited slow_backend slow_backend-IsBackend default_config 1
      (hello ∷ hello ∷ [])
      open_tcp
      (open_stream_1 (tcp_stream open_tcp))
      (data_packets slow_backend slow_backend-IsBackend default_config 1
        (hello ∷ hello ∷ [])
        (open_stream_1 (tcp_stream open_tcp)))
data_packets-Credited_example =
    data_packets-Credited slow_backend slow_backend-IsBackend default_config 1 (hello ∷ hello ∷ [])
      open_tcp (open_stream_1 (tcp_stream open_tcp)) default-IsU32 open-Invariant
      (one-get (tcp_stream open_tcp)) two_packets_alive
