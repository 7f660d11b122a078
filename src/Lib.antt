-- ===== src/Lib.antt =====
-- The shrimpwisp server: a proxy that carries TCP and UDP streams over one WebSocket, by the Wisp v2.1
-- protocol.
--
-- A worker accepts connections (src/server/mod.rs), upgrades them to WebSocket (src/ws/), does the Wisp
-- handshake and runs one loop per connection (src/server/connection.rs). The loop reads Wisp frames
-- (src/protocol/), keeps the streams in a table (src/proxy/), writes DATA to backend sockets without
-- blocking, and spawns tasks that connect, or read from backends; the tasks report on two channels.
-- CONNECT passes the filters and the address policy (src/server/config.rs, src/server/security.rs) and
-- the DNS cache (src/server/dns.rs). src/main.rs puts the configuration together.
--
-- The files, and what they are about:
--
--   Protocol, Protocol/Frame, Protocol/Build: src/protocol/types.rs and frame.rs, the types, the parsers
--     and the builders under their own names. Encoding is the layout that the parsers are compared with;
--     RoundTrip and Bounds have the theorems.
--   Wire, Wire/Writer, Wire/Preframe: the WebSocket frames that src/server/connection.rs writes by hand,
--     its writers (`write_ws_binary_frame`, `write_ws_frames_batched`, `flush_continues_direct`) and the
--     framing inside `backend_tcp_reader`. Decode is a reader of unmasked frames to compare with.
--     Delivery, Batch and Preframe have the theorems; Relay goes from a read of a backend to the client.
--   Net: the addresses of the Rust standard library.
--   Proxy, Proxy/Table: src/proxy/stream.rs. A cancel flag is the number of a cell, so clones share it;
--     `StreamTable::remove` is `take_out` here and `remove` in Conn, where it raises the flag. A stream
--     that `get_mut` returns is read by `get` and written back by `put`. Cells and Laws have the theorems;
--     Reference compares the table with one map.
--   Backend: `tcp_try_write`, `drain_pending` and the flush of early data in src/server/connection.rs,
--     over a socket of which only the documented behaviour is known. Drain, Fields and Delivery have the
--     theorems.
--   Config, Config/Merge, Config/Startup: src/server/config.rs and the part of `main` in src/main.rs that
--     makes the configuration. Filters and Startup have the theorems.
--   Security, Security/Names, Security/RealIp, Security/Trusted: src/server/security.rs and the use of
--     real IPs in `handle_connection`. Policy, Literals, RealIp and Trusted have the theorems.
--   Dns: src/server/dns.rs and `dns_resolve_no_hold`. Dns/Laws has the theorems.
--   Auth, Auth/Handshake: the authentication and step 2 of `handle_connection` in
--     src/server/connection.rs. Auth/Laws and Auth/Accepts have the theorems.
--   Upgrade: src/ws/upgrade.rs, the HTTP service that upgrades to WebSocket, over the header map of the
--     crate http and the upgrade of fastwebsockets. Upgrade/Requests and Upgrade/Headers have the theorems.
--   Cores: `num_physical_cores` of src/main.rs. Cores/Entries, Cores/Count and Cores/Laws have the theorems.
--   Conn: the variables of `handle_connection`, its tasks and its channels. Conn/Data is
--     `handle_data_zerocopy`, Conn/Connect is `handle_connect` and the two functions below it,
--     Conn/Control is `handle_control_event` and Phase 1, Conn/Phases is Phase 0, Phase 2 and the timers,
--     Conn/Inbound is `handle_inbound!` and `process_inbound_frame`, Conn/Reader is the tasks from one
--     await to the next. Conn/Steps makes a step relation of these. Conn/Invariant, Conn/Changes and
--     Conn/Preserve carry the invariant through every handler; Safety, Delivery, Credit and Answers have
--     the theorems. Conn/Loop is the select loop itself, the full and the lean variant as one, since the
--     lean one is what the full one is where both timers are off; Conn/Loop/Moves lets frames come in and
--     the tasks act between its parts. Untouched, Laws, Order, Budget and Endings have the
--     theorems.
--   Session: `handle_connection` from the upgrade to the loop. Session/Laws has the theorems.
--   Accept: the limits of `accept_loop` in src/server/mod.rs. Accept/Laws has the theorems on one accept,
--     Accept/Rate those on the rate of an address, Accept/Runs those on the life of a worker, Accept/Server those on all workers together.
--   Launch: `run_thread_per_core` and `create_reuseport_listener` of src/server/mod.rs, as the calls that
--     they make of the operating system. Launch/Laws has the theorems.
--   Examples: concrete values for the theorems.
--   Prelude: shared names, lists over native numbers, bytes.
--
-- How the model is made. Bytes are natural numbers; what a width cuts off is written out. Sockets, the
-- resolver, the parsers of addresses, bcrypt and the constant-time comparison are parameters, with their
-- documented behaviour as named hypotheses (`IsBackend`, `IsWriter`, `IsHttp`,
-- `IsNets`). Time is a number of ticks, given to
-- each call. A handler runs from its start to its end as one step. What the resolver
-- answers, the times before and after it, the UDP socket and whether the control channel has room are
-- given to that step (`Circumstances`), so they may differ from step to step; other connections change
-- the DNS cache between steps. A reader checks its flag and parks its frame in one step, and its `send`
-- completes in another, when the channel has room. A handler that posts without room waits for ever, and
-- the model takes no further step of the loop. The client may be gone at any time (`writer_closed`): the
-- writes whose result the code looks at then end the loop, the others are ignored. What is handed to the
-- writers of the client is the list `to_client`. The tasks act between the frames of the inner loop, the
-- flush, the phases and `select!` (the moves of Conn/Loop/Moves); that they act inside a handler or a phase,
-- too, is not modelled.
--
-- Fuel. `parse_extensions` and `parse_client_info_extensions` take five bytes a round and get as many
-- rounds as there are bytes; their results do not depend on more. The loop of `write_ws_binary_frame`
-- sends a byte of the header a round and gets as many rounds as the header has bytes. `chunks` gets as
-- many rounds as there are frames. All other loops are over lists, or count the workers.
--
-- Not modelled: HTTP itself and the vendored fastwebsockets (third-party parsers), threads and sockets
-- beyond what is asked of them, the socket options of a connection, the reading of files by serde_json
-- and of arguments by clap, the networks of the crate ipnet beyond their documented behaviour, and
-- logging.
pub mod Prelude
pub mod Protocol
pub mod Wire
pub mod Net
pub mod Proxy
pub mod Backend
pub mod Config
pub mod Security
pub mod Dns
pub mod Launch
pub mod Conn
pub mod Auth
pub mod Upgrade
pub mod Session
pub mod Cores
pub mod Accept
pub mod Examples
