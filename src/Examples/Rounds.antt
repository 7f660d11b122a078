-- ===== src/Examples/Rounds.antt =====
-- The select loop of src/server/connection.rs on concrete input.
use shrimpwisp.Prelude.{none}
use shrimpwisp.Prelude.{[], ◌∷◌, ◌++◌}
use shrimpwisp.Prelude.Bytes.{Bytes}
use shrimpwisp.Config.{ServerConfig, default_config}
use shrimpwisp.Conn.Loop.{Inbound, selecting, Loop, enter, to_select}
use shrimpwisp.Conn.Inbound.{wisp}
use shrimpwisp.Examples.{slow_backend, example_net, example_dns, example_at, example_connect_bytes}
use shrimpwisp.Protocol.{packet_connect}

-- A client asks for a stream; the loop runs to `select!`.
abbrev connect_in : Inbound
connect_in = record {
  at = example_at;
  now = 3;
  frame = wisp packet_connect 1 example_connect_bytes;
}

abbrev entered_loop : Loop Bytes
entered_loop = enter slow_backend default_config example_net example_dns 0 example_at none

abbrev filled_loop : Loop Bytes
filled_loop = record entered_loop { buffered = entered_loop.buffered ++ (connect_in ∷ []) }

abbrev first_round : Loop Bytes
first_round = to_select slow_backend default_config example_net 32 filled_loop

-- Thirty seconds without a frame.
abbrev idle_config : ServerConfig
idle_config = record default_config { idle_timeout_secs = 30 }

abbrev quiet_loop : Loop Bytes
quiet_loop = record (enter slow_backend idle_config example_net example_dns 0 example_at none) {
  place = selecting;
}
