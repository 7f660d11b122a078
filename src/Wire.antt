-- ===== src/Wire.antt =====
-- The WebSocket framing of src/server/connection.rs: the headers that the server writes by hand.
pub mod Decode
pub mod Writer
pub mod Delivery
pub mod Batch
pub mod Relay
pub mod Preframe
use shrimpwisp.Prelude.{ℕ, ◌+◌, ◌/◌, ◌%◌, min}
use shrimpwisp.Prelude.{[], ◌∷◌, ◌++◌}
use shrimpwisp.Prelude.{leb, if◌then◌else◌}
use shrimpwisp.Prelude.{length, take}
use shrimpwisp.Prelude.Bytes.{Bytes}
use shrimpwisp.Prelude.Bytes.{u64_to_be}

-- FIN with the opcodes binary, close, ping and pong.
abbrev pub op_binary : ℕ
op_binary = 0x82

abbrev pub op_close : ℕ
op_close = 0x88

abbrev pub op_ping : ℕ
op_ping = 0x89

abbrev pub op_pong : ℕ
op_pong = 0x8a

-- The header of a binary message of `len` bytes in `write_ws_binary_frame`: 2, 4 or 10 bytes.
unfoldable pub ws_binary_header : ℕ → Bytes
ws_binary_header len =
    if leb len 125
    then op_binary ∷ len ∷ []
    else if leb len 65535
    then op_binary ∷ 126 ∷ len / 256 % 256 ∷ len % 256 ∷ []
    else op_binary ∷ 127 ∷ u64_to_be len

-- A binary message, whole.
unfoldable pub ws_binary_frame : Bytes → Bytes
ws_binary_frame payload = ws_binary_header (length payload) ++ payload

-- The frame of `write_ws_pong_frame`: at most 125 bytes of the payload go back.
unfoldable pub ws_pong_frame : Bytes → Bytes
ws_pong_frame payload = let p = take (min (length payload) 125) payload in op_pong ∷ length p ∷ p

abbrev pub ws_ping_frame : Bytes
ws_ping_frame = op_ping ∷ 0x00 ∷ []

abbrev pub ws_close_frame : Bytes
ws_close_frame = op_close ∷ 0x00 ∷ []
