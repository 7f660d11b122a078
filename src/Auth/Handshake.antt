-- ===== src/Auth/Handshake.antt =====
-- Step 2 of `handle_connection` in src/server/connection.rs, the Wisp handshake, and
-- `read_ws_binary_handshake`.
use shrimpwisp.Prelude.{ℕ}
use shrimpwisp.Prelude.{Bool, false, ◌&&◌, not, Option, none, some}
use shrimpwisp.Prelude.{List, [], ◌∷◌, ◌++◌}
use shrimpwisp.Prelude.{◌==◌, if◌then◌else◌}
use shrimpwisp.Prelude.Bytes.{Bytes, u32_from_le}
use shrimpwisp.Config.{ServerConfig, is_auth_required}
use shrimpwisp.Protocol.{
  CloseReason, incompatible_extensions, auth_invalid_credentials, auth_required,
  incompatible_extensions, auth_invalid_credentials, auth_required, ExtensionEntry, packet_info,
  stream_id_control, wisp_version_major,
}
use shrimpwisp.Protocol.Build.{
  build_close_frame, build_server_info_frame, build_initial_continue_frame,
}
use shrimpwisp.Auth.{parse_client_info_extensions, Crypto, verify_auth}

-- A WebSocket frame that arrives during the handshake.
pub data Incoming : Type 0 where
  binary_frame : Bytes → Incoming
  ping_frame : Bytes → Incoming
  close_frame other_frame : Incoming

-- What the server writes: a binary message or a pong.
pub data Written : Type 0 where
  message : Bytes → Written
  pong_message : Bytes → Written

-- How the handshake ends. `accepted` has the frame that is put off, if any.
pub data Outcome : Type 0 where
  accepted : Option Bytes → Outcome
  rejected : CloseReason → Outcome
  client_closed read_failed : Outcome

-- `read_ws_binary_handshake`: what it reads, and the pongs. The end of the list is a failed read.
pub data Read : Type 0 where
  payload_read : Bytes → Read
  closed_read failed_read : Read

unfoldable pub read_ws_binary_handshake : List Incoming → Read × List Written
read_ws_binary_handshake [] = (failed_read, [])
read_ws_binary_handshake (binary_frame b ∷ frames) = (payload_read b, [])
read_ws_binary_handshake (close_frame ∷ frames) = (closed_read, [])
read_ws_binary_handshake (ping_frame b ∷ frames) =
    let r = read_ws_binary_handshake frames in (r.0, pong_message b ∷ r.1)
read_ws_binary_handshake (other_frame ∷ frames) = read_ws_binary_handshake frames

-- `iter().find(|e| e.id == 0x02)`.
unfoldable pub find_auth : List ExtensionEntry → Option ExtensionEntry
find_auth [] = none
find_auth (e ∷ es) = if e.ext_id == 0x02 then some e else find_auth es

-- The test of S6: the major version, where the payload is an INFO frame for the control stream.
unfoldable pub info_major : Bytes → Option ℕ
info_major (ty ∷ i0 ∷ i1 ∷ i2 ∷ i3 ∷ major ∷ minor ∷ rest) =
    if ty == packet_info && u32_from_le i0 i1 i2 i3 == stream_id_control then some major else none
info_major _ = none

module _ (crypto : Crypto) (config : ServerConfig) where
  abbrev pub auth_ok : Option ExtensionEntry → Bool
  auth_ok none = false
  auth_ok (some ext) = verify_auth crypto ext.payload config

  unfoldable pub authenticated : Bytes → Bool
  unfolding parse_client_info_extensions find_auth
  authenticated payload = auth_ok (find_auth (parse_client_info_extensions payload))

  abbrev reject : CloseReason → Outcome × List Written
  reject reason = (rejected reason, message (build_close_frame stream_id_control reason) ∷ [])

  abbrev accept : Option Bytes → Outcome × List Written
  accept deferred =
      (accepted deferred, message (build_initial_continue_frame config.buffer_size) ∷ [])

  -- The first binary message of a v2 client.
  unfoldable pub first_frame : Bytes → Outcome × List Written
  unfolding info_major authenticated
  first_frame payload = elim (info_major payload) [
    | some major ↦
        if major == wisp_version_major
        then if is_auth_required config && not (authenticated payload)
          then reject auth_invalid_credentials
          else accept none
        else reject incompatible_extensions
    | none ↦ if is_auth_required config then reject auth_required else accept (some payload)
  ]

  unfoldable pub after_read : Read → Outcome × List Written
  unfolding first_frame
  after_read (payload_read payload) = first_frame payload
  after_read closed_read = (client_closed, [])
  after_read failed_read = (read_failed, [])

  unfoldable pub handshake : Bool → List Incoming → Outcome × List Written
  unfolding read_ws_binary_handshake after_read
  handshake is_v2 frames =
      let r : Read × List Written = read_ws_binary_handshake frames in
      let a : Outcome × List Written = after_read r.0 in
      if is_v2
      then (a.0, message (build_server_info_frame []) ∷ r.1 ++ a.1)
      else if is_auth_required config
      then reject auth_required
      else accept none
