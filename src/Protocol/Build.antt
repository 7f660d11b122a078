-- ===== src/Protocol/Build.antt =====
-- The frame builders of src/protocol/frame.rs (server to client).
use shrimpwisp.Prelude.{ℕ, ◌%◌}
use shrimpwisp.Prelude.{List, [], ◌∷◌, ◌++◌}
use shrimpwisp.Prelude.{length}
use shrimpwisp.Prelude.Bytes.{Bytes}
use shrimpwisp.Prelude.Bytes.{u32_to_le}
use shrimpwisp.Protocol.{
  CloseReason, close_reason_as_byte, ExtensionEntry, packet_data, packet_continue, packet_close,
  packet_info, stream_id_control, wisp_version_major, wisp_version_minor,
}

unfoldable pub build_data_header : ℕ → Bytes
build_data_header stream_id = packet_data ∷ u32_to_le stream_id

unfoldable pub build_continue_frame : ℕ → ℕ → Bytes
build_continue_frame stream_id buffer_remaining =
    packet_continue ∷ u32_to_le stream_id ++ u32_to_le buffer_remaining

unfoldable pub build_close_frame : ℕ → CloseReason → Bytes
build_close_frame stream_id reason =
    packet_close ∷ u32_to_le stream_id ++ (close_reason_as_byte reason ∷ [])

-- The `for ext in extensions` loop; `payload.len() as u32` wraps.
unfoldable pub put_extensions : List ExtensionEntry → Bytes
put_extensions [] = []
put_extensions (e ∷ es) =
    (e.ext_id ∷ u32_to_le (length e.payload % 4294967296)) ++ (e.payload ++ put_extensions es)

unfoldable pub build_server_info_frame : List ExtensionEntry → Bytes
unfolding put_extensions
build_server_info_frame extensions =
    packet_info ∷ u32_to_le stream_id_control
    ++ (wisp_version_major ∷ wisp_version_minor ∷ put_extensions extensions)

unfoldable pub build_initial_continue_frame : ℕ → Bytes
unfolding build_continue_frame
build_initial_continue_frame buffer_size = build_continue_frame stream_id_control buffer_size
