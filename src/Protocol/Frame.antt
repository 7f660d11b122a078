-- ===== src/Protocol/Frame.antt =====
-- The parsers of src/protocol/frame.rs.
use shrimpwisp.Protocol.{wisp_header_size}
use shrimpwisp.Prelude.{ℕ, zero, suc, ◌≤◌}
use shrimpwisp.Prelude.{◌≡◌, refl}
use shrimpwisp.Prelude.{Option, none, some}
use shrimpwisp.Prelude.{List, [], ◌∷◌, ◌++◌, arith}
use shrimpwisp.Prelude.{ltb, ◌==◌, if◌then◌else◌}
use shrimpwisp.Prelude.{length, take, drop}
use shrimpwisp.Prelude.{length-drop}
use shrimpwisp.Prelude.Bytes.{Bytes, u16_from_le, u32_from_le}
use shrimpwisp.Prelude.Bytes.{is_utf8}
use shrimpwisp.Protocol.{
  stream_type_from_byte, close_reason_from_byte, ConnectPayload, ExtensionEntry, WispFrame, connect,
  data_frame, continue, close, info, packet_connect, packet_data, packet_continue, packet_close,
  packet_info,
}

-- The frame of a CONNECT after its Wisp header: `parse_connect_payload`.
unfoldable pub parse_connect_payload : Bytes → Option ConnectPayload
parse_connect_payload (ty ∷ p0 ∷ p1 ∷ h ∷ hs) = elim (stream_type_from_byte ty) [
  | none ↦ none
  | some stream_type ↦
      if ltb 253 (length (h ∷ hs))
      then none
      else if is_utf8 (h ∷ hs)
      then some (record { stream_type = stream_type; port = u16_from_le p0 p1; hostname = h ∷ hs })
      else none
]
parse_connect_payload _ = none

-- `parse_connect`, which the source writes out a second time.
unfoldable pub parse_connect : ℕ → Bytes → Option WispFrame
parse_connect stream_id (ty ∷ p0 ∷ p1 ∷ h ∷ hs) = elim (stream_type_from_byte ty) [
  | none ↦ none
  | some stream_type ↦
      if ltb 253 (length (h ∷ hs))
      then none
      else if is_utf8 (h ∷ hs)
      then some (
          connect stream_id
            (record { stream_type = stream_type; port = u16_from_le p0 p1; hostname = h ∷ hs }))
      else none
]
parse_connect stream_id _ = none

unfoldable pub parse_continue : ℕ → Bytes → Option WispFrame
parse_continue stream_id (b0 ∷ b1 ∷ b2 ∷ b3 ∷ rest) =
    some (continue stream_id (u32_from_le b0 b1 b2 b3))
parse_continue stream_id _ = none

unfoldable pub parse_close : ℕ → Bytes → Option WispFrame
parse_close stream_id [] = none
parse_close stream_id (b ∷ rest) = some (close stream_id (close_reason_from_byte b))

-- The `while data.len() >= 5` loop of `parse_extensions`, with what it pushed so far. Each round
-- takes five bytes at least, so `length data` rounds are enough: `parse_extensions_loop_fuel`.
unfoldable pub parse_extensions_loop : ℕ → Bytes → List ExtensionEntry → List ExtensionEntry
parse_extensions_loop (suc fuel) (id ∷ l0 ∷ l1 ∷ l2 ∷ l3 ∷ rest) extensions =
    let len = u32_from_le l0 l1 l2 l3 in
    let more =
      parse_extensions_loop fuel (drop len rest)
        (extensions ++ (record { ext_id = id; payload = take len rest } ∷ [])) in
    if ltb (length rest) len then extensions else more
parse_extensions_loop _ _ extensions = extensions

unfoldable pub parse_extensions : Bytes → List ExtensionEntry
unfolding parse_extensions_loop
parse_extensions bytes = parse_extensions_loop (length bytes) bytes []

unfoldable pub parse_info : ℕ → Bytes → Option WispFrame
parse_info stream_id (major ∷ minor ∷ rest) =
    some (info stream_id major minor (parse_extensions rest))
parse_info stream_id _ = none

-- The dispatch on the packet type.
unfoldable pub parse_packet : ℕ → ℕ → Bytes → Option WispFrame
parse_packet packet_type stream_id payload =
    if packet_type == packet_data
    then some (data_frame stream_id payload)
    else if packet_type == packet_connect
    then parse_connect stream_id payload
    else if packet_type == packet_continue
    then parse_continue stream_id payload
    else if packet_type == packet_close
    then parse_close stream_id payload
    else if packet_type == packet_info
    then parse_info stream_id payload
    else none

unfoldable pub parse_wisp_frame : Bytes → Option WispFrame
unfolding parse_packet
parse_wisp_frame (packet_type ∷ i0 ∷ i1 ∷ i2 ∷ i3 ∷ payload) =
    parse_packet packet_type (u32_from_le i0 i1 i2 i3) payload
parse_wisp_frame _ = none

-- `buf[i]`, where the buffer is that long.
abbrev pub byte_at : ℕ → Bytes → ℕ
byte_at i [] = 0
byte_at zero (b ∷ bs) = b
byte_at (suc i) (b ∷ bs) = byte_at i bs

-- The parser of a buffer that it owns: a test of the length, then indices, then `advance`.
unfoldable pub parse_wisp_frame_owned : Bytes → Option WispFrame
unfolding parse_packet
parse_wisp_frame_owned buf =
    if ltb (length buf) wisp_header_size
    then none
    else parse_packet (byte_at 0 buf)
        (u32_from_le (byte_at 1 buf) (byte_at 2 buf) (byte_at 3 buf) (byte_at 4 buf))
        (drop wisp_header_size buf)

-- Both parsers agree.
parse_wisp_frame_owned_lem : (buf : Bytes) → parse_wisp_frame_owned buf ≡ parse_wisp_frame buf
unfolding parse_wisp_frame_owned parse_wisp_frame
parse_wisp_frame_owned_lem [] = refl
parse_wisp_frame_owned_lem (a ∷ []) = refl
parse_wisp_frame_owned_lem (a ∷ b ∷ []) = refl
parse_wisp_frame_owned_lem (a ∷ b ∷ c ∷ []) = refl
parse_wisp_frame_owned_lem (a ∷ b ∷ c ∷ d ∷ []) = refl
parse_wisp_frame_owned_lem (a ∷ b ∷ c ∷ d ∷ e ∷ buf) = ground arith

-- The loop's result does not depend on the fuel, once that covers the input.
pub parse_extensions_loop_fuel :
    (f g : ℕ) (bytes : Bytes) (acc : List ExtensionEntry)
    → length bytes ≤ f
    → length bytes ≤ g
    → parse_extensions_loop f bytes acc ≡ parse_extensions_loop g bytes acc
unfolding parse_extensions_loop
parse_extensions_loop_fuel zero zero bytes acc hf hg = refl
parse_extensions_loop_fuel zero (suc g) [] acc hf hg = refl
parse_extensions_loop_fuel zero (suc g) (b ∷ bs) acc hf hg = absurd (omega arith)
parse_extensions_loop_fuel (suc f) zero [] acc hf hg = refl
parse_extensions_loop_fuel (suc f) zero (b ∷ bs) acc hf hg = absurd (omega arith)
parse_extensions_loop_fuel (suc f) (suc g) (i ∷ l0 ∷ l1 ∷ l2 ∷ l3 ∷ rest) acc hf hg =
    let len : ℕ = u32_from_le l0 l1 l2 l3 in
    ground (
      arith,
      length-drop len rest,
      parse_extensions_loop_fuel f g (drop len rest)
          (acc ++ (record { ext_id = i; payload = take len rest } ∷ [])),
    )
parse_extensions_loop_fuel (suc f) (suc g) _ acc hf hg = refl
