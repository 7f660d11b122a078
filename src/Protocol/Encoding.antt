-- ===== src/Protocol/Encoding.antt =====
-- An independent description of the Wisp packets of src/protocol/frame.rs: the layout of each
-- packet, and which frames have one.
use shrimpwisp.Prelude.{ℕ, ◌/◌, ◌%◌, ◌≤◌, ◌<◌}
use shrimpwisp.Prelude.{◌≡◌, refl}
use shrimpwisp.Prelude.{true, some}
use shrimpwisp.Prelude.{[], ◌∷◌, ◌++◌, arith}
use shrimpwisp.Prelude.{length, All}
use shrimpwisp.Prelude.Bytes.{Bytes, IsByte, IsU16, IsU32}
use shrimpwisp.Prelude.Bytes.{u32_to_le}
use shrimpwisp.Prelude.Bytes.{is_utf8}
use shrimpwisp.Protocol.{
  StreamType, tcp, udp, stream_type_from_byte, stream_type_as_byte, CloseReason,
  close_reason_from_byte, close_reason_as_byte, ExtensionEntry, WispFrame, connect, data_frame,
  continue, close, info, packet_connect, packet_data, packet_continue, packet_close, packet_info,
}
use shrimpwisp.Protocol.Build.{put_extensions}

abbrev pub IsExtension : ExtensionEntry → Type 0
IsExtension e = IsByte e.ext_id × IsU32 (length e.payload)

-- The fields fit their widths; a hostname has 1 to 253 bytes of UTF-8.
abbrev pub IsWellFormed : WispFrame → Type 0
IsWellFormed (connect i p) =
    IsU32 i
    × IsU16 p.port
    × (0 < length p.hostname)
    × (length p.hostname ≤ 253)
    × (is_utf8 p.hostname ≡ true)
IsWellFormed (data_frame i p) = IsU32 i
IsWellFormed (continue i n) = IsU32 i × IsU32 n
IsWellFormed (close i r) = IsU32 i
IsWellFormed (info i a b es) = IsU32 i × All IsExtension es

abbrev pub header : ℕ → ℕ → Bytes
header packet_type stream_id = packet_type ∷ u32_to_le stream_id

-- The layout in the comments above the parsers.
unfoldable pub encode : WispFrame → Bytes
encode (connect i p) =
    header packet_connect i
    ++ ((stream_type_as_byte p.stream_type ∷ p.port % 256 ∷ p.port / 256 ∷ []) ++ p.hostname)
encode (data_frame i p) = header packet_data i ++ p
encode (continue i n) = header packet_continue i ++ u32_to_le n
encode (close i r) = header packet_close i ++ (close_reason_as_byte r ∷ [])
encode (info i a b es) = header packet_info i ++ (a ∷ b ∷ put_extensions es)

-- The parsers read back what the enums write.
pub stream_type_from_byte-as_byte :
    (t : StreamType) → stream_type_from_byte (stream_type_as_byte t) ≡ some t
unfolding stream_type_from_byte stream_type_as_byte
stream_type_from_byte-as_byte tcp = refl
stream_type_from_byte-as_byte udp = refl

pub stream_type_as_byte-from_byte :
    (b : ℕ) (t : StreamType) → stream_type_from_byte b ≡ some t → stream_type_as_byte t ≡ b
unfolding stream_type_from_byte stream_type_as_byte
stream_type_as_byte-from_byte b t h = ground arith

pub close_reason_from_byte-as_byte :
    (r : CloseReason) → close_reason_from_byte (close_reason_as_byte r) ≡ r
unfolding close_reason_from_byte close_reason_as_byte
close_reason_from_byte-as_byte r = ground arith
