-- ===== src/Protocol.antt =====
-- src/protocol/types.rs: the constants, enums and payloads of Wisp v2.1, and the `WispFrame` enum of
-- src/protocol/frame.rs.
pub mod Frame
pub mod Build
pub mod Encoding
pub mod RoundTrip
pub mod Bounds
use shrimpwisp.Prelude.{ℕ}
use shrimpwisp.Prelude.{Option, none, some}
use shrimpwisp.Prelude.{List}
use shrimpwisp.Prelude.{◌==◌, if◌then◌else◌}
use shrimpwisp.Prelude.Bytes.{Bytes}

abbrev pub wisp_version_major : ℕ
wisp_version_major = 2

abbrev pub wisp_version_minor : ℕ
wisp_version_minor = 1

abbrev pub packet_connect : ℕ
packet_connect = 0x01

abbrev pub packet_data : ℕ
packet_data = 0x02

abbrev pub packet_continue : ℕ
packet_continue = 0x03

abbrev pub packet_close : ℕ
packet_close = 0x04

abbrev pub packet_info : ℕ
packet_info = 0x05

abbrev pub stream_id_control : ℕ
stream_id_control = 0

abbrev pub wisp_header_size : ℕ
wisp_header_size = 5

pub data StreamType : Type 0 where
  tcp udp : StreamType

-- `StreamType::from_byte`.
unfoldable pub stream_type_from_byte : ℕ → Option StreamType
stream_type_from_byte b = if b == 0x01 then some tcp else if b == 0x02 then some udp else none

-- `as u8` of the two enums.
unfoldable pub stream_type_as_byte : StreamType → ℕ
stream_type_as_byte tcp = 0x01
stream_type_as_byte udp = 0x02

pub data CloseReason : Type 0 where
  unknown voluntary network_error incompatible_extensions : CloseReason
  invalid_info unreachable timed_out refused transfer_timeout blocked throttled : CloseReason
  client_error auth_invalid_credentials auth_invalid_signature auth_required : CloseReason

-- `CloseReason::from_byte`.
unfoldable pub close_reason_from_byte : ℕ → CloseReason
close_reason_from_byte b =
    if b == 0x01
    then unknown
    else if b == 0x02
    then voluntary
    else if b == 0x03
    then network_error
    else if b == 0x04
    then incompatible_extensions
    else if b == 0x41
    then invalid_info
    else if b == 0x42
    then unreachable
    else if b == 0x43
    then timed_out
    else if b == 0x44
    then refused
    else if b == 0x47
    then transfer_timeout
    else if b == 0x48
    then blocked
    else if b == 0x49
    then throttled
    else if b == 0x81
    then client_error
    else if b == 0xc0
    then auth_invalid_credentials
    else if b == 0xc1
    then auth_invalid_signature
    else if b == 0xc2
    then auth_required
    else unknown

-- `CloseReason::as_byte`, with the discriminants of the enum.
unfoldable pub close_reason_as_byte : CloseReason → ℕ
close_reason_as_byte unknown = 0x01
close_reason_as_byte voluntary = 0x02
close_reason_as_byte network_error = 0x03
close_reason_as_byte incompatible_extensions = 0x04
close_reason_as_byte invalid_info = 0x41
close_reason_as_byte unreachable = 0x42
close_reason_as_byte timed_out = 0x43
close_reason_as_byte refused = 0x44
close_reason_as_byte transfer_timeout = 0x47
close_reason_as_byte blocked = 0x48
close_reason_as_byte throttled = 0x49
close_reason_as_byte client_error = 0x81
close_reason_as_byte auth_invalid_credentials = 0xc0
close_reason_as_byte auth_invalid_signature = 0xc1
close_reason_as_byte auth_required = 0xc2

pub record ConnectPayload : Type 0 where
  pub stream_type : StreamType
  pub port : ℕ
  pub hostname : Bytes

pub record ExtensionEntry : Type 0 where
  pub ext_id : ℕ
  pub payload : Bytes

-- The variants of `WispFrame`; `data_frame` is the source's `Data`.
pub data WispFrame : Type 0 where
  connect : (stream_id : ℕ) → ConnectPayload → WispFrame
  data_frame : (stream_id : ℕ) → Bytes → WispFrame
  continue : (stream_id buffer_remaining : ℕ) → WispFrame
  close : (stream_id : ℕ) → CloseReason → WispFrame
  info : (stream_id major_version minor_version : ℕ) → List ExtensionEntry → WispFrame
