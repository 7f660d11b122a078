-- ===== src/Examples/Protocol.antt =====
-- The codec of src/protocol/ on concrete frames.
use shrimpwisp.Prelude.{◌++◌}
use shrimpwisp.Examples.{hello}
use shrimpwisp.Protocol.{refused, continue, info, data_frame}
use shrimpwisp.Protocol.Build.{
  build_data_header, build_continue_frame, build_close_frame, build_server_info_frame,
  build_initial_continue_frame,
}
use shrimpwisp.Protocol.RoundTrip.{parse_wisp_frame-build}
use shrimpwisp.Prelude.{◌≡◌, some, arith, refl, All, ◌∷◌, []}
use shrimpwisp.Prelude.Bytes.{IsByte, Bytes, is_utf8, u32_from_le}
use shrimpwisp.Protocol.{voluntary, voluntary, close_reason_from_byte, connect, close}
use shrimpwisp.Protocol.Frame.{parse_close, parse_packet, parse_wisp_frame}
use shrimpwisp.Protocol.Encoding.{IsWellFormed, encode}
use shrimpwisp.Examples.{example_connect}
use shrimpwisp.Protocol.RoundTrip.{parse_wisp_frame-encode}
use shrimpwisp.Protocol.Bounds.{parse_wisp_frame-IsWellFormed}

connect_fits : IsWellFormed (connect 1 example_connect)
connect_fits = (omega arith, omega arith, omega arith, omega arith, unfold is_utf8 in refl)

parse_wisp_frame-encode_example :
    parse_wisp_frame (encode (connect 1 example_connect)) ≡ some (connect 1 example_connect)
parse_wisp_frame-encode_example = parse_wisp_frame-encode (connect 1 example_connect) connect_fits

abbrev close_bytes : Bytes
close_bytes = 4 ∷ 7 ∷ 0 ∷ 0 ∷ 0 ∷ 2 ∷ []

close_bytes-IsByte : All IsByte close_bytes
close_bytes-IsByte =
    (omega arith, (omega arith, (omega arith, (omega arith, (omega arith, (omega arith, tt))))))

parse_wisp_frame-IsWellFormed_example : IsWellFormed (close 7 voluntary)
parse_wisp_frame-IsWellFormed_example =
    parse_wisp_frame-IsWellFormed close_bytes (close 7 voluntary) close_bytes-IsByte
      (unfold parse_wisp_frame parse_packet parse_close close_reason_from_byte u32_from_le in refl)

parse_wisp_frame-build_example :
    (parse_wisp_frame (build_close_frame 7 refused) ≡ some (close 7 refused))
    × (parse_wisp_frame (build_continue_frame 7 128) ≡ some (continue 7 128))
    × (parse_wisp_frame (build_initial_continue_frame 128) ≡ some (continue 0 128))
    × (parse_wisp_frame (build_server_info_frame []) ≡ some (info 0 2 1 []))
    × (parse_wisp_frame (build_data_header 7 ++ hello) ≡ some (data_frame 7 hello))
parse_wisp_frame-build_example =
    parse_wisp_frame-build 7 128 refused [] hello (omega arith) (omega arith) tt
