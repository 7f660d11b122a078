-- ===== src/Examples/Wire.antt =====
-- The framing and the writes of src/server/connection.rs on concrete sockets.
use shrimpwisp.Wire.Relay.{BackendRead, IsRead, frame_of, packet_of, client_reads, relay-Delivers}
use shrimpwisp.Prelude.{true, ◌⊎◌}
use shrimpwisp.Prelude.{List, All, map, concat, some, length}
use shrimpwisp.Prelude.{◌≡◌, refl, ap, length, zero, suc}
use shrimpwisp.Prelude.{ℕ, zero, suc}
use shrimpwisp.Prelude.{◌≡◌}
use shrimpwisp.Prelude.{some}
use shrimpwisp.Prelude.{[], ◌∷◌, ◌++◌, arith}
use shrimpwisp.Prelude.{concat}
use shrimpwisp.Prelude.Bytes.{Bytes}
use shrimpwisp.Wire.{ws_binary_frame}
use shrimpwisp.Wire.Writer.{write_ws_binary_frame, write_ws_frames_batched}
use shrimpwisp.Examples.{
  slow_backend, slow_backend-IsBackend, slow_writer, slow_writer-IsWriter, hello, open_tcp,
}
use shrimpwisp.Backend.{tcp_try_write}
use shrimpwisp.Wire.Delivery.{Delivers, write_ws_binary_frame-Delivers}
use shrimpwisp.Wire.Batch.{write_ws_frames_batched-Delivers}
use shrimpwisp.Wire.Preframe.{
  continue_frames, flush_continues_direct, flush_continues_direct-Delivers,
}
use shrimpwisp.Wire.{ws_binary_frame}
use shrimpwisp.Wire.Writer.{write_ws_binary_frame, write_ws_frames_batched}
use shrimpwisp.Backend.Drain.{total_bytes}
use shrimpwisp.Backend.Delivery.{total_bytes-tcp_try_write}

abbrev zeros : ℕ → Bytes
zeros zero = []
zeros (suc n) = 0 ∷ zeros n

write_ws_binary_frame-Delivers_example :
    Delivers slow_writer []
      (ws_binary_frame (zeros 200))
      (write_ws_binary_frame slow_writer (zeros 200) [])
write_ws_binary_frame-Delivers_example =
    write_ws_binary_frame-Delivers slow_writer slow_writer-IsWriter (zeros 200) []

write_ws_frames_batched-Delivers_example :
    Delivers slow_writer []
      (concat (hello ∷ hello ∷ []))
      (write_ws_frames_batched slow_writer (hello ∷ hello ∷ []) [])
write_ws_frames_batched-Delivers_example =
    write_ws_frames_batched-Delivers slow_writer slow_writer-IsWriter (hello ∷ hello ∷ []) []

flush_continues_direct-Delivers_example :
    Delivers slow_writer []
      (concat (continue_frames ((1, 128) ∷ (2, 128) ∷ [])))
      (flush_continues_direct slow_writer ((1, 128) ∷ (2, 128) ∷ []) [])
flush_continues_direct-Delivers_example =
    flush_continues_direct-Delivers slow_writer slow_writer-IsWriter ((1, 128) ∷ (2, 128) ∷ []) []

total_bytes-tcp_try_write_example :
    ((tcp_try_write slow_backend hello open_tcp).1 ≡ true)
    ⊎ (total_bytes slow_backend (tcp_try_write slow_backend hello open_tcp).0
        ≡ total_bytes slow_backend open_tcp ++ hello)
total_bytes-tcp_try_write_example =
    total_bytes-tcp_try_write slow_backend slow_backend-IsBackend hello open_tcp

length-zeros : (n : ℕ) → length (zeros n) ≡ n
length-zeros zero = refl
length-zeros (suc n) = ap suc (length-zeros n)

-- Two reads of one stream into buffers of zeros.
abbrev two_reads : List BackendRead
two_reads =
    record { stream_id = 1; buf = zeros 65551; bytes = hello }
    ∷ record { stream_id = 1; buf = zeros 65551; bytes = [] }
    ∷ []

two_reads-IsRead : All IsRead two_reads
two_reads-IsRead = (
  (omega arith, omega (arith, length-zeros 65551), omega arith),
  ((omega arith, omega (arith, length-zeros 65551), omega arith), tt),
)

relay-Delivers_example :
    Delivers slow_writer []
      (concat (map frame_of two_reads))
      (write_ws_frames_batched slow_writer (map frame_of two_reads) [])
    × (client_reads 2 (concat (map frame_of two_reads)) ≡ some (map packet_of two_reads))
relay-Delivers_example =
    relay-Delivers slow_writer slow_writer-IsWriter two_reads [] two_reads-IsRead
