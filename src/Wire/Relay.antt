-- ===== src/Wire/Relay.antt =====
-- The way of backend data to the client in src/server/connection.rs: reads of `backend_tcp_reader`,
-- batched writes, and a client that takes the frames apart.
use shrimpwisp.Prelude.{ℕ, zero, suc, ◌+◌, ◌^◌, ◌≤◌, ◌<◌}
use shrimpwisp.Prelude.{◌≡◌, refl, ap, ◌∙◌}
use shrimpwisp.Prelude.{Option, none, some}
use shrimpwisp.Prelude.{List, [], ◌∷◌, ◌++◌, map, arith}
use shrimpwisp.Prelude.{◌==◌, if◌then◌else◌}
use shrimpwisp.Prelude.{length, is_empty, concat, All}
use shrimpwisp.Prelude.Bytes.{Bytes, IsU32}
use shrimpwisp.Protocol.{unknown, WispFrame, data_frame}
use shrimpwisp.Protocol.Frame.{parse_wisp_frame}
use shrimpwisp.Protocol.Build.{build_data_header}
use shrimpwisp.Wire.{op_binary, ws_binary_frame}
use shrimpwisp.Wire.Writer.{ClientWriter, IsWriter, write_ws_frames_batched}
use shrimpwisp.Protocol.RoundTrip.{parse_wisp_frame-build}
use shrimpwisp.Wire.Preframe.{preframe_reserve, preframe, preframe-ws_binary_frame}
use shrimpwisp.Wire.Decode.{decode_frame, decode_frame-ws_binary_frame}
use shrimpwisp.Wire.Delivery.{Delivers}
use shrimpwisp.Wire.Batch.{write_ws_frames_batched-Delivers}

-- A read of a reader task: the stream, the buffer that it read into, and the bytes.
pub record BackendRead : Type 0 where
  pub stream_id : ℕ
  pub buf : Bytes
  pub bytes : Bytes

abbrev pub IsRead : BackendRead → Type 0
IsRead r = IsU32 r.stream_id × (preframe_reserve + 65536 ≤ length r.buf) × (length r.bytes ≤ 65536)

abbrev pub frame_of : BackendRead → Bytes
frame_of r = preframe r.stream_id r.buf r.bytes

abbrev pub packet_of : BackendRead → WispFrame
packet_of r = data_frame r.stream_id r.bytes

-- A client that reads `n` binary messages, each a Wisp packet, and nothing more.
unfoldable pub client_reads : ℕ → Bytes → Option (List WispFrame)
client_reads zero b = if is_empty b then some [] else none
client_reads (suc n) b = elim (decode_frame b) [
  | none ↦ none
  | some (op, p, more) ↦
      let rest = client_reads n more in
      if op == op_binary
      then elim (parse_wisp_frame p) [
        | none ↦ none
        | some f ↦ elim rest [ none ↦ none | some fs ↦ some (f ∷ fs) ]
      ]
      else none
]

frame_of-ws :
    (r : BackendRead)
    → IsRead r
    → (frame_of r ≡ ws_binary_frame (build_data_header r.stream_id ++ r.bytes))
      × (parse_wisp_frame (build_data_header r.stream_id ++ r.bytes) ≡ some (packet_of r))
      × (length (build_data_header r.stream_id ++ r.bytes) < 2 ^ 64)
frame_of-ws r h = (
  preframe-ws_binary_frame r.stream_id r.buf r.bytes h.1 h.2,
  (parse_wisp_frame-build r.stream_id 0 unknown [] r.bytes h.0 (omega arith) tt).4,
  unfold build_data_header in omega (arith, h.2),
)

client_reads-frames :
    (reads : List BackendRead)
    → All IsRead reads
    → client_reads (length reads) (concat (map frame_of reads)) ≡ some (map packet_of reads)
unfolding client_reads
client_reads-frames [] h = refl
client_reads-frames (r ∷ reads) h =
    let (frame, packet, short) = frame_of-ws r h.0 in
    let more = concat (map frame_of reads) in
    let first : decode_frame (frame_of r ++ more)
        ≡ some (op_binary, build_data_header r.stream_id ++ r.bytes, more) =
      ap (λ f. decode_frame (f ++ more)) frame
      ∙ decode_frame-ws_binary_frame (build_data_header r.stream_id ++ r.bytes) more short in
    rw (client_reads, first, packet, client_reads-frames reads h.1) refl

module _ (w : ClientWriter) (law : IsWriter w) where
  -- Where the client socket behaves as documented, for reads of at most 65536 bytes into buffers
  -- of the reader's size, of streams whose IDs fit 32 bits: if the batched write of their frames
  -- succeeds, the socket has sent the frames, and a client reads them as one DATA packet for each
  -- read, with its stream ID and its bytes, in order; and no loop of the write runs out of
  -- rounds.
  pub relay-Delivers :
      (reads : List BackendRead) (s : w.Sock)
      → All IsRead reads
      → Delivers w
          (w.sent s)
          (concat (map frame_of reads))
          (write_ws_frames_batched w (map frame_of reads) s)
        × (client_reads (length reads) (concat (map frame_of reads)) ≡ some (map packet_of reads))
  relay-Delivers reads s h =
      (write_ws_frames_batched-Delivers w law (map frame_of reads) s, client_reads-frames reads h)
