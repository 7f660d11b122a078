-- ===== src/Wire/Preframe.antt =====
-- Frames that src/server/connection.rs builds in one buffer: `backend_tcp_reader` and the reader of
-- `handle_udp_connect`, which frame what a backend sent, and `flush_continues_direct`.
use shrimpwisp.Prelude.{ℕ, ◌+◌, ◌-◌, ◌/◌, ◌%◌, ◌≤◌}
use shrimpwisp.Prelude.{◌≡◌, refl, sym, ap, ◌∙◌, inl, inr}
use shrimpwisp.Prelude.{List, [], ◌∷◌, ◌++◌, append-nil, arith}
use shrimpwisp.Prelude.{leb, if◌then◌else◌, Bool-cases}
use shrimpwisp.Prelude.{length, take, drop, concat}
use shrimpwisp.Prelude.{length-append, length-take}
use shrimpwisp.Prelude.{take-length-append, drop-length-append}
use shrimpwisp.Prelude.{drop-append_ge}
use shrimpwisp.Prelude.{take-append_ge}
use shrimpwisp.Prelude.Bytes.{Bytes}
use shrimpwisp.Prelude.Bytes.{u64_to_be}
use shrimpwisp.Wire.{op_binary, ws_binary_header, ws_binary_frame}
use shrimpwisp.Wire.Writer.{ClientWriter, IsWriter, Status, write_status, write_ws_binary_frame}
use shrimpwisp.Protocol.{wisp_header_size}
use shrimpwisp.Protocol.Build.{build_data_header, build_continue_frame}
use shrimpwisp.Wire.Delivery.{Delivers, write_ws_binary_frame-Delivers, write_status-Delivers}

abbrev pub ws_max_header_size : ℕ
ws_max_header_size = 10

abbrev pub preframe_reserve : ℕ
preframe_reserve = 15

-- `buf[i..i + bytes.len()].copy_from_slice(bytes)`.
unfoldable pub write_at : ℕ → Bytes → Bytes → Bytes
write_at i bytes buf = take i buf ++ (bytes ++ drop (i + length bytes) buf)

-- The header and the offset at which `backend_tcp_reader` writes it, right before the Wisp header.
unfoldable pub preframe_header : ℕ → ℕ × Bytes
preframe_header ws_payload_len =
    if leb ws_payload_len 125
    then (preframe_reserve - wisp_header_size - 2, op_binary ∷ ws_payload_len ∷ [])
    else if leb ws_payload_len 65535
    then (
      preframe_reserve - wisp_header_size - 4,
      op_binary ∷ 126 ∷ ws_payload_len / 256 % 256 ∷ ws_payload_len % 256 ∷ [],
    )
    else (0, op_binary ∷ 127 ∷ u64_to_be ws_payload_len)

-- One read of `backend_tcp_reader`: `buf` is the fresh buffer, whose memory is not initialised,
-- `payload` what the read put at offset 15. The result is the frame that goes into the channel.
unfoldable pub preframe : ℕ → Bytes → Bytes → Bytes
preframe stream_id buf payload =
    let framed = write_at ws_max_header_size (build_data_header stream_id) buf in
    let filled = write_at preframe_reserve payload framed in
    let truncated = take (preframe_reserve + length payload) filled in
    let (start, hdr) = preframe_header (wisp_header_size + length payload) in
    drop start (write_at start hdr truncated)

-- The bytes that `flush_continues_direct` builds for several streams; its two loops, over the buffer
-- on the stack and over a vector, write the same.
unfoldable pub continue_bytes : List (ℕ × ℕ) → Bytes
continue_bytes [] = []
continue_bytes ((stream_id, remaining) ∷ pending) =
    (op_binary ∷ 9 ∷ build_continue_frame stream_id remaining) ++ continue_bytes pending

module _ (w : ClientWriter) where
  unfoldable pub flush_continues_direct : List (ℕ × ℕ) → w.Sock → Status × w.Sock
  flush_continues_direct ((stream_id, remaining) ∷ []) s =
      write_ws_binary_frame w (build_continue_frame stream_id remaining) s
  flush_continues_direct pending s = write_status w s (continue_bytes pending)

-- The buffer after the read, cut to the bytes that count.
filled_buffer : ℕ → Bytes → Bytes → Bytes
unfolding write_at build_data_header
filled_buffer stream_id buf payload = take (preframe_reserve + length payload) (
    write_at preframe_reserve payload
      (write_at ws_max_header_size (build_data_header stream_id) buf))

-- After ten bytes for the header come the Wisp header and the payload; nothing is left of the rest.
filled_buffer_lem :
    (id : ℕ) (buf payload : Bytes)
    → 15 ≤ length buf
    → (pre : Bytes) × (length pre ≡ 10)
      × (filled_buffer id buf payload ≡ pre ++ (build_data_header id ++ payload))
unfolding filled_buffer
filled_buffer_lem id (a ∷ b ∷ c ∷ d ∷ e ∷ f ∷ g ∷ h ∷ i ∷ j ∷ k ∷ l ∷ m ∷ n ∷ o ∷ rest) payload
      enough =
    let pre : Bytes = a ∷ b ∷ c ∷ d ∷ e ∷ f ∷ g ∷ h ∷ i ∷ j ∷ [] in
    let junk : Bytes = drop (15 + length payload) (pre ++ (build_data_header id ++ rest)) in
    (
      pre,
      refl,
      take-append_ge (15 + length payload) (pre ++ build_data_header id) (payload ++ junk)
            (omega arith)
          ∙ ap (λ (m : ℕ). (pre ++ build_data_header id) ++ take m (payload ++ junk)) (omega arith)
          ∙ ap (◌++◌ (pre ++ build_data_header id)) (take-length-append payload junk),
    )
filled_buffer_lem id _ payload enough = absurd (omega arith)

offset : (start : ℕ) (xs : Bytes) → start ≤ length xs → start - length (take start xs) ≡ 0
offset start xs h = omega (arith, length-take start xs)

-- Writing a header of `k` bytes to the left of offset 10 and dropping what is in front of it.
place_header :
    (pre hdr rest : Bytes) (start : ℕ)
    → length pre ≡ 10
    → start + length hdr ≡ 10
    → drop start (write_at start hdr (pre ++ rest)) ≡ hdr ++ rest
unfolding write_at
place_header pre hdr rest start lp ls =
    drop-append_ge start (take start (pre ++ rest)) _
      (omega (arith, length-take start (pre ++ rest), length-append pre rest))
    ∙ ap (λ (m : ℕ). drop m (hdr ++ drop (start + length hdr) (pre ++ rest)))
        (offset start (pre ++ rest) (omega (arith, length-append pre rest)))
    ∙ ap (◌++◌ hdr)
        (ap (λ (m : ℕ). drop m (pre ++ rest)) (ls ∙ sym lp) ∙ drop-length-append pre rest)

-- For a buffer of the reader's size, of any content, and a read of at most 65536 bytes: the slice
-- that `backend_tcp_reader` cuts out of its buffer is the WebSocket frame of the DATA header and
-- the payload.
pub preframe-ws_binary_frame :
    (stream_id : ℕ) (buf payload : Bytes)
    → preframe_reserve + 65536 ≤ length buf
    → length payload ≤ 65536
    → preframe stream_id buf payload ≡ ws_binary_frame (build_data_header stream_id ++ payload)
unfolding preframe preframe_header filled_buffer ws_binary_frame ws_binary_header
preframe-ws_binary_frame id buf payload hb hp =
    let len : ℕ = wisp_header_size + length payload in
    let body : Bytes = build_data_header id ++ payload in
    let (pre, lp, filled) = filled_buffer_lem id buf payload (omega arith) in
    let same : len ≡ length body = unfold build_data_header in omega arith in
    rw (filled, ← same)
      (elim (Bool-cases (leb len 125)) [
        | inl small ↦ rw small (place_header pre (op_binary ∷ len ∷ []) body 8 lp refl)
        | inr big ↦ rw big (elim (Bool-cases (leb len 65535)) [
          | inl medium ↦
              rw medium (
                place_header pre (op_binary ∷ 126 ∷ len / 256 % 256 ∷ len % 256 ∷ []) body 6 lp
                  refl)
          | inr large ↦ rw large (place_header pre (op_binary ∷ 127 ∷ u64_to_be len) body 0 lp refl)
        ])
      ])

-- The frames of the pending CONTINUEs, one for each.
abbrev pub continue_frames : List (ℕ × ℕ) → List Bytes
continue_frames [] = []
continue_frames ((i, n) ∷ pending) =
    ws_binary_frame (build_continue_frame i n) ∷ continue_frames pending

continue_bytes_lem :
    (pending : List (ℕ × ℕ)) → continue_bytes pending ≡ concat (continue_frames pending)
unfolding continue_bytes ws_binary_frame ws_binary_header build_continue_frame
continue_bytes_lem [] = refl
continue_bytes_lem ((i, n) ∷ pending) =
    ap (◌++◌ (ws_binary_frame (build_continue_frame i n))) (continue_bytes_lem pending)

-- Where the client socket behaves as documented: `flush_continues_direct` does not run out of
-- rounds, and if it succeeds, the socket has sent one CONTINUE frame for each entry, in order.
pub flush_continues_direct-Delivers :
    (w : ClientWriter)
    → IsWriter w
    → (pending : List (ℕ × ℕ)) (s : w.Sock)
    → Delivers w (w.sent s) (concat (continue_frames pending)) (flush_continues_direct w pending s)
unfolding flush_continues_direct continue_bytes
flush_continues_direct-Delivers w law [] s = write_status-Delivers w law s []
flush_continues_direct-Delivers w law ((i, n) ∷ []) s =
    rw (append-nil (ws_binary_frame (build_continue_frame i n)))
      (write_ws_binary_frame-Delivers w law (build_continue_frame i n) s)
flush_continues_direct-Delivers w law (p ∷ q ∷ rest) s =
    rw (← continue_bytes_lem (p ∷ q ∷ rest))
      (write_status-Delivers w law s (continue_bytes (p ∷ q ∷ rest)))
