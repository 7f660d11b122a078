-- ===== src/Protocol/RoundTrip.antt =====
-- The parsers of src/protocol/frame.rs against the layout of the packets.
use shrimpwisp.Protocol.{CloseReason}
use shrimpwisp.Protocol.Build.{
  build_data_header, build_continue_frame, build_close_frame, build_server_info_frame,
  build_initial_continue_frame,
}
use shrimpwisp.Prelude.{ℕ, zero, suc, ◌+◌, ◌/◌, ◌%◌, ◌≤◌}
use shrimpwisp.Prelude.{◌≡◌, refl, sym, ap, ◌∙◌, ◌≡⟨◌⟩◌, ◌∎}
use shrimpwisp.Prelude.{some}
use shrimpwisp.Prelude.{List, [], ◌∷◌, ◌++◌, append-nil, append_assoc, arith}
use shrimpwisp.Prelude.{le→ltb_false}
use shrimpwisp.Prelude.{length, take, drop, All}
use shrimpwisp.Prelude.{length-append}
use shrimpwisp.Prelude.{take-length-append, drop-length-append}
use shrimpwisp.Prelude.Bytes.{Bytes, IsU32, u32_from_le, le0, le1, le2}
use shrimpwisp.Prelude.Bytes.{le3, u32_from_le-le}
use shrimpwisp.Prelude.Bytes.{u16_from_le-le, is_utf8}
use shrimpwisp.Protocol.{
  stream_type_as_byte, ConnectPayload, ExtensionEntry, WispFrame, connect, data_frame, continue,
  close, info, packet_connect, packet_data, packet_continue, packet_close, packet_info,
}
use shrimpwisp.Protocol.Frame.{
  parse_connect, parse_continue, parse_close, parse_extensions_loop, parse_extensions, parse_info,
  parse_packet, parse_wisp_frame, parse_extensions_loop_fuel,
}
use shrimpwisp.Protocol.Build.{put_extensions}
use shrimpwisp.Protocol.Encoding.{
  IsExtension, IsWellFormed, header, encode, stream_type_from_byte-as_byte,
  close_reason_from_byte-as_byte,
}

entry : ℕ → ℕ → Bytes → ExtensionEntry
entry i n rest = record { ext_id = i; payload = take n rest }

-- One round of the loop, on an entry whose payload is all there.
extensions_round :
    (fuel i l0 l1 l2 l3 : ℕ) (p rest : Bytes) (acc : List ExtensionEntry)
    → u32_from_le l0 l1 l2 l3 ≡ length p
    → parse_extensions_loop (suc fuel) (i ∷ l0 ∷ l1 ∷ l2 ∷ l3 ∷ (p ++ rest)) acc
      ≡ parse_extensions_loop fuel rest (acc ++ (record { ext_id = i; payload = p } ∷ []))
unfolding parse_extensions_loop
extensions_round fuel i l0 l1 l2 l3 p rest acc e = rw (
  e,
  le→ltb_false (length (p ++ rest)) (length p) (omega (arith, length-append p rest)),
  drop-length-append p rest,
  take-length-append p rest,
)

entry_length :
    (n : ℕ) → IsU32 n → let m = n % 4294967296 in u32_from_le (le0 m) (le1 m) (le2 m) (le3 m) ≡ n
entry_length n h = u32_from_le-le (n % 4294967296) (omega arith) ∙ omega arith

length-entry :
    (e : ExtensionEntry) (es : List ExtensionEntry)
    → length (put_extensions (e ∷ es)) ≡ 5 + (length e.payload + length (put_extensions es))
unfolding put_extensions
length-entry e es = omega (arith, length-append e.payload (put_extensions es))

extensions_entry :
    (fuel : ℕ) (e : ExtensionEntry) (es : List ExtensionEntry) (tail : Bytes)
    (acc : List ExtensionEntry)
    → IsExtension e
    → parse_extensions_loop (suc fuel) (put_extensions (e ∷ es) ++ tail) acc
      ≡ parse_extensions_loop fuel (put_extensions es ++ tail) (acc ++ (e ∷ []))
unfolding put_extensions
extensions_entry fuel e es tail acc h = rw (append_assoc e.payload (put_extensions es) tail) (
    extensions_round fuel e.ext_id _ _ _ _ e.payload (put_extensions es ++ tail) acc
      (entry_length (length e.payload) h.1))

extensions_loop-put :
    (es : List ExtensionEntry) (fuel : ℕ) (tail : Bytes) (acc : List ExtensionEntry)
    → All IsExtension es
    → length (put_extensions es) + length tail ≤ fuel
    → parse_extensions_loop fuel (put_extensions es ++ tail) acc
      ≡ parse_extensions_loop (length tail) tail (acc ++ es)
extensions_loop-put [] fuel tail acc h f = rw append-nil (
    unfold put_extensions in parse_extensions_loop_fuel fuel _ tail acc (omega arith) (omega arith))
extensions_loop-put (e ∷ es) zero tail acc h f = absurd (omega (arith, length-entry e es))
extensions_loop-put (e ∷ es) (suc fuel) tail acc h f =
    parse_extensions_loop (suc fuel) (put_extensions (e ∷ es) ++ tail) acc
    ≡⟨ extensions_entry fuel e es tail acc h.0 ⟩
      parse_extensions_loop fuel (put_extensions es ++ tail) (acc ++ (e ∷ []))
    ≡⟨ extensions_loop-put es fuel tail (acc ++ (e ∷ [])) h.1 (omega (arith, length-entry e es)) ⟩
      parse_extensions_loop (length tail) tail ((acc ++ (e ∷ [])) ++ es)
    ≡⟨ (rw (append_assoc acc (e ∷ []) es)) ⟩
      parse_extensions_loop (length tail) tail (acc ++ (e ∷ es)) ∎

-- The loop only appends to what it is given.
extensions_loop-acc :
    (fuel : ℕ) (bytes : Bytes) (acc : List ExtensionEntry)
    → parse_extensions_loop fuel bytes acc ≡ acc ++ parse_extensions_loop fuel bytes []
unfolding parse_extensions_loop
extensions_loop-acc (suc fuel) (i ∷ l0 ∷ l1 ∷ l2 ∷ l3 ∷ rest) acc =
    let n : ℕ = u32_from_le l0 l1 l2 l3 in
    let x : List ExtensionEntry = record { ext_id = i; payload = take n rest } ∷ [] in
    ground (
      arith,
      append-nil acc,
      extensions_loop-acc fuel (drop n rest) (acc ++ x),
      extensions_loop-acc fuel (drop n rest) x,
      append_assoc acc x (parse_extensions_loop fuel (drop n rest) []),
    )
extensions_loop-acc _ _ acc = sym (append-nil acc)

-- Whatever follows well-formed entries, the parser returns the entries, and then what it finds in
-- the rest.
pub parse_extensions-put_extensions :
    (es : List ExtensionEntry) (tail : Bytes)
    → All IsExtension es
    → parse_extensions (put_extensions es ++ tail) ≡ es ++ parse_extensions tail
unfolding parse_extensions
parse_extensions-put_extensions es tail h =
    extensions_loop-put es _ tail [] h (omega (arith, length-append (put_extensions es) tail))
    ∙ extensions_loop-acc (length tail) tail es

pub info_extensions :
    (es : List ExtensionEntry) → All IsExtension es → parse_extensions (put_extensions es) ≡ es
info_extensions es h =
    ap parse_extensions (sym (append-nil (put_extensions es)))
    ∙ parse_extensions-put_extensions es [] h
    ∙ unfold parse_extensions parse_extensions_loop in append-nil es

parse_packet-header :
    (packet_type stream_id : ℕ) (payload : Bytes)
    → IsU32 stream_id
    → parse_wisp_frame (header packet_type stream_id ++ payload)
      ≡ parse_packet packet_type stream_id payload
unfolding parse_wisp_frame
parse_packet-header packet_type stream_id payload h = rw (u32_from_le-le stream_id h)

parse_connect-encode :
    (i : ℕ) (p : ConnectPayload)
    → IsWellFormed (connect i p)
    → (hs : Bytes) → p.hostname ≡ hs
    → parse_connect i ((stream_type_as_byte p.stream_type ∷ p.port % 256 ∷ p.port / 256 ∷ []) ++ hs)
      ≡ some (connect i p)
unfolding parse_connect
parse_connect-encode i p h [] e = absurd (omega (arith, ap length e))
parse_connect-encode i p h (b ∷ bs) e = ground (
  arith,
  stream_type_from_byte-as_byte p.stream_type,
  u16_from_le-le p.port h.1,
  ap length e,
  ap is_utf8 e,
)

-- A frame whose fields fit their widths, and whose hostname, if it has one, is 1 to 253 bytes of
-- UTF-8, is what `parse_wisp_frame` reads back from its layout, for all five packet types.
pub parse_wisp_frame-encode :
    (f : WispFrame) → IsWellFormed f → parse_wisp_frame (encode f) ≡ some f
unfolding encode parse_packet
parse_wisp_frame-encode (connect i p) h =
    parse_packet-header packet_connect i _ h.0 ∙ parse_connect-encode i p h p.hostname refl
parse_wisp_frame-encode (data_frame i p) h = parse_packet-header packet_data i p h
parse_wisp_frame-encode (continue i n) h =
    parse_packet-header packet_continue i _ h.0
    ∙ unfold parse_continue in ap (λ m. some (continue i m)) (u32_from_le-le n h.1)
parse_wisp_frame-encode (close i r) h =
    parse_packet-header packet_close i _ h
    ∙ unfold parse_close in ap (λ q. some (close i q)) (close_reason_from_byte-as_byte r)
parse_wisp_frame-encode (info i a b es) h =
    parse_packet-header packet_info i _ h.0
    ∙ unfold parse_info in ap (λ xs. some (info i a b xs)) (info_extensions es h.1)

-- For IDs and credits of 32 bits, and extensions whose IDs are bytes and whose payload lengths
-- fit 32 bits: what `build_close_frame`, `build_continue_frame`, `build_initial_continue_frame`,
-- `build_server_info_frame` and `build_data_header` write is what `parse_wisp_frame` reads.
pub parse_wisp_frame-build :
    (i n : ℕ) (r : CloseReason) (es : List ExtensionEntry) (b : Bytes)
    → IsU32 i
    → IsU32 n
    → All IsExtension es
    → (parse_wisp_frame (build_close_frame i r) ≡ some (close i r))
      × (parse_wisp_frame (build_continue_frame i n) ≡ some (continue i n))
      × (parse_wisp_frame (build_initial_continue_frame n) ≡ some (continue 0 n))
      × (parse_wisp_frame (build_server_info_frame es) ≡ some (info 0 2 1 es))
      × (parse_wisp_frame (build_data_header i ++ b) ≡ some (data_frame i b))
unfolding encode
parse_wisp_frame-build i n r es b hi hn he = (
  unfold build_close_frame in parse_wisp_frame-encode (close i r) hi,
  unfold build_continue_frame in parse_wisp_frame-encode (continue i n) (hi, hn),
  unfold build_initial_continue_frame build_continue_frame in
      parse_wisp_frame-encode (continue 0 n) (omega arith, hn),
  unfold build_server_info_frame in parse_wisp_frame-encode (info 0 2 1 es) (omega arith, he),
  unfold build_data_header in parse_wisp_frame-encode (data_frame i b) hi,
)
