-- ===== src/Wire/Decode.antt =====
-- An independent reading of the frames of src/server/connection.rs: RFC 6455, section 5.2, for the
-- unmasked frames that a server sends.
use shrimpwisp.Prelude.{ℕ, ◌+◌, ◌*◌, ◌/◌, ◌%◌, ◌^◌, ◌≤◌, ◌<◌, min}
use shrimpwisp.Prelude.{◌≡◌, sym, ◌∙◌, inl, inr}
use shrimpwisp.Prelude.{Option, none, some}
use shrimpwisp.Prelude.{[], ◌∷◌, ◌++◌, arith}
use shrimpwisp.Prelude.{ltb, leb, ◌==◌, if◌then◌else◌, Bool-cases}
use shrimpwisp.Prelude.{lt→ltb, leb→le, le→leb}
use shrimpwisp.Prelude.{length, take, drop}
use shrimpwisp.Prelude.{length-append, length-take, take_all}
use shrimpwisp.Prelude.{take-length-append, drop-length-append}
use shrimpwisp.Prelude.Bytes.{Bytes}
use shrimpwisp.Prelude.Bytes.{u64_to_be}
use shrimpwisp.Wire.{op_binary, op_pong, ws_binary_header, ws_binary_frame, ws_pong_frame}

-- The payload of `len` bytes, and what follows it.
abbrev split_payload : ℕ → ℕ → Bytes → Option (ℕ × Bytes × Bytes)
split_payload op len rest =
    if leb len (length rest) then some (op, take len rest, drop len rest) else none

abbrev from_be : ℕ → Bytes → ℕ
from_be acc [] = acc
from_be acc (b ∷ bs) = from_be (acc * 256 + b) bs

-- The first byte with FIN and the opcode, the payload, and what follows the frame.
unfoldable pub decode_frame : Bytes → Option (ℕ × Bytes × Bytes)
decode_frame (op ∷ l ∷ rest) =
    if ltb l 126
    then split_payload op l rest
    else if l == 126
    then split_payload op (from_be 0 (take 2 rest)) (drop 2 rest)
    else if l == 127
    then split_payload op (from_be 0 (take 8 rest)) (drop 8 rest)
    else none
decode_frame _ = none

split_exact :
    (op : ℕ) (p more : Bytes) → split_payload op (length p) (p ++ more) ≡ some (op, p, more)
split_exact op p more = rw (
  le→leb (length p) (length (p ++ more)) (omega (arith, length-append p more)),
  take-length-append p more,
  drop-length-append p more,
)

from_be_u16 : (n : ℕ) → n ≤ 65535 → from_be 0 (n / 256 % 256 ∷ n % 256 ∷ []) ≡ n
from_be_u16 n h = omega arith

from_be_u64 : (n : ℕ) → n < 2 ^ 64 → from_be 0 (u64_to_be n) ≡ n
from_be_u64 n h = omega arith

-- A payload of less than 2^64 bytes is what a reader of unmasked WebSocket frames gets back from
-- `ws_binary_frame`, with the bytes behind it untouched.
pub decode_frame-ws_binary_frame :
    (p more : Bytes)
    → length p < 2 ^ 64
    → decode_frame (ws_binary_frame p ++ more) ≡ some (op_binary, p, more)
unfolding decode_frame ws_binary_frame ws_binary_header
decode_frame-ws_binary_frame p more h = elim (Bool-cases (leb (length p) 125)) [
  | inl small ↦ rw small (ground (arith, split_exact op_binary p more))
  | inr big ↦ elim (Bool-cases (leb (length p) 65535)) [
    | inl medium ↦
        rw (big, medium)
          (rw (from_be_u16 (length p) (leb→le _ _ medium)) (split_exact op_binary p more))
    | inr large ↦ rw (big, large) (rw (from_be_u64 (length p) h) (split_exact op_binary p more))
  ]
]

pong_payload : (p : Bytes) → take (min (length p) 125) p ≡ take 125 p
pong_payload p = elim (Bool-cases (leb (length p) 125)) [
  | inl small ↦
      let m : min (length p) 125 ≡ length p = omega (arith, leb→le _ _ small) in
      rw m (take_all (length p) p (omega arith) ∙ sym (take_all 125 p (leb→le _ _ small)))
  | inr big ↦ let m : min (length p) 125 ≡ 125 = ground arith in rw m
]

-- A pong carries the first 125 bytes of the ping's payload, and all of them if there are no more.
pub decode_frame-ws_pong_frame :
    (p more : Bytes) → decode_frame (ws_pong_frame p ++ more) ≡ some (op_pong, take 125 p, more)
unfolding decode_frame ws_pong_frame
decode_frame-ws_pong_frame p more = rw (pong_payload p) (
    rw (lt→ltb (length (take 125 p)) 126 (omega (arith, length-take 125 p)))
      (split_exact op_pong (take 125 p) more))
