-- ===== src/Protocol/Bounds.antt =====
-- What the parsers of src/protocol/frame.rs accept.
use shrimpwisp.Prelude.{ℕ, suc}
use shrimpwisp.Prelude.{◌≡◌, refl, subst, inl, inr}
use shrimpwisp.Prelude.{Option, none, some}
use shrimpwisp.Prelude.{List, [], ◌∷◌, ◌++◌, arith}
use shrimpwisp.Prelude.{◌==◌, Bool-cases}
use shrimpwisp.Prelude.{length, take, drop, All}
use shrimpwisp.Prelude.{length-take}
use shrimpwisp.Prelude.{All-append}
use shrimpwisp.Prelude.{All-drop}
use shrimpwisp.Prelude.Bytes.{Bytes, IsByte, IsU32, u16_from_le, u32_from_le}
use shrimpwisp.Prelude.Bytes.{u32_from_le_bound}
use shrimpwisp.Protocol.{
  ConnectPayload, ExtensionEntry, WispFrame, connect, data_frame, continue, close, info,
  packet_data,
}
use shrimpwisp.Protocol.Frame.{
  parse_connect_payload, parse_connect, parse_continue, parse_close, parse_extensions_loop,
  parse_extensions, parse_info, parse_packet, parse_wisp_frame,
}
use shrimpwisp.Protocol.Encoding.{IsExtension, IsWellFormed}

abbrev SomeWellFormed : Option WispFrame → Type 0
SomeWellFormed none = Unit {0}
SomeWellFormed (some f) = IsWellFormed f

extensions_loop-All :
    (fuel : ℕ) (bytes : Bytes) (acc : List ExtensionEntry)
    → All IsByte bytes
    → All IsExtension acc
    → All IsExtension (parse_extensions_loop fuel bytes acc)
unfolding parse_extensions_loop
extensions_loop-All (suc fuel) (i ∷ l0 ∷ l1 ∷ l2 ∷ l3 ∷ rest) acc hb ha =
    let n : ℕ = u32_from_le l0 l1 l2 l3 in
    let x : ExtensionEntry = record { ext_id = i; payload = take n rest } in
    ground (
      arith,
      length-take n rest,
      u32_from_le_bound l0 l1 l2 l3,
      All-drop IsByte n rest,
      All-append IsExtension acc (x ∷ []),
      extensions_loop-All fuel (drop n rest) (acc ++ (x ∷ [])),
    )
extensions_loop-All _ _ acc hb ha = ha

parse_connect-IsWellFormed :
    (i : ℕ) (payload : Bytes) (f : WispFrame)
    → IsU32 i
    → All IsByte payload
    → parse_connect i payload ≡ some f
    → IsWellFormed f
unfolding parse_connect u16_from_le
parse_connect-IsWellFormed i (ty ∷ p0 ∷ p1 ∷ h ∷ hs) (connect j p) hi hb e = ground arith
parse_connect-IsWellFormed i (ty ∷ p0 ∷ p1 ∷ h ∷ hs) (data_frame j p) hi hb e = ground arith
parse_connect-IsWellFormed i (ty ∷ p0 ∷ p1 ∷ h ∷ hs) (continue j n) hi hb e = ground arith
parse_connect-IsWellFormed i (ty ∷ p0 ∷ p1 ∷ h ∷ hs) (close j r) hi hb e = ground arith
parse_connect-IsWellFormed i (ty ∷ p0 ∷ p1 ∷ h ∷ hs) (info j a b es) hi hb e = ground arith
parse_connect-IsWellFormed i _ f hi hb e = cc

parse_continue-IsWellFormed :
    (i : ℕ) (payload : Bytes) (f : WispFrame)
    → IsU32 i
    → All IsByte payload
    → parse_continue i payload ≡ some f
    → IsWellFormed f
unfolding parse_continue
parse_continue-IsWellFormed i (b0 ∷ b1 ∷ b2 ∷ b3 ∷ rest) f hi hb e =
    subst SomeWellFormed e (hi, u32_from_le_bound b0 b1 b2 b3 hb.0 hb.1.0 hb.1.1.0 hb.1.1.1.0)
parse_continue-IsWellFormed i _ f hi hb e = cc

parse_close-IsWellFormed :
    (i : ℕ) (payload : Bytes) (f : WispFrame)
    → IsU32 i
    → parse_close i payload ≡ some f
    → IsWellFormed f
unfolding parse_close
parse_close-IsWellFormed i [] f hi e = cc
parse_close-IsWellFormed i (b ∷ rest) f hi e = subst SomeWellFormed e hi

parse_info-IsWellFormed :
    (i : ℕ) (payload : Bytes) (f : WispFrame)
    → IsU32 i
    → All IsByte payload
    → parse_info i payload ≡ some f
    → IsWellFormed f
unfolding parse_info parse_extensions
parse_info-IsWellFormed i (a ∷ b ∷ rest) f hi hb e =
    subst SomeWellFormed e (hi, extensions_loop-All (length rest) rest [] hb.1.1 tt)
parse_info-IsWellFormed i _ f hi hb e = cc

parse_packet-IsWellFormed :
    (t i : ℕ) (payload : Bytes) (f : WispFrame)
    → IsU32 i
    → All IsByte payload
    → parse_packet t i payload ≡ some f
    → IsWellFormed f
unfolding parse_packet
parse_packet-IsWellFormed t i payload f hi hb e = elim (Bool-cases (t == packet_data)) [
  | inl d ↦ subst SomeWellFormed (rw d at e) hi
  | inr d ↦ ground (
    arith,
    parse_connect-IsWellFormed i payload f hi hb,
    parse_continue-IsWellFormed i payload f hi hb,
    parse_close-IsWellFormed i payload f hi,
    parse_info-IsWellFormed i payload f hi hb,
  )
]

-- Whatever `parse_wisp_frame` reads from bytes below 256 is well formed: the fields fit their
-- widths, and a hostname is 1 to 253 bytes of UTF-8.
pub parse_wisp_frame-IsWellFormed :
    (bytes : Bytes) (f : WispFrame)
    → All IsByte bytes
    → parse_wisp_frame bytes ≡ some f
    → IsWellFormed f
unfolding parse_wisp_frame
parse_wisp_frame-IsWellFormed (t ∷ i0 ∷ i1 ∷ i2 ∷ i3 ∷ payload) f hb e =
    let (_, hi) = hb in
    parse_packet-IsWellFormed t (u32_from_le i0 i1 i2 i3) payload f
      (u32_from_le_bound i0 i1 i2 i3 hi.0 hi.1.0 hi.1.1.0 hi.1.1.1.0) hi.1.1.1.1 e
parse_wisp_frame-IsWellFormed _ f hb e = cc

abbrev pub wrap_connect : ℕ → Option ConnectPayload → Option WispFrame
wrap_connect i none = none
wrap_connect i (some p) = some (connect i p)

-- The parser of a CONNECT payload that the main loop uses and the one that the first frame goes
-- through accept the same payloads, and read the same fields.
pub parse_connect_agrees :
    (i : ℕ) (payload : Bytes)
    → parse_connect i payload ≡ wrap_connect i (parse_connect_payload payload)
unfolding parse_connect parse_connect_payload
parse_connect_agrees i (ty ∷ p0 ∷ p1 ∷ h ∷ hs) = ground arith
parse_connect_agrees i _ = refl
