-- ===== src/Wire/Delivery.antt =====
-- What the writers of src/server/connection.rs put on the wire, whatever the socket does with each
-- call.
use shrimpwisp.Prelude.{ℕ, zero, suc, ◌+◌, ◌-◌, ◌≤◌}
use shrimpwisp.Prelude.{◌≡◌, sym, ap, subst, ◌∙◌, inl, inr}
use shrimpwisp.Prelude.{Option, some}
use shrimpwisp.Prelude.{[], ◌∷◌, ◌++◌, append-nil, append_assoc, arith}
use shrimpwisp.Prelude.{ltb, leb, ◌==◌, ==_iff, Bool-cases, Option-cases}
use shrimpwisp.Prelude.{ltb_false→le, le→ltb_false}
use shrimpwisp.Prelude.{length, take, drop}
use shrimpwisp.Prelude.{length-append, take-append-drop, take_all}
use shrimpwisp.Prelude.{take-add, drop-append_le, drop-append_ge}
use shrimpwisp.Prelude.Bytes.{Bytes}
use shrimpwisp.Wire.{ws_binary_header, ws_binary_frame}
use shrimpwisp.Wire.Writer.{
  ClientWriter, IsWriter, Status, done, failed, stuck, write_status, finish_payload, finish_frame,
  write_ws_binary_frame,
}

module _ (w : ClientWriter) where
  -- A call that succeeds has sent these bytes behind those sent before; no loop runs out of fuel.
  abbrev pub Delivers : Bytes → Bytes → Status × w.Sock → Type 0
  Delivers before bytes r = elim r.0 [
    | done ↦ w.sent r.1 ≡ before ++ bytes
    | failed ↦ Unit {0}
    | stuck ↦ ⊥
  ]

module _ (w : ClientWriter) (law : IsWriter w) where
  open w use {Sock, write_all, write_vectored, sent}

  pub write_status-Delivers : (s : Sock) (b : Bytes) → Delivers w (sent s) b (write_status w s b)
  write_status-Delivers s b = elim (Bool-cases (write_all s b).0) [
    | inl ok ↦ rw ok (law.write_all_sent s b ok)
    | inr bad ↦ rw bad tt
  ]

  pub Delivers-assoc :
      (a b c : Bytes) (r : Status × Sock) → Delivers w (a ++ b) c r → Delivers w a (b ++ c) r
  Delivers-assoc a b c (done, s) h = h ∙ append_assoc a b c
  Delivers-assoc a b c (failed, s) h = tt
  Delivers-assoc a b c (stuck, s) h = h

  -- A first part of `full` is out; the rest of the payload follows.
  finish_payload-Delivers :
      (before hdr payload : Bytes) (n : ℕ) (s : Sock)
      → length hdr ≤ n
      → sent s ≡ before ++ take n (hdr ++ payload)
      → Delivers w before (hdr ++ payload) (finish_payload w hdr payload n s)
  unfolding finish_payload
  finish_payload-Delivers before hdr payload n s h e =
      let full : Bytes = hdr ++ payload in
      let tail : Bytes = drop (n - length hdr) payload in
      let whole : take n full ++ tail ≡ full =
        ap (◌++◌ (take n full)) (sym (drop-append_ge n hdr payload h)) ∙ take-append-drop n full in
      elim (Bool-cases (ltb n (length hdr + length payload))) [
        | inl more ↦ rw more (
            subst (λ (b : Bytes). Delivers w before b (write_status w s tail)) whole
              (Delivers-assoc before (take n full) tail (write_status w s tail)
                (rw e at (write_status-Delivers s tail))))
        | inr all ↦ rw all (
            e
            ∙ ap (◌++◌ before) (
                take_all n (hdr ++ payload)
                  (omega (arith, ltb_false→le _ _ all, length-append hdr payload))))
      ]

  -- What one call adds to a first part of the frame, while the header is not out.
  next_part :
      (before hdr payload : Bytes) (n k : ℕ) (s : Sock)
      → n ≤ length hdr
      → sent s ≡ before ++ take n (hdr ++ payload)
      → (write_vectored s (drop n hdr ∷ payload ∷ [])).0 ≡ some k
      → sent (write_vectored s (drop n hdr ∷ payload ∷ [])).1
        ≡ before ++ take (n + k) (hdr ++ payload)
  next_part before hdr payload n k s h e r =
      law.vectored_sent s (drop n hdr ∷ payload ∷ []) k r
      ∙ rw (e, append-nil payload)
          (append_assoc before _ _
            ∙ ap (◌++◌ before)
                (rw (← drop-append_le n hdr payload h) (sym (take-add n k (hdr ++ payload)))))

  finish_frame-Delivers :
      (fuel : ℕ) (before hdr payload : Bytes) (n : ℕ) (s : Sock)
      → length hdr ≤ n + fuel
      → sent s ≡ before ++ take n (hdr ++ payload)
      → Delivers w before (hdr ++ payload) (finish_frame w fuel hdr payload n s)
  unfolding finish_frame
  finish_frame-Delivers zero before hdr payload n s h e =
      rw (le→ltb_false n (length hdr) (omega arith))
        (finish_payload-Delivers before hdr payload n s (omega arith) e)
  finish_frame-Delivers (suc fuel) before hdr payload n s h e =
      let r : Option ℕ × Sock = write_vectored s (drop n hdr ∷ payload ∷ []) in
      elim (Bool-cases (ltb n (length hdr))) [
        | inr past ↦
            rw past (finish_payload-Delivers before hdr payload n s (ltb_false→le _ _ past) e)
        | inl short ↦ rw short (elim (Option-cases r.0) [
          | inl err ↦ rw err tt
          | inr (k, wrote) ↦ rw wrote (elim (Bool-cases (k == 0)) [
            | inl nothing ↦ rw nothing tt
            | inr some_ ↦ rw some_ (
                finish_frame-Delivers fuel before hdr payload (n + k) r.1 (ground arith)
                  (next_part before hdr payload n k s (ground arith) e wrote))
          ])
        ])
      ]

  -- Where the client socket behaves as documented: `write_ws_binary_frame` does not run out of
  -- rounds, and if it succeeds, the socket has sent the whole frame, header and payload, however
  -- the vectored writes were cut.
  pub write_ws_binary_frame-Delivers :
      (payload : Bytes) (s : Sock)
      → Delivers w (sent s) (ws_binary_frame payload) (write_ws_binary_frame w payload s)
  unfolding write_ws_binary_frame ws_binary_frame
  write_ws_binary_frame-Delivers payload s =
      let hdr : Bytes = ws_binary_header (length payload) in
      let r : Option ℕ × Sock = write_vectored s (hdr ∷ payload ∷ []) in
      let full : Bytes = hdr ++ payload in
      let first : (n : ℕ) → r.0 ≡ some n → sent r.1 ≡ sent s ++ take n full =
        λ n e. law.vectored_sent s (hdr ∷ payload ∷ []) n e ∙ rw (append-nil payload) in
      elim (Bool-cases (leb (length payload) 125)) [
        | inl small ↦ rw small (write_status-Delivers s full)
        | inr big ↦ rw big (elim (Option-cases r.0) [
          | inl err ↦ rw err tt
          | inr (n, e) ↦ rw e (elim (Bool-cases (n == length hdr + length payload)) [
            | inl all ↦ rw all (
                first n e
                ∙ ap (◌++◌ (sent s)) (
                    take_all n full (omega (arith, (==_iff _ _).0 all, length-append hdr payload))))
            | inr part ↦ rw part (elim (Bool-cases (n == 0)) [
              | inl nothing ↦ rw nothing tt
              | inr more ↦ rw more (
                  finish_frame-Delivers (length hdr) (sent s) hdr payload n r.1 (omega arith)
                    (first n e))
            ])
          ])
        ])
      ]
