-- ===== src/Backend/Drain.antt =====
-- What `drain_pending` of src/server/connection.rs does to the pending chunks of a stream.
use shrimpwisp.Prelude.{ℕ, zero, suc, ◌-◌, ◌≤◌, min}
use shrimpwisp.Prelude.{◌≡◌, refl, sym, ap, subst, ◌∙◌, inl, inr}
use shrimpwisp.Prelude.{Bool, true, false, ◌&&◌}
use shrimpwisp.Prelude.{List, [], ◌∷◌, ◌++◌, append-nil, append_assoc, arith}
use shrimpwisp.Prelude.{ltb, leb, ◌==◌, ==_iff, Bool-cases}
use shrimpwisp.Prelude.{leb→le}
use shrimpwisp.Prelude.{length, take, drop, concat}
use shrimpwisp.Prelude.{take-append-drop, take_all}
use shrimpwisp.Prelude.{concat-append}
use shrimpwisp.Prelude.{drop-append_le, drop-append_ge}
use shrimpwisp.Prelude.{take-append_le}
use shrimpwisp.Prelude.Bytes.{Bytes}
use shrimpwisp.Proxy.{TcpProxyStream}
use shrimpwisp.Backend.{
  IoResult, wrote, would_block, fatal, BackendWriter, accepted, Fits, IsBackend, consume,
  drain_single, drain_vectored, drain_chunks, drain_pending,
}

concat-consume : (n : ℕ) (chunks : List Bytes) → concat (consume n chunks) ≡ drop n (concat chunks)
unfolding consume
concat-consume zero chunks = refl
concat-consume (suc n) [] = refl
concat-consume (suc n) (f ∷ chunks) = elim (Bool-cases (leb (length f) (suc n))) [
  | inl past ↦ rw past (
      concat-consume (suc n - length f) chunks
      ∙ sym (drop-append_ge (suc n) f (concat chunks) (leb→le _ _ past)))
  | inr within ↦ rw within (sym (drop-append_le (suc n) f (concat chunks) (ground arith)))
]

module _ (w : BackendWriter) where
  -- What the backend has, and what it is still to get.
  abbrev pub total_bytes : TcpProxyStream w.Sock → Bytes
  total_bytes tcp = w.received tcp.writer ++ concat tcp.pending

pub data IoCases (r : IoResult) : Type 0 where
  is_wrote : (n : ℕ) → r ≡ wrote n → IoCases r
  is_blocked : r ≡ would_block → IoCases r
  is_fatal : r ≡ fatal → IoCases r

pub io_cases : (r : IoResult) → IoCases r
io_cases (wrote n) = is_wrote n refl
io_cases would_block = is_blocked refl
io_cases fatal = is_fatal refl

module _ (w : BackendWriter) (law : IsBackend w) where
  open w use {Sock, try_write, try_write_vectored, received}

  -- While the backend lives, the bytes that it has and those still pending are these, in this order.
  abbrev pub Keeps : Bytes → TcpProxyStream Sock × Bool → Type 0
  Keeps bytes r = r.1 ≡ false → total_bytes w r.0 ≡ bytes

  pub written :
      (s : Sock) (b : Bytes) (n : ℕ)
      → (try_write s b).0 ≡ wrote n
      → received (try_write s b).1 ≡ received s ++ take n b
  written s b n e = law.write_received s b ∙ ap (λ r. received s ++ accepted r b) e

  pub written_all :
      (s : Sock) (b : Bytes) (n : ℕ)
      → (try_write s b).0 ≡ wrote n
      → (n == length b) ≡ true
      → received (try_write s b).1 ≡ received s ++ b
  written_all s b n e all =
      written s b n e ∙ ap (◌++◌ (received s)) (take_all n b (omega (arith, (==_iff _ _).0 all)))

  pub written_part :
      (s : Sock) (b : Bytes) (n : ℕ) (more : Bytes)
      → (try_write s b).0 ≡ wrote n
      → received (try_write s b).1 ++ (drop n b ++ more) ≡ received s ++ (b ++ more)
  written_part s b n more e =
      ap (λ x. x ++ (drop n b ++ more)) (written s b n e)
      ∙ append_assoc (received s) (take n b) (drop n b ++ more)
      ∙ ap (◌++◌ (received s)) (
          sym (append_assoc (take n b) (drop n b) more)
          ∙ ap (λ x. x ++ more) (take-append-drop n b))

  pub blocked :
      (s : Sock) (b : Bytes)
      → (try_write s b).0 ≡ would_block
      → received (try_write s b).1 ≡ received s
  blocked s b e =
      law.write_received s b ∙ ap (λ r. received s ++ accepted r b) e ∙ append-nil (received s)

  drain_single-Keeps :
      (chunk : Bytes) (tcp : TcpProxyStream Sock)
      → tcp.pending ≡ chunk ∷ []
      → Keeps (total_bytes w tcp) (drain_single w chunk tcp)
  unfolding drain_single
  drain_single-Keeps chunk tcp p = rw p (elim (io_cases (try_write tcp.writer chunk).0) [
    | is_fatal e ↦ rw (e, drain_single) (λ dead. cc)
    | is_blocked e ↦
        rw (e, drain_single) (λ _. ap (λ x. x ++ (chunk ++ [])) (blocked tcp.writer chunk e))
    | is_wrote n e ↦
        rw (e, drain_single)
          (elim (Bool-cases (n == length chunk)) [
            | inl all ↦
                rw all
                  (λ _. append-nil _ ∙ written_all tcp.writer chunk n e all ∙ rw (append-nil chunk))
            | inr part ↦ rw part (λ _. written_part tcp.writer chunk n [] e)
          ])
  ])

  vectored_written :
      (s : Sock) (bs : List Bytes) (n : ℕ)
      → (try_write_vectored s bs).0 ≡ wrote n
      → (received (try_write_vectored s bs).1 ≡ received s ++ take n (concat bs))
        × (n ≤ length (concat bs))
  vectored_written s bs n e = (
    law.vectored_received s bs ∙ ap (λ r. received s ++ accepted r (concat bs)) e,
    subst (λ r. Fits r (concat bs)) e (law.vectored_fits s bs),
  )

  -- A prefix of the chunks holds a prefix of the bytes.
  take-concat :
      (k n : ℕ) (chunks : List Bytes)
      → n ≤ length (concat (take k chunks))
      → take n (concat (take k chunks)) ≡ take n (concat chunks)
  take-concat k n chunks h =
      sym (take-append_le n (concat (take k chunks)) (concat (drop k chunks)) h)
      ∙ ap (take n) (
          sym (concat-append (take k chunks) (drop k chunks))
          ∙ ap concat (take-append-drop k chunks))

  vectored_part :
      (tcp : TcpProxyStream Sock) (k n : ℕ)
      → (try_write_vectored tcp.writer (take k tcp.pending)).0 ≡ wrote n
      → received (try_write_vectored tcp.writer (take k tcp.pending)).1
          ++ drop n (concat tcp.pending)
        ≡ total_bytes w tcp
  vectored_part tcp k n e =
      let (r, h) = vectored_written tcp.writer (take k tcp.pending) n e in
      rw r (
        append_assoc (received tcp.writer) _ _
        ∙ ap (◌++◌ (received tcp.writer)) (
            ap (λ x. x ++ drop n (concat tcp.pending)) (take-concat k n tcp.pending h)
            ∙ take-append-drop n (concat tcp.pending)))

  drop-length : (xs : Bytes) (n : ℕ) → length xs ≤ n → drop n xs ≡ []
  drop-length [] zero h = refl
  drop-length [] (suc n) h = refl
  drop-length (x ∷ xs) zero h = absurd (omega arith)
  drop-length (x ∷ xs) (suc n) h = drop-length xs n (omega arith)

  drained :
      (chunks : List Bytes) (k n : ℕ)
      → (n == length (concat (take k chunks)) && k == length chunks) ≡ true
      → drop n (concat chunks) ≡ []
  drained chunks k n all =
      let whole : take k chunks ≡ chunks = take_all k chunks (ground arith) in
      drop-length (concat chunks) n (ground (arith, ap (λ c. length (concat c)) whole))

  drain_vectored-Keeps :
      (tcp : TcpProxyStream Sock) → Keeps (total_bytes w tcp) (drain_vectored w tcp)
  unfolding drain_vectored
  drain_vectored-Keeps tcp =
      let k : ℕ = min (length tcp.pending) 1024 in
      let slices : List Bytes = take k tcp.pending in
      let r : IoResult × Sock = try_write_vectored tcp.writer slices in
      elim (io_cases r.0) [
        | is_fatal e ↦ rw (e, drain_vectored) (λ dead. cc)
        | is_blocked e ↦
            rw (e, drain_vectored)
              λ _.
                ap (λ x. x ++ concat tcp.pending)
                  (law.vectored_received tcp.writer slices
                    ∙ ap (λ r. received tcp.writer ++ accepted r (concat slices)) e
                    ∙ append-nil (received tcp.writer))
        | is_wrote n e ↦
            rw (e, drain_vectored)
              (elim (Bool-cases (n == length (concat slices) && k == length tcp.pending)) [
                | inl all ↦ rw all λ _.
                    ap (◌++◌ (received r.1)) (sym (drained tcp.pending k n all))
                    ∙ vectored_part tcp k n e
                | inr part ↦ rw part (elim (Bool-cases (ltb 0 n)) [
                  | inl some_ ↦ rw some_ λ _.
                      ap (◌++◌ (received r.1)) (concat-consume n tcp.pending)
                      ∙ vectored_part tcp k n e
                  | inr none_ ↦
                      let z : n ≡ 0 = ground arith in
                      rw none_ λ _.
                        ap (λ (m : ℕ). received r.1 ++ drop m (concat tcp.pending)) (sym z)
                        ∙ vectored_part tcp k n e
                ])
              ])
      ]

  drain_chunks-Keeps :
      (chunks : List Bytes) (tcp : TcpProxyStream Sock)
      → tcp.pending ≡ chunks
      → Keeps (total_bytes w tcp) (drain_chunks w chunks tcp)
  unfolding drain_chunks
  drain_chunks-Keeps [] tcp p = λ alive. refl
  drain_chunks-Keeps (c ∷ []) tcp p = drain_single-Keeps c tcp p
  drain_chunks-Keeps (c ∷ d ∷ cs) tcp p = drain_vectored-Keeps tcp

  -- Draining moves pending bytes to the backend: none is lost, repeated or reordered.
  pub drain_pending-Keeps :
      (tcp : TcpProxyStream Sock) → Keeps (total_bytes w tcp) (drain_pending w tcp)
  unfolding drain_pending
  drain_pending-Keeps tcp = drain_chunks-Keeps tcp.pending tcp refl
