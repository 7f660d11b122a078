-- ===== src/Wire/Batch.antt =====
-- `write_ws_frames_batched` of src/server/connection.rs: many frames in one call, whatever part of
-- them the socket takes.
use shrimpwisp.Prelude.{ℕ, zero, suc, ◌+◌, ◌-◌, ◌≤◌, ◌<◌}
use shrimpwisp.Prelude.{◌≡◌, refl, sym, ap, subst, ◌∙◌, inl, inr}
use shrimpwisp.Prelude.{Bool, Option}
use shrimpwisp.Prelude.{List, [], ◌∷◌, ◌++◌, map, append-nil, append_assoc, arith}
use shrimpwisp.Prelude.{ltb, leb, ◌==◌, ==_iff, Bool-cases, Option-cases}
use shrimpwisp.Prelude.{ltb_false→le, leb→le}
use shrimpwisp.Prelude.{length, take, drop, concat}
use shrimpwisp.Prelude.{take-append-drop, length-drop, take_all}
use shrimpwisp.Prelude.{concat-append}
use shrimpwisp.Prelude.{take-append_le, take-append_ge}
use shrimpwisp.Prelude.Bytes.{Bytes}
use shrimpwisp.Wire.Writer.{
  ClientWriter, IsWriter, Status, done, failed, stuck, chunks, skip_written, write_each, resume,
  write_ws_frames_preframed_inner, write_chunks, write_ws_frames_batched,
}
use shrimpwisp.Wire.Delivery.{Delivers, Delivers-assoc, write_status-Delivers}

concat-chunks {ℓ} :
    {A : Type ℓ} (size fuel : ℕ) (xs : List A)
    → 0 < size
    → length xs ≤ fuel
    → concat (chunks size fuel xs) ≡ xs
unfolding chunks
concat-chunks size zero [] hs h = refl
concat-chunks size zero (x ∷ xs) hs h = absurd (omega arith)
concat-chunks size (suc fuel) [] hs h = refl
concat-chunks size (suc fuel) (x ∷ xs) hs h =
    ap (◌++◌ (take size (x ∷ xs)))
      (concat-chunks size fuel (drop size (x ∷ xs)) hs (omega (arith, length-drop size (x ∷ xs))))
    ∙ take-append-drop size (x ∷ xs)

take_nil : (n : ℕ) → take {A = ℕ} n [] ≡ []
take_nil zero = refl
take_nil (suc n) = refl

minus_zero : (n : ℕ) → n ≡ n - 0
minus_zero n = omega arith

minus_minus : (n c k : ℕ) → n - c - k ≡ n - (c + k)
minus_minus n c k = omega arith

concat-concat : (xss : List (List Bytes)) → concat (concat xss) ≡ concat (map concat xss)
concat-concat [] = refl
concat-concat (xs ∷ xss) = concat-append xs (concat xss) ∙ ap (◌++◌ (concat xs)) (concat-concat xss)

module _ (w : ClientWriter) (law : IsWriter w) where
  open w use {Sock, write_all, write_vectored, sent}

  write_each-Delivers :
      (fs : List Bytes) (s : Sock) → Delivers w (sent s) (concat fs) (write_each w fs s)
  unfolding write_each
  write_each-Delivers [] s = sym (append-nil (sent s))
  write_each-Delivers (f ∷ fs) s = elim (Bool-cases (write_all s f).0) [
    | inr bad ↦ rw bad tt
    | inl ok ↦ rw ok (
        Delivers-assoc w law (sent s) f (concat fs) (write_each w fs (write_all s f).1)
          (rw (law.write_all_sent s f ok) at (write_each-Delivers fs (write_all s f).1)))
  ]

  -- The first frame of the rest went out in part, or not at all.
  resume_here :
      (before : Bytes) (n c : ℕ) (f : Bytes) (fs : List Bytes) (s : Sock)
      → c ≤ n
      → n < c + length f
      → sent s ≡ before ++ take (n - c) (f ++ concat fs)
      → Delivers w before (f ++ concat fs) (resume w n (c, f ∷ fs) s)
  unfolding resume
  resume_here before n c f fs s hc hn e =
      let tail : Bytes = drop (n - c) f in
      let r : Bool × Sock = write_all s tail in
      let cut : take (n - c) (f ++ concat fs) ≡ take (n - c) f =
        take-append_le (n - c) f (concat fs) (omega arith) in
      elim (Bool-cases (ltb c n)) [
        | inr none_ ↦
            let z : n - c ≡ 0 = omega (arith, ltb_false→le _ _ none_) in
            let e' : sent s ≡ before =
              e ∙ ap (λ (m : ℕ). before ++ take m (f ++ concat fs)) z ∙ append-nil before in
            rw none_ (rw e' at (write_each-Delivers (f ∷ fs) s))
        | inl some_ ↦ rw some_ (elim (Bool-cases r.0) [
          | inr bad ↦ rw bad tt
          | inl ok ↦
              let e' : sent r.1 ≡ before ++ f =
                law.write_all_sent s tail ok
                ∙ rw (e, cut)
                    (append_assoc before _ _ ∙ ap (◌++◌ before) (take-append-drop (n - c) f)) in
              rw ok (
                Delivers-assoc w law before f (concat fs) (write_each w fs r.1)
                  (rw e' at (write_each-Delivers fs r.1)))
        ])
      ]

  resume-Delivers :
      (fs : List Bytes) (before : Bytes) (n c : ℕ) (s : Sock)
      → c ≤ n
      → sent s ≡ before ++ take (n - c) (concat fs)
      → Delivers w before (concat fs) (resume w n (skip_written n c fs) s)
  unfolding skip_written
  resume-Delivers [] before n c s hc e = unfold resume in (e ∙ ap (◌++◌ before) (take_nil (n - c)))
  resume-Delivers (f ∷ fs) before n c s hc e = elim (Bool-cases (leb (c + length f) n)) [
    | inl whole ↦ rw whole (
        Delivers-assoc w law before f (concat fs) (resume w n (skip_written n (c + length f) fs) s)
          (resume-Delivers fs (before ++ f) n (c + length f) s (leb→le _ _ whole) (
            e
            ∙ ap (◌++◌ before)
                (take-append_ge (n - c) f (concat fs) (omega (arith, leb→le _ _ whole)))
            ∙ sym (append_assoc before f _)
            ∙ ap (λ (m : ℕ). (before ++ f) ++ take m (concat fs)) (minus_minus n c (length f)))))
    | inr cut ↦ rw cut (resume_here before n c f fs s hc (ground arith) e)
  ]

  inner-Delivers :
      (fs : List Bytes) (s : Sock)
      → Delivers w (sent s) (concat fs) (write_ws_frames_preframed_inner w fs s)
  unfolding write_ws_frames_preframed_inner
  inner-Delivers fs s =
      let r : Option ℕ × Sock = write_vectored s fs in
      elim (Option-cases r.0) [
        | inl err ↦ rw (err, write_ws_frames_preframed_inner) tt
        | inr (n, e) ↦
            rw (e, write_ws_frames_preframed_inner)
              (elim (Bool-cases (n == length (concat fs))) [
                | inl all ↦ rw all (
                    law.vectored_sent s fs n e
                    ∙ ap (◌++◌ (sent s))
                        (take_all n (concat fs) (omega (arith, (==_iff _ _).0 all))))
                | inr part ↦ rw part (elim (Bool-cases (n == 0)) [
                  | inl nothing ↦ rw nothing tt
                  | inr more ↦ rw more (
                      resume-Delivers fs (sent s) n 0 r.1 (omega arith) (
                        law.vectored_sent s fs n e
                        ∙ ap (λ (m : ℕ). sent s ++ take m (concat fs)) (minus_zero n)))
                ])
              ])
      ]

  then_chunks :
      (before b c : Bytes) (r : Status × Sock) (rest : Status × Sock)
      → Delivers w before b r
      → (r.0 ≡ done → Delivers w (sent r.1) c rest)
      → Delivers w before
          (b ++ c)
          (elim r.0 [ done ↦ rest | failed ↦ (failed, r.1) | stuck ↦ (stuck, r.1) ])
  then_chunks before b c (done, s) rest h k =
      Delivers-assoc w law before b c rest (rw h at (k refl))
  then_chunks before b c (failed, s) rest h k = tt
  then_chunks before b c (stuck, s) rest h k = h

  write_chunks-Delivers :
      (cs : List (List Bytes)) (s : Sock)
      → Delivers w (sent s) (concat (map concat cs)) (write_chunks w cs s)
  unfolding write_chunks
  write_chunks-Delivers [] s = sym (append-nil (sent s))
  write_chunks-Delivers (c ∷ cs) s =
      let r : Status × Sock = write_ws_frames_preframed_inner w c s in
      then_chunks (sent s) (concat c) (concat (map concat cs)) r (write_chunks w cs r.1)
        (inner-Delivers c s) (λ _. write_chunks-Delivers cs r.1)

  -- Where the client socket behaves as documented: if `write_ws_frames_batched` succeeds, the
  -- socket has sent all frames, each once and in order, for any number of frames.
  pub write_ws_frames_batched-Delivers :
      (frames : List Bytes) (s : Sock)
      → Delivers w (sent s) (concat frames) (write_ws_frames_batched w frames s)
  unfolding write_ws_frames_batched
  write_ws_frames_batched-Delivers [] s = sym (append-nil (sent s))
  write_ws_frames_batched-Delivers (f ∷ []) s = rw (append-nil f) (write_status-Delivers w law s f)
  write_ws_frames_batched-Delivers (f ∷ g ∷ fs) s =
      let frames : List Bytes = f ∷ g ∷ fs in
      elim (Bool-cases (ltb 1024 (length frames))) [
        | inr few ↦ rw few (inner-Delivers frames s)
        | inl many ↦ rw many (
            subst
              (λ (b : Bytes).
                Delivers w (sent s) b (write_chunks w (chunks 1024 (length frames) frames) s))
              (sym (concat-concat (chunks 1024 (length frames) frames))
                ∙ ap concat (concat-chunks 1024 (length frames) frames (omega arith) (omega arith)))
              (write_chunks-Delivers (chunks 1024 (length frames) frames) s))
      ]
