-- ===== src/Backend/Fields.antt =====
-- What the writes of src/server/connection.rs to a backend leave alone in a stream.
use shrimpwisp.Prelude.{true}
use shrimpwisp.Prelude.{ℕ, min}
use shrimpwisp.Prelude.{◌≡◌, refl, ◌∙◌, inl, inr}
use shrimpwisp.Prelude.{Bool, ◌&&◌}
use shrimpwisp.Prelude.{List, [], ◌∷◌}
use shrimpwisp.Prelude.{ltb, ◌==◌, Bool-cases}
use shrimpwisp.Prelude.{length, is_empty, take, concat}
use shrimpwisp.Prelude.Bytes.{Bytes}
use shrimpwisp.Proxy.{TcpProxyStream}
use shrimpwisp.Backend.{
  BackendWriter, drain_single, drain_vectored, drain_chunks, drain_pending, write_now,
  tcp_try_write,
}
use shrimpwisp.Backend.Drain.{io_cases, is_wrote, is_blocked, is_fatal}

module _ (w : BackendWriter) where
  open w use {Sock, try_write, try_write_vectored}

  pub record SameFields (old new : TcpProxyStream Sock) : Type 0 where
    pub same_cancel : new.cancel ≡ old.cancel
    pub same_packets : new.packets_since_continue ≡ old.packets_since_continue
    pub same_queued : new.queued_for_drain ≡ old.queued_for_drain

  same :
      (s : Sock) (p : List Bytes) (t : TcpProxyStream Sock)
      → SameFields t (record t { writer = s; pending = p })
  same s p t = record { same_cancel = refl; same_packets = refl; same_queued = refl }

  drain_single-SameFields :
      (chunk : Bytes) (t : TcpProxyStream Sock) → SameFields t (drain_single w chunk t).0
  unfolding drain_single
  drain_single-SameFields chunk t = elim (io_cases (try_write t.writer chunk).0) [
    | is_fatal e ↦ rw (e, drain_single) (same _ _ t)
    | is_blocked e ↦ rw (e, drain_single) (same _ _ t)
    | is_wrote n e ↦
        rw (e, drain_single)
          (elim (Bool-cases (n == length chunk)) [
            | inl b ↦ rw b (same _ _ t)
            | inr b ↦ rw b (same _ _ t)
          ])
  ]

  drain_vectored-SameFields : (t : TcpProxyStream Sock) → SameFields t (drain_vectored w t).0
  unfolding drain_vectored
  drain_vectored-SameFields t =
      let k : ℕ = min (length t.pending) 1024 in
      let slices : List Bytes = take k t.pending in
      elim (io_cases (try_write_vectored t.writer slices).0) [
        | is_fatal e ↦ rw (e, drain_vectored) (same _ _ t)
        | is_blocked e ↦ rw (e, drain_vectored) (same _ _ t)
        | is_wrote n e ↦
            rw (e, drain_vectored)
              (elim (Bool-cases (n == length (concat slices) && k == length t.pending)) [
                | inl b ↦ rw b (same _ _ t)
                | inr b ↦ rw b (elim (Bool-cases (ltb 0 n)) [
                  | inl c ↦ rw c (same _ _ t)
                  | inr c ↦ rw c (same _ _ t)
                ])
              ])
      ]

  drain_chunks-SameFields :
      (cs : List Bytes) (t : TcpProxyStream Sock) → SameFields t (drain_chunks w cs t).0
  unfolding drain_chunks
  drain_chunks-SameFields [] t = same _ _ t
  drain_chunks-SameFields (c ∷ []) t = drain_single-SameFields c t
  drain_chunks-SameFields (c ∷ d ∷ cs) t = drain_vectored-SameFields t

  pub drain_pending-SameFields : (t : TcpProxyStream Sock) → SameFields t (drain_pending w t).0
  unfolding drain_pending
  drain_pending-SameFields t = drain_chunks-SameFields t.pending t

  write_now-SameFields : (b : Bytes) (t : TcpProxyStream Sock) → SameFields t (write_now w b t).0
  unfolding write_now
  write_now-SameFields b t = elim (io_cases (try_write t.writer b).0) [
    | is_fatal e ↦ rw (e, write_now) (same _ _ t)
    | is_blocked e ↦ rw (e, write_now) (same _ _ t)
    | is_wrote n e ↦
        rw (e, write_now)
          (elim (Bool-cases (n == length b)) [
            | inl c ↦ rw c (same _ _ t)
            | inr c ↦ rw c (same _ _ t)
          ])
  ]

  then_same : {a b c : TcpProxyStream Sock} → SameFields a b → SameFields b c → SameFields a c
  then_same p q = record {
    same_cancel = q.same_cancel ∙ p.same_cancel;
    same_packets = q.same_packets ∙ p.same_packets;
    same_queued = q.same_queued ∙ p.same_queued;
  }

  pub tcp_try_write-SameFields :
      (b : Bytes) (t : TcpProxyStream Sock) → SameFields t (tcp_try_write w b t).0
  unfolding tcp_try_write
  tcp_try_write-SameFields b t =
      let d : TcpProxyStream Sock × Bool = drain_pending w t in
      elim (Bool-cases (is_empty t.pending)) [
        | inl e ↦ rw e (write_now-SameFields b t)
        | inr e ↦ rw e (elim (Bool-cases d.1) [
          | inl f ↦ rw f (drain_pending-SameFields t)
          | inr f ↦ rw f (elim (Bool-cases (is_empty d.0.pending)) [
            | inl g ↦ rw g (then_same (drain_pending-SameFields t) (write_now-SameFields b d.0))
            | inr g ↦ rw g (then_same (drain_pending-SameFields t) (same _ _ d.0))
          ])
        ])
      ]

  -- A dead backend has nothing pending.
  abbrev pub DeadEmpty : TcpProxyStream Sock × Bool → Type 0
  DeadEmpty r = r.1 ≡ true → is_empty r.0.pending ≡ true

  drain_single-DeadEmpty :
      (chunk : Bytes) (t : TcpProxyStream Sock) → DeadEmpty (drain_single w chunk t)
  unfolding drain_single
  drain_single-DeadEmpty chunk t = elim (io_cases (try_write t.writer chunk).0) [
    | is_fatal e ↦ rw (e, drain_single) (λ _. refl)
    | is_blocked e ↦ rw (e, drain_single) (λ f. cc)
    | is_wrote n e ↦
        rw (e, drain_single)
          (elim (Bool-cases (n == length chunk)) [
            | inl b ↦ rw b (λ f. cc)
            | inr b ↦ rw b (λ f. cc)
          ])
  ]

  drain_vectored-DeadEmpty : (t : TcpProxyStream Sock) → DeadEmpty (drain_vectored w t)
  unfolding drain_vectored
  drain_vectored-DeadEmpty t =
      let k : ℕ = min (length t.pending) 1024 in
      let slices : List Bytes = take k t.pending in
      elim (io_cases (try_write_vectored t.writer slices).0) [
        | is_fatal e ↦ rw (e, drain_vectored) (λ _. refl)
        | is_blocked e ↦ rw (e, drain_vectored) (λ f. cc)
        | is_wrote n e ↦
            rw (e, drain_vectored)
              (elim (Bool-cases (n == length (concat slices) && k == length t.pending)) [
                | inl b ↦ rw b (λ f. cc)
                | inr b ↦ rw b (elim (Bool-cases (ltb 0 n)) [
                  | inl c ↦ rw c (λ f. cc)
                  | inr c ↦ rw c (λ f. cc)
                ])
              ])
      ]

  drain_chunks-DeadEmpty :
      (cs : List Bytes) (t : TcpProxyStream Sock) → DeadEmpty (drain_chunks w cs t)
  unfolding drain_chunks
  drain_chunks-DeadEmpty [] t = λ f. cc
  drain_chunks-DeadEmpty (c ∷ []) t = drain_single-DeadEmpty c t
  drain_chunks-DeadEmpty (c ∷ d ∷ cs) t = drain_vectored-DeadEmpty t

  pub drain_pending-DeadEmpty : (t : TcpProxyStream Sock) → DeadEmpty (drain_pending w t)
  unfolding drain_pending
  drain_pending-DeadEmpty t = drain_chunks-DeadEmpty t.pending t

  write_now-DeadEmpty :
      (b : Bytes) (t : TcpProxyStream Sock)
      → is_empty t.pending ≡ true
      → DeadEmpty (write_now w b t)
  unfolding write_now
  write_now-DeadEmpty b t p = elim (io_cases (try_write t.writer b).0) [
    | is_fatal e ↦ rw (e, write_now) (λ _. p)
    | is_blocked e ↦ rw (e, write_now) (λ f. cc)
    | is_wrote n e ↦
        rw (e, write_now)
          (elim (Bool-cases (n == length b)) [ inl c ↦ rw c (λ f. cc) | inr c ↦ rw c (λ f. cc) ])
  ]

  pub tcp_try_write-DeadEmpty :
      (b : Bytes) (t : TcpProxyStream Sock) → DeadEmpty (tcp_try_write w b t)
  unfolding tcp_try_write
  tcp_try_write-DeadEmpty b t =
      let d : TcpProxyStream Sock × Bool = drain_pending w t in
      elim (Bool-cases (is_empty t.pending)) [
        | inl e ↦ rw e (write_now-DeadEmpty b t e)
        | inr e ↦ rw e (elim (Bool-cases d.1) [
          | inl f ↦ rw f (λ _. drain_pending-DeadEmpty t f)
          | inr f ↦ rw f (elim (Bool-cases (is_empty d.0.pending)) [
            | inl g ↦ rw g (write_now-DeadEmpty b d.0 g)
            | inr g ↦ rw g (λ h. cc)
          ])
        ])
      ]
