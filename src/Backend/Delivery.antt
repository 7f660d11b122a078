-- ===== src/Backend/Delivery.antt =====
-- What a backend of src/server/connection.rs receives from `tcp_try_write` and the early data.
use shrimpwisp.Prelude.{◌≡◌, refl, sym, ap, ◌∙◌, ◌⊎◌, inl, inr}
use shrimpwisp.Prelude.{Bool, true, false}
use shrimpwisp.Prelude.{List, [], ◌∷◌, ◌++◌, append-nil, append_assoc}
use shrimpwisp.Prelude.{◌==◌, Bool-cases}
use shrimpwisp.Prelude.{length, is_empty, concat}
use shrimpwisp.Prelude.{concat-append}
use shrimpwisp.Prelude.Bytes.{Bytes}
use shrimpwisp.Proxy.{TcpProxyStream}
use shrimpwisp.Backend.{
  BackendWriter, IsBackend, drain_pending, write_now, tcp_try_write, flush_early,
}
use shrimpwisp.Backend.Drain.{
  total_bytes, is_wrote, is_blocked, is_fatal, io_cases, Keeps, written_all, written_part, blocked,
  drain_pending-Keeps,
}

module _ (w : BackendWriter) (law : IsBackend w) where
  open w use {Sock, try_write, try_write_vectored, received}

  write_now-Keeps :
      (b : Bytes) (tcp : TcpProxyStream Sock)
      → tcp.pending ≡ []
      → Keeps w law (received tcp.writer ++ b) (write_now w b tcp)
  unfolding write_now
  write_now-Keeps b tcp p = elim (io_cases (try_write tcp.writer b).0) [
    | is_fatal e ↦ rw (e, write_now) (λ dead. cc)
    | is_blocked e ↦
        rw (e, write_now)
          λ _. rw p (ap (λ x. x ++ (b ++ [])) (blocked w law tcp.writer b e) ∙ rw (append-nil b))
    | is_wrote n e ↦
        rw (e, write_now)
          (elim (Bool-cases (n == length b)) [
            | inl all ↦ rw all λ _. rw p (append-nil _ ∙ written_all w law tcp.writer b n e all)
            | inr part ↦
                rw part λ _. rw p (written_part w law tcp.writer b n [] e ∙ rw (append-nil b))
          ])
  ]

  queue_back :
      (b before : Bytes) (tcp : TcpProxyStream Sock)
      → total_bytes w tcp ≡ before
      → received tcp.writer ++ concat (tcp.pending ++ (b ∷ [])) ≡ before ++ b
  queue_back b before tcp e =
      ap (◌++◌ (received tcp.writer)) (concat-append tcp.pending (b ∷ []) ∙ rw (append-nil b))
      ∙ sym (append_assoc (received tcp.writer) (concat tcp.pending) b)
      ∙ ap (λ x. x ++ b) e

  is_empty-eq : {A : Type 0} (xs : List A) → is_empty xs ≡ true → xs ≡ []
  is_empty-eq [] e = refl
  is_empty-eq (x ∷ xs) e = cc

  nothing_pending :
      (before : Bytes) (tcp : TcpProxyStream Sock)
      → tcp.pending ≡ []
      → total_bytes w tcp ≡ before
      → received tcp.writer ≡ before
  nothing_pending before tcp p e =
      sym (append-nil (received tcp.writer)) ∙ ap (λ c. received tcp.writer ++ concat c) (sym p) ∙ e

  pub tcp_try_write-Keeps :
      (b : Bytes) (tcp : TcpProxyStream Sock)
      → Keeps w law (total_bytes w tcp ++ b) (tcp_try_write w b tcp)
  unfolding tcp_try_write
  tcp_try_write-Keeps b tcp =
      let d : TcpProxyStream Sock × Bool = drain_pending w tcp in
      elim (Bool-cases (is_empty tcp.pending)) [
        | inl none_ ↦
            let p : tcp.pending ≡ [] = is_empty-eq tcp.pending none_ in
            rw none_ λ alive.
              write_now-Keeps b tcp p alive ∙ ap (λ x. x ++ b) (nothing_pending _ tcp p refl)
        | inr some_ ↦ rw some_ (elim (Bool-cases d.1) [
          | inl dead ↦ rw dead (λ alive. cc)
          | inr alive ↦
              let kept : total_bytes w d.0 ≡ total_bytes w tcp =
                drain_pending-Keeps w law tcp alive in
              rw alive (elim (Bool-cases (is_empty d.0.pending)) [
                | inr left ↦ rw left (λ _. queue_back b _ d.0 kept)
                | inl out ↦
                    let p : d.0.pending ≡ [] = is_empty-eq d.0.pending out in
                    rw out λ h.
                      write_now-Keeps b d.0 p h ∙ ap (λ x. x ++ b) (nothing_pending _ d.0 p kept)
              ])
        ])
      ]

  -- Where the backend socket behaves as documented: `tcp_try_write` finds the backend dead, or
  -- what it received and what is pending are the bytes of before, then the new ones, whatever
  -- each write call took.
  pub total_bytes-tcp_try_write :
      (b : Bytes) (tcp : TcpProxyStream Sock)
      → ((tcp_try_write w b tcp).1 ≡ true)
        ⊎ (total_bytes w (tcp_try_write w b tcp).0 ≡ total_bytes w tcp ++ b)
  total_bytes-tcp_try_write b tcp = elim (Bool-cases (tcp_try_write w b tcp).1) [
    | inl dead ↦ inl dead
    | inr alive ↦ inr (tcp_try_write-Keeps b tcp alive)
  ]

  -- Early data on a new connection: the backend gets it in order, and what it did not take is kept.
  pub flush_early_total :
      (chunks : List Bytes) (s : Sock)
      → (flush_early w chunks s).dead ≡ false
      → received (flush_early w chunks s).writer ++ concat (flush_early w chunks s).pending
        ≡ received s ++ concat chunks
  unfolding flush_early
  flush_early_total [] s = λ _. refl
  flush_early_total (b ∷ more) s = elim (io_cases (try_write s b).0) [
    | is_fatal e ↦ rw (e, flush_early) (λ dead. cc)
    | is_blocked e ↦
        rw (e, flush_early) λ _. ap (λ x. x ++ (b ++ concat more)) (blocked w law s b e)
    | is_wrote n e ↦
        rw (e, flush_early)
          (elim (Bool-cases (n == length b)) [
            | inr part ↦ rw part (λ _. written_part w law s b n (concat more) e)
            | inl all ↦ rw all λ h.
                flush_early_total more (try_write s b).1 h
                ∙ ap (λ x. x ++ concat more) (written_all w law s b n e all)
                ∙ append_assoc (received s) b (concat more)
          ])
  ]
