-- ===== src/Conn/Preserve/Phases.antt =====
-- The invariant and Phase 0 of `drain_phases!` in src/server/connection.rs.
use shrimpwisp.Prelude.{ℕ}
use shrimpwisp.Prelude.{◌≡◌, refl, sym, subst, ◌∙◌, inl, inr}
use shrimpwisp.Prelude.{Bool, true, false, Option, none, some}
use shrimpwisp.Prelude.{List, [], ◌∷◌, ◌++◌, append_assoc, arith}
use shrimpwisp.Prelude.{◌==◌, Bool-cases}
use shrimpwisp.Prelude.{is_empty}
use shrimpwisp.Proxy.{TcpProxyStream, ProxyStream, tcp_stream, udp_stream, connecting, stream_flag}
use shrimpwisp.Proxy.Table.{get}
use shrimpwisp.Backend.{BackendWriter, drain_pending}
use shrimpwisp.Config.{ServerConfig}
use shrimpwisp.Conn.{Conn, send, send_close, put_stream, remove}
use shrimpwisp.Protocol.{network_error, network_error}
use shrimpwisp.Conn.Invariant.{mem, StreamOk, Invariant, StreamOk-mono}
use shrimpwisp.Conn.Changes.{put_stream-Invariant, remove-Invariant}
use shrimpwisp.Backend.Fields.{SameFields, drain_pending-SameFields, drain_pending-DeadEmpty}
use shrimpwisp.Conn.Phases.{
  Verdict, keep, dismiss, dead, drain_stream, drain_one, Swept, add_verdict, retain_pending,
  close_all, drain_writes,
}
use shrimpwisp.Conn.Preserve.Data.{ok_at}

-- The second list has every ID of the first but `id`.
abbrev pub Without : ℕ → List ℕ → List ℕ → Type 0
Without id q q' = (j : ℕ) → (id == j) ≡ false → mem j q ≡ true → mem j q' ≡ true

mem-Without : (id : ℕ) (pre rest : List ℕ) → Without id (pre ++ (id ∷ rest)) (pre ++ rest)
unfolding mem
mem-Without id [] rest j n h = ground arith
mem-Without id (k ∷ pre) rest j n h = ground (arith, mem-Without id pre rest j n)

module _ (w : BackendWriter) (config : ServerConfig) where
  open w use {Sock}

  -- The connection with another list of streams to drain.
  abbrev with_queue : List ℕ → Conn Sock → Conn Sock
  with_queue q s = record s { streams_with_pending = q }

  -- What is left to show of a verdict: a stream that is kept is right with the list as it was, and
  -- one that is dropped is right with a list that lacks it.
  abbrev Judged : ℕ → List ℕ → Verdict w × Conn Sock → Type 0
  Judged id q (keep, s) = Invariant config (with_queue q s)
  Judged id q (dismiss, s) = (q' : List ℕ) → Without id q q' → Invariant config (with_queue q' s)
  Judged id q (dead, s) = (q' : List ℕ) → Without id q q' → Invariant config (with_queue q' s)

  -- A stream with nothing pending that is no longer queued.
  idle_stream :
      (id : ℕ) (t r : TcpProxyStream Sock) (q q' : List ℕ) (s : Conn Sock)
      → Invariant config (with_queue q s)
      → get id s.table ≡ some (tcp_stream t)
      → SameFields w t r
      → is_empty r.pending ≡ true
      → Without id q q'
      → Invariant config
          (with_queue q' (put_stream id (tcp_stream (record r { queued_for_drain = false })) s))
  unfolding put_stream
  idle_stream id t r q q' s v e same none_ wo =
      let ok : StreamOk config q s.flags.next_flag id (some (tcp_stream t)) =
        ok_at w config id (tcp_stream t) (with_queue q s) v e in
      put_stream-Invariant config id _ (tcp_stream t) q' (with_queue q s) v e
        (unfold stream_flag in same.same_cancel) wo
        (
          omega (arith, same.same_cancel, ok.0),
          (λ f. cc),
          (λ f. cc),
          omega (arith, same.same_packets, ok.3),
        )

  drain_stream-Judged :
      (id : ℕ) (t : TcpProxyStream Sock) (q : List ℕ) (s : Conn Sock)
      → Invariant config (with_queue q s)
      → get id s.table ≡ some (tcp_stream t)
      → Judged id q (drain_stream w id t s)
  unfolding drain_stream
  drain_stream-Judged id t q s v e =
      let r : TcpProxyStream Sock × Bool = drain_pending w t in
      let same : SameFields w t r.0 = drain_pending-SameFields w t in
      elim (Bool-cases (is_empty t.pending)) [
        | inl a ↦ rw a (λ q' wo.
            idle_stream id t t q q' s v e
              (record { same_cancel = refl; same_packets = refl; same_queued = refl }) a wo)
        | inr a ↦ rw a (elim (Bool-cases r.1) [
          | inl b ↦
              rw b
                (λ q' wo. idle_stream id t r.0 q q' s v e same (drain_pending-DeadEmpty w t b) wo)
          | inr b ↦ rw b (elim (Bool-cases (is_empty r.0.pending)) [
            | inl c ↦ rw c (λ q' wo. idle_stream id t r.0 q q' s v e same c wo)
            | inr c ↦ rw c (still_pending r.0 same a)
          ])
        ])
      ]
    where
      still_pending :
          (r : TcpProxyStream Sock)
          → SameFields w t r
          → is_empty t.pending ≡ false
          → Invariant config (with_queue q (put_stream id (tcp_stream r) s))
      still_pending r same a =
          let ok : StreamOk config q s.flags.next_flag id (some (tcp_stream t)) =
            ok_at w config id (tcp_stream t) (with_queue q s) v e in
          unfold put_stream in
          put_stream-Invariant config id (tcp_stream r) (tcp_stream t) q (with_queue q s) v e
            (unfold stream_flag in same.same_cancel) (λ j n h. h)
            (
              omega (arith, same.same_cancel, ok.0),
              (λ f. same.same_queued ∙ ok.1 a),
              (λ f. ok.2 (sym same.same_queued ∙ f)),
              omega (arith, same.same_packets, ok.3),
            )

  -- Where there is no TCP stream, the list does not matter.
  drop_other :
      (id : ℕ) (q q' : List ℕ) (s : Conn Sock)
      → Invariant config (with_queue q s)
      → StreamOk config q' s.flags.next_flag id (get id s.table)
      → Without id q q'
      → Invariant config (with_queue q' s)
  drop_other id q q' s v ok wo = record {
    table_ok = v.table_ok;
    streams_ok = other;
    tasks_ok = v.tasks_ok;
    cache_ok = v.cache_ok;
    datagrams_ok = v.datagrams_ok;
  }
    where
      other : (j : ℕ) → StreamOk config q' s.flags.next_flag j (get j s.table)
      other j = elim (Bool-cases (id == j)) [
        | inl p ↦
            subst (λ k. StreamOk config q' s.flags.next_flag k (get k s.table)) (ground arith) ok
        | inr n ↦
            StreamOk-mono config q q' _ _ j (get j s.table) (wo j n) (omega arith) (v.streams_ok j)
      ]

  drain_one-Judged :
      (id : ℕ) (o : Option (ProxyStream Sock)) (q : List ℕ) (s : Conn Sock)
      → Invariant config (with_queue q s)
      → get id s.table ≡ o
      → Judged id q (drain_one w id o s)
  unfolding drain_one
  drain_one-Judged id (some (tcp_stream t)) q s v e = drain_stream-Judged id t q s v e
  drain_one-Judged id none q s v e = λ q' wo.
      drop_other id q q' s v (subst (StreamOk config q' s.flags.next_flag id) (sym e) tt) wo
  drain_one-Judged id (some (udp_stream u)) q s v e = λ q' wo.
      drop_other id q q' s v
        (subst (StreamOk config q' s.flags.next_flag id) (sym e)
          (ok_at w config id (udp_stream u) (with_queue q s) v e))
        wo
  drain_one-Judged id (some (connecting c)) q s v e = λ q' wo.
      drop_other id q q' s v
        (subst (StreamOk config q' s.flags.next_flag id) (sym e)
          (ok_at w config id (connecting c) (with_queue q s) v e))
        wo

  -- One verdict, and the rest of the list.
  Judged-all :
      (id : ℕ) (pre sids : List ℕ)
      → ((pre' : List ℕ) (s' : Conn Sock)
          → Invariant config (with_queue (pre' ++ sids) s')
          → Invariant config (
              with_queue
                (pre' ++ (retain_pending w sids s').kept)
                (retain_pending w sids s').after))
      → (r : Verdict w × Conn Sock) → Judged id (pre ++ (id ∷ sids)) r
      → Invariant config (
          with_queue
            (pre ++ (add_verdict w id r.0 (retain_pending w sids r.1)).kept)
            (add_verdict w id r.0 (retain_pending w sids r.1)).after)
  Judged-all id pre sids rest (keep, s') h =
      subst (λ q. Invariant config (with_queue q (retain_pending w sids s').after))
        (append_assoc pre (id ∷ []) (retain_pending w sids s').kept)
        (rest (pre ++ (id ∷ [])) s' (
          subst (λ q. Invariant config (with_queue q s')) (sym (append_assoc pre (id ∷ []) sids))
            h))
  Judged-all id pre sids rest (dismiss, s') h =
      rest pre s' (h (pre ++ sids) (mem-Without id pre sids))
  Judged-all id pre sids rest (dead, s') h = rest pre s' (h (pre ++ sids) (mem-Without id pre sids))

  retain_pending-Invariant :
      (pre sids : List ℕ) (s : Conn Sock)
      → Invariant config (with_queue (pre ++ sids) s)
      → Invariant config
          (with_queue (pre ++ (retain_pending w sids s).kept) (retain_pending w sids s).after)
  unfolding retain_pending
  retain_pending-Invariant pre [] s v = v
  retain_pending-Invariant pre (id ∷ sids) s v =
      Judged-all id pre sids (λ pre' s' h. retain_pending-Invariant pre' sids s' h)
        (drain_one w id (get id s.table) s)
        (drain_one-Judged id (get id s.table) (pre ++ (id ∷ sids)) s v refl)

  close_all-Invariant :
      (sids : List ℕ) (s : Conn Sock) → Invariant config s → Invariant config (close_all w sids s)
  unfolding close_all send_close send
  close_all-Invariant [] s v = v
  close_all-Invariant (id ∷ sids) s v =
      close_all-Invariant sids (send_close id network_error (remove id s).1)
        (unfold send_close send in remove-Invariant config id s v)

  pub drain_writes-Invariant :
      (s : Conn Sock) → Invariant config s → Invariant config (drain_writes w s)
  unfolding drain_writes
  drain_writes-Invariant s v =
      let r : Swept w = retain_pending w s.streams_with_pending s in
      close_all-Invariant r.dead_streams (with_queue r.kept r.after)
        (retain_pending-Invariant [] s.streams_with_pending s v)
