-- ===== src/Conn/Preserve/Data.antt =====
-- The invariant and DATA: `handle_data_zerocopy` of src/server/connection.rs.
use shrimpwisp.Prelude.{All-snoc}
use shrimpwisp.Prelude.{ℕ, ◌+◌, ◌%◌, ◌≤◌, ◌<◌}
use shrimpwisp.Prelude.{◌≡◌, refl, sym, subst, ◌∙◌, inl, inr}
use shrimpwisp.Prelude.{Bool, true, false, Option, none, some}
use shrimpwisp.Prelude.{List, [], ◌∷◌, ◌++◌, arith}
use shrimpwisp.Prelude.{ltb, leb, if◌then◌else◌, Bool-cases}
use shrimpwisp.Prelude.{ltb→lt}
use shrimpwisp.Prelude.{length, is_empty}
use shrimpwisp.Prelude.{length-append}
use shrimpwisp.Prelude.Bytes.{Bytes, IsU32}
use shrimpwisp.Proxy.{
  TcpProxyStream, ProxyStream, tcp_stream, udp_stream, connecting, stream_flag, record_packet,
  reset_counter, queue_early_data,
}
use shrimpwisp.Proxy.Table.{get}
use shrimpwisp.Backend.{BackendWriter, tcp_try_write}
use shrimpwisp.Config.{ServerConfig, continue_threshold}
use shrimpwisp.Conn.{Conn, send, send_close, put_stream, remove}
use shrimpwisp.Conn.Invariant.{Permitted, mem, StreamOk, Invariant}
use shrimpwisp.Conn.Changes.{put_stream-Invariant, remove-Invariant}
use shrimpwisp.Backend.Fields.{SameFields, tcp_try_write-SameFields, tcp_try_write-DeadEmpty}
use shrimpwisp.Conn.Data.{
  must_queue, after_write, data_for, handle_data_zerocopy, close_dead, data_packet,
}

pub mem-snoc : (j id : ℕ) (q : List ℕ) → mem j q ≡ true → mem j (q ++ (id ∷ [])) ≡ true
unfolding mem
mem-snoc j id [] h = cc
mem-snoc j id (k ∷ q) h = ground (arith, mem-snoc j id q)

pub mem-snoc_last : (id : ℕ) (q : List ℕ) → mem id (q ++ (id ∷ [])) ≡ true
unfolding mem
mem-snoc_last id [] = ground arith
mem-snoc_last id (k ∷ q) = ground (arith, mem-snoc_last id q)

pub threshold_bounds :
    (c : ServerConfig)
    → IsU32 c.buffer_size
    → (1 ≤ continue_threshold c) × (continue_threshold c < 4294967296)
unfolding continue_threshold
threshold_bounds c h = (omega arith, omega arith)

leb_false→lt : {a b : ℕ} → leb a b ≡ false → b < a
leb_false→lt h = ground arith

module _ (w : BackendWriter) (config : ServerConfig) where
  open w use {Sock}

  queue_of : ℕ → TcpProxyStream Sock → List ℕ → List ℕ
  queue_of id t q = if must_queue w config t then q ++ (id ∷ []) else q

  queue_of_mono :
      (id : ℕ) (t : TcpProxyStream Sock) (q : List ℕ) (j : ℕ)
      → mem j q ≡ true
      → mem j (queue_of id t q) ≡ true
  unfolding queue_of
  queue_of_mono id t q j h = ground (arith, mem-snoc j id q)

  -- What the invariant says of a stream that is there.
  pub ok_at :
      (id : ℕ) (st : ProxyStream Sock) (s : Conn Sock)
      → Invariant config s
      → get id s.table ≡ some st
      → StreamOk config s.streams_with_pending s.flags.next_flag id (some st)
  ok_at id st s v e =
      subst (StreamOk config s.streams_with_pending s.flags.next_flag id) e (v.streams_ok id)

  module _ (u32 : IsU32 config.buffer_size) where
    -- After the write, the stream is right with the queue that it may have entered.
    pub after_write-Invariant :
        (id : ℕ) (t old : TcpProxyStream Sock) (s : Conn Sock)
        → Invariant config s
        → get id s.table ≡ some (tcp_stream old)
        → SameFields w old t
        → Invariant config (after_write w config id t s)
    unfolding after_write record_packet reset_counter queue_of
    after_write-Invariant id t old s v e same =
        let ok : StreamOk config s.streams_with_pending s.flags.next_flag id
            (some (tcp_stream old)) =
          ok_at id (tcp_stream old) s v e in
        let q : List ℕ = queue_of id t s.streams_with_pending in
        let n = (t.packets_since_continue + 1) % 4294967296 in
        let b = if must_queue w config t then true else t.queued_for_drain in
        let queued_ok : is_empty t.pending ≡ false → b ≡ true = ground arith in
        let listed : b ≡ true → mem id q ≡ true =
          ground (arith, same.same_queued, ok.2, mem-snoc_last id s.streams_with_pending) in
        let lt : old.cancel < s.flags.next_flag = ok.0 in
        elim (Bool-cases (leb (continue_threshold config) n)) [
          | inl full ↦ rw full (
              put_stream-Invariant config id _ (tcp_stream old) q s v e
                (unfold stream_flag in same.same_cancel)
                (λ j _. queue_of_mono id t s.streams_with_pending j)
                (
                  omega (arith, same.same_cancel, lt),
                  queued_ok,
                  listed,
                  omega (arith, threshold_bounds config u32),
                ))
          | inr more ↦ rw more (
              put_stream-Invariant config id _ (tcp_stream old) q s v e
                (unfold stream_flag in same.same_cancel)
                (λ j _. queue_of_mono id t s.streams_with_pending j)
                (omega (arith, same.same_cancel, lt), queued_ok, listed, leb_false→lt more))
        ]

    -- A dead backend has nothing pending, so its stream is right until it is removed.
    died :
        (id : ℕ) (t r : TcpProxyStream Sock) (s : Conn Sock)
        → Invariant config s
        → get id s.table ≡ some (tcp_stream t)
        → SameFields w t r
        → is_empty r.pending ≡ true
        → Invariant config (remove id (put_stream id (tcp_stream r) s)).1
    unfolding put_stream
    died id t r s v e same none_ =
        let ok : StreamOk config s.streams_with_pending s.flags.next_flag id (some (tcp_stream t)) =
          ok_at id (tcp_stream t) s v e in
        remove-Invariant config id _ (
          put_stream-Invariant config id (tcp_stream r) (tcp_stream t) s.streams_with_pending s v e
            (unfold stream_flag in same.same_cancel) (λ j _ h. h)
            (
              omega (arith, same.same_cancel, ok.0),
              (λ f. cc),
              (λ f. ok.2 (sym same.same_queued ∙ f)),
              omega (arith, same.same_packets, ok.3),
            ))

    data_for-Invariant :
        (id : ℕ) (bytes : Bytes) (o : Option (ProxyStream Sock)) (s : Conn Sock)
        → Invariant config s
        → get id s.table ≡ o
        → Invariant config (data_for w config id bytes o s).1
    unfolding data_for queue_early_data put_stream
    data_for-Invariant id bytes none s v e = v
    data_for-Invariant id bytes (some (udp_stream u)) s v e = record {
      table_ok = v.table_ok;
      streams_ok = v.streams_ok;
      tasks_ok = v.tasks_ok;
      cache_ok = v.cache_ok;
      datagrams_ok =
          All-snoc (λ d. Permitted config d.0) s.datagrams (u.dest_addr, bytes) v.datagrams_ok
            (ok_at id (udp_stream u) s v e).1;
    }
    data_for-Invariant id bytes (some (connecting c)) s v e =
        elim (Bool-cases (ltb (length c.early_data) 128)) [
          | inr full ↦ rw full v
          | inl room ↦ rw room (
              put_stream-Invariant config id _ (connecting c) s.streams_with_pending s v e
                (unfold stream_flag in refl) (λ j _ h. h)
                (
                  (ok_at id (connecting c) s v e).0,
                  omega (arith, ltb→lt _ _ room, length-append c.early_data (bytes ∷ [])),
                ))
        ]
    data_for-Invariant id bytes (some (tcp_stream t)) s v e =
        let r : TcpProxyStream Sock × Bool = tcp_try_write w bytes t in
        let same : SameFields w t r.0 = tcp_try_write-SameFields w bytes t in
        elim (Bool-cases r.1) [
          | inr alive ↦ rw alive (after_write-Invariant id r.0 t s v e same)
          | inl dead ↦ rw dead (died id t r.0 s v e same (tcp_try_write-DeadEmpty w bytes t dead))
        ]

    pub data_packet-Invariant :
        (id : ℕ) (bytes : Bytes) (s : Conn Sock)
        → Invariant config s
        → Invariant config (data_packet w config id bytes s)
    unfolding data_packet handle_data_zerocopy
    data_packet-Invariant id bytes s v =
        closed (data_for w config id bytes (get id s.table) s)
          (data_for-Invariant id bytes (get id s.table) s v refl)
      where
        closed :
            (r : Option ℕ × Conn Sock)
            → Invariant config r.1
            → Invariant config (close_dead w config r)
        closed (none, s') v' = unfold close_dead in v'
        closed (some k, s') v' = unfold close_dead send_close send in v'
