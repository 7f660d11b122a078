-- ===== src/Conn/Credit.antt =====
-- The credit of the client over many DATA packets of one stream, in src/server/connection.rs.
use shrimpwisp.Prelude.{ℕ, zero, suc, ◌+◌, ◌*◌, ◌<◌}
use shrimpwisp.Prelude.{◌≡◌, refl, sym, ap, subst, ◌∙◌, inl, inr}
use shrimpwisp.Prelude.{false, Option, none, some}
use shrimpwisp.Prelude.{List, [], ◌∷◌, ◌++◌, append-nil, append_assoc, arith}
use shrimpwisp.Prelude.{length, concat}
use shrimpwisp.Prelude.Bytes.{Bytes, IsU32}
use shrimpwisp.Proxy.{TcpProxyStream, ProxyStream, tcp_stream, udp_stream, connecting}
use shrimpwisp.Proxy.Table.{get}
use shrimpwisp.Backend.{BackendWriter, IsBackend, tcp_try_write}
use shrimpwisp.Config.{ServerConfig, continue_threshold}
use shrimpwisp.Conn.Phases.{continue_messages}
use shrimpwisp.Conn.{Conn}
use shrimpwisp.Backend.Drain.{total_bytes}
use shrimpwisp.Conn.Data.{data_packet}
use shrimpwisp.Conn.Invariant.{Invariant}
use shrimpwisp.Conn.Preserve.Data.{ok_at, data_packet-Invariant}
use shrimpwisp.Conn.Delivery.{Counted, data_packet_alive}

suc_mul : (n k : ℕ) → suc n * k ≡ k + n * k
suc_mul n k = omega arith

module _ (w : BackendWriter) (law : IsBackend w) (config : ServerConfig) where
  open w use {Sock}

  -- DATA packets one after the other.
  unfoldable pub data_packets : ℕ → List Bytes → Conn Sock → Conn Sock
  unfolding data_packet
  data_packets id [] s = s
  data_packets id (b ∷ bs) s = data_packets id bs (data_packet w config id b s)

  -- The write of the first packet finds the backend alive.
  abbrev pub Alive : Bytes → Option (ProxyStream Sock) → Type 0
  Alive b none = ⊥
  Alive b (some (tcp_stream t)) = (tcp_try_write w b t).1 ≡ false
  Alive b (some (udp_stream u)) = ⊥
  Alive b (some (connecting c)) = ⊥

  unfoldable pub AllAlive : ℕ → List Bytes → Conn Sock → Type 0
  AllAlive id [] s = Unit
  AllAlive id (b ∷ bs) s = Alive b (get id s.table) × AllAlive id bs (data_packet w config id b s)

  -- CONTINUEs for the stream, each with all credits.
  unfoldable pub continues_due : ℕ → ℕ → List (ℕ × ℕ)
  continues_due id zero = []
  continues_due id (suc k) = (id, config.buffer_size) ∷ continues_due id k

  -- What a number of packets has led to.
  pub record Credited (id : ℕ) (bs : List Bytes) (t : TcpProxyStream Sock) (s s' : Conn Sock)
      : Type 0 where
    pub after : TcpProxyStream Sock
    pub there : get id s'.table ≡ some (tcp_stream after)
    pub in_order : total_bytes w after ≡ total_bytes w t ++ concat bs
    pub grants : ℕ
    pub granted : s'.pending_continues ≡ s.pending_continues ++ continues_due id grants
    pub conserved :
        grants * continue_threshold config + after.packets_since_continue
        ≡ t.packets_since_continue + length bs
    pub below : after.packets_since_continue < continue_threshold config
    pub silent : s'.to_client ≡ s.to_client

  -- One packet more, in front.
  next :
      (id : ℕ) (b : Bytes) (bs : List Bytes) (t new : TcpProxyStream Sock) (s s1 s' : Conn Sock)
      → total_bytes w new ≡ total_bytes w t ++ b
      → Counted w law config id t new s s1
      → s1.to_client ≡ s.to_client
      → Credited id bs new s1 s'
      → Credited id (b ∷ bs) t s s'
  unfolding continues_due
  next id b bs t new s s1 s' bytes (inl (up, low, same)) quiet r = record {
    after = r.after;
    there = r.there;
    in_order =
        r.in_order
        ∙ (ap (λ x. x ++ concat bs) bytes ∙ append_assoc (total_bytes w t) b (concat bs));
    grants = r.grants;
    granted = r.granted ∙ ap (λ p. p ++ continues_due id r.grants) same;
    conserved = omega (arith, r.conserved, up);
    below = r.below;
    silent = r.silent ∙ quiet;
  }
  next id b bs t new s s1 s' bytes (inr (zeroed, full, same)) quiet r = record {
    after = r.after;
    there = r.there;
    in_order =
        r.in_order
        ∙ (ap (λ x. x ++ concat bs) bytes ∙ append_assoc (total_bytes w t) b (concat bs));
    grants = suc r.grants;
    granted =
        r.granted
        ∙ (ap (λ p. p ++ continues_due id r.grants) same
            ∙ append_assoc s.pending_continues ((id, config.buffer_size) ∷ [])
                (continues_due id r.grants));
    conserved =
        omega (arith, r.conserved, zeroed, full, suc_mul r.grants (continue_threshold config));
    below = r.below;
    silent = r.silent ∙ quiet;
  }

  -- DATA on a TCP stream of a connection that satisfies the invariant, any number of packets,
  -- where the backend socket behaves as documented, the buffer size fits 32 bits and every write
  -- finds the backend alive: the stream stays, and what its backend has and what is pending are
  -- the bytes of before, then those of the packets in order. One CONTINUE with all credits is due
  -- for every `continue_threshold` packets: with those that the stream had counted, the packets
  -- are the CONTINUEs times the threshold and the new count, which is below the threshold.
  pub data_packets-Credited :
      (id : ℕ) (bs : List Bytes) (t : TcpProxyStream Sock) (s : Conn Sock)
      → IsU32 config.buffer_size
      → Invariant config s
      → get id s.table ≡ some (tcp_stream t)
      → AllAlive id bs s
      → Credited id bs t s (data_packets id bs s)
  unfolding data_packets AllAlive
  data_packets-Credited id [] t s u32 v e alive = record {
    after = t;
    there = e;
    in_order = sym (append-nil _);
    grants = 0;
    granted = unfold continues_due in sym (append-nil s.pending_continues);
    conserved = omega arith;
    below = (ok_at w config id (tcp_stream t) s v e).3;
    silent = refl;
  }
  data_packets-Credited id (b ∷ bs) t s u32 v e alive =
      let (new, e', bytes, count, quiet) =
        data_packet_alive w law config id b t s u32 v e (subst (Alive b) e alive.0) in
      next id b bs t new s (data_packet w config id b s) _ bytes count quiet (
        data_packets-Credited id bs new (data_packet w config id b s) u32
          (data_packet-Invariant w config u32 id b s v) e' alive.1)

  -- The packets are credited, and the CONTINUEs that are due are with the client's socket.
  pub record Handed (id : ℕ) (bs : List Bytes) (t : TcpProxyStream Sock) (s s' : Conn Sock)
      : Type 0 where
    pub after : TcpProxyStream Sock
    pub there : get id s'.table ≡ some (tcp_stream after)
    pub grants : ℕ
    pub handed :
        s'.to_client
        ≡ s.to_client ++ continue_messages w (s.pending_continues ++ continues_due id grants)
    pub none_due : s'.pending_continues ≡ []
    pub conserved :
        grants * continue_threshold config + after.packets_since_continue
        ≡ t.packets_since_continue + length bs
    pub below : after.packets_since_continue < continue_threshold config
