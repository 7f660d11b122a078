-- ===== src/Conn/Changes.antt =====
-- The invariant and the elementary changes of a connection of src/server/connection.rs.
use shrimpwisp.Prelude.{All-snoc}
use shrimpwisp.Prelude.{ℕ, ◌≤◌, ◌<◌}
use shrimpwisp.Prelude.{◌≡◌, refl, sym, ap, subst, ◌∙◌, inl, inr}
use shrimpwisp.Prelude.{true, false, Option, none, some}
use shrimpwisp.Prelude.{List, arith}
use shrimpwisp.Prelude.{◌==◌, if◌then◌else◌, Bool-cases}
use shrimpwisp.Prelude.{All-imp}
use shrimpwisp.Proxy.{Flags, new_flag, cancel_flag, ProxyStream, stream_flag}
use shrimpwisp.Proxy.Table.{StreamTable, get, insert, take_out}
use shrimpwisp.Config.{ServerConfig}
use shrimpwisp.Conn.{
  spawn, Task, tcp_connect, tcp_reader, udp_reader, Conn, fresh_flag, put_stream, insert_stream,
  cancel_stream, remove,
}
use shrimpwisp.Proxy.Laws.{
  get-insert, insert-IsTable, get-take_out, take_out-IsTable, get-put, put-IsTable,
}
use shrimpwisp.Conn.Invariant.{mem, StreamOk, Owns, TaskOk, Invariant, StreamOk-if, StreamOk-mono}

module _ {S : Type 0} (config : ServerConfig) where
  -- What a task needs to stay right: more flags, none of them taken down, and its stream untouched
  -- while its flag is down.
  pub TaskOk-step :
      (table table' : StreamTable (ProxyStream S)) (fl fl' : Flags)
      → fl.next_flag ≤ fl'.next_flag
      → ((f : ℕ) → f < fl.next_flag → fl'.raised f ≡ false → fl.raised f ≡ false)
      → ((id f : ℕ)
          → fl'.raised f ≡ false
          → Owns config id f (get id table)
          → Owns config id f (get id table'))
      → (t : Task) → TaskOk config table fl t
      → TaskOk config table' fl' t
  TaskOk-step table table' fl fl' n r o (tcp_connect id addr flag m) h = (omega (arith, h.0), h.1)
  TaskOk-step table table' fl fl' n r o (tcp_reader id flag) h =
      (omega (arith, h.0), λ e. o id flag e (h.1 (r flag h.0 e)))
  TaskOk-step table table' fl fl' n r o (udp_reader id k flag) h =
      (omega (arith, h.0), λ e. o id flag e (h.1 (r flag h.0 e)))

  Owns-if :
      (id j f : ℕ) (a b : Option (ProxyStream S))
      → Owns config j f b
      → (id ≡ j → Owns config j f a)
      → Owns config j f (if id == j then a else b)
  Owns-if id j f a b h k = elim (Bool-cases (id == j)) [
    | inl e ↦ rw e (k (ground arith))
    | inr e ↦ rw e h
  ]

  pub fresh_flag-Invariant : (s : Conn S) → Invariant config s → Invariant config (fresh_flag s).1
  unfolding fresh_flag new_flag
  fresh_flag-Invariant s v = record {
    table_ok = v.table_ok;
    streams_ok = λ id.
        StreamOk-mono config s.streams_with_pending _ _ _ id (get id s.table) (λ q. q) (omega arith)
          (v.streams_ok id);
    tasks_ok =
        All-imp (TaskOk config s.table s.flags) _ s.tasks
          (TaskOk-step s.table s.table s.flags _ (omega arith) (λ f lt e. ground arith)
            (λ id f e o. o))
          v.tasks_ok;
    cache_ok = v.cache_ok;
    datagrams_ok = v.datagrams_ok;
  }

  -- A stream that keeps its flag may change in place.
  pub put_stream-Invariant :
      (id : ℕ) (new old : ProxyStream S) (queue : List ℕ) (s : Conn S)
      → Invariant config s
      → get id s.table ≡ some old
      → stream_flag new ≡ stream_flag old
      → ((j : ℕ) → (id == j) ≡ false → mem j s.streams_with_pending ≡ true → mem j queue ≡ true)
      → StreamOk config queue s.flags.next_flag id (some new)
      → Invariant config (record (put_stream id new s) { streams_with_pending = queue })
  unfolding put_stream
  put_stream-Invariant id new old queue s v e f q ok = record {
    table_ok = put-IsTable id new old s.table v.table_ok e;
    streams_ok = λ j.
        subst (StreamOk config queue s.flags.next_flag j) (sym (get-put id j new old s.table e)) (
          StreamOk-if config queue _ id j (some new) (get j s.table)
            (λ n.
              StreamOk-mono config s.streams_with_pending queue _ _ j (get j s.table) (q j n)
                (omega arith) (v.streams_ok j))
            (λ p. subst (λ k. StreamOk config queue s.flags.next_flag k (some new)) p ok));
    tasks_ok =
        All-imp (TaskOk config s.table s.flags) _ s.tasks
          (TaskOk-step s.table _ s.flags s.flags (omega arith) (λ g lt d. d)
            (λ j g d o. subst (Owns config j g) (sym (get-put id j new old s.table e)) (
              Owns-if id j g (some new) (get j s.table) o
                (λ p. f ∙ subst (Owns config j g) (ap (λ k. get k s.table) (sym p) ∙ e) o))))
          v.tasks_ok;
    cache_ok = v.cache_ok;
    datagrams_ok = v.datagrams_ok;
  }

  -- A stream may be inserted whose flag is known.
  pub insert_stream-Invariant :
      (id : ℕ) (new : ProxyStream S) (queue : List ℕ) (s : Conn S)
      → Invariant config s
      → ((j : ℕ) → mem j s.streams_with_pending ≡ true → mem j queue ≡ true)
      → StreamOk config queue s.flags.next_flag id (some new)
      → Invariant config (record (insert_stream id new s).1 { streams_with_pending = queue })
  unfolding insert_stream
  insert_stream-Invariant id new queue s v q ok = record {
    table_ok = insert-IsTable id new s.table v.table_ok;
    streams_ok = λ j. elim (Bool-cases (insert id new s.table).0) [
      | inl t ↦
          subst (StreamOk config queue s.flags.next_flag j)
            (sym ((get-insert id j new s.table).0 t).2)
            (StreamOk-if config queue _ id j (some new) (get j s.table) (λ _. old j)
              (λ p. subst (λ k. StreamOk config queue s.flags.next_flag k (some new)) p ok))
      | inr f ↦
          subst (StreamOk config queue s.flags.next_flag j)
            (sym ((get-insert id j new s.table).1 f)) (old j)
    ];
    tasks_ok =
        All-imp (TaskOk config s.table s.flags) _ s.tasks
          (TaskOk-step s.table _ s.flags s.flags (omega arith) (λ g lt d. d)
            (λ j g d o. owned j g o))
          v.tasks_ok;
    cache_ok = v.cache_ok;
    datagrams_ok = v.datagrams_ok;
  }
    where
      old : (j : ℕ) → StreamOk config queue s.flags.next_flag j (get j s.table)
      old j =
          StreamOk-mono config s.streams_with_pending queue _ _ j (get j s.table) (q j)
            (omega arith) (v.streams_ok j)

      owned :
          (j g : ℕ)
          → Owns config j g (get j s.table)
          → Owns config j g (get j (insert id new s.table).1)
      owned j g o = elim (Bool-cases (insert id new s.table).0) [
        | inr f ↦ subst (Owns config j g) (sym ((get-insert id j new s.table).1 f)) o
        | inl t ↦
            let h = (get-insert id j new s.table).0 t in
            subst (Owns config j g) (sym h.2) (
              Owns-if id j g (some new) (get j s.table) o
                (λ p. absurd (subst (Owns config j g) (ap (λ k. get k s.table) (sym p) ∙ h.0) o)))
      ]

  pub cancel_next :
      (o : Option (ProxyStream S)) (fl : Flags) → (cancel_stream o fl).next_flag ≡ fl.next_flag
  unfolding cancel_flag
  cancel_next none fl = refl
  cancel_next (some st) fl = refl

  cancel_raised :
      (o : Option (ProxyStream S)) (fl : Flags) (f : ℕ)
      → (cancel_stream o fl).raised f ≡ false
      → fl.raised f ≡ false
  unfolding cancel_flag
  cancel_raised none fl f e = e
  cancel_raised (some st) fl f e = ground arith

  -- The reader of a stream that is removed has its flag raised.
  cancel_owner :
      (id f : ℕ) (o : Option (ProxyStream S)) (fl : Flags)
      → (cancel_stream o fl).raised f ≡ false
      → Owns config id f o
      → ⊥
  unfolding cancel_flag
  cancel_owner id f none fl e w = w
  cancel_owner id f (some st) fl e w = ground arith

  pub remove-Invariant :
      (id : ℕ) (s : Conn S) → Invariant config s → Invariant config (remove id s).1
  unfolding remove
  remove-Invariant id s v = record {
    table_ok = (take_out-IsTable id s.table v.table_ok).0;
    streams_ok = λ j.
        subst (StreamOk config s.streams_with_pending (cancel_stream out s.flags).next_flag j)
          (sym (get-take_out id j s.table v.table_ok).1)
          (StreamOk-if config s.streams_with_pending _ id j none (get j s.table)
            (λ _.
              subst (λ n. StreamOk config s.streams_with_pending n j (get j s.table))
                (sym (cancel_next out s.flags)) (v.streams_ok j))
            (λ p. tt));
    tasks_ok =
        All-imp (TaskOk config s.table s.flags) _ s.tasks
          (TaskOk-step s.table _ s.flags (cancel_stream out s.flags)
            (omega (arith, cancel_next out s.flags)) (λ g lt e. cancel_raised out s.flags g e)
            (λ j g e o. subst (Owns config j g) (sym (get-take_out id j s.table v.table_ok).1) (
              Owns-if id j g none (get j s.table) o (λ p. cancel_owner j g out s.flags e (
                subst (Owns config j g)
                  (ap (λ k. get k s.table) (sym p) ∙ sym (get-take_out id j s.table v.table_ok).0)
                  o)))))
          v.tasks_ok;
    cache_ok = v.cache_ok;
    datagrams_ok = v.datagrams_ok;
  }
    where
      out : Option (ProxyStream S)
      out = (take_out id s.table).0

  -- A stream that was inserted is there, with its flag.
  pub insert_stream-get :
      (id : ℕ) (new : ProxyStream S) (s : Conn S)
      → (insert_stream id new s).0 ≡ true
      → get id (insert_stream id new s).1.table ≡ some new
  unfolding insert_stream
  insert_stream-get id new s t =
      ((get-insert id id new s.table).0 t).2 ∙ here id (some new) (get id s.table)
    where
      here : (k : ℕ) (a b : Option (ProxyStream S)) → (if k == k then a else b) ≡ a
      here k a b = ground arith

  pub insert_stream-Owns :
      (id f : ℕ) (new : ProxyStream S) (s : Conn S)
      → stream_flag new ≡ f
      → (insert_stream id new s).0 ≡ true
      → Owns config id f (get id (insert_stream id new s).1.table)
  insert_stream-Owns id f new s e t =
      subst (Owns config id f) (sym (insert_stream-get id new s t)) e

  pub spawn-Invariant :
      (t : Task) (s : Conn S)
      → Invariant config s
      → TaskOk config s.table s.flags t
      → Invariant config (spawn t s)
  unfolding spawn
  spawn-Invariant t s v ok = record {
    table_ok = v.table_ok;
    streams_ok = v.streams_ok;
    tasks_ok = All-snoc (TaskOk config s.table s.flags) s.tasks t v.tasks_ok ok;
    cache_ok = v.cache_ok;
    datagrams_ok = v.datagrams_ok;
  }
