-- ===== src/Proxy/Reference.antt =====
-- `StreamTable` of src/proxy/stream.rs beside one map with a bound on its size.
use shrimpwisp.Prelude.{ℕ, ◌+◌}
use shrimpwisp.Prelude.{◌≡◌, refl, sym, ap, ◌∙◌, inl, inr}
use shrimpwisp.Prelude.{Bool, true, false, ◌&&◌, ◌||◌, Option, none, some, is_some}
use shrimpwisp.Prelude.{List, [], ◌∷◌, arith}
use shrimpwisp.Prelude.{ltb, leb, ◌==◌, if◌then◌else◌, Bool-cases}
use shrimpwisp.Prelude.{length}
use shrimpwisp.Proxy.Table.{
  StreamTable, sparse_get, sparse_remove, sparse_set, direct_get, new_table, get, put, contains,
  len, insert, take_out,
}
use shrimpwisp.Proxy.Cells.{
  Distinct, sparse_get-remove, Distinct-remove, length-remove, sparse_get-set, length-sparse_set,
  Distinct-set,
}
use shrimpwisp.Proxy.Laws.{
  IsTable, new_table-IsTable, contains-get, get-insert, insert-IsTable, get-take_out,
  take_out-IsTable, get-put, put-IsTable, take_out_max,
}

-- A call of the table: `insert`, `remove`, `contains`, `len`, and a read or a write through `get_mut`.
pub data Call (A : Type 0) : Type 0 where
  call_insert : (id : ℕ) → A → Call A
  call_remove call_contains call_get : (id : ℕ) → Call A
  call_put : (id : ℕ) → A → Call A
  call_len : Call A

pub data Answer (A : Type 0) : Type 0 where
  done : Bool → Answer A
  found : Option A → Answer A
  counted : ℕ → Answer A

-- The reference: one map, whose size is bounded unless the bound is 0.
pub record Reference (A : Type 0) : Type 0 where
  pub entries : List (ℕ × A)
  pub bound : ℕ

module _ {A : Type 0} where
  write : ℕ → A → Option A → StreamTable A → StreamTable A
  unfolding put
  write id a none t = t
  write id a (some b) t = put id a t

  unfoldable pub call : Call A → StreamTable A → Answer A × StreamTable A
  unfolding insert take_out contains get write len
  call (call_insert id a) t = (done (insert id a t).0, (insert id a t).1)
  call (call_remove id) t = (found (take_out id t).0, (take_out id t).1)
  call (call_contains id) t = (done (contains id t), t)
  call (call_get id) t = (found (get id t), t)
  call (call_put id a) t = (found (get id t), write id a (get id t) t)
  call call_len t = (counted (len t), t)

  abbrev pub is_full : Reference A → Bool
  is_full m = ltb 0 m.bound && leb m.bound (length m.entries)

  unfoldable pub reference_call : Call A → Reference A → Answer A × Reference A
  unfolding sparse_get sparse_set sparse_remove
  reference_call (call_insert id a) m =
      if is_full m || is_some (sparse_get id m.entries)
      then (done false, m)
      else (done true, record m { entries = (id, a) ∷ m.entries })
  reference_call (call_remove id) m =
      (found (sparse_get id m.entries), record m { entries = sparse_remove id m.entries })
  reference_call (call_contains id) m = (done (is_some (sparse_get id m.entries)), m)
  reference_call (call_get id) m = (found (sparse_get id m.entries), m)
  reference_call (call_put id a) m =
      (found (sparse_get id m.entries), record m { entries = sparse_set id a m.entries })
  reference_call call_len m = (counted (length m.entries), m)

  unfoldable pub calls : List (Call A) → StreamTable A → List (Answer A)
  unfolding call
  calls [] t = []
  calls (c ∷ cs) t = (call c t).0 ∷ calls cs (call c t).1

  unfoldable pub reference_calls : List (Call A) → Reference A → List (Answer A)
  unfolding reference_call
  reference_calls [] m = []
  reference_calls (c ∷ cs) m = (reference_call c m).0 ∷ reference_calls cs (reference_call c m).1

  pub record Simulates (t : StreamTable A) (m : Reference A) : Type 0 where
    pub table_ok : IsTable t
    pub same_streams : (id : ℕ) → get id t ≡ sparse_get id m.entries
    pub same_size : t.active_count ≡ length m.entries
    pub once : Distinct m.entries
    pub same_bound : t.max_streams ≡ m.bound

  cons_get :
      (id j : ℕ) (a : A) (m : List (ℕ × A))
      → sparse_get j ((id, a) ∷ m) ≡ (if id == j then some a else sparse_get j m)
  unfolding sparse_get
  cons_get id j a m = refl

  insert_size :
      (id : ℕ) (a : A) (t : StreamTable A)
      → ((insert id a t).1.max_streams ≡ t.max_streams)
        × ((insert id a t).1.active_count
            ≡ (if (insert id a t).0 then t.active_count + 1 else t.active_count))
  unfolding insert
  insert_size id a t = ground arith

  insert-Simulates :
      (id : ℕ) (a : A) (t : StreamTable A) (m : Reference A)
      → Simulates t m
      → ((call (call_insert id a) t).0 ≡ (reference_call (call_insert id a) m).0)
        × Simulates (call (call_insert id a) t).1 (reference_call (call_insert id a) m).1
  unfolding call reference_call
  insert-Simulates id a t m s = elim (Bool-cases (is_full m || is_some (sparse_get id m.entries))) [
    | inl e ↦
        let left = refused e in
        (
          cc (left, e),
          record {
            table_ok = insert-IsTable id a t s.table_ok;
            same_streams = (λ j. rw e ((get-insert id j a t).1 left ∙ s.same_streams j));
            same_size = rw e (ground (arith, (insert_size id a t).1, left, s.same_size));
            once = rw e s.once;
            same_bound = rw e ((insert_size id a t).0 ∙ s.same_bound);
          },
        )
    | inr e ↦
        let took = accepted e in
        (
          cc (took, e),
          record {
            table_ok = insert-IsTable id a t s.table_ok;
            same_streams = (λ j. rw e (
                ((get-insert id j a t).0 took).2
                ∙ (ap (λ o. if id == j then some a else o) (s.same_streams j)
                    ∙ sym (cons_get id j a m.entries))));
            same_size = rw e (ground (arith, (insert_size id a t).1, took, s.same_size));
            once = rw e (ground (arith, e), s.once);
            same_bound = rw e ((insert_size id a t).0 ∙ s.same_bound);
          },
        )
  ]
    where
      refused : (is_full m || is_some (sparse_get id m.entries)) ≡ true → (insert id a t).0 ≡ false
      refused e = elim (Bool-cases (insert id a t).0) [
        | inr left ↦ left
        | inl took ↦
            let ok = (get-insert id id a t).0 took in
            absurd (ground (arith, e, ok.0, ok.1, s.same_streams id, s.same_size, s.same_bound))
      ]

      accepted : (is_full m || is_some (sparse_get id m.entries)) ≡ false → (insert id a t).0 ≡ true
      accepted e =
          (get-insert id id a t).2 (ground (arith, e, s.same_streams id))
            (ground (arith, e, s.same_size, s.same_bound))

  sparse_remove-none : (id : ℕ) (m : List (ℕ × A)) → sparse_get id m ≡ none → sparse_remove id m ≡ m
  unfolding sparse_get sparse_remove
  sparse_remove-none id [] e = refl
  sparse_remove-none id ((j, a) ∷ m) e = ground (arith, sparse_remove-none id m)

  remove-Simulates :
      (id : ℕ) (t : StreamTable A) (m : Reference A)
      → Simulates t m
      → ((call (call_remove id) t).0 ≡ (reference_call (call_remove id) m).0)
        × Simulates (call (call_remove id) t).1 (reference_call (call_remove id) m).1
  unfolding call reference_call
  remove-Simulates id t m s =
      let kept = take_out-IsTable id t s.table_ok in
      (
        ap found ((get-take_out id id t s.table_ok).0 ∙ s.same_streams id),
        record {
          table_ok = kept.0;
          same_streams = (λ j.
              (get-take_out id j t s.table_ok).1
              ∙ (ap (λ o. if id == j then none else o) (s.same_streams j)
                  ∙ sym (sparse_get-remove id j m.entries s.once)));
          same_size = elim (Bool-cases (is_some (get id t))) [
            | inl e ↦ ground (
              arith,
              kept.1 e,
              s.same_size,
              length-remove id m.entries (ap is_some (sym (s.same_streams id)) ∙ e),
            )
            | inr e ↦
                kept.2 e
                ∙ (s.same_size
                    ∙ ap length (
                        sym
                          (sparse_remove-none id m.entries (ground (arith, e, s.same_streams id)))))
          ];
          once = Distinct-remove id m.entries s.once;
          same_bound = take_out_max id t ∙ s.same_bound;
        },
      )

  put_fields :
      (id : ℕ) (a : A) (t : StreamTable A)
      → ((put id a t).active_count ≡ t.active_count) × ((put id a t).max_streams ≡ t.max_streams)
  unfolding put
  put_fields id a t = ground arith

  sparse_set-none :
      (id : ℕ) (a : A) (m : List (ℕ × A)) → sparse_get id m ≡ none → sparse_set id a m ≡ m
  unfolding sparse_get sparse_set
  sparse_set-none id a [] e = refl
  sparse_set-none id a ((j, b) ∷ m) e = ground (arith, sparse_set-none id a m)

  write-Simulates :
      (id : ℕ) (a : A) (o : Option A) (t : StreamTable A) (m : Reference A)
      → Simulates t m
      → get id t ≡ o
      → Simulates (write id a o t) (record m { entries = sparse_set id a m.entries })
  unfolding write
  write-Simulates id a none t m s e =
      let same = sparse_set-none id a m.entries (sym (s.same_streams id) ∙ e) in
      record {
        table_ok = s.table_ok;
        same_streams = (λ j. s.same_streams j ∙ ap (sparse_get j) (sym same));
        same_size = s.same_size ∙ ap length (sym same);
        once = Distinct-set id a m.entries s.once;
        same_bound = s.same_bound;
      }
  write-Simulates id a (some b) t m s e = record {
    table_ok = put-IsTable id a b t s.table_ok e;
    same_streams = (λ j.
        get-put id j a b t e
        ∙ (ap (λ o. if id == j then some a else o) (s.same_streams j)
            ∙ sym (sparse_get-set id j b a m.entries (sym (s.same_streams id) ∙ e))));
    same_size = (put_fields id a t).0 ∙ (s.same_size ∙ sym (length-sparse_set id a m.entries));
    once = Distinct-set id a m.entries s.once;
    same_bound = (put_fields id a t).1 ∙ s.same_bound;
  }

  call-Simulates :
      (c : Call A) (t : StreamTable A) (m : Reference A)
      → Simulates t m
      → ((call c t).0 ≡ (reference_call c m).0) × Simulates (call c t).1 (reference_call c m).1
  call-Simulates (call_insert id a) t m s = insert-Simulates id a t m s
  call-Simulates (call_remove id) t m s = remove-Simulates id t m s
  call-Simulates (call_contains id) t m s =
      unfold call reference_call in
      (ap done (contains-get id t ∙ ap is_some (s.same_streams id)), s)
  call-Simulates (call_get id) t m s =
      unfold call reference_call in (ap found (s.same_streams id), s)
  call-Simulates (call_put id a) t m s =
      unfold call reference_call in
      (ap found (s.same_streams id), write-Simulates id a (get id t) t m s refl)
  call-Simulates call_len t m s = unfold call reference_call len in (ap counted s.same_size, s)

  calls-Simulates :
      (cs : List (Call A)) (t : StreamTable A) (m : Reference A)
      → Simulates t m
      → calls cs t ≡ reference_calls cs m
  unfolding calls reference_calls
  calls-Simulates [] t m s = refl
  calls-Simulates (c ∷ cs) t m s =
      let r = call-Simulates c t m s in
      cc (r.0, calls-Simulates cs (call c t).1 (reference_call c m).1 r.1)

  -- The table refines one map: any sequence of calls of a new `StreamTable`, inserts, removals,
  -- reads and writes through `get_mut`, `contains` and `len`, has the answers that it has of one
  -- map that takes no ID twice and no more than `max_streams` streams (0 allows any number).
  pub calls-reference :
      (max_streams : ℕ) (cs : List (Call A))
      → calls cs (new_table max_streams)
        ≡ reference_calls cs (record { entries = []; bound = max_streams })
  calls-reference max_streams cs =
      calls-Simulates cs (new_table max_streams) (record { entries = []; bound = max_streams })
        (record {
          table_ok = new_table-IsTable max_streams;
          same_streams = (λ id. unfold get new_table direct_get sparse_get in ground arith);
          same_size = unfold new_table in refl;
          once = tt;
          same_bound = unfold new_table in refl;
        })
