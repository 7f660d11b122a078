-- ===== src/Proxy/Table.antt =====
-- `StreamTable` of src/proxy/stream.rs: a vector for the low stream IDs, a map for the others.
use shrimpwisp.Prelude.{ℕ, zero, suc, ◌+◌, ◌-◌}
use shrimpwisp.Prelude.{Bool, true, false, ◌&&◌, Option, none, some, is_some}
use shrimpwisp.Prelude.{List, [], ◌∷◌}
use shrimpwisp.Prelude.{ltb, leb, ◌==◌, if◌then◌else◌}
use shrimpwisp.Prelude.{length, set}

abbrev pub direct_index_limit : ℕ
direct_index_limit = 8192

-- `sparse` is the `HashMap`, as an association list.
pub record StreamTable {ℓ} (A : Type ℓ) : Type ℓ where
  pub direct : List (Option A)
  pub sparse : List (ℕ × A)
  pub active_count : ℕ
  pub max_streams : ℕ

module _ {ℓ} {A : Type ℓ} where
  -- `HashMap::get`, `insert` on a key that is not there, `remove`, and a write through `get_mut`.
  unfoldable pub sparse_get : ℕ → List (ℕ × A) → Option A
  sparse_get k [] = none
  sparse_get k ((j, a) ∷ m) = if j == k then some a else sparse_get k m

  unfoldable pub sparse_remove : ℕ → List (ℕ × A) → List (ℕ × A)
  sparse_remove k [] = []
  sparse_remove k ((j, a) ∷ m) = if j == k then m else (j, a) ∷ sparse_remove k m

  unfoldable pub sparse_set : ℕ → A → List (ℕ × A) → List (ℕ × A)
  sparse_set k b [] = []
  sparse_set k b ((j, a) ∷ m) = if j == k then (j, b) ∷ m else (j, a) ∷ sparse_set k b m

  -- `direct.resize_with(len, || None)`, where the vector is shorter.
  unfoldable pub resize : ℕ → List (Option A) → List (Option A)
  resize zero d = d
  resize (suc n) [] = none ∷ resize n []
  resize (suc n) (x ∷ d) = x ∷ resize n d

  -- `direct[id]`, `None` where the vector ends.
  unfoldable pub direct_get : ℕ → List (Option A) → Option A
  direct_get i [] = none
  direct_get zero (x ∷ d) = x
  direct_get (suc i) (x ∷ d) = direct_get i d

  unfoldable pub new_table : ℕ → StreamTable A
  new_table max_streams = record {
    direct = [];
    sparse = [];
    active_count = 0;
    max_streams = max_streams;
  }

  -- `get_mut`, read.
  unfoldable pub get : ℕ → StreamTable A → Option A
  unfolding direct_get sparse_get
  get id t =
      if ltb id direct_index_limit
      then if leb (length t.direct) id then none else direct_get id t.direct
      else sparse_get id t.sparse

  -- `get_mut`, and a write through the reference that it returned.
  unfoldable pub put : ℕ → A → StreamTable A → StreamTable A
  unfolding sparse_set
  put id a t =
      if ltb id direct_index_limit
      then record t { direct = set t.direct id (some a) }
      else record t { sparse = sparse_set id a t.sparse }

  unfoldable pub contains : ℕ → StreamTable A → Bool
  unfolding direct_get sparse_get
  contains id t =
      if ltb id direct_index_limit
      then ltb id (length t.direct) && is_some (direct_get id t.direct)
      else is_some (sparse_get id t.sparse)

  unfoldable pub len : StreamTable A → ℕ
  len t = t.active_count

  -- The result, and the table: a vector that grew stays grown.
  unfoldable pub insert : ℕ → A → StreamTable A → Bool × StreamTable A
  unfolding direct_get sparse_get resize
  insert id a t =
      let direct : List (Option A) =
        if leb (length t.direct) id then resize (suc id) t.direct else t.direct in
      if ltb 0 t.max_streams && leb t.max_streams t.active_count
      then (false, t)
      else if ltb id direct_index_limit
      then if is_some (direct_get id direct)
        then (false, record t { direct = direct })
        else (true, record t { direct = set direct id (some a); active_count = t.active_count + 1 })
      else if is_some (sparse_get id t.sparse)
      then (false, t)
      else (true, record t { sparse = (id, a) ∷ t.sparse; active_count = t.active_count + 1 })

  -- `remove`, less the cancellation flag. `active_count -= 1` is written out; it cannot pass 0.
  unfoldable pub take_out : ℕ → StreamTable A → Option A × StreamTable A
  unfolding direct_get sparse_get sparse_remove
  take_out id t =
      if ltb id direct_index_limit
      then if leb (length t.direct) id then (none, t) else elim (direct_get id t.direct) [
        | none ↦ (none, t)
        | some a ↦
            (some a, record t { direct = set t.direct id none; active_count = t.active_count - 1 })
      ]
      else elim (sparse_get id t.sparse) [
        | none ↦ (none, t)
        | some a ↦ (
          some a,
          record t { sparse = sparse_remove id t.sparse; active_count = t.active_count - 1 },
        )
      ]
