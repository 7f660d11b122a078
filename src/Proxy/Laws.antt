-- ===== src/Proxy/Laws.antt =====
-- The stream table of src/proxy/stream.rs as a map from stream IDs to streams.
use shrimpwisp.Prelude.{ℕ, suc, ◌+◌, ◌≤◌, ◌<◌}
use shrimpwisp.Prelude.{◌≡◌, refl, ◌⊎◌, inr}
use shrimpwisp.Prelude.{true, false, Option, none, some, is_some}
use shrimpwisp.Prelude.{List, arith}
use shrimpwisp.Prelude.{leb, ◌==◌, if◌then◌else◌}
use shrimpwisp.Prelude.{length, set}
use shrimpwisp.Proxy.Table.{
  direct_index_limit, StreamTable, sparse_get, resize, direct_get, new_table, get, put, contains,
  insert, take_out,
}
use shrimpwisp.Proxy.Cells.{
  count_some, direct_get_beyond, direct_get-resize, length-resize, count-resize, direct_get-set,
  length-set, count-set-some, count-set_same, count-set-none, Distinct, sparse_get-remove,
  Distinct-remove, length-remove, sparse_get-set, length-sparse_set, Distinct-set,
}

module _ {A : Type 0} where
  -- `active_count` counts the streams of both stores, the vector stays within its limit, no ID is
  -- twice in the map, and there are no more streams than allowed.
  pub record IsTable (t : StreamTable A) : Type 0 where
    pub counted : t.active_count ≡ count_some t.direct + length t.sparse
    pub short : length t.direct ≤ direct_index_limit
    pub distinct : Distinct t.sparse
    pub room : (t.max_streams ≡ 0) ⊎ (t.active_count ≤ t.max_streams)

  pub new_table-IsTable : (n : ℕ) → IsTable (new_table {A = A} n)
  unfolding new_table count_some
  new_table-IsTable n = record {
    counted = refl;
    short = omega arith;
    distinct = tt;
    room = inr (omega arith);
  }

  -- The bounds test of the vector changes nothing.
  get_low :
      (id : ℕ) (t : StreamTable A) → id < direct_index_limit → get id t ≡ direct_get id t.direct
  unfolding get
  get_low id t h = ground (arith, direct_get_beyond id t.direct)

  get_high :
      (id : ℕ) (t : StreamTable A) → direct_index_limit ≤ id → get id t ≡ sparse_get id t.sparse
  unfolding get
  get_high id t h = ground arith

  -- `contains` answers whether `get_mut` finds a stream.
  pub contains-get : (id : ℕ) (t : StreamTable A) → contains id t ≡ is_some (get id t)
  unfolding contains get
  contains-get id t = ground arith

  -- The vector that `insert` writes to.
  grown : ℕ → StreamTable A → List (Option A)
  grown id t = if leb (length t.direct) id then resize (suc id) t.direct else t.direct

  direct_get-grown :
      (id j : ℕ) (t : StreamTable A) → direct_get j (grown id t) ≡ direct_get j t.direct
  unfolding grown
  direct_get-grown id j t = ground (arith, direct_get-resize (suc id) j t.direct)

  length-grown :
      (id : ℕ) (t : StreamTable A)
      → (id < length (grown id t))
        × ((length (grown id t) ≡ length t.direct) ⊎ (length (grown id t) ≡ suc id))
  unfolding grown
  length-grown id t = ground (arith, length-resize (suc id) t.direct)

  count-grown : (id : ℕ) (t : StreamTable A) → count_some (grown id t) ≡ count_some t.direct
  unfolding grown
  count-grown id t = ground (arith, count-resize (suc id) t.direct)

  abbrev pub HasRoom : StreamTable A → Type 0
  HasRoom t = (t.max_streams ≡ 0) ⊎ (t.active_count < t.max_streams)

  -- `insert` succeeds only if the ID is free and there is room, and then the ID maps to the new
  -- stream and every other ID to what it mapped to; if it fails, no ID changes; and if the ID is
  -- free and there is room, it succeeds.
  pub get-insert :
      (id j : ℕ) (a : A) (t : StreamTable A)
      → ((insert id a t).0 ≡ true
          → (get id t ≡ none)
            × HasRoom t
            × (get j (insert id a t).1 ≡ (if id == j then some a else get j t)))
        × ((insert id a t).0 ≡ false → get j (insert id a t).1 ≡ get j t)
        × (get id t ≡ none → HasRoom t → (insert id a t).0 ≡ true)
  unfolding insert get grown
  get-insert id j a t = ground (
    arith,
    direct_get-grown id id t,
    direct_get-grown id j t,
    direct_get-set id j (some a) (grown id t),
    length-grown id t,
    direct_get_beyond id t.direct,
    direct_get_beyond j t.direct,
    direct_get_beyond j (grown id t),
    direct_get_beyond j (set (grown id t) id (some a)),
  )

  -- `insert` keeps a table consistent: `active_count` counts the streams of both stores, the
  -- vector stays within 8192 slots, the map has no ID twice, and there are no more streams than
  -- allowed.
  pub insert-IsTable : (id : ℕ) (a : A) (t : StreamTable A) → IsTable t → IsTable (insert id a t).1
  unfolding insert grown
  insert-IsTable id a t v = ground (
    arith,
    v.counted,
    v.short,
    v.distinct,
    v.room,
    count-grown id t,
    length-grown id t,
    length-set id (some a) (grown id t),
    count-set-some id a (grown id t),
  )

  -- On a consistent table, `remove` returns the stream of the ID, frees that ID, and changes no
  -- other.
  pub get-take_out :
      (id j : ℕ) (t : StreamTable A)
      → IsTable t
      → ((take_out id t).0 ≡ get id t)
        × (get j (take_out id t).1 ≡ (if id == j then none else get j t))
  unfolding take_out get
  get-take_out id j t v = ground (
    arith,
    v.distinct,
    direct_get-set id j none t.direct,
    sparse_get-remove id j t.sparse,
    direct_get_beyond id t.direct,
    direct_get_beyond j t.direct,
    direct_get_beyond j (set t.direct id none),
    length-set id none t.direct,
  )

  -- `remove` keeps a table consistent, and `active_count` goes down by one exactly if the ID had
  -- a stream.
  pub take_out-IsTable :
      (id : ℕ) (t : StreamTable A)
      → IsTable t
      → IsTable (take_out id t).1
        × (is_some (get id t) ≡ true → (take_out id t).1.active_count + 1 ≡ t.active_count)
        × (is_some (get id t) ≡ false → (take_out id t).1.active_count ≡ t.active_count)
  unfolding take_out get
  take_out-IsTable id t v = ground (
    arith,
    v.counted,
    v.short,
    v.distinct,
    v.room,
    count-set-none id t.direct,
    length-set id none t.direct,
    length-remove id t.sparse,
    Distinct-remove id t.sparse,
  )

  -- A write through `get_mut` changes that stream alone.
  pub get-put :
      (id j : ℕ) (a b : A) (t : StreamTable A)
      → get id t ≡ some b
      → get j (put id a t) ≡ (if id == j then some a else get j t)
  unfolding put get
  get-put id j a b t e = ground (
    arith,
    direct_get-set id j (some a) t.direct,
    sparse_get-set id j b a t.sparse,
    direct_get_beyond j t.direct,
    direct_get_beyond j (set t.direct id (some a)),
    length-set id (some a) t.direct,
  )

  pub put-IsTable :
      (id : ℕ) (a b : A) (t : StreamTable A) → IsTable t → get id t ≡ some b → IsTable (put id a t)
  unfolding put get
  put-IsTable id a b t v e = ground (
    arith,
    v.counted,
    v.short,
    v.distinct,
    v.room,
    count-set_same id b a t.direct,
    length-set id (some a) t.direct,
    length-sparse_set id a t.sparse,
    Distinct-set id a t.sparse,
  )

  pub take_out_max : (id : ℕ) (t : StreamTable A) → (take_out id t).1.max_streams ≡ t.max_streams
  unfolding take_out
  take_out_max id t = ground arith
