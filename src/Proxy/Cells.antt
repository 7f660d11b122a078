-- ===== src/Proxy/Cells.antt =====
-- The two stores of the stream table of src/proxy/stream.rs, each by itself.
use shrimpwisp.Prelude.{ℕ, zero, suc, ◌+◌, ◌≤◌, ◌<◌, max}
use shrimpwisp.Prelude.{◌≡◌, refl, ap, ◌∙◌}
use shrimpwisp.Prelude.{true, Option, none, some, is_some}
use shrimpwisp.Prelude.{List, [], ◌∷◌, arith}
use shrimpwisp.Prelude.{◌==◌, if◌then◌else◌}
use shrimpwisp.Prelude.{length, set}
use shrimpwisp.Proxy.Table.{sparse_get, sparse_remove, sparse_set, resize, direct_get}

occupied {ℓ} : {A : Type ℓ} → Option A → ℕ
occupied none = 0
occupied (some a) = 1

module _ {ℓ} {A : Type ℓ} where
  -- The slots of the vector that hold a stream.
  unfoldable pub count_some : List (Option A) → ℕ
  unfolding occupied
  count_some [] = 0
  count_some (x ∷ d) = occupied x + count_some d

  pub direct_get_beyond : (i : ℕ) (d : List (Option A)) → length d ≤ i → direct_get i d ≡ none
  unfolding direct_get
  direct_get_beyond i [] h = refl
  direct_get_beyond zero (x ∷ d) h = absurd (omega arith)
  direct_get_beyond (suc i) (x ∷ d) h = direct_get_beyond i d (omega arith)

  pub direct_get-resize :
      (n j : ℕ) (d : List (Option A)) → direct_get j (resize n d) ≡ direct_get j d
  unfolding direct_get resize
  direct_get-resize zero j d = refl
  direct_get-resize (suc n) zero [] = refl
  direct_get-resize (suc n) (suc j) [] =
      direct_get-resize n j [] ∙ direct_get_beyond j [] (omega arith)
  direct_get-resize (suc n) zero (x ∷ d) = refl
  direct_get-resize (suc n) (suc j) (x ∷ d) = direct_get-resize n j d

  pub length-resize : (n : ℕ) (d : List (Option A)) → length (resize n d) ≡ max n (length d)
  unfolding resize
  length-resize zero d = omega arith
  length-resize (suc n) [] = omega (arith, length-resize n [])
  length-resize (suc n) (x ∷ d) = omega (arith, length-resize n d)

  pub count-resize : (n : ℕ) (d : List (Option A)) → count_some (resize n d) ≡ count_some d
  unfolding resize count_some
  count-resize zero d = refl
  count-resize (suc n) [] = omega (arith, count-resize n [])
  count-resize (suc n) (x ∷ d) = omega (arith, count-resize n d)

  pub direct_get-set :
      (i j : ℕ) (x : Option A) (d : List (Option A))
      → i < length d
      → direct_get j (set d i x) ≡ (if i == j then x else direct_get j d)
  unfolding direct_get
  direct_get-set i j x [] h = absurd (omega arith)
  direct_get-set zero zero x (y ∷ d) h = refl
  direct_get-set zero (suc j) x (y ∷ d) h = ground arith
  direct_get-set (suc i) zero x (y ∷ d) h = ground arith
  direct_get-set (suc i) (suc j) x (y ∷ d) h = ground (arith, direct_get-set i j x d (omega arith))

  pub length-set : (i : ℕ) (x : Option A) (d : List (Option A)) → length (set d i x) ≡ length d
  length-set i x [] = refl
  length-set zero x (y ∷ d) = refl
  length-set (suc i) x (y ∷ d) = ap suc (length-set i x d)

  pub count-set-some :
      (i : ℕ) (a : A) (d : List (Option A))
      → i < length d
      → direct_get i d ≡ none
      → count_some (set d i (some a)) ≡ count_some d + 1
  unfolding direct_get count_some
  count-set-some i a [] h e = absurd (omega arith)
  count-set-some zero a (y ∷ d) h e = rw e (omega arith)
  count-set-some (suc i) a (y ∷ d) h e = omega (arith, count-set-some i a d (omega arith) e)

  pub count-set_same :
      (i : ℕ) (a b : A) (d : List (Option A))
      → direct_get i d ≡ some a
      → count_some (set d i (some b)) ≡ count_some d
  unfolding direct_get count_some
  count-set_same i a b [] e = refl
  count-set_same zero a b (y ∷ d) e = rw e refl
  count-set_same (suc i) a b (y ∷ d) e = omega (arith, count-set_same i a b d e)

  pub count-set-none :
      (i : ℕ) (d : List (Option A))
      → is_some (direct_get i d) ≡ true
      → count_some (set d i none) + 1 ≡ count_some d
  unfolding direct_get count_some
  count-set-none i [] e = cc
  count-set-none zero (none ∷ d) e = cc
  count-set-none zero (some y ∷ d) e = omega arith
  count-set-none (suc i) (y ∷ d) e = omega (arith, count-set-none i d e)

  -- No key occurs twice in the map.
  abbrev pub Distinct : List (ℕ × A) → Type ℓ
  Distinct [] = Unit
  Distinct ((k, a) ∷ m) = (sparse_get k m ≡ none) × Distinct m

  pub sparse_get-remove :
      (k j : ℕ) (m : List (ℕ × A))
      → Distinct m
      → sparse_get j (sparse_remove k m) ≡ (if k == j then none else sparse_get j m)
  unfolding sparse_get sparse_remove
  sparse_get-remove k j [] h = ground arith
  sparse_get-remove k j ((i, a) ∷ m) h = ground (arith, sparse_get-remove k j m h.1, h.0)

  pub Distinct-remove : (k : ℕ) (m : List (ℕ × A)) → Distinct m → Distinct (sparse_remove k m)
  unfolding sparse_remove
  Distinct-remove k [] h = h
  Distinct-remove k ((i, a) ∷ m) h =
      ground (arith, Distinct-remove k m h.1, sparse_get-remove k i m h.1)

  pub length-remove :
      (k : ℕ) (m : List (ℕ × A))
      → is_some (sparse_get k m) ≡ true
      → length (sparse_remove k m) + 1 ≡ length m
  unfolding sparse_get sparse_remove
  length-remove k [] e = cc
  length-remove k ((i, b) ∷ m) e = ground (arith, length-remove k m)

  pub sparse_get-set :
      (k j : ℕ) (a b : A) (m : List (ℕ × A))
      → sparse_get k m ≡ some a
      → sparse_get j (sparse_set k b m) ≡ (if k == j then some b else sparse_get j m)
  unfolding sparse_get sparse_set
  sparse_get-set k j a b [] e = cc
  sparse_get-set k j a b ((i, c) ∷ m) e = ground (arith, sparse_get-set k j a b m)

  pub length-sparse_set : (k : ℕ) (b : A) (m : List (ℕ × A)) → length (sparse_set k b m) ≡ length m
  unfolding sparse_set
  length-sparse_set k b [] = refl
  length-sparse_set k b ((i, c) ∷ m) = ground (arith, length-sparse_set k b m)

  pub sparse_get-none-set :
      (k j : ℕ) (b : A) (m : List (ℕ × A))
      → sparse_get j m ≡ none
      → sparse_get j (sparse_set k b m) ≡ none
  unfolding sparse_get sparse_set
  sparse_get-none-set k j b [] e = refl
  sparse_get-none-set k j b ((i, c) ∷ m) e = ground (arith, sparse_get-none-set k j b m)

  pub Distinct-set : (k : ℕ) (b : A) (m : List (ℕ × A)) → Distinct m → Distinct (sparse_set k b m)
  unfolding sparse_set
  Distinct-set k b [] h = h
  Distinct-set k b ((i, c) ∷ m) h =
      ground (arith, Distinct-set k b m h.1, sparse_get-none-set k i b m h.0)
