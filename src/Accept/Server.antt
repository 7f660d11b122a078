-- ===== src/Accept/Server.antt =====
-- The workers of src/server/mod.rs side by side: each has its own counter and its own rate map.
use shrimpwisp.Prelude.{ℕ, zero, suc, ◌+◌, ◌*◌, ◌≤◌}
use shrimpwisp.Prelude.{◌≡◌, refl, ap, subst, ◌∙◌, ◌⊎◌, inr}
use shrimpwisp.Prelude.{some}
use shrimpwisp.Prelude.{List, [], ◌∷◌, arith}
use shrimpwisp.Prelude.{length, get_elem?, set, All, All-get}
use shrimpwisp.Config.{ServerConfig}
use shrimpwisp.Accept.{new_worker}
use shrimpwisp.Accept.Runs.{
  Serving, WorkerMove, WorkerMove-IsServing, IsServing, starts, WorkerRuns-IsServing,
}

abbrev pub idle_worker : Serving
idle_worker = record { worker = new_worker; live = 0 }

abbrev pub idle_workers : ℕ → List Serving
idle_workers zero = []
idle_workers (suc n) = idle_worker ∷ idle_workers n

abbrev pub total_live : List Serving → ℕ
total_live [] = 0
total_live (s ∷ ss) = s.live + total_live ss

All-set :
    {A : Type 0} (P : A → Type 0) (xs : List A) (i : ℕ) (x : A)
    → All P xs
    → P x
    → All P (set xs i x)
All-set P [] i x h p = tt
All-set P (y ∷ ys) zero x h p = (p, h.1)
All-set P (y ∷ ys) (suc i) x h p = (h.0, All-set P ys i x h.1 p)

length-set : {A : Type 0} (xs : List A) (i : ℕ) (x : A) → length (set xs i x) ≡ length xs
length-set [] i x = refl
length-set (y ∷ ys) zero x = refl
length-set (y ∷ ys) (suc i) x = ap suc (length-set ys i x)

length-idle_workers : (n : ℕ) → length (idle_workers n) ≡ n
length-idle_workers zero = refl
length-idle_workers (suc n) = ap suc (length-idle_workers n)

module _ (config : ServerConfig) where
  -- The runs of `n` workers, in any order of their moves.
  pub data ServerRuns (n : ℕ) : List Serving → Type 0 where
    all_start : ServerRuns n (idle_workers n)
    one_moves :
        (ss : List Serving) (i : ℕ) (s s' : Serving)
        → ServerRuns n ss
        → get_elem? ss i ≡ some s
        → WorkerMove config s s'
        → ServerRuns n (set ss i s')

  idle_workers-IsServing : (n : ℕ) → All (IsServing config) (idle_workers n)
  idle_workers-IsServing zero = tt
  idle_workers-IsServing (suc n) =
      (WorkerRuns-IsServing config idle_worker starts, idle_workers-IsServing n)

  ServerRuns-IsServing :
      (n : ℕ) (ss : List Serving) → ServerRuns n ss → (length ss ≡ n) × All (IsServing config) ss
  ServerRuns-IsServing n _ all_start = (length-idle_workers n, idle_workers-IsServing n)
  ServerRuns-IsServing n _ (one_moves ss i s s' r g m) =
      let v = ServerRuns-IsServing n ss r in
      (
        length-set ss i s' ∙ v.0,
        All-set (IsServing config) ss i s' v.1
            (WorkerMove-IsServing config s s' m (All-get (IsServing config) ss i s v.1 g)),
      )

  total_live-bounded :
      (ss : List Serving)
      → All (IsServing config) ss
      → (config.max_connections ≡ 0) ⊎ (total_live ss ≤ length ss * config.max_connections)
  total_live-bounded [] h = inr (omega arith)
  total_live-bounded (s ∷ ss) h = ground (arith, h.0.bounded, total_live-bounded ss h.1)

  -- In every state that a server of `n` workers reaches, whatever the order in which they act:
  -- there are `n` of them; the counter of each is the number of the connections that it serves,
  -- so that the `saturating_sub` of a task that ends never saturates; each serves no more than
  -- `max_connections`, and its rate map has no address twice; and the server has no more than `n`
  -- times `max_connections` (0 allows any number).
  pub ServerRuns-Bounded :
      (n : ℕ) (ss : List Serving)
      → ServerRuns n ss
      → (length ss ≡ n)
        × All (IsServing config) ss
        × ((config.max_connections ≡ 0) ⊎ (total_live ss ≤ n * config.max_connections))
  ServerRuns-Bounded n ss r =
      let v = ServerRuns-IsServing n ss r in
      (
        v.0,
        v.1,
        subst (λ k. (config.max_connections ≡ 0) ⊎ (total_live ss ≤ k * config.max_connections)) v.0
            (total_live-bounded ss v.1),
      )
