-- ===== src/Cores/Laws.antt =====
-- The number of workers of src/main.rs.
use shrimpwisp.Prelude.{ℕ, ◌≤◌}
use shrimpwisp.Prelude.{inl, inr}
use shrimpwisp.Prelude.{Option, none, some}
use shrimpwisp.Prelude.{List, [], ◌∷◌, arith}
use shrimpwisp.Prelude.{if◌then◌else◌, Option-cases}
use shrimpwisp.Prelude.{length, is_empty}
use shrimpwisp.Prelude.Bytes.{Bytes}
use shrimpwisp.Config.{JsonConfig}
use shrimpwisp.Cores.{Entry, physical_cores, num_physical_cores}
use shrimpwisp.Config.Startup.{Args, choose_workers}

is_empty-length :
    {A : Type 0} (xs : List A) (n : ℕ) → 1 ≤ n → 1 ≤ (if is_empty xs then n else length xs)
is_empty-length [] n h = h
is_empty-length (x ∷ xs) n h = omega arith

num_physical_cores-pos :
    (schedulable : Option (List ℕ)) (read_dir : Option (List Entry))
    → 1 ≤ num_physical_cores schedulable read_dir
unfolding num_physical_cores
num_physical_cores-pos none read_dir = omega arith
num_physical_cores-pos (some []) read_dir = omega arith
num_physical_cores-pos (some (c ∷ cs)) none = omega arith
num_physical_cores-pos (some (c ∷ cs)) (some entries) =
    is_empty-length (physical_cores (c ∷ cs) entries []) (length (c ∷ cs)) (omega arith)

-- Whatever the machine says of its cores, and whatever the command line and the file say of
-- `workers`, at least one worker is started.
pub choose_workers-pos :
    (schedulable : Option (List ℕ)) (read_dir : Option (List Entry)) (a : Args) (argv : List Bytes)
    (read : Option JsonConfig)
    → 1 ≤ choose_workers (num_physical_cores schedulable read_dir) a argv read
unfolding choose_workers
choose_workers-pos schedulable read_dir a argv read =
    let cores = num_physical_cores-pos schedulable read_dir in
    elim (Option-cases read) [
      | inl e ↦ rw e (ground (arith, cores))
      | inr (j, e) ↦ rw e (ground (arith, cores))
    ]
