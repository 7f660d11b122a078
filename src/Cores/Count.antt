-- ===== src/Cores/Count.antt =====
-- The count of cores of src/main.rs.
use shrimpwisp.Prelude.{ℕ, ◌≤◌}
use shrimpwisp.Prelude.{◌≡◌, ◌⊎◌, ◌↔◌}
use shrimpwisp.Prelude.{Bool, true, false, ◌&&◌}
use shrimpwisp.Prelude.{List, [], ◌∷◌}
use shrimpwisp.Prelude.{◌==◌}
use shrimpwisp.Prelude.{length}
use shrimpwisp.Cores.Entries.{CoreOf}
use shrimpwisp.Cores.{Entry, has_core}

abbrev core_eq : ℕ × ℕ → ℕ × ℕ → Bool
core_eq x y = x.0 == y.0 && x.1 == y.1

abbrev pub Listed : List ℕ → ℕ × ℕ → List Entry → Type 0
Listed schedulable x [] = ⊥
Listed schedulable x (e ∷ entries) = CoreOf schedulable x e ⊎ Listed schedulable x entries

abbrev pub Distinct : List (ℕ × ℕ) → Type 0
Distinct [] = Unit
Distinct (x ∷ set) = (has_core x set ≡ false) × Distinct set

-- The count of a set without duplicates that holds the cores of the entries and nothing else, or
-- `fallback` where there are none.
abbrev pub CountOf : List ℕ → List Entry → ℕ → ℕ → Type 0
CountOf schedulable entries fallback n =
    (set : List (ℕ × ℕ)) × Distinct set
    × ((x : ℕ × ℕ) → (has_core x set ≡ true) ↔ Listed schedulable x entries)
    × (((set ≡ []) × (n ≡ fallback)) ⊎ ((1 ≤ n) × (n ≡ length set)))
