-- ===== src/Cores/Entries.antt =====
-- What an entry of the directory of CPUs adds to the cores of src/main.rs.
use shrimpwisp.Prelude.{ℕ}
use shrimpwisp.Prelude.{◌≡◌, refl, sym, ap, ◌∙◌, ◌⊎◌, inl, inr}
use shrimpwisp.Prelude.{true, false, Option, none, some}
use shrimpwisp.Prelude.{List, [], ◌∷◌, ◌++◌, arith}
use shrimpwisp.Prelude.{Bool-cases, Option-cases, some_inj}
use shrimpwisp.Prelude.{length, drop}
use shrimpwisp.Prelude.Bytes.{Bytes, starts_with}
use shrimpwisp.Config.{codes}
use shrimpwisp.Cores.{
  Entry, physical_core, all_digits, parse_usize, read_u32, or_zero, contains_core, cpu_suffix,
  passed_over,
}

-- The number of a CPU is schedulable, or the digits do not parse as a `usize`.
abbrev pub Counted : List ℕ → Bytes → Type 0
Counted schedulable suffix =
    (parse_usize suffix ≡ none)
    ⊎ ((n : ℕ) × (parse_usize suffix ≡ some n) × (contains_core n schedulable ≡ true))

-- A number that is read, or 0 where none is.
abbrev pub Reads : Option ℕ → ℕ → Type 0
Reads o p = (o ≡ some p) ⊎ ((o ≡ none) × (p ≡ 0))

-- The core `(p, c)` of a CPU: its directory is "cpu" and digits, and counts; `core_id` reads as `c`;
-- and `physical_package_id` as `p`, or `p` is 0.
abbrev pub CoreOf : List ℕ → ℕ × ℕ → Entry → Type 0
CoreOf schedulable (p, c) e =
    (suffix : Bytes) × (e.name ≡ codes "cpu" ++ suffix)
    × (all_digits suffix ≡ true)
    × Counted schedulable suffix
    × (read_u32 e.core_id ≡ some c)
    × Reads (read_u32 e.physical_package_id) p

starts_with-split : (p s : Bytes) → starts_with p s ≡ true → s ≡ p ++ drop (length p) s
starts_with-split [] s h = refl
starts_with-split (c ∷ p) [] h = absurd (cc)
starts_with-split (c ∷ p) (b ∷ s) h =
    let first : c ≡ b = ground arith in
    let rest = starts_with-split p s (ground arith) in ap (λ a. a ∷ s) (sym first) ∙ ap (◌∷◌ c) rest

drop-prefix : (p s : Bytes) → drop (length p) (p ++ s) ≡ s
drop-prefix [] s = refl
drop-prefix (c ∷ p) s = drop-prefix p s

starts_with-append : (p s : Bytes) → starts_with p (p ++ s) ≡ true
starts_with-append [] s = refl
starts_with-append (c ∷ p) s = ground (arith, starts_with-append p s)

passed_over-false :
    (schedulable : List ℕ) (suffix : Bytes)
    → passed_over schedulable suffix ≡ false
    → Counted schedulable suffix
unfolding passed_over
passed_over-false schedulable suffix h = elim (Option-cases (parse_usize suffix)) [
  | inl e ↦ inl e
  | inr (n, e) ↦ let f = rw (passed_over, e) at h in inr (n, e, ground (arith, f))
]

Counted-passed_over :
    (schedulable : List ℕ) (suffix : Bytes)
    → Counted schedulable suffix
    → passed_over schedulable suffix ≡ false
unfolding passed_over
Counted-passed_over schedulable suffix (inl e) = rw (passed_over, e) refl
Counted-passed_over schedulable suffix (inr (n, e, h)) = rw (passed_over, e, h) refl

or_zero-Reads : (o : Option ℕ) (p : ℕ) → or_zero o ≡ p → Reads o p
or_zero-Reads none p h = inr (refl, sym h)
or_zero-Reads (some n) p h = inl (ap some h)

Reads-or_zero : (o : Option ℕ) (p : ℕ) → Reads o p → or_zero o ≡ p
Reads-or_zero o p (inl e) = rw e refl
Reads-or_zero o p (inr (e, z)) = rw (e, z) refl

cpu_suffix-some :
    (name suffix : Bytes)
    → cpu_suffix name ≡ some suffix
    → (name ≡ codes "cpu" ++ suffix) × (all_digits suffix ≡ true)
unfolding cpu_suffix
cpu_suffix-some name suffix h = elim (Bool-cases (starts_with (codes "cpu") name)) [
  | inr e ↦ let f = rw (cpu_suffix, e) at h in absurd (cc)
  | inl e ↦ elim (Bool-cases (all_digits (drop 3 name))) [
    | inr d ↦ let f = rw (cpu_suffix, e, d) at h in absurd (cc)
    | inl d ↦
        let f = some_inj (rw (cpu_suffix, e, d) at h) in
        (
          starts_with-split (codes "cpu") name e ∙ ap (λ x. codes "cpu" ++ x) f,
          ap all_digits (sym f) ∙ d,
        )
  ]
]

cpu_suffix-digits :
    (suffix : Bytes) → all_digits suffix ≡ true → cpu_suffix (codes "cpu" ++ suffix) ≡ some suffix
unfolding cpu_suffix
cpu_suffix-digits suffix d = rw d refl

pub physical_core-CoreOf :
    (schedulable : List ℕ) (p c : ℕ) (e : Entry)
    → physical_core schedulable e ≡ some (p, c)
    → CoreOf schedulable (p, c) e
unfolding physical_core
physical_core-CoreOf schedulable p c e h = elim (Option-cases (cpu_suffix e.name)) [
  | inl q ↦ let f = rw (physical_core, q) at h in absurd (cc)
  | inr (suffix, q) ↦ elim (Bool-cases (passed_over schedulable suffix)) [
    | inl o ↦ let f = rw (physical_core, q, o) at h in absurd (cc)
    | inr o ↦ elim (Option-cases (read_u32 e.core_id)) [
      | inl r ↦ let f = rw (physical_core, q, o, r) at h in absurd (cc)
      | inr (core, r) ↦
          let f = some_inj (rw (physical_core, q, o, r) at h) in
          let s = cpu_suffix-some e.name suffix q in
          (
            suffix,
            s.0,
            s.1,
            passed_over-false schedulable suffix o,
            r ∙ ap (λ (x : ℕ × ℕ). some x.1) f,
            or_zero-Reads (read_u32 e.physical_package_id) p (ap (λ (x : ℕ × ℕ). x.0) f),
          )
    ]
  ]
]

pub CoreOf-physical_core :
    (schedulable : List ℕ) (p c : ℕ) (e : Entry)
    → CoreOf schedulable (p, c) e
    → physical_core schedulable e ≡ some (p, c)
unfolding physical_core
CoreOf-physical_core schedulable p c e (suffix, name, d, counts, core, reads) =
    let q : cpu_suffix e.name ≡ some suffix = ap cpu_suffix name ∙ cpu_suffix-digits suffix d in
    rw
      (
        physical_core,
        q,
        Counted-passed_over schedulable suffix counts,
        core,
        Reads-or_zero (read_u32 e.physical_package_id) p reads,
      )
      refl
