-- ===== src/Cores.antt =====
-- `num_physical_cores` of src/main.rs. What `core_affinity` and the directory
-- /sys/devices/system/cpu say is an argument.
pub mod Entries
pub mod Count
pub mod Laws
use shrimpwisp.Prelude.{ℕ, ◌+◌, ◌-◌, ◌*◌}
use shrimpwisp.Prelude.{Bool, true, false, ◌&&◌, ◌||◌, not, Option, none, some}
use shrimpwisp.Prelude.{List, [], ◌∷◌}
use shrimpwisp.Prelude.{ltb, leb, ◌==◌, if◌then◌else◌}
use shrimpwisp.Prelude.{length, is_empty, set, drop}
use shrimpwisp.Prelude.Bytes.{Bytes}
use shrimpwisp.Prelude.Bytes.{starts_with}
use shrimpwisp.Config.{codes}
use shrimpwisp.Security.RealIp.{trim_start, trim_end}

-- `str::parse` of an unsigned type with values below `bound`.
abbrev is_ascii_digit : ℕ → Bool
is_ascii_digit c = leb b'0' c && leb c b'9'

unfoldable pub digits : ℕ → ℕ → Bytes → Option ℕ
digits bound acc [] = some acc
digits bound acc (c ∷ cs) =
    let more = acc * 10 + (c - b'0') in
    let rest = digits bound more cs in if is_ascii_digit c && ltb more bound then rest else none

abbrev unsigned : ℕ → Bytes → Option ℕ
unsigned bound [] = none
unsigned bound (c ∷ cs) = digits bound 0 (c ∷ cs)

unfoldable pub parse_unsigned : ℕ → Bytes → Option ℕ
unfolding digits
parse_unsigned bound [] = none
parse_unsigned bound (c ∷ cs) = if c == b'+' then unsigned bound cs else unsigned bound (c ∷ cs)

-- `usize` of 64 bits, and `u32`.
abbrev pub parse_usize : Bytes → Option ℕ
parse_usize s = parse_unsigned 18446744073709551616 s

abbrev parse_u32 : Bytes → Option ℕ
parse_u32 s = parse_unsigned 4294967296 s

-- A directory entry: its name, and its files `physical_package_id` and `core_id`, where they are read.
pub record Entry : Type 0 where
  pub name : Bytes
  pub physical_package_id : Option Bytes
  pub core_id : Option Bytes

unfoldable pub contains_core : ℕ → List ℕ → Bool
contains_core id [] = false
contains_core id (c ∷ cs) = c == id || contains_core id cs

abbrev pub all_digits : Bytes → Bool
all_digits [] = true
all_digits (c ∷ cs) = is_ascii_digit c && all_digits cs

-- `name[3..]`, where the name starts with "cpu".
unfoldable pub cpu_suffix : Bytes → Option Bytes
cpu_suffix name =
    if starts_with (codes "cpu") name && all_digits (drop 3 name) then some (drop 3 name) else none

-- `if let Ok(cpu_num)`: a CPU that is not schedulable is passed over.
unfoldable pub passed_over : List ℕ → Bytes → Bool
unfolding contains_core parse_unsigned
passed_over schedulable suffix = elim (parse_usize suffix) [
  | none ↦ false
  | some cpu_num ↦ not (contains_core cpu_num schedulable)
]

abbrev pub read_u32 : Option Bytes → Option ℕ
read_u32 none = none
read_u32 (some s) = parse_u32 (trim_end (trim_start s))

abbrev pub or_zero : Option ℕ → ℕ
or_zero none = 0
or_zero (some n) = n

-- What one entry adds to `physical_cores`.
unfoldable pub physical_core : List ℕ → Entry → Option (ℕ × ℕ)
unfolding cpu_suffix passed_over trim_start trim_end parse_unsigned
physical_core schedulable e = elim (cpu_suffix e.name) [
  | none ↦ none
  | some suffix ↦ if passed_over schedulable suffix then none else elim (read_u32 e.core_id) [
    | none ↦ none
    | some core ↦ some (or_zero (read_u32 e.physical_package_id), core)
  ]
]

-- The `HashSet`, as a list without duplicates.
unfoldable pub has_core : ℕ × ℕ → List (ℕ × ℕ) → Bool
has_core (p, c) [] = false
has_core (p, c) ((q, d) ∷ set) = (p == q && c == d) || has_core (p, c) set

unfoldable pub insert_core : ℕ × ℕ → List (ℕ × ℕ) → List (ℕ × ℕ)
unfolding has_core
insert_core x set = if has_core x set then set else x ∷ set

abbrev pub add_core : Option (ℕ × ℕ) → List (ℕ × ℕ) → List (ℕ × ℕ)
add_core none set = set
add_core (some x) set = insert_core x set

unfoldable pub physical_cores : List ℕ → List Entry → List (ℕ × ℕ) → List (ℕ × ℕ)
unfolding physical_core insert_core
physical_cores schedulable [] set = set
physical_cores schedulable (e ∷ entries) set =
    physical_cores schedulable entries (add_core (physical_core schedulable e) set)

abbrev pub count_or : ℕ → List (ℕ × ℕ) → ℕ
count_or fallback set = if is_empty set then fallback else length set

unfoldable pub num_physical_cores : Option (List ℕ) → Option (List Entry) → ℕ
unfolding physical_cores
num_physical_cores none read_dir = 1
num_physical_cores (some []) read_dir = 1
num_physical_cores (some (c ∷ cs)) none = length (c ∷ cs)
num_physical_cores (some (c ∷ cs)) (some entries) =
    count_or (length (c ∷ cs)) (physical_cores (c ∷ cs) entries [])
