-- ===== src/Config/Filters.antt =====
-- What the hostname and port filters of src/server/config.rs let through.
use shrimpwisp.Prelude.{inl, inr}
use shrimpwisp.Prelude.{subst}
use shrimpwisp.Prelude.{ℕ, zero, suc, ◌+◌, ◌-◌, ◌≤◌, ◌<◌}
use shrimpwisp.Prelude.{◌≡◌, refl, ap, ◌∙◌, ◌↔◌, ◌⊎◌}
use shrimpwisp.Prelude.{true, false, ◌||◌, not, none, some}
use shrimpwisp.Prelude.{List, [], ◌∷◌, ◌++◌, map, arith}
use shrimpwisp.Prelude.{is_empty}
use shrimpwisp.Prelude.Bytes.{Bytes}
use shrimpwisp.Prelude.Bytes.{bytes_eq→eq, bytes_eq_refl}
use shrimpwisp.Prelude.Bytes.{to_ascii_lowercase, lower_byte}
use shrimpwisp.Config.{
  PortEntry, single, range, JsonFilterList, JsonConfig, ServerConfig, has_name, has_port,
  is_hostname_blocked, is_port_blocked,
}
use shrimpwisp.Config.Merge.{ports_from, expand_entry, expand_ports, merge_json_config}

-- A port lies in an entry of the file: it is the port, or between the two ends of the range, in
-- whichever order they are written.
abbrev pub Covers : PortEntry → ℕ → Type 0
Covers (single q) p = q ≡ p
Covers (range a b) p = ((a ≤ p) × (p ≤ b)) ⊎ ((b ≤ p) × (p ≤ a))

abbrev pub CoversAny : List PortEntry → ℕ → Type 0
CoversAny [] p = ⊥
CoversAny (e ∷ es) p = Covers e p ⊎ CoversAny es p

has_port-append : (p : ℕ) (xs ys : List ℕ) → has_port p (xs ++ ys) ≡ has_port p xs || has_port p ys
unfolding has_port
has_port-append p [] ys = refl
has_port-append p (x ∷ xs) ys = ground (arith, has_port-append p xs ys)

has_port-ports_from :
    (n lo p : ℕ) → (has_port p (ports_from n lo) ≡ true) ↔ ((lo ≤ p) × (p < lo + n))
unfolding has_port ports_from
has_port-ports_from zero lo p = ground arith
has_port-ports_from (suc n) lo p = ground (arith, has_port-ports_from n (lo + 1) p)

has_port-expand_entry : (e : PortEntry) (p : ℕ) → (has_port p (expand_entry e) ≡ true) ↔ Covers e p
unfolding expand_entry
has_port-expand_entry (single q) p = unfold has_port in ground arith
has_port-expand_entry (range a b) p =
    ground (arith, has_port-ports_from (b + 1 - a) a p, has_port-ports_from (a + 1 - b) b p)

-- The expanded set holds exactly the ports that the entries of the file cover.
pub has_port-expand_ports :
    (es : List PortEntry) (p : ℕ) → (has_port p (expand_ports es) ≡ true) ↔ CoversAny es p
unfolding expand_ports
has_port-expand_ports [] p = unfold has_port in ground arith
has_port-expand_ports (e ∷ es) p = ground (
  arith,
  has_port-append p (expand_entry e) (expand_ports es),
  has_port-expand_entry e p,
  has_port-expand_ports es p,
)

ports_from_ne : (n lo : ℕ) (xs : List ℕ) → 0 < n → is_empty (ports_from n lo ++ xs) ≡ false
unfolding ports_from
ports_from_ne zero lo xs h = absurd (omega arith)
ports_from_ne (suc n) lo xs h = refl

-- The entries of the file, where there is one, are never lost in the expansion.
expand_ports-ne-nil :
    (e : PortEntry) (es : List PortEntry) → is_empty (expand_ports (e ∷ es)) ≡ false
unfolding expand_ports
expand_ports-ne-nil (single q) es = refl
expand_ports-ne-nil (range a b) es = ground (
  arith,
  ports_from_ne (b + 1 - a) a (expand_ports es),
  ports_from_ne (a + 1 - b) b (expand_ports es),
)

is_port_blocked_white :
    (ps : List ℕ) (p : ℕ) (c : ServerConfig)
    → c.whitelist_ports ≡ ps
    → is_empty ps ≡ false
    → is_port_blocked p c ≡ not (has_port p ps)
unfolding is_port_blocked
is_port_blocked_white ps p c e n = rw e (rw n)

merged_whitelist :
    (j : JsonConfig) (wl : JsonFilterList)
    → j.whitelist ≡ some wl
    → ((merge_json_config j).whitelist_ports ≡ expand_ports wl.ports)
      × ((merge_json_config j).whitelist_hostnames ≡ map to_ascii_lowercase wl.hostnames)
unfolding merge_json_config
merged_whitelist j wl e = ground arith

merged_blacklist :
    (j : JsonConfig) (bl : JsonFilterList)
    → j.whitelist ≡ none
    → j.blacklist ≡ some bl
    → ((merge_json_config j).whitelist_ports ≡ [])
      × ((merge_json_config j).whitelist_hostnames ≡ [])
      × ((merge_json_config j).blacklist_ports ≡ expand_ports bl.ports)
      × ((merge_json_config j).blacklist_hostnames ≡ map to_ascii_lowercase bl.hostnames)
unfolding merge_json_config
merged_blacklist j bl e k = ground arith

-- With a whitelist in the file that names ports, a port passes exactly if one of the entries, a
-- port or a range with both ends in either order, covers it.
whitelist_ports_lem :
    (j : JsonConfig) (wl : JsonFilterList) (e : PortEntry) (es : List PortEntry) (p : ℕ)
    → j.whitelist ≡ some wl
    → wl.ports ≡ e ∷ es
    → (is_port_blocked p (merge_json_config j) ≡ false) ↔ CoversAny (e ∷ es) p
whitelist_ports_lem j wl e es p hw hp = ground (
  arith,
  is_port_blocked_white (expand_ports (e ∷ es)) p (merge_json_config j)
      ((merged_whitelist j wl hw).0 ∙ ap expand_ports hp) (expand_ports-ne-nil e es),
  has_port-expand_ports (e ∷ es) p,
)

is_port_blocked_black :
    (p : ℕ) (c : ServerConfig)
    → c.whitelist_ports ≡ []
    → is_port_blocked p c ≡ has_port p c.blacklist_ports
unfolding is_port_blocked has_port
is_port_blocked_black p c e = ground arith

-- With a blacklist and no whitelist in the file, a port is blocked exactly if one of the entries,
-- a port or a range with both ends in either order, covers it.
blacklist_ports_lem :
    (j : JsonConfig) (bl : JsonFilterList) (p : ℕ)
    → j.whitelist ≡ none
    → j.blacklist ≡ some bl
    → (is_port_blocked p (merge_json_config j) ≡ true) ↔ CoversAny bl.ports p
blacklist_ports_lem j bl p hw hb = ground (
  arith,
  is_port_blocked_black p (merge_json_config j) (merged_blacklist j bl hw hb).0,
  (merged_blacklist j bl hw hb).2,
  has_port-expand_ports bl.ports p,
)

-- For a list that names ports: as the whitelist of the file, it passes a port exactly if one of
-- the entries, a port or a range with both ends in either order, covers it; as the blacklist,
-- without a whitelist, it blocks a port exactly if one of the entries covers it.
pub ports_lem :
    (j : JsonConfig) (list : JsonFilterList) (e : PortEntry) (es : List PortEntry) (p : ℕ)
    → list.ports ≡ e ∷ es
    → (j.whitelist ≡ some list) ⊎ ((j.whitelist ≡ none) × (j.blacklist ≡ some list))
    → ((j.whitelist ≡ some list)
        × ((is_port_blocked p (merge_json_config j) ≡ false) ↔ CoversAny (e ∷ es) p))
      ⊎ ((j.whitelist ≡ none)
          × ((is_port_blocked p (merge_json_config j) ≡ true) ↔ CoversAny (e ∷ es) p))
ports_lem j list e es p h (inl hw) = inl (hw, whitelist_ports_lem j list e es p hw h)
ports_lem j list e es p h (inr (hw, hb)) = inr (
  hw,
  subst (λ ports. (is_port_blocked p (merge_json_config j) ≡ true) ↔ CoversAny ports p) h
      (blacklist_ports_lem j list p hw hb),
)

lower_byte-lower_byte : (b : ℕ) → lower_byte (lower_byte b) ≡ lower_byte b
unfolding lower_byte
lower_byte-lower_byte b = ground arith

lowercase-lowercase : (h : Bytes) → to_ascii_lowercase (to_ascii_lowercase h) ≡ to_ascii_lowercase h
unfolding to_ascii_lowercase
lowercase-lowercase [] = refl
lowercase-lowercase (b ∷ h) =
    rw (lower_byte-lower_byte b) (ap (◌∷◌ (lower_byte b)) (lowercase-lowercase h))

-- A name of the file equals the requested one up to the case of ASCII letters.
abbrev pub NamesAny : List Bytes → Bytes → Type 0
NamesAny [] h = ⊥
NamesAny (n ∷ ns) h = (to_ascii_lowercase n ≡ to_ascii_lowercase h) ⊎ NamesAny ns h

has_name-lowercase :
    (ns : List Bytes) (h : Bytes)
    → (has_name (to_ascii_lowercase h) (map to_ascii_lowercase ns) ≡ true) ↔ NamesAny ns h
unfolding has_name
has_name-lowercase [] h = ground arith
has_name-lowercase (n ∷ ns) h = ground (
  arith,
  has_name-lowercase ns h,
  bytes_eq→eq (to_ascii_lowercase n) (to_ascii_lowercase h),
  bytes_eq_refl (to_ascii_lowercase h),
)

-- For a list that names hosts: as the whitelist of the file, it passes a host exactly if it names
-- it, up to the case of ASCII letters; as the blacklist, without a whitelist, it blocks a host
-- exactly if it names it so.
pub hostnames_lem :
    (j : JsonConfig) (l : JsonFilterList) (n : Bytes) (ns : List Bytes) (h : Bytes)
    → l.hostnames ≡ n ∷ ns
    → (j.whitelist ≡ some l) ⊎ ((j.whitelist ≡ none) × (j.blacklist ≡ some l))
    → ((j.whitelist ≡ some l)
        × ((is_hostname_blocked h (merge_json_config j) ≡ false) ↔ NamesAny (n ∷ ns) h))
      ⊎ ((j.whitelist ≡ none)
          × ((is_hostname_blocked h (merge_json_config j) ≡ true) ↔ NamesAny (n ∷ ns) h))
unfolding is_hostname_blocked
hostnames_lem j l n ns h e (inl w) = inl (
  w,
  ground (
    arith,
    (merged_whitelist j l w).1,
    ap (map to_ascii_lowercase) e,
    has_name-lowercase (n ∷ ns) h,
  ),
)
hostnames_lem j l n ns h e (inr (w, b)) = inr (
  w,
  ground (
    arith,
    (merged_blacklist j l w b).1,
    (merged_blacklist j l w b).3,
    ap (map to_ascii_lowercase) e,
    has_name-lowercase (n ∷ ns) h,
  ),
)
