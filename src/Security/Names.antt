-- ===== src/Security/Names.antt =====
-- The checks of src/server/security.rs on a hostname, before it is resolved.
use shrimpwisp.Prelude.{ℕ, ◌+◌, ◌-◌, ◌*◌}
use shrimpwisp.Prelude.{Bool, true, false, ◌&&◌, ◌||◌, not, Option, none, some, is_some}
use shrimpwisp.Prelude.{[], ◌∷◌}
use shrimpwisp.Prelude.{ltb, leb, ◌==◌, if◌then◌else◌}
use shrimpwisp.Prelude.Bytes.{Bytes}
use shrimpwisp.Prelude.Bytes.{bytes_eq}
use shrimpwisp.Prelude.Bytes.{starts_with}
use shrimpwisp.Config.{codes, ServerConfig}
use shrimpwisp.Net.{Ipv4Addr, Ipv6Addr}

-- `str::parse::<u8>`: an optional sign, then decimal digits of a value below 256.
abbrev is_digit : ℕ → Bool
is_digit b = leb b'0' b && leb b b'9'

unfoldable pub digits_value : ℕ → Bytes → Option ℕ
digits_value acc [] = some acc
digits_value acc (b ∷ bs) =
    let acc' = acc * 10 + (b - b'0') in
    let rest = digits_value acc' bs in if is_digit b && ltb acc' 256 then rest else none

abbrev unsigned : Bytes → Option ℕ
unsigned [] = none
unsigned (b ∷ bs) = digits_value 0 (b ∷ bs)

unfoldable pub parse_u8 : Bytes → Option ℕ
unfolding digits_value
parse_u8 [] = none
parse_u8 (b ∷ bs) = if b == b'+' then unsigned bs else unsigned (b ∷ bs)

-- `str::strip_prefix`, and `rest[..rest.find('.')]`.
unfoldable pub strip_prefix : Bytes → Bytes → Option Bytes
strip_prefix [] s = some s
strip_prefix (p ∷ ps) [] = none
strip_prefix (p ∷ ps) (b ∷ bs) = let rest = strip_prefix ps bs in if p == b then rest else none

unfoldable pub before_dot : Bytes → Option Bytes
before_dot [] = none
before_dot (b ∷ bs) =
    let rest = before_dot bs in
    if b == b'.' then some [] else elim rest [ none ↦ none | some r ↦ some (b ∷ r) ]

unfoldable pub hostname_is_private_172 : Bytes → Bool
unfolding strip_prefix before_dot parse_u8
hostname_is_private_172 hostname = elim (strip_prefix (codes "172.") hostname) [
  | none ↦ false
  | some rest ↦ elim (before_dot rest) [
    | none ↦ false
    | some octet ↦ elim (parse_u8 octet) [ none ↦ false | some n ↦ leb 16 n && leb n 31 ]
  ]
]

module _ (parse_ipv4 : Bytes → Option Ipv4Addr) (parse_ipv6 : Bytes → Option Ipv6Addr) where
  unfoldable pub is_raw_ip : Bytes → Bool
  is_raw_ip hostname = is_some (parse_ipv4 hostname) || is_some (parse_ipv6 hostname)

  abbrev pub local_name : Bytes → Bool
  local_name h =
      bytes_eq h (codes "localhost")
      || (bytes_eq h (codes "127.0.0.1")
          || (bytes_eq h (codes "::1")
              || (bytes_eq h (codes "0.0.0.0") || bytes_eq h (codes "::"))))

  abbrev pub private_name : Bytes → Bool
  private_name h =
      starts_with (codes "10.") h
      || (starts_with (codes "192.168.") h
          || (starts_with (codes "169.254.") h || hostname_is_private_172 h))

  unfoldable pub is_hostname_blocked_pre_resolution : Bytes → ServerConfig → Bool
  unfolding is_raw_ip
  is_hostname_blocked_pre_resolution h c =
      if not c.allow_direct_ip && is_raw_ip h
      then true
      else if not c.allow_loopback && local_name h
      then true
      else if not c.allow_private_ips && private_name h
      then true
      else if not c.allow_loopback && starts_with (codes "127.") h
      then true
      else false
