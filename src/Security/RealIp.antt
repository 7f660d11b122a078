-- ===== src/Security/RealIp.antt =====
-- The client's address behind a proxy: `extract_real_ip` and `is_trusted_proxy` of
-- src/server/security.rs, and their use in `handle_connection` of src/server/connection.rs.
use shrimpwisp.Prelude.{ℕ}
use shrimpwisp.Prelude.{◌≡◌}
use shrimpwisp.Prelude.{Bool, false, ◌&&◌, ◌||◌, not, Option, none, some}
use shrimpwisp.Prelude.{List, [], ◌∷◌, arith}
use shrimpwisp.Prelude.{leb, ◌==◌, if◌then◌else◌}
use shrimpwisp.Prelude.{is_empty, any}
use shrimpwisp.Prelude.Bytes.{Bytes}
use shrimpwisp.Prelude.Bytes.{bytes_eq}
use shrimpwisp.Prelude.Bytes.{to_ascii_lowercase}
use shrimpwisp.Config.{ServerConfig}
use shrimpwisp.Net.{IpAddr}

-- `value.split(',').next()`.
unfoldable pub before_comma : Bytes → Bytes
before_comma [] = []
before_comma (b ∷ bs) = if b == b',' then [] else b ∷ before_comma bs

-- `str::trim`, on the visible ASCII that a captured header holds.
abbrev is_space : ℕ → Bool
is_space b = b == 32 || (leb 9 b && leb b 13)

unfoldable pub trim_start : Bytes → Bytes
trim_start [] = []
trim_start (b ∷ bs) = if is_space b then trim_start bs else b ∷ bs

unfoldable pub trim_end : Bytes → Bytes
trim_end [] = []
trim_end (b ∷ bs) = let rest = trim_end bs in if is_space b && is_empty rest then [] else b ∷ rest

unfoldable pub leftmost : Bytes → Bytes
unfolding before_comma trim_start trim_end
leftmost value = trim_end (trim_start (before_comma value))

module _ (parse_ip : Bytes → Option IpAddr) where
  -- The inner loop, over the headers, for one name of the configuration.
  unfoldable pub scan_headers : Bytes → List (Bytes × Bytes) → Option IpAddr
  unfolding leftmost
  scan_headers target_lower [] = none
  scan_headers target_lower ((name, value) ∷ headers) =
      let rest = scan_headers target_lower headers in
      if bytes_eq (to_ascii_lowercase name) target_lower
      then elim (parse_ip (leftmost value)) [ none ↦ rest | some ip ↦ some ip ]
      else rest

  unfoldable pub extract_real_ip : List (Bytes × Bytes) → List Bytes → Option IpAddr
  unfolding scan_headers
  extract_real_ip headers [] = none
  extract_real_ip headers (target ∷ targets) =
      let rest = extract_real_ip headers targets in
      elim (scan_headers (to_ascii_lowercase target) headers) [ none ↦ rest | some ip ↦ some ip ]

  -- `is_trusted_proxy`, over the `IpNet`s of the `ipnet` crate: a network is its `contains`.
  unfoldable pub is_trusted_proxy : IpAddr → List (IpAddr → Bool) → Bool
  is_trusted_proxy peer nets = if is_empty nets then false else any (λ net. net peer) nets

  -- `cs.client_ip`, set once in `handle_connection`.
  unfoldable pub client_ip :
      ServerConfig → IpAddr → List (IpAddr → Bool) → List (Bytes × Bytes) → IpAddr
  unfolding is_trusted_proxy
  client_ip c peer nets headers =
      if c.real_ip_enabled && not (is_empty c.real_ip_headers)
      then if is_trusted_proxy peer nets
        then elim (extract_real_ip headers c.real_ip_headers) [ none ↦ peer | some ip ↦ ip ]
        else peer
      else peer

  -- A header speaks for the client only through a trusted proxy: from any other peer, whatever the
  -- headers say, the address is the peer's.
  pub client_ip_untrusted :
      (c : ServerConfig) (peer : IpAddr) (nets : List (IpAddr → Bool))
      (headers : List (Bytes × Bytes))
      → any (λ net. net peer) nets ≡ false
      → client_ip c peer nets headers ≡ peer
  unfolding client_ip
  client_ip_untrusted c peer nets headers h = ground arith
