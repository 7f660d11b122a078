-- ===== src/Security/Trusted.antt =====
-- `parse_trusted_proxies` of src/server/security.rs, with the check of a peer against its result. The
-- networks of the crate `ipnet` are the parameter `Nets`.
use shrimpwisp.Prelude.{ℕ}
use shrimpwisp.Prelude.{◌≡◌, refl, inl, inr}
use shrimpwisp.Prelude.{Bool, false, Option, none, some}
use shrimpwisp.Prelude.{List, [], ◌∷◌, map, arith}
use shrimpwisp.Prelude.{Option-cases}
use shrimpwisp.Prelude.{any}
use shrimpwisp.Prelude.Bytes.{Bytes}
use shrimpwisp.Net.{IpAddr, v4, v6}
use shrimpwisp.Dns.{ip_eq}
use shrimpwisp.Security.RealIp.{is_trusted_proxy}

-- `IpNet`: its parser, `IpNet::new` and `contains`.
pub record Nets : Type 1 where
  pub IpNet : Type 0
  pub parse_net : Bytes → Option IpNet
  pub new_net : IpAddr → ℕ → Option IpNet
  pub within : IpNet → IpAddr → Bool

abbrev pub full_prefix : IpAddr → ℕ
full_prefix (v4 a) = 32
full_prefix (v6 a) = 128

-- A prefix as long as the address makes the network of that address alone.
pub record IsNets (nets : Nets) : Type 0 where
  pub new_full :
      (ip : IpAddr)
      → (net : nets.IpNet) × (nets.new_net ip (full_prefix ip) ≡ some net)
        × ((peer : IpAddr) → nets.within net peer ≡ ip_eq ip peer)

module _ (nets : Nets) (parse_ip : Bytes → Option IpAddr) where
  open nets use {IpNet}

  -- One entry of the configuration.
  unfoldable pub parse_proxy : Bytes → Option IpNet
  parse_proxy s = elim (nets.parse_net s) [
    | some net ↦ some net
    | none ↦ elim (parse_ip s) [ some ip ↦ nets.new_net ip (full_prefix ip) | none ↦ none ]
  ]

  unfoldable pub parse_trusted_proxies : List Bytes → List IpNet
  unfolding parse_proxy
  parse_trusted_proxies [] = []
  parse_trusted_proxies (s ∷ proxy_strs) =
      let rest = parse_trusted_proxies proxy_strs in
      elim (parse_proxy s) [ none ↦ rest | some net ↦ net ∷ rest ]

  -- What an entry says of a peer: a network that holds it, or the peer's own address.
  unfoldable pub entry_trusts : IpAddr → Bytes → Bool
  entry_trusts peer s = elim (nets.parse_net s) [
    | some net ↦ nets.within net peer
    | none ↦ elim (parse_ip s) [ some ip ↦ ip_eq ip peer | none ↦ false ]
  ]

  abbrev pub tests : List IpNet → List (IpAddr → Bool)
  tests parsed = map nets.within parsed

  module _ (ok : IsNets nets) where
    entry_lem :
        (peer : IpAddr) (s : Bytes)
        → elim (parse_proxy s) [ none ↦ false | some net ↦ nets.within net peer ]
          ≡ entry_trusts peer s
    unfolding parse_proxy entry_trusts
    entry_lem peer s = elim (Option-cases (nets.parse_net s)) [
      | inr (net, e) ↦ rw (entry_trusts, e) refl
      | inl e ↦ elim (Option-cases (parse_ip s)) [
        | inl p ↦ rw (entry_trusts, e, p) refl
        | inr (ip, p) ↦
            let (net, made, holds) = ok.new_full ip in rw (entry_trusts, e, p, made) (holds peer)
      ]
    ]

    trusted_lem :
        (peer : IpAddr) (proxy_strs : List Bytes)
        → any (λ net. net peer) (tests (parse_trusted_proxies proxy_strs))
          ≡ any (entry_trusts peer) proxy_strs
    unfolding parse_trusted_proxies
    trusted_lem peer [] = refl
    trusted_lem peer (s ∷ proxy_strs) =
        let rest = trusted_lem peer proxy_strs in
        elim (Option-cases (parse_proxy s)) [
          | inl e ↦ ground (arith, e, entry_lem peer s, rest)
          | inr (net, e) ↦ ground (arith, e, entry_lem peer s, rest)
        ]

    -- With networks as documented: a peer is trusted exactly if an entry of the configuration is
    -- a network that holds it, or is no network and is the peer's own address. An entry that is
    -- neither is passed over.
    pub parse_trusted_proxies_lem :
        (peer : IpAddr) (proxy_strs : List Bytes)
        → is_trusted_proxy parse_ip peer (tests (parse_trusted_proxies proxy_strs))
          ≡ any (entry_trusts peer) proxy_strs
    unfolding is_trusted_proxy
    parse_trusted_proxies_lem peer proxy_strs = ground (arith, trusted_lem peer proxy_strs)
