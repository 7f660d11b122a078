-- ===== src/Accept/Laws.antt =====
-- The limits and the rate map of `accept_loop` in src/server/mod.rs.
use shrimpwisp.Prelude.{ℕ, ◌-◌, ◌≤◌}
use shrimpwisp.Prelude.{◌≡◌, refl, sym, ap, ◌∙◌, ◌⊎◌, inl, inr}
use shrimpwisp.Prelude.{true, false, Option, none, some}
use shrimpwisp.Prelude.{List, [], ◌∷◌, arith}
use shrimpwisp.Prelude.{ltb, Bool-cases}
use shrimpwisp.Config.{ServerConfig}
use shrimpwisp.Dns.{ip_eq}
use shrimpwisp.Net.{IpAddr, v4, v6}
use shrimpwisp.Accept.{
  Window, Worker, find_window, set_window, restart, current_window, evict, counted, accept_one,
}

pub ip_eq→eq : (a b : IpAddr) → ip_eq a b ≡ true → a ≡ b
unfolding ip_eq
ip_eq→eq (v4 a) (v4 b) h = ground arith
ip_eq→eq (v6 a) (v6 b) h = ground arith
ip_eq→eq (v4 a) (v6 b) h = cc
ip_eq→eq (v6 a) (v4 b) h = cc

pub ip_eq_refl : (a : IpAddr) → ip_eq a a ≡ true
unfolding ip_eq
ip_eq_refl (v4 a) = ground arith
ip_eq_refl (v6 a) = ground arith

pub ip_eq_sym : (a b : IpAddr) → ip_eq a b ≡ ip_eq b a
unfolding ip_eq
ip_eq_sym (v4 a) (v4 b) = ground arith
ip_eq_sym (v6 a) (v6 b) = ground arith
ip_eq_sym (v4 a) (v6 b) = refl
ip_eq_sym (v6 a) (v4 b) = refl

-- No address twice.
abbrev pub IsRateMap : List (IpAddr × Window) → Type 0
IsRateMap [] = Unit
IsRateMap ((k, x) ∷ m) = (find_window k m ≡ none) × IsRateMap m

set_window-none :
    (ip k : IpAddr) (x : Window) (m : List (IpAddr × Window))
    → find_window k m ≡ none
    → ip_eq ip k ≡ false
    → find_window k (set_window ip x m) ≡ none
unfolding find_window set_window
set_window-none ip k x [] h n = ground arith
set_window-none ip k x ((j, y) ∷ m) h n = ground (arith, set_window-none ip k x m)

pub set_window-IsRateMap :
    (ip : IpAddr) (x : Window) (m : List (IpAddr × Window))
    → IsRateMap m
    → IsRateMap (set_window ip x m)
unfolding set_window
set_window-IsRateMap ip x [] v = (unfold find_window in refl, tt)
set_window-IsRateMap ip x ((k, y) ∷ m) v = elim (Bool-cases (ip_eq k ip)) [
  | inl e ↦ rw e v
  | inr e ↦
      rw e (set_window-none ip k x m v.0 (ip_eq_sym ip k ∙ e), set_window-IsRateMap ip x m v.1)
]

pub evict-none :
    (window now : ℕ) (ip : IpAddr) (m : List (IpAddr × Window))
    → find_window ip m ≡ none
    → find_window ip (evict window now m) ≡ none
unfolding find_window evict
evict-none window now ip [] h = refl
evict-none window now ip ((k, x) ∷ m) h = ground (arith, evict-none window now ip m)

window_of : ℕ → ℕ → Option Window → Window
window_of window t o = elim o [
  | none ↦ restart window t (record { count = 0; start = t })
  | some y ↦ restart window t y
]

-- A window that is over is as good as none.
same_start :
    (window now later : ℕ) (x : Window)
    → now ≤ later
    → ltb (now - x.start) window ≡ false
    → window_of window later none ≡ window_of window later (some x)
unfolding window_of
same_start window now later x le gone = ground arith

find-evict :
    (window now later : ℕ) (ip : IpAddr) (m : List (IpAddr × Window))
    → IsRateMap m
    → now ≤ later
    → window_of window later (find_window ip (evict window now m))
      ≡ window_of window later (find_window ip m)
unfolding find_window evict
find-evict window now later ip [] v le = refl
find-evict window now later ip ((k, x) ∷ m) v le =
    let rest = find-evict window now later ip m v.1 le in
    elim (Bool-cases (ltb (now - x.start) window)) [
      | inl kept ↦ rw kept (elim (Bool-cases (ip_eq k ip)) [
        | inl e ↦ rw (e, find_window) refl
        | inr e ↦ rw (e, find_window) rest
      ])
      | inr gone ↦ rw gone (elim (Bool-cases (ip_eq k ip)) [
        | inr e ↦ rw (e, find_window) rest
        | inl e ↦
            rw (e, find_window)
              (ap (window_of window later) (
                  evict-none window now ip m
                    (ap (λ j. find_window j m) (sym (ip_eq→eq k ip e)) ∙ v.0))
                ∙ same_start window now later x le gone)
      ])
    ]

-- Cleaning a rate map without duplicate addresses is not seen: at any later time, every address
-- has the window that it would have had.
pub current_window-evict :
    (window now later : ℕ) (ip : IpAddr) (m : List (IpAddr × Window))
    → IsRateMap m
    → now ≤ later
    → current_window window later ip (evict window now m) ≡ current_window window later ip m
unfolding current_window window_of
current_window-evict window now later ip m v le = find-evict window now later ip m v le

-- Where a worker serves no more than `max_connections` (0 allows any number), it still does after
-- an accept; and a connection that is served leaves the window of its address at no more than
-- `max_connections_per_ip` (0 allows any number).
pub accept_one_limits :
    (config : ServerConfig) (now : ℕ) (ip : IpAddr) (s : Worker)
    → ((config.max_connections ≡ 0) ⊎ (s.conn_count ≤ config.max_connections))
    → ((config.max_connections ≡ 0)
        ⊎ ((accept_one config now ip s).1.conn_count ≤ config.max_connections))
      × (((accept_one config now ip s).0 ≡ false)
          ⊎ (config.max_connections_per_ip ≡ 0)
          ⊎ ((counted config now ip s).count ≤ config.max_connections_per_ip))
unfolding accept_one
accept_one_limits config now ip s h = ground arith
