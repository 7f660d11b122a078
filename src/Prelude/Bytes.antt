-- ===== src/Prelude/Bytes.antt =====
-- Bytes, machine words in little-endian and big-endian order, and UTF-8. A byte slice, a `Bytes`, a
-- `Vec<u8>` and a `String` are lists of numbers below 256; a `String` is its UTF-8 encoding.
use Prim.Native.Nat.{ℕ, zero, suc, ◌+◌, ◌*◌, ◌/◌, ◌%◌, ◌^◌, ◌<◌}
use mathlib.Core.Path.{◌≡◌, refl}
use mathlib.Core.Bool.{Bool, true, false, ◌&&◌}
use mathlib.Core.List.{List, [], ◌∷◌, map}
use mathlib.Core.Option.{Option, none, some}
use native.Mathlib.Omega.{arith}
use shrimpwisp.Prelude.Tests.{ltb, leb, ◌==◌, if◌then◌else◌}

abbrev pub Bytes : Type 0
Bytes = List ℕ

abbrev pub IsByte : ℕ → Type 0
IsByte b = b < 256

abbrev pub IsU16 : ℕ → Type 0
IsU16 n = n < 65536

abbrev pub IsU32 : ℕ → Type 0
IsU32 n = n < 4294967296

-- `u16::from_le_bytes` and `u32::from_le_bytes`.
unfoldable pub u16_from_le : ℕ → ℕ → ℕ
u16_from_le a b = a + 256 * b

unfoldable pub u32_from_le : ℕ → ℕ → ℕ → ℕ → ℕ
u32_from_le a b c d = a + 256 * b + 65536 * c + 16777216 * d

-- The four bytes of `u32::to_le_bytes`, lowest first.
abbrev pub le0 : ℕ → ℕ
le0 n = n % 256

abbrev pub le1 : ℕ → ℕ
le1 n = n / 256 % 256

abbrev pub le2 : ℕ → ℕ
le2 n = n / 65536 % 256

abbrev pub le3 : ℕ → ℕ
le3 n = n / 16777216 % 256

abbrev pub u32_to_le : ℕ → Bytes
u32_to_le n = le0 n ∷ le1 n ∷ le2 n ∷ le3 n ∷ []

-- `u64::to_be_bytes`.
abbrev pub u64_to_be : ℕ → Bytes
u64_to_be n =
    n / 2 ^ 56 % 256
    ∷ n / 2 ^ 48 % 256
    ∷ n / 2 ^ 40 % 256
    ∷ n / 2 ^ 32 % 256
    ∷ n / 16777216 % 256
    ∷ n / 65536 % 256
    ∷ n / 256 % 256
    ∷ n % 256
    ∷ []

pub u32_from_le-le : (n : ℕ) → IsU32 n → u32_from_le (le0 n) (le1 n) (le2 n) (le3 n) ≡ n
unfolding u32_from_le
u32_from_le-le n h = omega arith

pub u32_from_le_bound :
    (a b c d : ℕ) → IsByte a → IsByte b → IsByte c → IsByte d → IsU32 (u32_from_le a b c d)
unfolding u32_from_le
u32_from_le_bound a b c d ha hb hc hd = omega arith

pub u16_from_le-le : (n : ℕ) → IsU16 n → u16_from_le (n % 256) (n / 256) ≡ n
unfolding u16_from_le
u16_from_le-le n h = omega arith

-- The bytes that may follow a lead byte: how many, and the range of the first.
utf8_lead : ℕ → Option (ℕ × ℕ × ℕ)
utf8_lead b =
    if ltb b 0x80
    then some (0, 0, 0)
    else if ltb b 0xc2
    then none
    else if ltb b 0xe0
    then some (1, 0x80, 0xbf)
    else if b == 0xe0
    then some (2, 0xa0, 0xbf)
    else if b == 0xed
    then some (2, 0x80, 0x9f)
    else if ltb b 0xf0
    then some (2, 0x80, 0xbf)
    else if b == 0xf0
    then some (3, 0x90, 0xbf)
    else if ltb b 0xf4
    then some (3, 0x80, 0xbf)
    else if b == 0xf4
    then some (3, 0x80, 0x8f)
    else none

utf8_run : ℕ → ℕ → ℕ → Bytes → Bool
utf8_run zero lo hi [] = true
utf8_run (suc k) lo hi [] = false
utf8_run (suc k) lo hi (b ∷ bs) = leb lo b && leb b hi && utf8_run k 0x80 0xbf bs
utf8_run zero lo hi (b ∷ bs) = elim (utf8_lead b) [
  | none ↦ false
  | some (k, l, h) ↦ utf8_run k l h bs
]

-- `std::str::from_utf8(bytes).is_ok()`.
unfoldable pub is_utf8 : Bytes → Bool
unfolding utf8_run utf8_lead
is_utf8 bs = utf8_run 0 0 0 bs

-- Equality of byte strings.
abbrev pub bytes_eq : Bytes → Bytes → Bool
bytes_eq [] [] = true
bytes_eq [] (b ∷ bs) = false
bytes_eq (a ∷ as_) [] = false
bytes_eq (a ∷ as_) (b ∷ bs) = a == b && bytes_eq as_ bs

pub bytes_eq→eq : (as_ bs : Bytes) → bytes_eq as_ bs ≡ true → as_ ≡ bs
bytes_eq→eq [] [] h = refl
bytes_eq→eq [] (b ∷ bs) h = cc
bytes_eq→eq (a ∷ as_) [] h = cc
bytes_eq→eq (a ∷ as_) (b ∷ bs) h = ground (arith, bytes_eq→eq as_ bs)

pub bytes_eq_refl : (as_ : Bytes) → bytes_eq as_ as_ ≡ true
bytes_eq_refl [] = refl
bytes_eq_refl (a ∷ as_) = ground (arith, bytes_eq_refl as_)

-- `str::starts_with`.
abbrev pub starts_with : Bytes → Bytes → Bool
starts_with [] s = true
starts_with (p ∷ ps) [] = false
starts_with (p ∷ ps) (b ∷ bs) = p == b && starts_with ps bs

-- `to_ascii_lowercase`, on a byte and on a string.
unfoldable pub lower_byte : ℕ → ℕ
lower_byte b = if leb b'A' b && leb b b'Z' then b + 32 else b

unfoldable pub to_ascii_lowercase : Bytes → Bytes
unfolding lower_byte
to_ascii_lowercase s = map lower_byte s
