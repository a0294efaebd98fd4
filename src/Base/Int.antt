-- ===== src/Base/Int.antt =====
-- `i64` and `u64`: integers over the native numbers, with the wrap-around of a build without overflow
-- checks, saturation, and the casts between the two types.
use Prim.Native.Nat.{ℕ, suc, ◌+◌, ◌-◌, ◌*◌, ◌%◌, ◌^◌, ◌≤◌, ◌<◌, min}
use mathlib.Core.Path.{◌≡◌}
use mathlib.Core.Bool.{Bool}
use native.Mathlib.Omega.{arith}
use aether_link.Base.Tests.{ltb, leb, if◌then◌else◌}

-- `negsuc n` is -(n + 1).
pub data ℤ : Type 0 where
  pos : ℕ → ℤ
  negsuc : ℕ → ℤ

abbrev pub pos_part : ℤ → ℕ
pos_part (pos n) = n
pos_part (negsuc n) = 0

abbrev pub neg_part : ℤ → ℕ
neg_part (pos n) = 0
neg_part (negsuc n) = suc n

-- a - b, as an integer.
abbrev pub sub_ℕ : ℕ → ℕ → ℤ
sub_ℕ a b = if leb b a then pos (a - b) else negsuc (b - a - 1)

infix 50 ◌≤ℤ◌
abbrev pub ◌≤ℤ◌ : ℤ → ℤ → Type 0
a ≤ℤ b = pos_part a + neg_part b ≤ pos_part b + neg_part a

infixl 65 ◌-ℤ◌ ◌+ℤ◌
unfoldable pub ◌-ℤ◌ : ℤ → ℤ → ℤ
a -ℤ b = sub_ℕ (pos_part a + neg_part b) (neg_part a + pos_part b)

unfoldable pub ◌+ℤ◌ : ℤ → ℤ → ℤ
a +ℤ b = sub_ℕ (pos_part a + pos_part b) (neg_part a + neg_part b)

-- `a < b` and `a <= b`
abbrev pub ltb_ℤ : ℤ → ℤ → Bool
ltb_ℤ a b = ltb (pos_part a + neg_part b) (pos_part b + neg_part a)

abbrev pub leb_ℤ : ℤ → ℤ → Bool
leb_ℤ a b = leb (pos_part a + neg_part b) (pos_part b + neg_part a)

-- The values of an `i64`.
abbrev pub IsI64 : ℤ → Type 0
IsI64 a = (pos_part a < 2 ^ 63) × (neg_part a ≤ 2 ^ 63)

-- The `i64` with the bit pattern w, for w below 2 ^ 64.
abbrev pub of_bits : ℕ → ℤ
of_bits w = if ltb w (2 ^ 63) then pos w else negsuc (2 ^ 64 - 1 - w)

-- What is left of an exact result in a build without overflow checks.
unfoldable pub wrap_i64 : ℤ → ℤ
wrap_i64 (pos n) = of_bits (n % 2 ^ 64)
wrap_i64 (negsuc n) = of_bits (2 ^ 64 - 1 - n % 2 ^ 64)

-- `a - b` and `a.abs()` on `i64`
unfoldable pub sub_i64 : ℤ → ℤ → ℤ
unfolding ◌-ℤ◌ wrap_i64
sub_i64 a b = wrap_i64 (a -ℤ b)

unfoldable pub add_i64 : ℤ → ℤ → ℤ
unfolding ◌+ℤ◌ wrap_i64
add_i64 a b = wrap_i64 (a +ℤ b)

abbrev pub abs_ℤ : ℤ → ℕ
abs_ℤ a = pos_part a + neg_part a

unfoldable pub abs_i64 : ℤ → ℤ
unfolding wrap_i64
abs_i64 a = wrap_i64 (pos (abs_ℤ a))

-- `a.saturating_sub(b)` on `i64`
unfoldable pub saturating_sub_i64 : ℤ → ℤ → ℤ
unfolding ◌-ℤ◌
saturating_sub_i64 a b =
    let d = a -ℤ b in
    if leb (2 ^ 63) (pos_part d)
    then pos (2 ^ 63 - 1)
    else if ltb (2 ^ 63) (neg_part d)
    then negsuc (2 ^ 63 - 1)
    else d

-- `a.max(b)` on `i64`
abbrev pub max_ℤ : ℤ → ℤ → ℤ
max_ℤ a b = if ltb_ℤ a b then b else a

-- `n as i64`, for a `u64` or an `i64` as a `u64`
unfoldable pub as_i64 : ℕ → ℤ
as_i64 n = of_bits (n % 2 ^ 64)

unfoldable pub as_u64 : ℤ → ℕ
as_u64 (pos n) = n % 2 ^ 64
as_u64 (negsuc n) = 2 ^ 64 - 1 - n % 2 ^ 64

-- `a.saturating_add(b)` and `a.saturating_mul(b)` on an unsigned type of w bits
abbrev pub saturating_add : ℕ → ℕ → ℕ → ℕ
saturating_add w a b = min (a + b) (2 ^ w - 1)

abbrev pub saturating_mul : ℕ → ℕ → ℕ → ℕ
saturating_mul w a b = min (a * b) (2 ^ w - 1)

pub wrap_i64-IsI64 : (a : ℤ) → IsI64 (wrap_i64 a)
unfolding wrap_i64
wrap_i64-IsI64 (pos n) = ground arith
wrap_i64-IsI64 (negsuc n) = ground arith

-- Wrapping does nothing to a value that fits.
pub wrap_i64-eq_of_fits : (a : ℤ) → IsI64 a → wrap_i64 a ≡ a
unfolding wrap_i64
wrap_i64-eq_of_fits (pos n) h = ground arith
wrap_i64-eq_of_fits (negsuc n) h = ground arith

pub as_i64-as_u64 : (a : ℤ) → IsI64 a → as_i64 (as_u64 a) ≡ a
unfolding as_i64 as_u64
as_i64-as_u64 (pos n) h = ground arith
as_i64-as_u64 (negsuc n) h = ground arith
