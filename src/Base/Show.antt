-- ===== src/Base/Show.antt =====
-- Decimal text, as `format!` writes integers.
use Prim.Native.Nat.{ℕ, zero, suc, ◌/◌, ◌%◌}
use Prim.Native.String.{String, ◌++◌}
use mathlib.Core.Path.{◌≡◌, refl}
use aether_link.Base.Tests.{ltb, if◌then◌else◌}
use aether_link.Base.Equality.{◌==◌, nat_eq}
use aether_link.Base.Int.{ℤ, pos, negsuc}

digit : ℕ → String
digit d =
    if d == 0
    then "0"
    else if d == 1
    then "1"
    else if d == 2
    then "2"
    else if d == 3
    then "3"
    else if d == 4
    then "4"
    else if d == 5
    then "5"
    else if d == 6
    then "6"
    else if d == 7
    then "7"
    else if d == 8
    then "8"
    else "9"

-- At most `fuel` digits.
digits : ℕ → ℕ → String
unfolding digit
digits zero n = ""
digits (suc fuel) n =
    let rest = digits fuel (n / 10) in if ltb n 10 then digit n else rest ++ digit (n % 10)

-- A `u64` has at most 20 digits.
unfoldable pub show_ℕ : ℕ → String
unfolding digits
show_ℕ n = digits 20 n

unfoldable pub show_ℤ : ℤ → String
unfolding show_ℕ
show_ℤ (pos n) = show_ℕ n
show_ℤ (negsuc n) = "-" ++ show_ℕ (suc n)

shows : show_ℤ (negsuc 1029) ≡ "-1030"
unfolding show_ℤ nat_eq
shows = refl
