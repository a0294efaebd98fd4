-- ===== src/Base/Text.antt =====
-- `str::trim` and the order of strings. `String` has its own `[]` and `∷`.
use Prim.Native.Nat.{ℕ, Ordering}
use Prim.Native.Char.{code}
use Prim.Native.String
use Prim.Native.String.{String}
use mathlib.Core.Path.{◌≡◌, refl}
use mathlib.Core.Bool.{Bool, true, false, ◌&&◌, ◌||◌}
use aether_link.Base.Tests.{leb, if◌then◌else◌}
use aether_link.Base.Equality.{◌==◌, nat_eq}

-- `char::is_whitespace`: the characters with the property White_Space.
abbrev is_whitespace : ℕ → Bool
is_whitespace c =
    leb 9 c && leb c 13
    || c == 0x20
    || c == 0x85
    || c == 0xa0
    || c == 0x1680
    || leb 0x2000 c && leb c 0x200a
    || c == 0x2028
    || c == 0x2029
    || c == 0x202f
    || c == 0x205f
    || c == 0x3000

abbrev pub is_empty_str : String → Bool
is_empty_str String.[] = true
is_empty_str (String.◌∷◌ c s) = false

unfoldable pub trim_start : String → String
trim_start String.[] = String.[]
trim_start (String.◌∷◌ c s) =
    let rest = trim_start s in if is_whitespace (code c) then rest else String.◌∷◌ c s

unfoldable pub trim_end : String → String
trim_end String.[] = String.[]
trim_end (String.◌∷◌ c s) =
    let rest = trim_end s in
    if is_whitespace (code c) && is_empty_str rest then String.[] else String.◌∷◌ c rest

-- `s.trim()`
unfoldable pub trim : String → String
unfolding trim_start trim_end nat_eq
trim s = trim_end (trim_start s)

-- `s.trim().is_empty()`
abbrev pub is_blank : String → Bool
is_blank s = is_empty_str (trim s)

-- `a <= b` by the strings' bytes.
unfoldable pub str_leb : String → String → Bool
str_leb a b = elim (String.compare a b) [ Ordering.gt ↦ false | _ ↦ true ]

trims : trim "  ab c\n" ≡ "ab c"
unfolding trim
trims = refl

blank : is_blank " \t" ≡ true
unfolding trim
blank = refl
