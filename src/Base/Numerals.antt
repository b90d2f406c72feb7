-- ===== src/Base/Numerals.antt =====
-- `strconv.ParseInt(s, 10, 64)` and `strconv.FormatInt(n, 10)`.
pub mod Printed
use Prim.Native.Nat.{ℕ, suc, ◌+◌, ◌-◌, ◌*◌, ◌^◌}
use mathlib.Core.Bool.{Bool, true, false, not, ◌&&◌}
use mathlib.Core.Option.{Option, none, some}
use mathlib.Core.List.{[], ◌∷◌}
use alib_fetcher.Base.Tests.{ltb, leb, ◌==◌, if◌then◌else◌}
use alib_fetcher.Base.Texts.{Text, is_empty, decimal}
use alib_fetcher.Base.Int.{ℤ, pos, negsuc, ◌-ℤ◌}

abbrev pub is_digit : ℕ → Bool
is_digit character = leb 48 character && leb character 57

abbrev pub all_digits : Text → Bool
all_digits [] = true
all_digits (c ∷ cs) = is_digit c && all_digits cs

-- `containsOnlyDigits` of internal/config/config.go.
unfoldable pub contains_only_digits : Text → Bool
contains_only_digits value = not (is_empty value) && all_digits value

-- The number that digits stand for, behind those that were read before.
unfoldable pub digits_value : ℕ → Text → ℕ
digits_value read [] = read
digits_value read (c ∷ cs) = digits_value (read * 10 + (c - 48)) cs

-- The bounds of an `int64`.
abbrev in_int64 : Bool → ℕ → Option ℤ
in_int64 true n = if leb n (2 ^ 63) then some (pos 0 -ℤ pos n) else none
in_int64 false n = if ltb n (2 ^ 63) then some (pos n) else none

abbrev pub parse_magnitude : Bool → Text → Option ℤ
parse_magnitude negative digits =
    if contains_only_digits digits then in_int64 negative (digits_value 0 digits) else none

unfoldable pub parse_int : Text → Option ℤ
unfolding contains_only_digits digits_value
parse_int [] = none
parse_int (c ∷ cs) =
    if c == 45
    then parse_magnitude true cs
    else if c == 43
    then parse_magnitude false cs
    else parse_magnitude false (c ∷ cs)

unfoldable pub format_int : ℤ → Text
unfolding decimal
format_int (pos n) = decimal n
format_int (negsuc n) = 45 ∷ decimal (suc n)
