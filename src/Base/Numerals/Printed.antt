-- ===== src/Base/Numerals/Printed.antt =====
-- Printed numbers are read back by `strconv.ParseInt`.
use Prim.Native.Nat.{ℕ, zero, suc, ◌+◌, ◌/◌, ◌%◌, ◌^◌, ◌<◌}
use mathlib.Core.Path.{◌≡◌, refl, ap, ◌∙◌}
use mathlib.Core.Logic.{inl, inr}
use mathlib.Core.Bool.{Bool, true, false}
use mathlib.Core.Option.{some}
use mathlib.Core.List.{[], ◌∷◌}
use native.Mathlib.Omega.{arith}
use alib_fetcher.Base.Tests.{ltb, ◌==◌, Bool-cases}
use alib_fetcher.Base.Texts.{Text, is_empty, decimal, decimal_from}
use alib_fetcher.Base.Int.{ℤ, pos, negsuc, ◌-ℤ◌}
use alib_fetcher.Base.Numerals.{
  all_digits, contains_only_digits, digits_value, parse_magnitude, parse_int, format_int,
}

pub digits_value-decimal_from :
    (fuel n : ℕ) (digits : Text)
    → n < fuel
    → digits_value 0 (decimal_from fuel n digits) ≡ digits_value n digits
unfolding digits_value decimal_from
digits_value-decimal_from zero n digits h = absurd (omega arith)
digits_value-decimal_from (suc fuel) n digits h = elim (Bool-cases (ltb n 10)) [
  | inl small ↦ rw small (ap (λ m. digits_value m digits) (omega arith))
  | inr large ↦ rw large (
      digits_value-decimal_from fuel (n / 10) ((48 + n % 10) ∷ digits) (ground (arith, large, h))
      ∙ ap (λ m. digits_value m digits) (omega arith))
]

all_digits-decimal_from :
    (fuel n : ℕ) (digits : Text)
    → all_digits digits ≡ true
    → all_digits (decimal_from fuel n digits) ≡ true
unfolding decimal_from
all_digits-decimal_from zero n digits h = h
all_digits-decimal_from (suc fuel) n digits h = elim (Bool-cases (ltb n 10)) [
  | inl small ↦ rw small (ground (arith, small, h))
  | inr large ↦
      rw large (all_digits-decimal_from fuel (n / 10) ((48 + n % 10) ∷ digits) (ground (arith, h)))
]

decimal_from-nonempty :
    (fuel n : ℕ) (digits : Text) → n < fuel → is_empty (decimal_from fuel n digits) ≡ false
unfolding decimal_from
decimal_from-nonempty zero n digits h = absurd (omega arith)
decimal_from-nonempty (suc fuel) n digits h = elim (Bool-cases (ltb n 10)) [
  | inl small ↦ rw small refl
  | inr large ↦
      rw large
        (decimal_from-nonempty fuel (n / 10) ((48 + n % 10) ∷ digits) (ground (arith, large, h)))
]

-- The digits of a number are digits, and stand for it.
pub contains_only_digits-decimal : (n : ℕ) → contains_only_digits (decimal n) ≡ true
unfolding contains_only_digits decimal
contains_only_digits-decimal n = ground (
  arith,
  decimal_from-nonempty (suc n) n [] (omega arith),
  all_digits-decimal_from (suc n) n [] refl,
)

digits_value-decimal : (n : ℕ) → digits_value 0 (decimal n) ≡ n
unfolding decimal digits_value
digits_value-decimal n = digits_value-decimal_from (suc n) n [] (omega arith)

-- The bounds of an `int64`.
abbrev pub IsInt64 : ℤ → Type 0
IsInt64 (pos n) = n < 2 ^ 63
IsInt64 (negsuc n) = n < 2 ^ 63

parse_int-digits :
    (s : Text) → contains_only_digits s ≡ true → parse_int s ≡ parse_magnitude false s
unfolding parse_int contains_only_digits
parse_int-digits [] h = cc
parse_int-digits (c ∷ cs) h = ground (arith, h)

parse_magnitude-decimal_pos :
    (n : ℕ) → n < 2 ^ 63 → parse_magnitude false (decimal n) ≡ some (pos n)
parse_magnitude-decimal_pos n h =
    rw (contains_only_digits-decimal n, digits_value-decimal n) (ground (arith, h))

parse_magnitude-decimal_neg :
    (n : ℕ) → n < 2 ^ 63 → parse_magnitude true (decimal (suc n)) ≡ some (negsuc n)
unfolding ◌-ℤ◌
parse_magnitude-decimal_neg n h =
    rw (contains_only_digits-decimal (suc n), digits_value-decimal (suc n)) (ground (arith, h))

-- What is printed is read back.
pub parse_int-format_int : (z : ℤ) → IsInt64 z → parse_int (format_int z) ≡ some z
unfolding format_int parse_int
parse_int-format_int (pos n) h =
    parse_int-digits (decimal n) (contains_only_digits-decimal n) ∙ parse_magnitude-decimal_pos n h
parse_int-format_int (negsuc n) h = parse_magnitude-decimal_neg n h

parse_magnitude-IsInt64 :
    (negative : Bool) (digits : Text) (z : ℤ) → parse_magnitude negative digits ≡ some z → IsInt64 z
unfolding ◌-ℤ◌
parse_magnitude-IsInt64 true digits (pos n) h = ground (arith, h)
parse_magnitude-IsInt64 true digits (negsuc n) h = ground (arith, h)
parse_magnitude-IsInt64 false digits (pos n) h = ground (arith, h)
parse_magnitude-IsInt64 false digits (negsuc n) h = ground (arith, h)

pub parse_int-IsInt64 : (s : Text) (z : ℤ) → parse_int s ≡ some z → IsInt64 z
unfolding parse_int
parse_int-IsInt64 [] z h = cc h
parse_int-IsInt64 (c ∷ cs) z h = elim (Bool-cases (c == 45)) [
  | inl minus ↦ parse_magnitude-IsInt64 true cs z (rw minus at h)
  | inr no_minus ↦ elim (Bool-cases (c == 43)) [
    | inl plus ↦ parse_magnitude-IsInt64 false cs z (rw (no_minus, plus) at h)
    | inr no_plus ↦ parse_magnitude-IsInt64 false (c ∷ cs) z (rw (no_minus, no_plus) at h)
  ]
]
