-- ===== src/Config/FreshBooks/RoundTrip.antt =====
-- internal/config/config.go: the values of `fresh_books` are those of the documented form.
use alib_fetcher.Base.{
  ℕ, zero, suc, ◌+◌, ◌*◌, ◌/◌, ◌%◌, ◌^◌, ◌≤◌, ◌<◌, ◌≡◌, refl, ap, subst, ◌∙◌, [], ◌∷◌, ◌++◌, Text,
  text, Option, none, some, true, not, ◌||◌, ltb, ◌==◌, text_eq, byte_length, rune_bytes, decimal,
  decimal_from, all_digits, contains_only_digits, digits_value, arith, inl, inr, Bool-cases,
}
use alib_fetcher.Base.Numerals.Printed.{digits_value-decimal_from, contains_only_digits-decimal}
use alib_fetcher.Config.FreshBooks.{
  FreshBooksMode, fresh_books_age, fresh_books_since, FreshBooksPolicy, atoi, cut, of_mode, of_cut,
  parse_fresh_books,
}

-- `age:N` and `since:YYYY`.
abbrev pub print_mode : FreshBooksMode → Text
print_mode fresh_books_age = text "age"
print_mode fresh_books_since = text "since"

abbrev pub print_policy : FreshBooksPolicy → Text
print_policy policy = print_mode policy.mode ++ 58 ∷ decimal policy.value

abbrev IsInRange : FreshBooksMode → ℕ → Type 0
IsInRange fresh_books_age value = value < 2 ^ 63
IsInRange fresh_books_since value = (1000 ≤ value) × (value ≤ 9999)

abbrev pub IsPolicy : FreshBooksPolicy → Type 0
IsPolicy policy = IsInRange policy.mode policy.value

-- One more digit in front of those that are there.
decimal_from-more :
    (fuel n : ℕ) (digits : Text)
    → 10 ≤ n
    → decimal_from (suc fuel) n digits ≡ decimal_from fuel (n / 10) ((48 + n % 10) ∷ digits)
unfolding decimal_from
decimal_from-more fuel n digits h = ground (arith, h)

decimal_from-last :
    (fuel n : ℕ) (digits : Text) → n < 10 → decimal_from (suc fuel) n digits ≡ (48 + n) ∷ digits
unfolding decimal_from
decimal_from-last fuel n digits h = ground (arith, h)

abbrev tens : ℕ → ℕ
tens zero = 1
tens (suc k) = 10 * tens k

tens-positive : (k : ℕ) → 1 ≤ tens k
tens-positive zero = omega arith
tens-positive (suc k) = omega (arith, tens-positive k)

digit-bytes :
    (d : ℕ) (digits : Text) → d < 10 → byte_length ((48 + d) ∷ digits) ≡ 1 + byte_length digits
unfolding byte_length rune_bytes
digit-bytes d digits h = ground (arith, h)

byte_length-decimal_from :
    (k fuel n : ℕ) (digits : Text)
    → tens k ≤ n
    → n < tens (suc k)
    → n < fuel
    → byte_length (decimal_from fuel n digits) ≡ suc k + byte_length digits
byte_length-decimal_from k zero n digits low high h = absurd (omega arith)
byte_length-decimal_from zero (suc fuel) n digits low high h =
    ap byte_length (decimal_from-last fuel n digits (omega (arith, high)))
    ∙ digit-bytes n digits (omega (arith, high))
byte_length-decimal_from (suc k) (suc fuel) n digits low high h =
    ap byte_length (decimal_from-more fuel n digits (omega (arith, low, tens-positive k)))
    ∙ byte_length-decimal_from k fuel (n / 10) ((48 + n % 10) ∷ digits) (omega (arith, low))
        (omega (arith, high)) (omega (arith, low, tens-positive k, h))
    ∙ ap (λ m. suc k + m) (digit-bytes (n % 10) digits (omega arith))
    ∙ omega arith

atoi-decimal : (n : ℕ) → n < 2 ^ 63 → atoi (decimal n) ≡ some n
unfolding atoi decimal digits_value
atoi-decimal n h =
    let read : digits_value 0 (decimal n) ≡ n =
      digits_value-decimal_from (suc n) n [] (omega arith) in
    rw read (ground (arith, h))

parse-print_age :
    (n : ℕ)
    → n < 2 ^ 63
    → parse_fresh_books (text "age" ++ 58 ∷ decimal n)
      ≡ some (record { mode = fresh_books_age; value = n })
unfolding parse_fresh_books cut text_eq
parse-print_age n h = rw (contains_only_digits-decimal n, atoi-decimal n h) refl

bytes-decimal_of_four : (n : ℕ) → 1000 ≤ n → n ≤ 9999 → byte_length (decimal n) ≡ 4
unfolding decimal byte_length
bytes-decimal_of_four n low high =
    byte_length-decimal_from 3 (suc n) n [] (omega (arith, low)) (omega (arith, high)) (omega arith)

parse-print_since :
    (n : ℕ)
    → 1000 ≤ n
    → n ≤ 9999
    → parse_fresh_books (text "since" ++ 58 ∷ decimal n)
      ≡ some (record { mode = fresh_books_since; value = n })
unfolding parse_fresh_books cut text_eq
parse-print_since n low high =
    let bytes = bytes-decimal_of_four n low high in
    rw (contains_only_digits-decimal n, atoi-decimal n (omega (arith, high)), bytes)
      (ground (arith, low))

parse-print_policy :
    (mode : FreshBooksMode) (value : ℕ)
    → IsInRange mode value
    → parse_fresh_books (print_mode mode ++ 58 ∷ decimal value)
      ≡ some (record { mode = mode; value = value })
parse-print_policy fresh_books_age value h = parse-print_age value h
parse-print_policy fresh_books_since value h = parse-print_since value h.0 h.1

-- Digits take one byte each.
digits-bytes :
    (c : ℕ) (cs : Text)
    → all_digits (c ∷ cs) ≡ true
    → (byte_length (c ∷ cs) ≡ 1 + byte_length cs) × (all_digits cs ≡ true) × (c ≤ 57)
unfolding byte_length rune_bytes
digits-bytes c cs h = ground (arith, h)

four_digits-value :
    (cs : Text) → all_digits cs ≡ true → byte_length cs ≡ 4 → digits_value 0 cs ≤ 9999
unfolding byte_length digits_value
four_digits-value [] h bytes = absurd (omega (arith, bytes))
four_digits-value (a ∷ []) h bytes = absurd (omega (arith, bytes, (digits-bytes a [] h).0))
four_digits-value (a ∷ b ∷ []) h bytes =
    let first = digits-bytes a (b ∷ []) h in
    absurd (omega (arith, bytes, first.0, (digits-bytes b [] first.1).0))
four_digits-value (a ∷ b ∷ c ∷ []) h bytes =
    let first = digits-bytes a (b ∷ c ∷ []) h in
    let second = digits-bytes b (c ∷ []) first.1 in
    absurd (omega (arith, bytes, first.0, second.0, (digits-bytes c [] second.1).0))
four_digits-value (a ∷ b ∷ c ∷ d ∷ []) h bytes =
    let first = digits-bytes a (b ∷ c ∷ d ∷ []) h in
    let second = digits-bytes b (c ∷ d ∷ []) first.1 in
    let third = digits-bytes c (d ∷ []) second.1 in
    omega (arith, first.2, second.2, third.2, (digits-bytes d [] third.1).2)
four_digits-value (a ∷ b ∷ c ∷ d ∷ e ∷ cs) h bytes =
    let first = digits-bytes a (b ∷ c ∷ d ∷ e ∷ cs) h in
    let second = digits-bytes b (c ∷ d ∷ e ∷ cs) first.1 in
    let third = digits-bytes c (d ∷ e ∷ cs) second.1 in
    let fourth = digits-bytes d (e ∷ cs) third.1 in
    absurd
      (omega (arith, bytes, first.0, second.0, third.0, fourth.0, (digits-bytes e cs fourth.1).0))

some-injective {ℓ} : {A : Type ℓ} {x y : A} → some x ≡ some y → x ≡ y
some-injective e = cc e

of_mode-IsPolicy :
    (mode argument : Text) (policy : FreshBooksPolicy)
    → all_digits argument ≡ true
    → digits_value 0 argument < 2 ^ 63
    → of_mode mode argument (digits_value 0 argument) ≡ some policy
    → IsPolicy policy
of_mode-IsPolicy mode argument policy digits bound h =
    elim (Bool-cases (text_eq mode (text "age"))) [
      | inl age ↦ subst IsPolicy (some-injective (rw age at h)) bound
      | inr no_age ↦ elim (Bool-cases (text_eq mode (text "since"))) [
        | inl since ↦
            elim (Bool-cases
              (not (byte_length argument == 4) || ltb (digits_value 0 argument) 1000)) [
                | inl bad ↦ ground (arith, no_age, since, bad, h)
                | inr fine ↦
                    subst IsPolicy (some-injective (rw (no_age, since, fine) at h)) (
                      ground (arith, fine),
                      four_digits-value argument digits (ground (arith, fine)),
                    )
              ]
        | inr no_since ↦ ground (arith, no_age, no_since, h)
      ]
    ]

of_cut-IsPolicy :
    (parts : Option (Text × Text)) (policy : FreshBooksPolicy)
    → of_cut parts ≡ some policy
    → IsPolicy policy
unfolding contains_only_digits atoi
of_cut-IsPolicy none policy h = cc h
of_cut-IsPolicy (some (mode, argument)) policy h =
    elim (Bool-cases (contains_only_digits argument)) [
      | inr bad ↦ ground (arith, bad, h)
      | inl digits ↦ elim (Bool-cases (ltb (digits_value 0 argument) (2 ^ 63))) [
        | inr large ↦ ground (arith, digits, large, h)
        | inl bound ↦
            of_mode-IsPolicy mode argument policy (ground (arith, digits)) (ground (arith, bound))
              (rw (digits, bound) at h)
      ]
    ]

pub parse_fresh_books-IsPolicy :
    (value : Text) (policy : FreshBooksPolicy)
    → parse_fresh_books value ≡ some policy
    → IsPolicy policy
unfolding parse_fresh_books
parse_fresh_books-IsPolicy value policy h = of_cut-IsPolicy (cut value) policy h

-- Every policy in range is read back from its documented form, `age:N` or `since:YYYY`, and whatever
-- is read is in range: an age below 2 to the 63, or a year of four digits from 1000 on.
pub parse_fresh_books_round_trip :
    (policy : FreshBooksPolicy)
    → (IsPolicy policy → parse_fresh_books (print_policy policy) ≡ some policy)
      × ((value : Text) → parse_fresh_books value ≡ some policy → IsPolicy policy)
parse_fresh_books_round_trip policy =
    (parse-print_policy policy.mode policy.value, λ value. parse_fresh_books-IsPolicy value policy)
