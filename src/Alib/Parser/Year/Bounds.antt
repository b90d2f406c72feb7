-- ===== src/Alib/Parser/Year/Bounds.antt =====
-- internal/alib/parser.go: the year that `parsePublicationYear` returns has four digits, or is zero.
use alib_fetcher.Base.{
  ℕ, zero, suc, ◌≤◌, ◌≡◌, refl, ◌⊎◌, inl, inr, [], ◌∷◌, Text, Bool, true, ◌&&◌, ◌==◌, leb, length,
  is_digit, all_digits, digits_value, Bool-cases, arith,
}
use alib_fetcher.Alib.Parser.Year.{
  span_digits, next_year, last_year_from, parse_publication_year, has_year_suffix,
}

abbrev pub IsYear : ℕ → Type 0
IsYear year = (year ≡ 0) ⊎ ((1000 ≤ year) × (year ≤ 9999))

span_digits-all : (s : Text) → all_digits (span_digits s).0 ≡ true
unfolding span_digits
span_digits-all [] = refl
span_digits-all (c ∷ cs) = elim (Bool-cases (is_digit c)) [
  | inl digit ↦ rw digit (rw (digit, span_digits-all cs) refl)
  | inr other ↦ rw other refl
]

digit-bound : (c : ℕ) (cs : Text) → all_digits (c ∷ cs) ≡ true → (c ≤ 57) × (all_digits cs ≡ true)
digit-bound c cs h = ground (arith, h)

four_digits-bound :
    (digits : Text)
    → all_digits digits ≡ true
    → (length digits == 4) ≡ true
    → digits_value 0 digits ≤ 9999
unfolding digits_value
four_digits-bound [] h four = cc four
four_digits-bound (a ∷ []) h four = cc four
four_digits-bound (a ∷ b ∷ []) h four = cc four
four_digits-bound (a ∷ b ∷ c ∷ []) h four = cc four
four_digits-bound (a ∷ b ∷ c ∷ d ∷ []) h four =
    let (first, ha) = digit-bound a (b ∷ c ∷ d ∷ []) h in
    let (second, hb) = digit-bound b (c ∷ d ∷ []) ha in
    let (third, hc) = digit-bound c (d ∷ []) hb in
    omega (arith, first, second, third, (digit-bound d [] hc).0)
four_digits-bound (a ∷ b ∷ c ∷ d ∷ e ∷ cs) h four = ground (arith, four)

module _ (is_letter is_number : ℕ → Bool) where
  next_year-IsYear :
      (digits rest : Text) (last_year : ℕ)
      → all_digits digits ≡ true
      → IsYear last_year
      → IsYear (next_year is_letter is_number digits rest last_year)
  next_year-IsYear digits rest last_year h year =
      elim (Bool-cases (
        length digits == 4
        && has_year_suffix is_letter is_number rest
        && leb 1000 (digits_value 0 digits))) [
          | inl test ↦
              rw test
                (inr (ground (arith, test), four_digits-bound digits h (ground (arith, test))))
          | inr no_test ↦ rw no_test year
        ]

  last_year_from-IsYear :
      (fuel : ℕ) (s : Text) (last_year : ℕ)
      → IsYear last_year
      → IsYear (last_year_from is_letter is_number fuel s last_year)
  unfolding last_year_from
  last_year_from-IsYear zero s last_year year = year
  last_year_from-IsYear (suc fuel) [] last_year year = year
  last_year_from-IsYear (suc fuel) (c ∷ cs) last_year year = elim (Bool-cases (is_digit c)) [
    | inr other ↦ rw other (last_year_from-IsYear fuel cs last_year year)
    | inl digit ↦ rw digit (
        last_year_from-IsYear fuel (span_digits (c ∷ cs)).1 _ (
          next_year-IsYear (span_digits (c ∷ cs)).0 (span_digits (c ∷ cs)).1 last_year
            (span_digits-all (c ∷ cs)) year))
  ]

  pub parse_publication_year-IsYear :
      (s : Text) → IsYear (parse_publication_year is_letter is_number s)
  unfolding parse_publication_year
  parse_publication_year-IsYear s = last_year_from-IsYear (length s) s 0 (inl refl)
