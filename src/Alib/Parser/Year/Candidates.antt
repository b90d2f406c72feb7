-- ===== src/Alib/Parser/Year/Candidates.antt =====
-- internal/alib/parser.go: `parsePublicationYear` reads the last year that is named.
use alib_fetcher.Base.{
  ℕ, zero, suc, ◌≤◌, ◌≡◌, refl, sym, ap, ◌∙◌, inl, inr, List, [], ◌∷◌, ◌++◌, Text, Bool, true,
  false, ◌&&◌, ◌==◌, leb, if◌then◌else◌, length, is_digit, digits_value, Bool-cases, arith,
}
use alib_fetcher.Alib.Parser.Year.{
  span_digits, has_year_suffix, next_year, last_year_from, parse_publication_year,
}

abbrev pub last_of : ℕ → List ℕ → ℕ
last_of default [] = default
last_of default (x ∷ xs) = last_of x xs

span_digits-digit :
    (c : ℕ) (cs : Text)
    → is_digit c ≡ true
    → span_digits (c ∷ cs) ≡ (c ∷ (span_digits cs).0, (span_digits cs).1)
unfolding span_digits
span_digits-digit c cs h = rw h refl

span_digits-other : (c : ℕ) (cs : Text) → is_digit c ≡ false → span_digits (c ∷ cs) ≡ ([], c ∷ cs)
unfolding span_digits
span_digits-other c cs h = rw h refl

span_digits-nil : span_digits [] ≡ ([], [])
unfolding span_digits
span_digits-nil = refl

length-rest : (s : Text) → length (span_digits s).1 ≤ length s
unfolding span_digits
length-rest [] = omega arith
length-rest (c ∷ cs) = elim (Bool-cases (is_digit c)) [
  | inl digit ↦ rw digit (omega (arith, length-rest cs))
  | inr other ↦ rw other (omega arith)
]

module _ (is_letter is_number : ℕ → Bool) where
  -- The year that begins here, if there is one: four digits and no more, from 1000 on, with the
  -- abbreviation of "year" behind them.
  abbrev pub year_here : Text × Text → List ℕ
  year_here (digits, rest) =
      if length digits == 4
        && has_year_suffix is_letter is_number rest
        && leb 1000 (digits_value 0 digits)
      then digits_value 0 digits ∷ []
      else []

  -- Every position is looked at, and a year begins only where no digit stands before.
  pub years_in : Bool → Text → List ℕ
  years_in inside [] = []
  years_in inside (c ∷ cs) =
      let starts = year_here (span_digits (c ∷ cs)) in
      if is_digit c
      then (if inside then years_in true cs else starts ++ years_in true cs)
      else years_in false cs

  years_in-span : (s : Text) → years_in true s ≡ years_in false (span_digits s).1
  unfolding years_in
  years_in-span [] = sym (ap (λ (s : Text × Text). years_in false s.1) span_digits-nil)
  years_in-span (c ∷ cs) = elim (Bool-cases (is_digit c)) [
    | inl digit ↦ rw (digit, span_digits-digit c cs digit) (years_in-span cs)
    | inr other ↦ rw (other, span_digits-other c cs other) (rw other refl)
  ]

  last_of-year_here :
      (digits rest : Text) (last_year : ℕ) (years : List ℕ)
      → last_of last_year (year_here (digits, rest) ++ years)
        ≡ last_of (next_year is_letter is_number digits rest last_year) years
  last_of-year_here digits rest last_year years =
      elim (Bool-cases (
        length digits == 4
        && has_year_suffix is_letter is_number rest
        && leb 1000 (digits_value 0 digits))) [
          | inl year ↦ rw year refl
          | inr no_year ↦ rw no_year refl
        ]

  last_year_from-years_in :
      (fuel : ℕ) (s : Text) (last_year : ℕ)
      → length s ≤ fuel
      → last_year_from is_letter is_number fuel s last_year ≡ last_of last_year (years_in false s)
  unfolding last_year_from years_in
  last_year_from-years_in zero [] last_year h = refl
  last_year_from-years_in zero (c ∷ cs) last_year h = absurd (omega (arith, h))
  last_year_from-years_in (suc fuel) [] last_year h = refl
  last_year_from-years_in (suc fuel) (c ∷ cs) last_year h = elim (Bool-cases (is_digit c)) [
    | inr other ↦ rw other (last_year_from-years_in fuel cs last_year (omega (arith, h)))
    | inl digit ↦
        let digits : Text = c ∷ (span_digits cs).0 in
        let rest : Text = (span_digits cs).1 in
        rw (digit, span_digits-digit c cs digit)
          (last_year_from-years_in fuel rest (next_year is_letter is_number digits rest last_year)
              (omega (arith, h, length-rest cs))
            ∙ sym (last_of-year_here digits rest last_year (years_in false rest))
            ∙ ap (λ years. last_of last_year (year_here (digits, rest) ++ years))
                (sym (years_in-span cs)))
  ]

  -- The year of publication is the last of the years that stand anywhere in the bibliography, and
  -- zero if there is none.
  pub parse_publication_year-last :
      (bibliography : Text)
      → parse_publication_year is_letter is_number bibliography
        ≡ last_of 0 (years_in false bibliography)
  unfolding parse_publication_year
  parse_publication_year-last bibliography =
      last_year_from-years_in (length bibliography) bibliography 0 (omega arith)
