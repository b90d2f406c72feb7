-- ===== src/Alib/Parser/Year.antt =====
-- internal/alib/parser.go: the year of publication that a bibliography names. `unicode.IsLetter` and
-- `unicode.IsDigit` are parameters.
pub mod Candidates
pub mod Bounds
use alib_fetcher.Base.{
  ℕ, zero, suc, ◌+◌, ◌-◌, ◌*◌, List, [], ◌∷◌, ◌++◌, Text, Bool, true, false, not, ◌&&◌, ◌||◌, ◌==◌,
  leb, if◌then◌else◌, length, is_space, is_digit, drop_while, digits_value,
}

-- The letter "г".
abbrev pub year_letter : ℕ
year_letter = 0x433

abbrev pub skip_spaces : Text → Text
skip_spaces s = drop_while is_space s

abbrev pub skip_point : Text → Text
skip_point [] = []
skip_point (c ∷ cs) = if c == 46 then skip_spaces cs else c ∷ cs

-- The digits that a text begins with, and what follows them.
unfoldable pub span_digits : Text → Text × Text
span_digits [] = ([], [])
span_digits (c ∷ cs) =
    let (digits, rest) = span_digits cs in if is_digit c then (c ∷ digits, rest) else ([], c ∷ cs)

module _ (is_letter is_number : ℕ → Bool) where
  abbrev pub ends_year : Text → Bool
  ends_year [] = true
  ends_year (c ∷ cs) = c == 46 || (not (is_letter c) && not (is_number c))

  -- The abbreviation may be doubled.
  abbrev pub after_letter : Text → Bool
  after_letter [] = true
  after_letter (c ∷ cs) = if c == year_letter then ends_year cs else ends_year (c ∷ cs)

  abbrev pub letter_follows : Text → Bool
  letter_follows [] = false
  letter_follows (c ∷ cs) = c == year_letter && after_letter cs

  unfoldable pub has_year_suffix : Text → Bool
  has_year_suffix characters = letter_follows (skip_point (skip_spaces characters))

  -- Digits that name a year, by what follows them.
  abbrev pub next_year : Text → Text → ℕ → ℕ
  next_year digits rest last_year =
      if length digits == 4 && has_year_suffix rest && leb 1000 (digits_value 0 digits)
      then digits_value 0 digits
      else last_year

  -- One round of the loop at a time; the number of characters is fuel enough.
  unfoldable pub last_year_from : ℕ → Text → ℕ → ℕ
  last_year_from zero characters last_year = last_year
  last_year_from (suc fuel) [] last_year = last_year
  last_year_from (suc fuel) (c ∷ cs) last_year =
      let (digits, rest) = span_digits (c ∷ cs) in
      let skipped = last_year_from fuel cs last_year in
      let read = last_year_from fuel rest (next_year digits rest last_year) in
      if is_digit c then read else skipped

  unfoldable pub parse_publication_year : Text → ℕ
  parse_publication_year bibliography = last_year_from (length bibliography) bibliography 0
