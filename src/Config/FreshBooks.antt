-- ===== src/Config/FreshBooks.antt =====
-- internal/config/config.go: from which year on a book counts as fresh, `FreshBooksPolicy` and
-- `parseFreshBooks`.
pub mod RoundTrip
use alib_fetcher.Base.{
  ℕ, ◌^◌, List, [], ◌∷◌, Text, text, Option, none, some, Bool, true, false, not, ◌||◌, ℤ, pos, ◌-ℤ◌,
  if◌then◌else◌, ltb, ◌==◌, text_eq, byte_length, contains_only_digits, digits_value,
}

pub data FreshBooksMode : Type 0 where
  fresh_books_age fresh_books_since : FreshBooksMode

pub record FreshBooksPolicy : Type 0 where
  pub mode : FreshBooksMode
  pub value : ℕ

abbrev lower_year_by : FreshBooksMode → ℕ → ℤ → ℤ
lower_year_by fresh_books_age value current_year = current_year -ℤ pos value
lower_year_by fresh_books_since value current_year = pos value

unfoldable pub lower_year : FreshBooksPolicy → ℤ → ℤ
lower_year policy current_year = lower_year_by policy.mode policy.value current_year

-- `strconv.Atoi` of digits: an `int` has 64 bits.
unfoldable pub atoi : Text → Option ℕ
unfolding digits_value
atoi digits = if ltb (digits_value 0 digits) (2 ^ 63) then some (digits_value 0 digits) else none

abbrev pub in_front : ℕ → Option (Text × Text) → Option (Text × Text)
in_front c none = none
in_front c (some (before, after)) = some (c ∷ before, after)

-- `strings.Cut` at a colon.
unfoldable pub cut : Text → Option (Text × Text)
cut [] = none
cut (c ∷ cs) = let later = in_front c (cut cs) in if c == 58 then some ([], cs) else later

abbrev pub of_mode : Text → Text → ℕ → Option FreshBooksPolicy
of_mode mode argument parsed =
    if text_eq mode (text "age")
    then some (record { mode = fresh_books_age; value = parsed })
    else if text_eq mode (text "since")
    then (if not (byte_length argument == 4) || ltb parsed 1000
        then none
        else some (record { mode = fresh_books_since; value = parsed }))
    else none

abbrev pub of_parsed : Text → Text → Option ℕ → Option FreshBooksPolicy
of_parsed mode argument none = none
of_parsed mode argument (some parsed) = of_mode mode argument parsed

abbrev pub of_cut : Option (Text × Text) → Option FreshBooksPolicy
of_cut none = none
of_cut (some (mode, argument)) =
    if contains_only_digits argument then of_parsed mode argument (atoi argument) else none

-- `none` is `errInvalidFreshBooks`.
unfoldable pub parse_fresh_books : Text → Option FreshBooksPolicy
unfolding cut
parse_fresh_books value = of_cut (cut value)
