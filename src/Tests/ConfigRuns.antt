-- ===== src/Tests/ConfigRuns.antt =====
-- Values of the configuration, and the theorem on them at a concrete input.
use alib_fetcher.Base.{
  ◌≡◌, refl, text, none, some, arith, text_eq, byte_length, contains_only_digits, digits_value,
}
use alib_fetcher.Config.FreshBooks.{
  fresh_books_age, fresh_books_since, FreshBooksPolicy, atoi, cut, parse_fresh_books,
}
use alib_fetcher.Config.FreshBooks.RoundTrip.{print_policy, parse_fresh_books_round_trip}

abbrev two_years : FreshBooksPolicy
two_years = record { mode = fresh_books_age; value = 2 }

parse_fresh_books_round_trip_example : parse_fresh_books (print_policy two_years) ≡ some two_years
parse_fresh_books_round_trip_example = (parse_fresh_books_round_trip two_years).0 (omega arith)

parsed_year :
    parse_fresh_books (text "since:2020") ≡ some (record { mode = fresh_books_since; value = 2020 })
unfolding parse_fresh_books cut contains_only_digits atoi digits_value text_eq byte_length
parsed_year = refl

-- A year has four digits.
refused_year : parse_fresh_books (text "since:02020") ≡ none
unfolding parse_fresh_books cut contains_only_digits atoi digits_value text_eq byte_length
refused_year = refl
