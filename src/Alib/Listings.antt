-- ===== src/Alib/Listings.antt =====
-- internal/alib/parser.go, `parseState` and the loop of `ParseWithResult`; internal/alib/client.go,
-- the loop of `FetchWithResult` over the pages. What one listing parses to is given.
pub mod Outcomes
pub mod Pages
pub mod Merged
use alib_fetcher.Base.{
  ℕ, suc, ◌+◌, Option, none, some, List, [], ◌∷◌, ◌++◌, Text, Bool, true, false, not, ◌&&◌,
  if◌then◌else◌, ltb, ◌==◌, length, keep, contains, text_eq,
}
use alib_fetcher.Alib.Book.{Book}

-- What `parseListing` makes of a paragraph: no listing, a book, a listing with a URL that cannot be
-- parsed, or one without a URL.
pub data Listing : Type 0 where
  not_candidate : Listing
  parsed : Book → Listing
  broken : Text → Listing
  unidentified : Listing

pub record ParseState : Type 0 where
  pub seen : List Text
  pub failed : List Text
  pub books : List Book
  pub failed_order : List Text

abbrev pub empty_state : ParseState
empty_state = record { seen = []; failed = []; books = []; failed_order = [] }

-- `delete(m, key)`
unfoldable pub without_key : Text → List Text → List Text
without_key key keys = keep (λ k. not (text_eq k key)) keys

unfoldable pub add_book : Book → ParseState → ParseState
unfolding without_key
add_book book state =
    let failed = without_key book.buy_url state.failed in
    if contains state.seen book.buy_url then record state { failed = failed } else record state {
      failed = failed;
      seen = state.seen ++ book.buy_url ∷ [];
      books = state.books ++ book ∷ [];
    }

unfoldable pub add_failure : Text → ParseState → ParseState
add_failure buy_url state =
    if contains state.seen buy_url
    then state
    else if contains state.failed buy_url
    then state
    else record state {
      failed_order = state.failed_order ++ buy_url ∷ [];
      failed = state.failed ++ buy_url ∷ [];
    }

unfoldable pub failed_buy_urls : ParseState → List Text
failed_buy_urls state = keep (contains state.failed) state.failed_order

unfoldable pub add_listing : Listing → ParseState → ParseState
unfolding add_book add_failure
add_listing not_candidate state = state
add_listing (parsed book) state = add_book book state
add_listing (broken buy_url) state = add_failure buy_url state
add_listing unidentified state = state

unfoldable pub add_listings : List Listing → ParseState → ParseState
unfolding add_listing
add_listings [] state = state
add_listings (listing ∷ rest) state = add_listings rest (add_listing listing state)

unfoldable pub count_unidentified : List Listing → ℕ
count_unidentified [] = 0
count_unidentified (unidentified ∷ rest) = suc (count_unidentified rest)
count_unidentified (not_candidate ∷ rest) = count_unidentified rest
count_unidentified (parsed book ∷ rest) = count_unidentified rest
count_unidentified (broken buy_url ∷ rest) = count_unidentified rest

pub record ParseResult : Type 0 where
  pub books : List Book
  pub failed_buy_urls : List Text
  pub unidentified_failures : ℕ

-- A page whose text cannot be decoded, one that has listings but none that parses (`ErrNoBooks`), or
-- any other.
pub data ParsedPage : Type 0 where
  undecodable : ParsedPage
  no_books : ParseResult → ParsedPage
  page : ParseResult → ParsedPage

unfoldable pub parse_with_result : List Listing → ParsedPage
unfolding add_listings failed_buy_urls count_unidentified
parse_with_result listings =
    let state = add_listings listings empty_state in
    let result : ParseResult = record {
      books = state.books;
      failed_buy_urls = failed_buy_urls state;
      unidentified_failures = count_unidentified listings;
    } in
    if length state.books == 0 && ltb 0 (count_unidentified listings)
    then no_books result
    else page result

unfoldable pub add_failures : List Text → ParseState → ParseState
unfolding add_failure
add_failures [] state = state
add_failures (buy_url ∷ rest) state = add_failures rest (add_failure buy_url state)

unfoldable pub add_books : List Book → ParseState → ParseState
unfolding add_book
add_books [] state = state
add_books (book ∷ rest) state = add_books rest (add_book book state)

-- The variables of the loop over the pages.
pub record Merge : Type 0 where
  pub state : ParseState
  pub parsed_pages : ℕ
  pub unidentified_failures : ℕ

unfoldable pub merge_page : ParsedPage → Merge → Merge
unfolding add_failures add_books
merge_page undecodable m = m
merge_page (no_books r) m = record m {
  unidentified_failures = m.unidentified_failures + r.unidentified_failures;
  state = add_failures r.failed_buy_urls m.state;
}
merge_page (page r) m = record {
  parsed_pages = suc m.parsed_pages;
  unidentified_failures = m.unidentified_failures + r.unidentified_failures;
  state = add_books r.books (add_failures r.failed_buy_urls m.state);
}

unfoldable pub merge_pages : List ParsedPage → Merge → Merge
unfolding merge_page
merge_pages [] m = m
merge_pages (p ∷ pages) m = merge_pages pages (merge_page p m)

-- What `FetchWithResult` returns for the pages that were downloaded, if its context stays live;
-- `none` stands for the joined errors of the pages.
unfoldable pub fetch_result : List ParsedPage → Option ParseResult
unfolding merge_pages
fetch_result pages =
    let m =
      merge_pages pages
        (record { state = empty_state; parsed_pages = 0; unidentified_failures = 0 }) in
    if m.parsed_pages == 0
    then none
    else some (record {
      books = m.state.books;
      failed_buy_urls = failed_buy_urls m.state;
      unidentified_failures = m.unidentified_failures;
    })
