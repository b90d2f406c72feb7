-- ===== src/Tests/ListingRuns.antt =====
-- Pages of listings, and the theorem on what is fetched of them at concrete inputs.
use alib_fetcher.Base.{
  ◌≡◌, refl, List, [], ◌∷◌, text, Option, none, some, map, keep, contains, any, text_eq,
}
use alib_fetcher.Alib.Listings.{
  Listing, not_candidate, parsed, broken, unidentified, without_key, add_book, add_failure,
  failed_buy_urls, add_listing, add_listings, count_unidentified, parse_with_result, add_failures,
  add_books, merge_page, merge_pages, fetch_result, ParseResult,
}
use alib_fetcher.Alib.Listings.Merged.{read_page, all_listings, Fetched, fetch_result-Fetched}
use alib_fetcher.Tests.StoreRuns.{listing}

-- The second page repeats a listing that is broken on the first; the third cannot be decoded.
abbrev pages : List (Option (List Listing))
pages =
    some (broken (text "a") ∷ parsed (listing [] (text "b")) ∷ broken (text "c") ∷ [])
    ∷ some (parsed (listing [] (text "a")) ∷ not_candidate ∷ unidentified ∷ broken (text "b") ∷ [])
    ∷ none
    ∷ []

abbrev fetched : ParseResult
fetched = record {
  books = listing [] (text "b") ∷ listing [] (text "a") ∷ [];
  failed_buy_urls = text "c" ∷ [];
  unidentified_failures = 1;
}

pages_fetched : fetch_result (map read_page pages) ≡ some fetched
unfolding fetch_result merge_pages merge_page add_books add_failures parse_with_result
    count_unidentified add_listings add_listing failed_buy_urls add_failure add_book without_key
    keep contains any text_eq
pages_fetched = refl

fetch_result-Fetched_example : Fetched (all_listings pages) fetched
fetch_result-Fetched_example = fetch_result-Fetched pages fetched pages_fetched
