-- ===== src/Alib/Listings/Merged.antt =====
-- internal/alib/client.go: what `FetchWithResult` returns of the listings of its pages.
use alib_fetcher.Base.{
  ◌+◌, ◌≡◌, refl, sym, ap, subst, ◌∙◌, List, [], ◌∷◌, ◌++◌, Text, true, false, not, ◌&&◌, ◌||◌,
  contains, any, arith, inl, inr, Bool-cases, map, Option, none, some, length, ltb, ◌==◌,
}
use alib_fetcher.Alib.Book.{Book}
use alib_fetcher.Alib.Listings.{
  Listing, not_candidate, parsed, broken, unidentified, empty_state, failed_buy_urls, add_listings,
  count_unidentified, ParseResult, ParsedPage, undecodable, parse_with_result, add_failures,
  add_books, Merge, merge_page, merge_pages, fetch_result,
}
use alib_fetcher.Alib.Listings.Outcomes.{
  succeeds, fails, AreDistinct, urls_of, add_listings-Follows, add_listings-WellFormed,
}
use alib_fetcher.Alib.Listings.Pages.{
  Gains, empty-WellFormed, failed_buy_urls-contains, Gains-trans, Gains-change, add_failures-Gains,
  add_books-Gains,
}

-- A page, with its listings if its text can be decoded.
abbrev pub read_page : Option (List Listing) → ParsedPage
read_page none = undecodable
read_page (some listings) = parse_with_result listings

abbrev pub listings_of : Option (List Listing) → List Listing
listings_of none = []
listings_of (some listings) = listings

abbrev pub all_listings : List (Option (List Listing)) → List Listing
all_listings [] = []
all_listings (p ∷ pages) = listings_of p ++ all_listings pages

some-injective {ℓ} : {A : Type ℓ} {x y : A} → some x ≡ some y → x ≡ y
some-injective e = cc e

succeeds-append :
    (ls ks : List Listing) (j : Text) → succeeds (ls ++ ks) j ≡ (succeeds ls j || succeeds ks j)
unfolding succeeds
succeeds-append [] ks j = refl
succeeds-append (parsed book ∷ ls) ks j = ground (arith, succeeds-append ls ks j)
succeeds-append (not_candidate ∷ ls) ks j = succeeds-append ls ks j
succeeds-append (broken url ∷ ls) ks j = succeeds-append ls ks j
succeeds-append (unidentified ∷ ls) ks j = succeeds-append ls ks j

fails-append : (ls ks : List Listing) (j : Text) → fails (ls ++ ks) j ≡ (fails ls j || fails ks j)
unfolding fails
fails-append [] ks j = refl
fails-append (broken url ∷ ls) ks j = ground (arith, fails-append ls ks j)
fails-append (not_candidate ∷ ls) ks j = fails-append ls ks j
fails-append (parsed book ∷ ls) ks j = fails-append ls ks j
fails-append (unidentified ∷ ls) ks j = fails-append ls ks j

count_unidentified-append :
    (ls ks : List Listing)
    → count_unidentified (ls ++ ks) ≡ count_unidentified ls + count_unidentified ks
unfolding count_unidentified
count_unidentified-append [] ks = omega arith
count_unidentified-append (unidentified ∷ ls) ks = omega (arith, count_unidentified-append ls ks)
count_unidentified-append (not_candidate ∷ ls) ks = count_unidentified-append ls ks
count_unidentified-append (parsed book ∷ ls) ks = count_unidentified-append ls ks
count_unidentified-append (broken url ∷ ls) ks = count_unidentified-append ls ks

-- The state that the listings of one page leave.
page_books :
    (ls : List Listing) (j : Text)
    → contains (urls_of (add_listings ls empty_state).books) j ≡ succeeds ls j
unfolding contains any
page_books ls j =
    ap (λ urls. contains urls j)
      (sym (add_listings-WellFormed ls empty_state empty-WellFormed).seen)
    ∙ (add_listings-Follows ls empty_state).seen j

page_failures :
    (ls : List Listing) (j : Text)
    → contains (failed_buy_urls (add_listings ls empty_state)) j
      ≡ (fails ls j && not (succeeds ls j))
unfolding contains any
page_failures ls j =
    failed_buy_urls-contains (add_listings ls empty_state)
      (add_listings-WellFormed ls empty_state empty-WellFormed) j
    ∙ (add_listings-Follows ls empty_state).failed j
    ∙ ground arith

no_books-contains :
    (books : List Book) (j : Text) → (length books == 0) ≡ true → contains (urls_of books) j ≡ false
unfolding contains any
no_books-contains [] j h = refl
no_books-contains (book ∷ books) j h = absurd (ground (arith, h))

merge_page-Gains :
    (p : Option (List Listing)) (m : Merge)
    → Gains
        (succeeds (listings_of p))
        (fails (listings_of p))
        m.state
        (merge_page (read_page p) m).state
      × ((merge_page (read_page p) m).unidentified_failures
          ≡ m.unidentified_failures + count_unidentified (listings_of p))
unfolding merge_page parse_with_result succeeds fails count_unidentified
merge_page-Gains none m = (
  record { seen = λ j. ground arith; failed = λ j. ground arith; well_formed = λ h. h },
  omega arith,
)
merge_page-Gains (some ls) m =
    let state = add_listings ls empty_state in
    let urls = failed_buy_urls state in
    let lost = add_failures-Gains urls m.state in
    let page_losses : (j : Text)
        → (contains urls j && not (succeeds ls j)) ≡ (fails ls j && not (succeeds ls j)) =
      λ j. ground (arith, page_failures ls j) in
    elim (Bool-cases (length state.books == 0 && ltb 0 (count_unidentified ls))) [
      | inl nothing ↦
          let no_wins : (j : Text) → false ≡ succeeds ls j = λ j.
            sym (no_books-contains state.books j (ground (arith, nothing))) ∙ page_books ls j in
          rw nothing (
            Gains-change (λ j. false) (contains urls) (succeeds ls) (fails ls) m.state
                (add_failures urls m.state) no_wins
                (λ j. ground (arith, page_failures ls j, no_wins j)) lost,
            refl,
          )
      | inr some_books ↦
          let won = add_books-Gains state.books (add_failures urls m.state) in
          rw some_books (
            Gains-change (λ j. false || contains (urls_of state.books) j)
                (λ j. contains urls j || false) (succeeds ls) (fails ls) m.state
                (add_books state.books (add_failures urls m.state)) (page_books ls)
                (λ j. ground (arith, page_failures ls j, page_books ls j))
                (Gains-trans (λ j. false) (contains urls) (contains (urls_of state.books))
                  (λ j. false) m.state (add_failures urls m.state)
                  (add_books state.books (add_failures urls m.state)) lost won),
            refl,
          )
    ]

merge_pages-Gains :
    (pages : List (Option (List Listing))) (m : Merge)
    → Gains
        (succeeds (all_listings pages))
        (fails (all_listings pages))
        m.state
        (merge_pages (map read_page pages) m).state
      × ((merge_pages (map read_page pages) m).unidentified_failures
          ≡ m.unidentified_failures + count_unidentified (all_listings pages))
unfolding merge_pages succeeds fails count_unidentified
merge_pages-Gains [] m = (
  record { seen = λ j. ground arith; failed = λ j. ground arith; well_formed = λ h. h },
  omega arith,
)
merge_pages-Gains (p ∷ pages) m =
    let next = merge_page (read_page p) m in
    let first = merge_page-Gains p m in
    let later = merge_pages-Gains pages next in
    let ls = listings_of p in
    let ks = all_listings pages in
    let after = (merge_pages (map read_page pages) next).state in
    (
      Gains-change (λ j. succeeds ls j || succeeds ks j) (λ j. fails ls j || fails ks j)
          (succeeds (ls ++ ks)) (fails (ls ++ ks)) m.state after
          (λ j. sym (succeeds-append ls ks j)) (λ j. ground (arith, fails-append ls ks j))
          (Gains-trans (succeeds ls) (fails ls) (succeeds ks) (fails ks) m.state next.state after
            first.0 later.0),
      omega (arith, first.1, later.1, count_unidentified-append ls ks),
    )

-- The result of a fetch: every URL of a listing that was parsed on some page has one book, no other
-- URL has; the failed URLs are those of listings that could not be parsed and that were parsed
-- nowhere else; and the listings without a URL are counted.
pub record Fetched (listings : List Listing) (r : ParseResult) : Type 0 where
  pub one_each : AreDistinct (urls_of r.books)
  pub found : (j : Text) → contains (urls_of r.books) j ≡ succeeds listings j
  pub failed :
      (j : Text) → contains r.failed_buy_urls j ≡ (fails listings j && not (succeeds listings j))
  pub unidentified : r.unidentified_failures ≡ count_unidentified listings

-- When `FetchWithResult` returns a result, it has exactly one book for every URL that was parsed on
-- some page; its failed URLs are those of listings that could not be parsed, except where the URL was
-- parsed elsewhere, before or after; and it counts the listings without a URL.
pub fetch_result-Fetched :
    (pages : List (Option (List Listing))) (r : ParseResult)
    → fetch_result (map read_page pages) ≡ some r
    → Fetched (all_listings pages) r
unfolding fetch_result contains any
fetch_result-Fetched pages r h =
    let start : Merge = record {
      state = empty_state;
      parsed_pages = 0;
      unidentified_failures = 0;
    } in
    let m = merge_pages (map read_page pages) start in
    let gains = merge_pages-Gains pages start in
    let well_formed = gains.0.well_formed empty-WellFormed in
    elim (Bool-cases (m.parsed_pages == 0)) [
      | inl nothing ↦ ground (arith, nothing, h)
      | inr some_pages ↦
          subst (Fetched (all_listings pages)) (some-injective (rw some_pages at h)) (record {
            one_each = subst AreDistinct well_formed.seen well_formed.distinct;
            found = λ j. ap (λ urls. contains urls j) (sym well_formed.seen) ∙ gains.0.seen j;
            failed = λ j.
                failed_buy_urls-contains m.state well_formed j ∙ gains.0.failed j ∙ ground arith;
            unidentified = omega (arith, gains.1);
          })
    ]
