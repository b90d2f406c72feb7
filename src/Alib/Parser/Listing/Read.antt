-- ===== src/Alib/Parser/Listing/Read.antt =====
-- internal/alib/parser.go: what `parseListing` says of a paragraph.
use alib_fetcher.Base.{
  ◌≡◌, refl, ◌⊎◌, inl, inr, [], ◌∷◌, Text, Option, none, some, Bool, true, false, not, ◌&&◌, ◌||◌,
  is_empty, is_none, has_text, Bool-cases, Outcome, done, refused, arith,
}
use alib_fetcher.Html.{Node}
use alib_fetcher.Alib.Book.{Book}
use alib_fetcher.Alib.Listings.{Listing, not_candidate, parsed, broken, unidentified}
use alib_fetcher.Alib.Parser.Texts.{normalized_text, price_label}
use alib_fetcher.Alib.Parser.Listing.{
  ListingProblem, Parsing, buy_url_of, parse_book, counted, parse_listing,
}
use alib_fetcher.Alib.Parser.Listing.Chosen.{title_of, seller_of, buy_link_of, listing_nodes-chosen}
use alib_fetcher.Alib.Parser.Listing.Parsed.{address, IsBookOf, parse_book-IsBookOf}
use alib_fetcher.Alib.Parser.Listing.Placed.{IsWellPlaced, parse_book-parsed}

module _ (parsing : Parsing) where
  -- A title that stands where it must before this buy link.
  abbrev pub IsInOrder : Node → Node → Type 0
  IsInOrder paragraph buy =
      (title : Node) × (title_of paragraph ≡ some title)
      × IsWellPlaced paragraph title buy (seller_of paragraph)

  -- A paragraph with a buy link, or with a title and a price.
  abbrev pub IsCandidate : Node → Type 0
  IsCandidate paragraph =
      ((buy : Node) × (buy_link_of paragraph ≡ some buy))
      ⊎ (((title : Node) × (title_of paragraph ≡ some title))
          × (has_text (normalized_text paragraph) price_label ≡ true))

  -- What each outcome says.
  abbrev pub Says : Node → Listing → Type 0
  Says paragraph not_candidate =
      (buy_link_of paragraph ≡ none)
      × ((title_of paragraph ≡ none) ⊎ (has_text (normalized_text paragraph) price_label ≡ false))
  Says paragraph (parsed book) = IsBookOf parsing paragraph book
  Says paragraph (broken buy_url) =
      (buy : Node) × (buy_link_of paragraph ≡ some buy)
      × (buy_url ≡ address parsing buy)
      × (is_empty buy_url ≡ false)
      × ¬ IsInOrder paragraph buy
  Says paragraph unidentified =
      IsCandidate paragraph
      × ((buy : Node) → buy_link_of paragraph ≡ some buy → address parsing buy ≡ [])

  not_candidate-Says :
      (buy title : Option Node) (priced : Bool)
      → (not (is_none buy) || (not (is_none title) && priced)) ≡ false
      → (buy ≡ none) × ((title ≡ none) ⊎ (priced ≡ false))
  not_candidate-Says none none priced h = (refl, inl refl)
  not_candidate-Says none (some n) priced h = (refl, inr h)
  not_candidate-Says (some n) title priced h = cc h

  candidate-Says :
      (buy title : Option Node) (priced : Bool)
      → (not (is_none buy) || (not (is_none title) && priced)) ≡ true
      → ((n : Node) × (buy ≡ some n)) ⊎ (((n : Node) × (title ≡ some n)) × (priced ≡ true))
  candidate-Says (some n) title priced h = inl (n, refl)
  candidate-Says none (some n) priced h = inr ((n, refl), h)
  candidate-Says none none priced h = cc h

  is_empty-nil : (t : Text) → is_empty t ≡ true → t ≡ []
  is_empty-nil [] h = refl
  is_empty-nil (c ∷ cs) h = cc h

  -- A listing that is refused, by what its buy link is.
  refused-Says :
      (paragraph : Node) (problem : ListingProblem) (buy : Option Node)
      → buy_link_of paragraph ≡ buy
      → IsCandidate paragraph
      → parse_book parsing paragraph ≡ refused problem
      → Says paragraph (counted parsing (buy_url_of parsing buy) (refused problem))
  refused-Says paragraph problem none bought candidate h = (candidate, λ buy e. cc (bought, e))
  refused-Says paragraph problem (some buy) bought candidate h =
      elim (Bool-cases (is_empty (address parsing buy))) [
        | inl blank ↦
            rw blank (
              candidate,
              λ n e. is_empty-nil (address parsing n) (ground (arith, blank, bought, e)),
            )
        | inr given ↦ rw given (
          buy,
          bought,
          refl,
          given,
          λ (title, titled, placed).
              let (book, read) =
                parse_book-parsed parsing paragraph title buy titled bought given placed in
              cc (read, h),
        )
      ]

  counted-Says :
      (paragraph : Node) (result : Outcome ListingProblem Book)
      → IsCandidate paragraph
      → parse_book parsing paragraph ≡ result
      → Says paragraph (counted parsing (buy_url_of parsing (buy_link_of paragraph)) result)
  counted-Says paragraph (done book) candidate h = parse_book-IsBookOf parsing paragraph book h
  counted-Says paragraph (refused problem) candidate h =
      refused-Says paragraph problem (buy_link_of paragraph) refl candidate h

  -- Every paragraph is one of four things. It is no listing if it has no buy link, and no title or no
  -- price. It is a book if its buy link leads anywhere and it has a title, both stand in the lines of
  -- the listing, the title first, and the seller, where it stands there, between them: then the book
  -- has the text of the first title, the address of the last buy link as its key, a year that is zero
  -- or has four digits, and the photos that are linked. If its buy link leads anywhere and it is no
  -- book, it is a broken listing, known by that address, and else one that nothing identifies.
  pub parse_listing-Says : (paragraph : Node) → Says paragraph (parse_listing parsing paragraph)
  unfolding parse_listing
  parse_listing-Says paragraph =
      let buy : Option Node = buy_link_of paragraph in
      let title : Option Node = title_of paragraph in
      let priced : Bool = has_text (normalized_text paragraph) price_label in
      elim (Bool-cases (not (is_none buy) || (not (is_none title) && priced))) [
        | inl candidate ↦
            rw (listing_nodes-chosen paragraph, candidate)
              (counted-Says paragraph (parse_book parsing paragraph)
                (candidate-Says buy title priced candidate) refl)
        | inr other ↦
            rw (listing_nodes-chosen paragraph, other) (not_candidate-Says buy title priced other)
      ]
