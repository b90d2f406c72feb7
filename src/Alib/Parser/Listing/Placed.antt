-- ===== src/Alib/Parser/Listing/Placed.antt =====
-- internal/alib/parser.go: the title and the links of a listing stand in their order.
use alib_fetcher.Base.{
  ◌<◌, ◌≡◌, refl, ◌⊎◌, inl, inr, List, Option, none, some, Option-cases, true, false, is_empty,
  arith, done,
}
use alib_fetcher.Html.{Node}
use alib_fetcher.Alib.Book.{Book}
use alib_fetcher.Alib.Parser.Lines.{
  Line, ListingPosition, logical_lines, find_node, position_before,
}
use alib_fetcher.Alib.Parser.Lines.Found.{StandsAt, find_node_iff}
use alib_fetcher.Alib.Parser.Listing.{
  placed_seller, seller_in_place, Parsing, buy_url_of, read_book, parse_found, parse_book,
}
use alib_fetcher.Alib.Parser.Listing.Chosen.{title_of, seller_of, buy_link_of, listing_nodes-chosen}

-- On an earlier line, or earlier on the same one.
abbrev pub Precedes : ListingPosition → ListingPosition → Type 0
Precedes left right =
    (left.line < right.line) ⊎ ((left.line ≡ right.line) × (left.part < right.part))

pub position_before-Precedes :
    (left right : ListingPosition) → position_before left right ≡ true → Precedes left right
unfolding position_before
position_before-Precedes left right h = ground arith

Precedes-position_before :
    (left right : ListingPosition) → Precedes left right → position_before left right ≡ true
unfolding position_before
Precedes-position_before left right h = ground arith

-- Where a node stands in the lines of a paragraph with this title.
abbrev pub IsAt : Node → Node → Node → ListingPosition → Type 0
IsAt paragraph title n at = StandsAt n at.line at.part (logical_lines paragraph title)

-- The title and the buy link stand in the lines, the title first, and the seller, if it stands there,
-- between them.
pub record IsWellPlaced (paragraph title buy : Node) (seller : Option Node) : Type 0 where
  pub title_at : ListingPosition
  pub buy_at : ListingPosition
  pub title_found : IsAt paragraph title title title_at
  pub buy_found : IsAt paragraph title buy buy_at
  pub ordered : Precedes title_at buy_at
  pub between :
      (n : Node) (at : ListingPosition)
      → seller ≡ some n
      → IsAt paragraph title n at
      → Precedes title_at at × Precedes at buy_at

pub seller_in_place-between :
    (lines : List Line) (title buy : ListingPosition) (seller : Option Node)
    → seller_in_place title (placed_seller seller (find_node lines seller)) buy ≡ true
    → (n : Node) (at : ListingPosition) → seller ≡ some n
    → StandsAt n at.line at.part lines
    → Precedes title at × Precedes at buy
seller_in_place-between lines title buy seller h n at e stands =
    let both = rw (e, (find_node_iff n at lines).1 stands) at h in
    (
      position_before-Precedes title at (ground (arith, both)),
      position_before-Precedes at buy (ground (arith, both)),
    )

between-seller_in_place :
    (lines : List Line) (title buy : ListingPosition) (seller : Option Node)
    → ((n : Node) (at : ListingPosition)
        → seller ≡ some n
        → StandsAt n at.line at.part lines
        → Precedes title at × Precedes at buy)
    → seller_in_place title (placed_seller seller (find_node lines seller)) buy ≡ true
between-seller_in_place lines title buy none h = refl
between-seller_in_place lines title buy (some n) h =
    elim (Option-cases (find_node lines (some n))) [
      | inl missing ↦ rw missing refl
      | inr (at, found) ↦
          let (after, before) = h n at refl ((find_node_iff n at lines).0 found) in
          rw
            (found, Precedes-position_before title at after, Precedes-position_before at buy before)
            refl
    ]

module _ (parsing : Parsing) where
  -- What stands in its order is parsed.
  pub parse_book-parsed :
      (paragraph title buy : Node)
      → title_of paragraph ≡ some title
      → buy_link_of paragraph ≡ some buy
      → is_empty (buy_url_of parsing (some buy)) ≡ false
      → IsWellPlaced paragraph title buy (seller_of paragraph)
      → (book : Book) × (parse_book parsing paragraph ≡ done book)
  unfolding parse_book parse_found
  parse_book-parsed paragraph title buy titled bought given placed =
      let between =
        between-seller_in_place (logical_lines paragraph title) placed.title_at placed.buy_at
          (seller_of paragraph) placed.between in
      let lines : List Line = logical_lines paragraph title in
      let seller = placed_seller (seller_of paragraph) (find_node lines (seller_of paragraph)) in
      (
        read_book parsing paragraph title (buy_url_of parsing (some buy)) lines placed.title_at
            placed.buy_at seller,
        rw
            (
              listing_nodes-chosen paragraph,
              titled,
              bought,
              given,
              (find_node_iff title placed.title_at lines).1 placed.title_found,
              (find_node_iff buy placed.buy_at lines).1 placed.buy_found,
              Precedes-position_before placed.title_at placed.buy_at placed.ordered,
              between,
            )
            refl,
      )
