-- ===== src/Alib/Parser/Listing.antt =====
-- internal/alib/parser.go: `parseListing` and `parseBook`.
pub mod Chosen
pub mod Placed
pub mod Parsed
pub mod Read
use alib_fetcher.Base.{
  ℕ, ℤ, pos, List, [], ◌∷◌, ◌++◌, Text, text, Option, none, some, Bool, true, false, not, ◌&&◌,
  ◌||◌, ◌==◌, if◌then◌else◌, text_eq, is_empty, is_none, has_text, Outcome, done, refused, require,
  ◌>>=◌, ◌>>◌,
}
use alib_fetcher.Html.{Node}
use alib_fetcher.Alib.Book.{Book, Photo}
use alib_fetcher.Alib.Listings.{Listing, not_candidate, parsed, broken, unidentified}
use alib_fetcher.Alib.Parser.Texts.{
  is_element, normalized_text, href, descendants, buy_text, price_label, is_photo_link, resolve_url,
}
use alib_fetcher.Alib.Parser.Lines.{
  Line, ListingPosition, logical_lines, find_node, position_before,
}
use alib_fetcher.Alib.Parser.Year.{parse_publication_year}
use alib_fetcher.Alib.Parser.Sale.{
  Seller, line_at, parse_bibliography, parse_price, parse_seller, parse_description,
}

-- `titleNode`, `sellerNode` and `buyNode`.
pub record ListingNodes : Type 0 where
  pub title : Option Node
  pub seller : Option Node
  pub buy : Option Node

abbrev pub note_title : Node → ListingNodes → ListingNodes
note_title n found =
    if is_none found.title && not (text_eq (normalized_text n) buy_text)
    then record found { title = some n }
    else found

abbrev pub note_link : Node → ListingNodes → ListingNodes
note_link n found =
    let bought =
      if text_eq (normalized_text n) buy_text then record found { buy = some n } else found in
    if is_none found.seller && has_text (href n) (text "bs.php4")
    then record bought { seller = some n }
    else bought

unfoldable pub note_node : Node → ListingNodes → ListingNodes
note_node n found =
    if is_element (text "b") n
    then note_title n found
    else if is_element (text "a") n
    then note_link n found
    else found

unfoldable pub note_nodes : List Node → ListingNodes → ListingNodes
note_nodes [] found = found
note_nodes (n ∷ ns) found = note_nodes ns (note_node n found)

unfoldable pub listing_nodes : Node → ListingNodes
listing_nodes n = note_nodes (descendants n) (record { title = none; seller = none; buy = none })

pub data ListingProblem : Type 0 where
  missing_title missing_buy_link missing_buy_url nested_link buy_before_title : ListingProblem
  seller_out_of_place : ListingProblem

abbrev pub or_problem : {A : Type 0} → ListingProblem → Option A → Outcome ListingProblem A
or_problem problem none = refused problem
or_problem problem (some a) = done a

abbrev pub placed_seller : Option Node → Option ListingPosition → Seller
placed_seller (some n) (some position) = some (n, position)
placed_seller (some n) none = none
placed_seller none position = none

abbrev pub seller_in_place : ListingPosition → Seller → ListingPosition → Bool
seller_in_place title none buy = true
seller_in_place title (some (n, position)) buy =
    position_before title position && position_before position buy

-- The library functions that the parser calls.
pub record Parsing : Type 0 where
  pub resolve_reference : Text → Option Text
  pub is_letter : ℕ → Bool
  pub is_number : ℕ → Bool

abbrev pub caption_of : Text → Text
caption_of caption = if is_empty caption then text "фото" else caption

module _ (parsing : Parsing) where
  unfoldable pub photos_in : List Node → List Photo
  photos_in [] = []
  photos_in (n ∷ ns) =
      let url = resolve_url parsing.resolve_reference (href n) in
      let rest = photos_in ns in
      if is_photo_link (some n) && not (is_empty url)
      then record { url = url; caption = caption_of (normalized_text n) } ∷ rest
      else rest

  abbrev pub buy_url_of : Option Node → Text
  buy_url_of none = []
  buy_url_of (some n) = resolve_url parsing.resolve_reference (href n)

  -- The book of a listing whose links have been found in its lines.
  unfoldable pub read_book :
      Node → Node → Text → List Line → ListingPosition → ListingPosition → Seller → Book
  read_book paragraph title_node buy_url lines title buy seller =
      let bibliography = parse_bibliography lines title buy seller in
      let (content, condition) = parse_description lines buy in
      let (name, address, location) = parse_seller parsing.resolve_reference lines buy seller in
      record {
        title = normalized_text title_node;
        bibliography = bibliography;
        content = content;
        seller = name;
        seller_url = address;
        location = location;
        price = parse_price (line_at lines buy.line) buy.part;
        condition = condition;
        buy_url = buy_url;
        photos = photos_in (descendants paragraph);
        publication_year =
            pos (parse_publication_year parsing.is_letter parsing.is_number bibliography);
      }

  unfoldable pub parse_found : Node → Node → Node → Option Node → Outcome ListingProblem Book
  parse_found paragraph title_node buy_node seller_node = do
    let buy_url = buy_url_of (some buy_node)
    require (not (is_empty buy_url)) missing_buy_url
    let lines = logical_lines paragraph title_node
    title ← or_problem nested_link (find_node lines (some title_node))
    buy ← or_problem nested_link (find_node lines (some buy_node))
    let seller = placed_seller seller_node (find_node lines seller_node)
    require (position_before title buy) buy_before_title
    require (seller_in_place title seller buy) seller_out_of_place
    done (read_book paragraph title_node buy_url lines title buy seller)

  unfoldable pub parse_book : Node → Outcome ListingProblem Book
  parse_book paragraph = do
    let found = listing_nodes paragraph
    title_node ← or_problem missing_title found.title
    buy_node ← or_problem missing_buy_link found.buy
    parse_found paragraph title_node buy_node found.seller

  abbrev pub is_candidate : Node → ListingNodes → Bool
  is_candidate paragraph found =
      not (is_none found.buy)
      || (not (is_none found.title) && has_text (normalized_text paragraph) price_label)

  -- How a listing counts that does not parse: by the URL that was read of it.
  abbrev pub counted : Text → Outcome ListingProblem Book → Listing
  counted buy_url (done book) = parsed book
  counted buy_url (refused problem) = if is_empty buy_url then unidentified else broken buy_url

  unfoldable pub parse_listing : Node → Listing
  parse_listing paragraph =
      let found = listing_nodes paragraph in
      if is_candidate paragraph found
      then counted (buy_url_of found.buy) (parse_book paragraph)
      else not_candidate

  -- The outcomes of the paragraphs of a document, which `ParseWithResult` adds up.
  unfoldable pub listings_in : List Node → List Listing
  listings_in [] = []
  listings_in (n ∷ ns) =
      let rest = listings_in ns in if is_element (text "p") n then parse_listing n ∷ rest else rest

  unfoldable pub document_listings : Node → List Listing
  document_listings document = listings_in (descendants document)
