-- ===== src/Alib/Parser/Listing/Parsed.antt =====
-- internal/alib/parser.go: what `parseBook` reads of a paragraph.
use alib_fetcher.Base.{
  ℕ, pos, ◌≡◌, refl, ap, subst, inl, inr, List, [], ◌∷◌, map, keep, Text, text, Option, none, some,
  Bool, false, not, ◌&&◌, is_empty, has_text, if◌then◌else◌, Bool-cases, done, >>=-eq-done,
  done-injective, require-eq-done, arith,
}
use alib_fetcher.Html.{Node}
use alib_fetcher.Alib.Book.{Book, Photo}
use alib_fetcher.Alib.Parser.Texts.{
  normalized_text, href, descendants, is_element, is_photo_link, resolve_url,
}
use alib_fetcher.Alib.Parser.Lines.{
  Line, ListingPosition, logical_lines, find_node, position_before,
}
use alib_fetcher.Alib.Parser.Lines.Found.{find_node_iff}
use alib_fetcher.Alib.Parser.Year.Bounds.{IsYear, parse_publication_year-IsYear}
use alib_fetcher.Alib.Parser.Sale.{Seller}
use alib_fetcher.Alib.Parser.Listing.{
  ListingProblem, missing_title, missing_buy_link, missing_buy_url, nested_link, buy_before_title,
  seller_out_of_place, or_problem, placed_seller, seller_in_place, Parsing, photos_in, read_book,
  parse_found, parse_book,
}
use alib_fetcher.Alib.Parser.Listing.Chosen.{title_of, seller_of, buy_link_of, listing_nodes-chosen}
use alib_fetcher.Alib.Parser.Listing.Placed.{
  IsWellPlaced, position_before-Precedes, seller_in_place-between,
}

module _ (parsing : Parsing) where
  -- Where a link of the page leads.
  abbrev pub address : Node → Text
  address n = resolve_url parsing.resolve_reference (href n)

  -- The links to photos are those to a page of this name that lead anywhere.
  abbrev pub is_photo : Node → Bool
  is_photo n =
      (is_element (text "a") n && has_text (href n) (text "foto.php4"))
      && not (is_empty (address n))

  abbrev pub photo_of : Node → Photo
  photo_of n = record {
    url = address n;
    caption = if is_empty (normalized_text n) then text "фото" else normalized_text n;
  }

  photos_in-photo_of : (ns : List Node) → photos_in parsing ns ≡ map photo_of (keep is_photo ns)
  unfolding photos_in keep is_photo_link
  photos_in-photo_of [] = refl
  photos_in-photo_of (n ∷ ns) = elim (Bool-cases (is_photo n)) [
    | inl photo ↦ rw photo (ap (λ photos. photo_of n ∷ photos) (photos_in-photo_of ns))
    | inr passed ↦ rw passed (photos_in-photo_of ns)
  ]

  -- A book that is read of a paragraph: its key is the address of the buy link.
  pub record IsBookOf (paragraph : Node) (book : Book) : Type 0 where
    pub title_node : Node
    pub buy_node : Node
    pub titled : title_of paragraph ≡ some title_node
    pub bought : buy_link_of paragraph ≡ some buy_node
    pub placed : IsWellPlaced paragraph title_node buy_node (seller_of paragraph)
    pub title : book.title ≡ normalized_text title_node
    pub key : (book.buy_url ≡ address buy_node) × (is_empty book.buy_url ≡ false)
    pub year : (n : ℕ) × (book.publication_year ≡ pos n) × IsYear n
    pub photos : book.photos ≡ map photo_of (keep is_photo (descendants paragraph))

  or_problem-done :
      {A : Type 0} (problem : ListingProblem) (o : Option A) (a : A)
      → or_problem problem o ≡ done a
      → o ≡ some a
  or_problem-done problem none a h = cc h
  or_problem-done problem (some b) a h = ap some (done-injective h)

  read_book-IsBookOf :
      (paragraph title_node buy_node : Node) (lines : List Line) (title buy : ListingPosition)
      (seller : Seller)
      → title_of paragraph ≡ some title_node
      → buy_link_of paragraph ≡ some buy_node
      → is_empty (address buy_node) ≡ false
      → IsWellPlaced paragraph title_node buy_node (seller_of paragraph)
      → IsBookOf paragraph
          (read_book parsing paragraph title_node (address buy_node) lines title buy seller)
  unfolding read_book
  read_book-IsBookOf paragraph title_node buy_node lines title buy seller titled bought given
        placed =
      record {
        title_node = title_node;
        buy_node = buy_node;
        titled = titled;
        bought = bought;
        placed = placed;
        title = refl;
        key = (refl, given);
        year = (_, refl, parse_publication_year-IsYear parsing.is_letter parsing.is_number _);
        photos = photos_in-photo_of (descendants paragraph);
      }

  parse_found-IsBookOf :
      (paragraph title_node buy_node : Node) (book : Book)
      → title_of paragraph ≡ some title_node
      → buy_link_of paragraph ≡ some buy_node
      → parse_found parsing paragraph title_node buy_node (seller_of paragraph) ≡ done book
      → IsBookOf paragraph book
  unfolding parse_found
  parse_found-IsBookOf paragraph title_node buy_node book titled bought h =
      let url : Text = address buy_node in
      let lines : List Line = logical_lines paragraph title_node in
      let seller_node : Option Node = seller_of paragraph in
      let (given, h1) = require-eq-done (not (is_empty url)) missing_buy_url _ h in
      let (title, e2, h2) =
        >>=-eq-done (or_problem nested_link (find_node lines (some title_node))) _ h1 in
      let (buy, e3, h3) =
        >>=-eq-done (or_problem nested_link (find_node lines (some buy_node))) _ h2 in
      let seller : Seller = placed_seller seller_node (find_node lines seller_node) in
      let (ordered, h4) = require-eq-done (position_before title buy) buy_before_title _ h3 in
      let (between, h5) =
        require-eq-done (seller_in_place title seller buy) seller_out_of_place _ h4 in
      subst (IsBookOf paragraph) (done-injective h5) (
        read_book-IsBookOf paragraph title_node buy_node lines title buy seller titled bought
          (ground (arith, given))
          (record {
            title_at = title;
            buy_at = buy;
            title_found =
                (find_node_iff title_node title lines).0
                  (or_problem-done nested_link (find_node lines (some title_node)) title e2);
            buy_found =
                (find_node_iff buy_node buy lines).0
                  (or_problem-done nested_link (find_node lines (some buy_node)) buy e3);
            ordered = position_before-Precedes title buy ordered;
            between = seller_in_place-between lines title buy seller_node between;
          }))

  pub parse_book-IsBookOf :
      (paragraph : Node) (book : Book)
      → parse_book parsing paragraph ≡ done book
      → IsBookOf paragraph book
  unfolding parse_book
  parse_book-IsBookOf paragraph book h =
      let h0 = rw (listing_nodes-chosen paragraph) at h in
      let (title_node, e1, h1) = >>=-eq-done (or_problem missing_title (title_of paragraph)) _ h0 in
      let (buy_node, e2, h2) =
        >>=-eq-done (or_problem missing_buy_link (buy_link_of paragraph)) _ h1 in
      parse_found-IsBookOf paragraph title_node buy_node book
        (or_problem-done missing_title (title_of paragraph) title_node e1)
        (or_problem-done missing_buy_link (buy_link_of paragraph) buy_node e2) h2
