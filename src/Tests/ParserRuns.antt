-- ===== src/Tests/ParserRuns.antt =====
-- Listings and old records, and the theorems on how they are read at concrete inputs.
use alib_fetcher.Base.{
  ℕ, ◌+◌, ◌≡◌, ◌⊎◌, refl, pos, [], ◌∷◌, ◌++◌, Text, text, none, some, Bool, true, false, ◌&&◌, leb,
  text_eq, any, join, fields, fields_from, trim, trim_space, drop_while, is_space, has_text,
  has_prefix, cut_text, cut_last, trim_prefix, digits_value,
}
use alib_fetcher.Html.{Node, node, nil, cons, text_node, element_node}
use alib_fetcher.Alib.Book.{Book}
use alib_fetcher.Alib.Listings.{parsed}
use alib_fetcher.Alib.Parser.Texts.{
  children_of, descendants, text_parts, text_content, normalized, normalized_text, attribute_in,
  attribute, href, is_photo_link, clean_location, trim_seller_preamble, split_condition,
  resolve_url,
}
use alib_fetcher.Alib.Parser.Lines.{
  visit, logical_lines, find_in_line, find_in_lines, find_node, position_before,
}
use alib_fetcher.Alib.Parser.Lines.Kept.{
  text_of_lines, is_page_tree, are_page_trees, logical_lines-text,
}
use alib_fetcher.Alib.Parser.Year.{
  span_digits, has_year_suffix, last_year_from, parse_publication_year,
}
use alib_fetcher.Alib.Parser.Year.Candidates.{last_of, years_in, parse_publication_year-last}
use alib_fetcher.Alib.Parser.Sale.{
  normalized_parts, bibliography_line, bibliography_lines, parse_bibliography, parse_price,
  parse_seller, before_photo, parse_description_line, add_description_line, description_lines,
  parse_description,
}
use alib_fetcher.Alib.Parser.Listing.{
  note_node, note_nodes, listing_nodes, Parsing, photos_in, read_book, parse_found, parse_book,
  parse_listing,
}
use alib_fetcher.Alib.Parser.Listing.Read.{Says, parse_listing-Says}
use alib_fetcher.Alib.Legacy.{
  Decoded, legacy_photos, legacy_bibliography, legacy_sale_details, legacy_description,
  convert_legacy_fragments, unmarshal_json,
}
use alib_fetcher.Alib.Legacy.Kept.{
  is_legacy, SameIdentity, IsDated, PhotosOf, Unchanged, written, unmarshal_json-kept,
}

-- The small letters of the Russian alphabet.
abbrev letter : ℕ → Bool
letter c = leb 0x430 c && leb c 0x44f

abbrev digit : ℕ → Bool
digit c = leb 48 c && leb c 57

-- The first number has five digits, the third is no year.
abbrev bibliography : Text
bibliography = text "М., 12024 г. Изд. 1958г., тираж 1500 гн, 1961 гг. 240 с."

year_read : parse_publication_year letter digit bibliography ≡ 1961
unfolding parse_publication_year last_year_from span_digits has_year_suffix drop_while is_space
    digits_value
year_read = refl

parse_publication_year-last_example :
    parse_publication_year letter digit bibliography
    ≡ last_of 0 (years_in letter digit false bibliography)
parse_publication_year-last_example = parse_publication_year-last letter digit bibliography

abbrev leaf_text : ℕ → Text → Node
leaf_text identity content = node identity text_node content [] nil

abbrev link : ℕ → Text → Text → Node
link identity address content =
    node identity element_node (text "a") ((text "href", address) ∷ [])
      (cons (leaf_text (identity + 100) content) nil)

abbrev title_node : Node
title_node = node 2 element_node (text "b") [] (cons (leaf_text 3 (text "Alphabet")) nil)

abbrev paragraph : Node
paragraph = node 1 element_node (text "p") [] (
    cons title_node (
      cons (leaf_text 4 (text " Moscow, 1958 г. (продавца:")) (
        cons (link 5 (text "/bs.php4?bs=a") (text "BS - ann")) (
          cons (leaf_text 6 (text ", Tver.) Цена: 100 ")) (
            cons (link 7 (text "/buy/1") (text "Купить")) (
              cons (node 8 element_node (text "br") [] nil)
                (cons (leaf_text 9 (text "Rare. Состояние: fine")) nil)))))))

page_tree : are_page_trees title_node (children_of paragraph) ≡ true
unfolding is_page_tree text_eq
page_tree = refl

logical_lines-text_example :
    text_of_lines (logical_lines paragraph title_node) ≡ text_content paragraph
logical_lines-text_example = logical_lines-text paragraph title_node page_tree

abbrev parsing : Parsing
parsing = record {
  resolve_reference = λ raw. some (text "https://www.alib.ru" ++ raw);
  is_letter = letter;
  is_number = digit;
}

abbrev book : Book
book = record {
  title = text "Alphabet";
  bibliography = text "Moscow, 1958 г.";
  content = text "Rare.";
  seller = text "ann";
  seller_url = text "https://www.alib.ru/bs.php4?bs=a";
  location = text "Tver";
  price = text "100";
  condition = text "Состояние: fine";
  buy_url = text "https://www.alib.ru/buy/1";
  photos = [];
  publication_year = pos 1958;
}

listing_read : parse_listing parsing paragraph ≡ parsed book
unfolding parse_listing parse_book parse_found read_book photos_in listing_nodes note_nodes
    note_node parse_description description_lines add_description_line parse_description_line
    before_photo parse_seller parse_price parse_bibliography bibliography_lines bibliography_line
    normalized_parts parse_publication_year last_year_from span_digits has_year_suffix drop_while
    is_space digits_value find_node find_in_lines find_in_line position_before logical_lines visit
    resolve_url split_condition trim_seller_preamble clean_location is_photo_link href attribute
    attribute_in normalized_text normalized text_content text_parts descendants text_eq any join
    fields fields_from trim trim_space has_text has_prefix cut_text cut_last trim_prefix
listing_read = refl

parse_listing-Says_example : Says parsing paragraph (parse_listing parsing paragraph)
parse_listing-Says_example = parse_listing-Says parsing paragraph

-- A record of an older version.
abbrev old_record : Decoded
old_record = record {
  semantic = record book {
    bibliography = [];
    content = [];
    seller = text "BS - ann";
    location = [];
    price = [];
    condition = [];
    publication_year = pos 0;
  };
  photo_urls = none;
  text_before_seller = some (text "Moscow, 1958 г. (продавца:");
  text_before_buy = some (text ", Tver.) Цена: 100 ");
  text_after_buy = some (text "Rare. Состояние: fine");
}

old_record_read : unmarshal_json letter digit old_record ≡ book
unfolding unmarshal_json convert_legacy_fragments legacy_description legacy_sale_details
    legacy_bibliography legacy_photos parse_publication_year last_year_from span_digits
    has_year_suffix drop_while is_space digits_value trim_seller_preamble clean_location any trim
    trim_space has_prefix cut_text cut_last trim_prefix
old_record_read = refl

unmarshal_json-kept_example :
    let read = unmarshal_json letter digit old_record in
    SameIdentity read old_record.semantic
    × PhotosOf letter digit old_record read.photos
    × (((is_legacy old_record ≡ true) × IsDated letter digit read)
        ⊎ Unchanged letter digit read old_record)
    × (unmarshal_json letter digit (written letter digit read) ≡ read)
unmarshal_json-kept_example = unmarshal_json-kept letter digit old_record
