-- ===== src/Alib/Legacy.antt =====
-- internal/alib/book.go: `UnmarshalJSON`, which converts the records of older versions. The parser of
-- encoding/json hands out the fields.
pub mod Kept
use alib_fetcher.Base.{
  ℕ, ℤ, pos, List, [], ◌∷◌, ◌++◌, Text, text, Option, none, some, Bool, true, false, not, ◌&&◌,
  ◌||◌, if◌then◌else◌, is_empty, is_none, trim_space, before_text, cut_text, trim_prefix,
}
use alib_fetcher.Alib.Book.{Book, Photo}
use alib_fetcher.Alib.Parser.Texts.{
  price_label, condition_label, seller_prefix, clean_location, trim_seller_preamble,
}
use alib_fetcher.Alib.Parser.Year.{parse_publication_year}

-- The semantic fields, and those of older versions.
pub record Decoded : Type 0 where
  pub semantic : Book
  pub photo_urls : Option (List Text)
  pub text_before_seller : Option Text
  pub text_before_buy : Option Text
  pub text_after_buy : Option Text

unfoldable pub legacy_photos : List Text → List Photo
legacy_photos [] = []
legacy_photos (url ∷ urls) = record { url = url; caption = text "фото" } ∷ legacy_photos urls

abbrev pub legacy_string : Option Text → Text
legacy_string none = []
legacy_string (some value) = value

unfoldable pub legacy_bibliography : Text → Bool → Text
legacy_bibliography value has_seller =
    if has_seller then trim_seller_preamble value else trim_space (before_text value price_label)

abbrev pub sale_parts : Bool → Text → Option (Text × Text) → Text × Text
sale_parts has_seller sale_text none =
    (if has_seller then clean_location sale_text else [], trim_space [])
sale_parts has_seller sale_text (some (before_price, price)) =
    (if has_seller then clean_location before_price else [], trim_space price)

-- The location and the price.
unfoldable pub legacy_sale_details : Text → Text → Bool → Text × Text
legacy_sale_details before_seller before_buy has_seller =
    let sale_text = if has_seller then before_buy else before_seller in
    sale_parts has_seller sale_text (cut_text sale_text price_label)

abbrev pub description_parts : Text → Option (Text × Text) → Text × Text
description_parts value none = (value, [])
description_parts value (some (content, condition)) =
    (trim_space content, trim_space (condition_label ++ condition))

unfoldable pub legacy_description : Text → Text × Text
legacy_description value =
    description_parts (trim_space value) (cut_text (trim_space value) condition_label)

abbrev pub with_photos : Book → Option (List Text) → Book
with_photos book none = book
with_photos book (some urls) = record book { photos = legacy_photos urls }

abbrev pub no_photos : List Photo → Bool
no_photos [] = true
no_photos (photo ∷ photos) = false

module _ (is_letter is_number : ℕ → Bool) where
  unfoldable pub convert_legacy_fragments : Book → Text → Text → Text → Book
  convert_legacy_fragments book before_seller before_buy after_buy =
      let has_seller = not (is_empty book.seller) || not (is_empty book.seller_url) in
      let bibliography = legacy_bibliography before_seller has_seller in
      let (location, price) = legacy_sale_details before_seller before_buy has_seller in
      let (content, condition) = legacy_description after_buy in
      record book {
        bibliography = bibliography;
        publication_year = pos (parse_publication_year is_letter is_number bibliography);
        seller = trim_prefix book.seller seller_prefix;
        location = location;
        price = price;
        content = content;
        condition = condition;
      }

  unfoldable pub unmarshal_json : Decoded → Book
  unmarshal_json decoded =
      let book =
        if no_photos decoded.semantic.photos
        then with_photos decoded.semantic decoded.photo_urls
        else decoded.semantic in
      if is_none decoded.text_before_seller
        && is_none decoded.text_before_buy
        && is_none decoded.text_after_buy
      then book
      else convert_legacy_fragments book (legacy_string decoded.text_before_seller)
          (legacy_string decoded.text_before_buy) (legacy_string decoded.text_after_buy)
