-- ===== src/Alib/Parser/Sale.antt =====
-- internal/alib/parser.go: the parts of a listing between and behind its links.
use alib_fetcher.Base.{
  ℕ, zero, suc, ◌+◌, List, [], ◌∷◌, ◌++◌, Text, Option, none, some, Bool, true, false, ◌||◌, ◌==◌,
  ltb, leb, if◌then◌else◌, is_empty, take, drop, length, join, trim_space, before_text, cut_text,
  cut_last, trim_prefix,
}
use alib_fetcher.Html.{Node}
use alib_fetcher.Alib.Parser.Texts.{
  price_label, photo_label, seller_prefix, normalized, normalized_text, href, is_photo_link,
  clean_location, trim_seller_preamble, split_condition, resolve_url,
}
use alib_fetcher.Alib.Parser.Lines.{Line, ListingPosition}

abbrev texts_in : Line → Text
texts_in [] = []
texts_in (part ∷ parts) = part.part_text ++ texts_in parts

unfoldable pub normalized_parts : Line → Text
normalized_parts parts = normalized (texts_in parts)

-- `line[start:end]`
abbrev pub slice : ℕ → ℕ → Line → Line
slice start end line = drop start (take end line)

-- A seller link that was found, with its place.
abbrev pub Seller : Type 0
Seller = Option (Node × ListingPosition)

abbrev pub seller_on : Seller → ℕ → Bool
seller_on none line = false
seller_on (some (n, position)) line = line == position.line

abbrev pub sale_line_of : Seller → ListingPosition → ℕ
sale_line_of none buy = buy.line
sale_line_of (some (n, position)) buy =
    if ltb position.line buy.line then position.line else buy.line

abbrev sale_end : Seller → ListingPosition → ℕ → ℕ
sale_end none buy sale_line = buy.part
sale_end (some (n, position)) buy sale_line =
    if position.line == sale_line then position.part else buy.part

abbrev pub add_nonempty : Text → List Text → List Text
add_nonempty line rest = if is_empty line then rest else line ∷ rest

module _ (title buy : ListingPosition) (seller : Seller) where
  -- What one line gives, if it lies between the title and the sale.
  unfoldable pub bibliography_line : ℕ → Line → Text
  bibliography_line index line =
      let sale_line = sale_line_of seller buy in
      let start = if index == title.line then title.part + 1 else 0 in
      let end = if index == sale_line then sale_end seller buy sale_line else length line in
      let whole = normalized_parts (slice start end line) in
      let own = if seller_on seller index then trim_seller_preamble whole else whole in
      let cut = if index == sale_line then before_text own price_label else own in
      if ltb index title.line || ltb sale_line index || leb end start then [] else trim_space cut

  unfoldable pub bibliography_lines : ℕ → List Line → List Text
  bibliography_lines index [] = []
  bibliography_lines index (line ∷ lines) =
      add_nonempty (bibliography_line index line) (bibliography_lines (suc index) lines)

unfoldable pub parse_bibliography : List Line → ListingPosition → ListingPosition → Seller → Text
parse_bibliography lines title buy seller =
    join (bibliography_lines title buy seller 0 lines) (10 ∷ [])

abbrev pub line_at : List Line → ℕ → Line
line_at [] index = []
line_at (line ∷ lines) zero = line
line_at (line ∷ lines) (suc index) = line_at lines index

unfoldable pub parse_price : Line → ℕ → Text
parse_price line buy_part = elim (cut_last (normalized_parts (take buy_part line)) price_label) [
  | none ↦ []
  | some (before, after) ↦ trim_space after
]

module _ (resolve_reference : Text → Option Text) where
  abbrev location_of : List Line → ListingPosition → ListingPosition → Text
  location_of lines position buy =
      let line = line_at lines position.line in
      let end = if position.line == buy.line then buy.part else length line in
      before_text (normalized_parts (slice (position.part + 1) end line)) price_label

  -- The seller, the address of the seller, and the place.
  unfoldable pub parse_seller : List Line → ListingPosition → Seller → Text × Text × Text
  parse_seller lines buy none = ([], [], [])
  parse_seller lines buy (some (n, position)) = (
    trim_prefix (normalized_text n) seller_prefix,
    resolve_url resolve_reference (href n),
    clean_location (location_of lines position buy),
  )

-- The parts before the first link to a photo, and whether there is one.
unfoldable pub before_photo : Line → Line × Bool
before_photo [] = ([], false)
before_photo (part ∷ parts) =
    let (rest, found) = before_photo parts in
    if is_photo_link part.part_node then ([], true) else (part ∷ rest, found)

unfoldable pub parse_description_line : Line → Text × Bool
parse_description_line parts =
    let (kept, found) = before_photo parts in
    elim (cut_text (normalized_parts kept) photo_label) [
      | none ↦ (trim_space (normalized_parts kept), found)
      | some (before, after) ↦ (trim_space before, true)
    ]

-- `contentLines` and `conditionLines`, with `conditionFound`.
pub record Description : Type 0 where
  pub content_lines : List Text
  pub condition_lines : List Text
  pub condition_found : Bool

abbrev add_condition : Text → Description → Description
add_condition line d = record d { condition_lines = d.condition_lines ++ line ∷ [] }

abbrev add_content : Text → Description → Description
add_content line d = record d { content_lines = d.content_lines ++ line ∷ [] }

abbrev pub add_split : Text → Option (Text × Text) → Description → Description
add_split line none d = add_content line d
add_split line (some (before, condition)) d =
    let with_before = if is_empty before then d else add_content before d in
    record (add_condition condition with_before) { condition_found = true }

unfoldable pub add_description_line : Text → Description → Description
add_description_line line d =
    if is_empty line
    then d
    else if d.condition_found
    then add_condition line d
    else add_split line (split_condition line) d

-- The loop ends behind the line on which the photos begin.
unfoldable pub description_lines : List Line → Description → Description
description_lines [] d = d
description_lines (line ∷ lines) d =
    let (value, photos_begin) = parse_description_line line in
    let last = add_description_line value d in
    let rest = description_lines lines (add_description_line value d) in
    if photos_begin then last else rest

abbrev from_part : ℕ → List Line → List Line
from_part start [] = []
from_part start (line ∷ lines) = drop start line ∷ lines

unfoldable pub parse_description : List Line → ListingPosition → Text × Text
parse_description lines buy =
    let d =
      description_lines (from_part (buy.part + 1) (drop buy.line lines))
        (record { content_lines = []; condition_lines = []; condition_found = false }) in
    (join d.content_lines (10 ∷ []), join d.condition_lines (10 ∷ []))
