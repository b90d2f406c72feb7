-- ===== src/Alib/Parser/Lines.antt =====
-- internal/alib/parser.go: the lines of a listing, and where its links stand in them.
pub mod Found
pub mod Kept
use alib_fetcher.Base.{
  ℕ, suc, List, [], ◌∷◌, ◌++◌, Text, text, Option, none, some, Bool, true, false, not, ◌&&◌, ◌||◌,
  ◌==◌, ltb, if◌then◌else◌,
}
use alib_fetcher.Html.{Node, Nodes, node, nil, cons}
use alib_fetcher.Alib.Parser.Texts.{
  identity_of, content_of, is_element, is_text, text_content, normalized, normalized_text, href,
  descendants, buy_text, is_element_type,
}

pub record ListingPart : Type 0 where
  pub part_node : Option Node
  pub part_text : Text

abbrev pub Line : Type 0
Line = List ListingPart

-- `lines`, with its last one apart.
pub record Lines : Type 0 where
  pub closed : List Line
  pub current : Line

abbrev pub add_part : ListingPart → Lines → Lines
add_part part lines = record lines { current = lines.current ++ part ∷ [] }

abbrev pub add_break : Lines → Lines
add_break lines = record { closed = lines.closed ++ lines.current ∷ []; current = [] }

abbrev pub link_part : Node → ListingPart
link_part n = record { part_node = some n; part_text = text_content n }

abbrev pub text_part : Node → ListingPart
text_part n = record { part_node = none; part_text = content_of n }

-- `child == titleNode` or a link.
abbrev pub is_whole : Node → Node → Bool
is_whole title n = identity_of n == identity_of title || is_element (text "a") n

unfoldable mutual
  pub visit : Node → Nodes → Lines → Lines
  visit title nil lines = lines
  visit title (cons child children) lines = visit title children (visit_child title child lines)

  pub visit_child : Node → Node → Lines → Lines
  visit_child title (node identity node_type content attributes children) lines =
      let child = node identity node_type content attributes children in
      let deeper = visit title children lines in
      if is_element (text "br") child
      then add_break lines
      else if is_whole title child
      then add_part (link_part child) lines
      else if is_text child
      then add_part (text_part child) lines
      else deeper

abbrev pub all_lines : Lines → List Line
all_lines lines = lines.closed ++ lines.current ∷ []

unfoldable pub logical_lines : Node → Node → List Line
logical_lines (node identity node_type content attributes children) title =
    all_lines (visit title children (record { closed = []; current = [] }))

pub record ListingPosition : Type 0 where
  pub line : ℕ
  pub part : ℕ

abbrev pub is_node : Node → Option Node → Bool
is_node wanted none = false
is_node wanted (some n) = identity_of n == identity_of wanted

unfoldable pub find_in_line : Node → ℕ → Line → Option ℕ
find_in_line wanted index [] = none
find_in_line wanted index (part ∷ parts) =
    let rest = find_in_line wanted (suc index) parts in
    if is_node wanted part.part_node then some index else rest

unfoldable pub find_in_lines : Node → ℕ → List Line → Option ListingPosition
find_in_lines wanted index [] = none
find_in_lines wanted index (line ∷ lines) =
    let rest = find_in_lines wanted (suc index) lines in
    elim (find_in_line wanted 0 line) [
      | none ↦ rest
      | some part ↦ some (record { line = index; part = part })
    ]

unfoldable pub find_node : List Line → Option Node → Option ListingPosition
find_node lines none = none
find_node lines (some wanted) = find_in_lines wanted 0 lines

unfoldable pub position_before : ListingPosition → ListingPosition → Bool
position_before left right =
    ltb left.line right.line || (left.line == right.line && ltb left.part right.part)
