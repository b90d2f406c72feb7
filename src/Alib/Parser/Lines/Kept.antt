-- ===== src/Alib/Parser/Lines/Kept.antt =====
-- internal/alib/parser.go: `logicalLines` keeps the whole text of a listing, in order.
use mathlib.Core.List.{append_assoc, append-nil}
use alib_fetcher.Base.{
  none, ℕ, ◌≡◌, refl, sym, ap, ◌∙◌, inl, inr, List, [], ◌∷◌, ◌++◌, Text, text, Bool, true, false,
  not, ◌&&◌, ◌||◌, ◌==◌, text_eq, Bool-cases, arith,
}
use alib_fetcher.Html.{
  Node, Nodes, node, nil, cons, NodeType, text_node, element_node, document_node, other_node,
}
use alib_fetcher.Alib.Parser.Texts.{
  identity_of, content_of, children_of, is_element, is_text, is_element_type, is_text_type,
  descendants, descendants_in, text_parts, text_content,
}
use alib_fetcher.Alib.Parser.Lines.{
  ListingPart, Line, Lines, add_part, add_break, link_part, is_whole, visit, visit_child, all_lines,
  logical_lines,
}

abbrev pub text_of_line : Line → Text
text_of_line [] = []
text_of_line (part ∷ parts) = part.part_text ++ text_of_line parts

abbrev pub text_of_lines : List Line → Text
text_of_lines [] = []
text_of_lines (line ∷ lines) = text_of_line line ++ text_of_lines lines

abbrev pub is_leaf : Nodes → Bool
is_leaf nil = true
is_leaf (cons n ns) = false

-- A line break and a text have nothing below them, and a text is not the title.
unfoldable mutual
  pub is_page_tree : Node → Node → Bool
  is_page_tree title (node identity node_type content attributes children) =
      (not (is_text_type node_type) || (is_leaf children && not (identity == identity_of title)))
      && (not (is_element_type node_type && text_eq content (text "br")) || is_leaf children)
      && are_page_trees title children

  pub are_page_trees : Node → Nodes → Bool
  are_page_trees title nil = true
  are_page_trees title (cons child children) =
      is_page_tree title child && are_page_trees title children

text_parts-append : (a b : List Node) → text_parts (a ++ b) ≡ text_parts a ++ text_parts b
unfolding text_parts
text_parts-append [] b = refl
text_parts-append (n ∷ ns) b = elim (Bool-cases (is_text n)) [
  | inl is ↦ rw is (rw (text_parts-append ns b) (sym (append_assoc (content_of n) _ _)))
  | inr other ↦ rw other (text_parts-append ns b)
]

text_of_line-append : (a b : Line) → text_of_line (a ++ b) ≡ text_of_line a ++ text_of_line b
text_of_line-append [] b = refl
text_of_line-append (p ∷ ps) b =
    ap (λ rest. p.part_text ++ rest) (text_of_line-append ps b)
    ∙ sym (append_assoc p.part_text (text_of_line ps) (text_of_line b))

text_of_lines-append :
    (a b : List Line) → text_of_lines (a ++ b) ≡ text_of_lines a ++ text_of_lines b
text_of_lines-append [] b = refl
text_of_lines-append (l ∷ ls) b =
    ap (λ rest. text_of_line l ++ rest) (text_of_lines-append ls b)
    ∙ sym (append_assoc (text_of_line l) (text_of_lines ls) (text_of_lines b))

abbrev text_so_far : Lines → Text
text_so_far lines = text_of_lines lines.closed ++ text_of_line lines.current

all_lines-text : (lines : Lines) → text_of_lines (all_lines lines) ≡ text_so_far lines
all_lines-text lines =
    text_of_lines-append lines.closed (lines.current ∷ [])
    ∙ ap (λ last. text_of_lines lines.closed ++ last) (append-nil (text_of_line lines.current))

add_break-text : (lines : Lines) → text_so_far (add_break lines) ≡ text_so_far lines
add_break-text lines = append-nil _ ∙ all_lines-text lines

add_part-text :
    (part : ListingPart) (lines : Lines)
    → text_so_far (add_part part lines) ≡ text_so_far lines ++ part.part_text
add_part-text part lines =
    ap (λ last. text_of_lines lines.closed ++ last)
      (text_of_line-append lines.current (part ∷ [])
        ∙ ap (λ last. text_of_line lines.current ++ last) (append-nil part.part_text))
    ∙ sym (append_assoc (text_of_lines lines.closed) (text_of_line lines.current) part.part_text)

-- What a node itself and those below it add to the text.
abbrev whole_text : Node → Text
whole_text n = text_parts (n ∷ descendants n)

leaf-descendants : (children : Nodes) → is_leaf children ≡ true → descendants_in children ≡ []
unfolding descendants
leaf-descendants nil h = refl
leaf-descendants (cons n ns) h = cc h

text_parts-nil : text_parts [] ≡ []
unfolding text_parts
text_parts-nil = refl

nil-kept :
    (lines : Lines) → text_so_far lines ≡ text_so_far lines ++ text_parts (descendants_in nil)
unfolding descendants text_parts
nil-kept lines = sym (append-nil (text_so_far lines))

abbrev IsNodeKept : Node → Node → Lines → Type 0
IsNodeKept title n lines =
    text_so_far (visit_child title n lines) ≡ text_so_far lines ++ whole_text n

no_text-whole_text : (n : Node) → is_text n ≡ false → whole_text n ≡ text_content n
unfolding text_parts text_content
no_text-whole_text n h = rw h refl

text-kept :
    (title : Node) (identity : ℕ) (content : Text) (attributes : List (Text × Text))
    (children : Nodes) (lines : Lines)
    → is_leaf children ≡ true
    → (identity == identity_of title) ≡ false
    → IsNodeKept title (node identity text_node content attributes children) lines
unfolding visit text_parts descendants
text-kept title identity content attributes children lines leaf other = rw other (
    add_part-text (record { part_node = none; part_text = content }) lines
    ∙ ap (λ own. text_so_far lines ++ own)
        (sym (
          ap (λ below. content ++ text_parts below) (leaf-descendants children leaf)
          ∙ append-nil content)))

module _ (title : Node) (identity : ℕ) (node_type : NodeType) (content : Text)
    (attributes : List (Text × Text)) (children : Nodes) (lines : Lines) where
  abbrev this : Node
  this = node identity node_type content attributes children

  at_break : is_element (text "br") this ≡ true → visit_child title this lines ≡ add_break lines
  unfolding visit
  at_break br = rw br refl

  at_whole :
      is_element (text "br") this ≡ false
      → is_whole title this ≡ true
      → visit_child title this lines ≡ add_part (link_part this) lines
  unfolding visit
  at_whole no_br whole = rw (no_br, whole) refl

  at_part :
      is_element (text "br") this ≡ false
      → is_whole title this ≡ false
      → is_text this ≡ false
      → visit_child title this lines ≡ visit title children lines
  unfolding visit
  at_part no_br part no_text = rw (no_br, part, no_text) refl

  this-text : text_content this ≡ text_parts (descendants_in children)
  unfolding text_content descendants
  this-text = refl

  other-kept :
      is_text this ≡ false
      → (is_element (text "br") this && not (is_leaf children)) ≡ false
      → text_so_far (visit title children lines)
        ≡ text_so_far lines ++ text_parts (descendants_in children)
      → IsNodeKept title this lines
  other-kept no_text leaf deeper =
      let own : whole_text this ≡ text_content this = no_text-whole_text this no_text in
      elim (Bool-cases (is_element (text "br") this)) [
        | inl br ↦
            let bare : is_leaf children ≡ true = ground (arith, leaf, br) in
            let nothing : whole_text this ≡ [] =
              own ∙ this-text ∙ ap text_parts (leaf-descendants children bare) ∙ text_parts-nil in
            ap text_so_far (at_break br)
            ∙ add_break-text lines
            ∙ sym (append-nil (text_so_far lines))
            ∙ ap (λ more. text_so_far lines ++ more) (sym nothing)
        | inr no_br ↦ elim (Bool-cases (is_whole title this)) [
          | inl whole ↦
              ap text_so_far (at_whole no_br whole)
              ∙ add_part-text (link_part this) lines
              ∙ ap (λ more. text_so_far lines ++ more) (sym own)
          | inr part ↦
              ap text_so_far (at_part no_br part no_text)
              ∙ deeper
              ∙ ap (λ more. text_so_far lines ++ more) (sym (own ∙ this-text))
        ]
      ]

whole_text-cons :
    (n : Node) (ns : Nodes)
    → text_parts (descendants_in (cons n ns)) ≡ whole_text n ++ text_parts (descendants_in ns)
unfolding descendants
whole_text-cons n ns = text_parts-append (n ∷ descendants n) (descendants_in ns)

mutual
  unfolding is_page_tree visit

  visit-kept :
      (title : Node) (children : Nodes) (lines : Lines)
      → are_page_trees title children ≡ true
      → text_so_far (visit title children lines)
        ≡ text_so_far lines ++ text_parts (descendants_in children)
  visit-kept title nil lines h = nil-kept lines
  visit-kept title (cons n ns) lines h =
      visit-kept title ns (visit_child title n lines) (ground (arith, h))
      ∙ ap (λ first. first ++ text_parts (descendants_in ns))
          (visit_child-kept title n lines (ground (arith, h)))
      ∙ append_assoc (text_so_far lines) (whole_text n) (text_parts (descendants_in ns))
      ∙ ap (λ more. text_so_far lines ++ more) (sym (whole_text-cons n ns))

  visit_child-kept :
      (title n : Node) (lines : Lines) → is_page_tree title n ≡ true → IsNodeKept title n lines
  visit_child-kept title (node identity text_node content attributes children) lines h =
      text-kept title identity content attributes children lines (ground (arith, h))
        (ground (arith, h))
  visit_child-kept title (node identity element_node content attributes children) lines h =
      other-kept title identity element_node content attributes children lines refl
        (ground (arith, h)) (visit-kept title children lines (ground (arith, h)))
  visit_child-kept title (node identity document_node content attributes children) lines h =
      other-kept title identity document_node content attributes children lines refl refl
        (visit-kept title children lines (ground (arith, h)))
  visit_child-kept title (node identity other_node content attributes children) lines h =
      other-kept title identity other_node content attributes children lines refl refl
        (visit-kept title children lines (ground (arith, h)))

-- The lines of a listing hold its whole text in order, if no text and no line break of the page has
-- anything below it and no text node is taken for the title.
pub logical_lines-text :
    (paragraph title : Node)
    → are_page_trees title (children_of paragraph) ≡ true
    → text_of_lines (logical_lines paragraph title) ≡ text_content paragraph
unfolding logical_lines text_content descendants
logical_lines-text (node identity node_type content attributes children) title h =
    let start : Lines = record { closed = []; current = [] } in
    all_lines-text (visit title children start) ∙ visit-kept title children start h
