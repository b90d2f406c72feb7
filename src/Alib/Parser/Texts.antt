-- ===== src/Alib/Parser/Texts.antt =====
-- internal/alib/parser.go: the texts and attributes of nodes, and the texts of a listing.
use alib_fetcher.Base.{
  ℕ, List, [], ◌∷◌, ◌++◌, Text, text, Option, none, some, Bool, true, false, ◌&&◌, ◌==◌,
  if◌then◌else◌, text_eq, is_empty, any, join, trim_space, has_text, fields, trim, cut_text,
  cut_last,
}
use alib_fetcher.Html.{Node, Nodes, NodeType, node, nil, cons, text_node, element_node}

abbrev pub condition_label : Text
condition_label = text "Состояние:"

abbrev pub photo_label : Text
photo_label = text "Смотрите:"

abbrev pub price_label : Text
price_label = text "Цена:"

abbrev pub seller_prefix : Text
seller_prefix = text "BS - "

abbrev pub buy_text : Text
buy_text = text "Купить"

abbrev pub identity_of : Node → ℕ
identity_of (node identity node_type content attributes children) = identity

abbrev pub content_of : Node → Text
content_of (node identity node_type content attributes children) = content

abbrev pub children_of : Node → Nodes
children_of (node identity node_type content attributes children) = children

abbrev pub is_element_type : NodeType → Bool
is_element_type element_node = true
is_element_type _ = false

abbrev pub is_text_type : NodeType → Bool
is_text_type text_node = true
is_text_type _ = false

-- An element with this name.
abbrev pub is_element : Text → Node → Bool
is_element name (node identity node_type content attributes children) =
    is_element_type node_type && text_eq content name

abbrev pub is_text : Node → Bool
is_text (node identity node_type content attributes children) = is_text_type node_type

-- `node.Descendants()`: the nodes below a node, each before those below it.
unfoldable mutual
  pub descendants : Node → List Node
  descendants (node identity node_type content attributes children) = descendants_in children

  pub descendants_in : Nodes → List Node
  descendants_in nil = []
  descendants_in (cons child children) = child ∷ (descendants child ++ descendants_in children)

unfoldable pub text_parts : List Node → Text
text_parts [] = []
text_parts (n ∷ ns) = let rest = text_parts ns in if is_text n then content_of n ++ rest else rest

unfoldable pub text_content : Node → Text
text_content n = text_parts (descendants n)

-- The words of a text, with one space between them.
unfoldable pub normalized : Text → Text
normalized s = join (fields s) (text " ")

unfoldable pub normalized_text : Node → Text
normalized_text n = normalized (text_content n)

unfoldable pub attribute_in : List (Text × Text) → Text → Text
attribute_in [] name = []
attribute_in ((key, value) ∷ attributes) name =
    let rest = attribute_in attributes name in if text_eq key name then value else rest

unfoldable pub attribute : Node → Text → Text
attribute (node identity node_type content attributes children) name = attribute_in attributes name

unfoldable pub href : Node → Text
href n = attribute n (text "href")

unfoldable pub is_photo_link : Option Node → Bool
is_photo_link none = false
is_photo_link (some n) = is_element (text "a") n && has_text (href n) (text "foto.php4")

abbrev pub is_punctuation : ℕ → Bool
is_punctuation c = any (λ mark. c == mark) (text " ,.;:()")

unfoldable pub clean_location : Text → Text
clean_location location = trim is_punctuation (trim_space location)

-- Behind the last `(` that stands before the last "продавца", the text is no bibliography.
unfoldable pub trim_seller_preamble : Text → Text
trim_seller_preamble value = elim (cut_last value (text "продавца")) [
  | none ↦ trim_space value
  | some (before_word, after_word) ↦ elim (cut_last before_word (text "(")) [
    | none ↦ trim_space value
    | some (preamble, rest) ↦ trim_space preamble
  ]
]

abbrev pub with_label : Text → Text
with_label after = if is_empty after then condition_label else condition_label ++ 32 ∷ after

-- `none` is the result "not found".
unfoldable pub split_condition : Text → Option (Text × Text)
split_condition line = elim (cut_text line condition_label) [
  | none ↦ none
  | some (before, after) ↦ some (trim_space before, with_label (trim_space after))
]

-- `url.Parse` and `ResolveReference` of net/url at the address of the page: `none` stands for an
-- address that cannot be parsed.
module _ (resolve_reference : Text → Option Text) where
  unfoldable pub resolve_url : Text → Text
  resolve_url raw =
      if is_empty (trim_space raw)
      then []
      else elim (resolve_reference raw) [ none ↦ [] | some address ↦ address ]
