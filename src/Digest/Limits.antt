-- ===== src/Digest/Limits.antt =====
-- internal/digest/render.go: the size of a text, and one listing cut to the size of a message.
-- `html_parse` is golang.org/x/net/html's parser; `none` stands for its error.
pub mod Bounds
use alib_fetcher.Base.{
  ℕ, zero, suc, ◌+◌, ◌-◌, ◌/◌, ◌≤◌, ◌≤ℤ◌, List, [], ◌∷◌, ◌++◌, Text, text, ◌==◌, if◌then◌else◌,
  trim_space, is_empty, ℤ, pos, Option, none, some, Bool, true, false, ◌&&◌, ◌||◌, not, ltb, ltb_ℤ,
  ◌-ℤ◌, length, take, text_eq, byte_length,
}
use alib_fetcher.Html.{
  Node, Nodes, NodeType, node, nil, cons, text_node, element_node, document_node, other_node,
}
use alib_fetcher.Alib.Book.{Book}
use alib_fetcher.Digest.Item.{Options, render_book_markup}

-- TDLib cuts a text at 35000 bytes.
abbrev pub rich_message_html_byte_limit : ℕ
rich_message_html_byte_limit = 34996

pub data Error : Type 0 where
  message_too_long : Text → Error

pub data Result {ℓ} (A : Type ℓ) : Type ℓ where
  ok : A → Result A
  err : Error → Result A

abbrev pub is_ok {ℓ} : {A : Type ℓ} → Result A → Bool
is_ok (ok a) = true
is_ok (err e) = false

-- What a node itself adds to the displayed text: its runes, or one for a line break.
abbrev own_runes : NodeType → Text → ℕ
own_runes text_node content = length content
own_runes element_node content = if text_eq content (text "br") then 1 else 0
own_runes _ content = 0

unfoldable mutual
  pub count_runes : Node → ℕ
  count_runes (node identity node_type content attributes children) =
      own_runes node_type content + count_children children

  pub count_children : Nodes → ℕ
  count_children nil = 0
  count_children (cons child children) = count_runes child + count_children children

-- The binary search, with `fuel` rounds at most.
unfoldable pub search_length : (ℕ → Bool) → ℕ → ℕ → ℕ → ℕ
search_length fits zero low high = low
search_length fits (suc fuel) low high =
    let middle = (low + high + 1) / 2 in
    let upper = search_length fits fuel middle high in
    let lower = search_length fits fuel low (middle - 1) in
    if ltb low high then (if fits middle then upper else lower) else low

module _ (html_parse : Text → Option Node) where
  unfoldable pub rendered_rune_count : Text → ℕ
  unfolding count_runes
  rendered_rune_count value = elim (html_parse value) [ none ↦ 0 | some tree ↦ count_runes tree ]

  unfoldable pub exceeds_text_limits : Text → ℤ → Bool
  exceeds_text_limits value rune_limit =
      ltb_ℤ rune_limit (pos (rendered_rune_count value))
      || ltb rich_message_html_byte_limit (byte_length value)

  -- The sizes that Telegram takes, stated without the test above.
  abbrev pub WithinTextLimits : ℤ → Text → Type 0
  WithinTextLimits rune_limit value =
      (pos (rendered_rune_count value) ≤ℤ rune_limit)
      × (byte_length value ≤ rich_message_html_byte_limit)

  -- The listing with the first `runes` runes of its content.
  unfoldable pub truncated_to : Book → Options → ℕ → Text
  truncated_to book options runes =
      render_book_markup
        (record book { content = take runes (trim_space book.content) ++ text "…" }) options

  -- The test of a candidate in the search.
  unfoldable pub candidate_fits : Book → Options → ℕ → Bool
  candidate_fits book options runes =
      not (exceeds_text_limits (truncated_to book options runes) (options.limit -ℤ pos 1))

  unfoldable pub kept_length : Book → Options → ℕ
  kept_length book options =
      let runes = length (trim_space book.content) in
      search_length (candidate_fits book options) (suc runes) 0 runes

  unfoldable pub truncate_content : Book → Options → Text
  truncate_content book options = truncated_to book options (kept_length book options)

  unfoldable pub render_book : Book → Options → Result Text
  render_book book options =
      let item = render_book_markup book options in
      let shortened = truncate_content book options in
      let check = λ (candidate : Text) (item_limit : ℤ).
        if exceeds_text_limits candidate item_limit
        then err (message_too_long book.buy_url)
        else ok candidate in
      if exceeds_text_limits item options.limit && not (is_empty (trim_space book.content))
      then check shortened (options.limit -ℤ pos 1)
      else check item options.limit
