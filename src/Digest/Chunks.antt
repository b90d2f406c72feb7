-- ===== src/Digest/Chunks.antt =====
-- internal/digest/render.go: the chunks of a digest, `RenderSendable` and `appendBook`.
pub mod Bounds
pub mod Books
pub mod Laid
pub mod Notes
pub mod Sendable
use alib_fetcher.Base.{
  ℕ, zero, suc, ◌+◌, ◌≤◌, List, [], ◌∷◌, ◌++◌, Text, text, if◌then◌else◌, is_empty, ℤ, Option, none,
  some, Bool, ◌||◌, ltb, length, decimal, ◌==◌,
}
use alib_fetcher.Html.{Node}
use alib_fetcher.Alib.Book.{Book}
use alib_fetcher.Digest.Item.{Options, section_break}
use alib_fetcher.Digest.Limits.{
  Error, message_too_long, Result, ok, err, exceeds_text_limits, render_book,
}

abbrev pub header : Text
header = text "<b>Новые книги на Alib.ru</b>"

abbrev pub empty_notification : Text
empty_notification = text "Новых книг не обнаружено."

abbrev pub listing_separator : Text
listing_separator = text "<hr/>"

abbrev pub rich_message_block_limit : ℕ
rich_message_block_limit = 500

-- One message and the books that are acknowledged after it is sent.
pub record Chunk : Type 0 where
  pub content : Text
  pub books : List Book

-- The three results of `RenderSendable`.
pub record Rendered : Type 0 where
  pub chunks : List Chunk
  pub skipped_buy_urls : List Text
  pub error : Option Error

-- The variables of the loop over the books.
pub record Packing : Type 0 where
  pub chunks : List Chunk
  pub current : Chunk
  pub current_blocks : ℕ
  pub skipped_buy_urls : List Text

unfoldable pub failure_summary : ℕ → Text
failure_summary failed = text "Не удалось обработать книг: " ++ decimal failed

unfoldable pub separator_of : Chunk → Text
separator_of current =
    if ltb 0 (length current.books)
    then listing_separator
    else if is_empty current.content
    then []
    else section_break

unfoldable pub add_item : Packing → Text → Book → Text → Packing
add_item packing separator book item =
    let books = packing.current.books ++ book ∷ [] in
    record packing {
      current = record { content = packing.current.content ++ (separator ++ item); books = books };
      current_blocks =
          (if ltb 1 (length books) then packing.current_blocks + 1 else packing.current_blocks) + 1;
    }

-- The current chunk is put away, and an empty one begun.
unfoldable pub close_chunk : Packing → Packing
close_chunk packing = record packing {
  chunks = packing.chunks ++ packing.current ∷ [];
  current = record { content = []; books = [] };
  current_blocks = 0;
}

abbrev pub with_skipped : List Text → Result (List Chunk) → Rendered
with_skipped skipped (ok chunks) = record {
  chunks = chunks;
  skipped_buy_urls = skipped;
  error = none;
}
with_skipped skipped (err e) = record { chunks = []; skipped_buy_urls = skipped; error = some e }

abbrev pub first_packing : Packing
first_packing = record {
  chunks = [];
  current = record { content = header; books = [] };
  current_blocks = 0;
  skipped_buy_urls = [];
}

module _ (html_parse : Text → Option Node) where
  unfoldable pub chunk_exceeds_limits : ℕ → Text → ℤ → Bool
  chunk_exceeds_limits blocks content text_limit =
      ltb rich_message_block_limit blocks || exceeds_text_limits html_parse content text_limit

  unfoldable pub append_book : Packing → Book → Text → Options → Packing
  append_book packing book item options =
      let separator = separator_of packing.current in
      let candidate_blocks =
        (if ltb 0 (length packing.current.books)
          then packing.current_blocks + 1 + 1
          else packing.current_blocks + 1) in
      if chunk_exceeds_limits candidate_blocks (packing.current.content ++ (separator ++ item))
        options.limit
      then add_item (close_chunk packing) [] book item
      else add_item packing separator book item

  -- The body of the loop: a listing that cannot be rendered is skipped.
  unfoldable pub pack_result : Packing → Book → Options → Result Text → Packing
  pack_result packing book options (ok item) = append_book packing book item options
  pack_result packing book options (err e) = record packing {
    skipped_buy_urls = packing.skipped_buy_urls ++ book.buy_url ∷ [];
  }

  unfoldable pub pack_books : Packing → List Book → Options → Packing
  pack_books packing [] options = packing
  pack_books packing (book ∷ books) options =
      pack_books (pack_result packing book options (render_book html_parse book options)) books
        options

  unfoldable pub render_failure_summary : ℕ → Options → Result (List Chunk)
  render_failure_summary failed options =
      let summary = failure_summary failed in
      let whole = header ++ (section_break ++ summary) in
      if exceeds_text_limits html_parse summary options.limit
      then err (message_too_long (text "failure summary"))
      else if chunk_exceeds_limits 1 whole options.limit
      then (if exceeds_text_limits html_parse header options.limit
          then err (message_too_long (text "failure summary"))
          else ok (
              record { content = header; books = [] }
              ∷ record { content = summary; books = [] }
              ∷ []))
      else ok (record { content = whole; books = [] } ∷ [])

  -- What follows the loop: the last chunk, and the summary of the failures.
  unfoldable pub finish_chunks : Packing → ℕ → Options → Rendered
  finish_chunks packing previous_failures options =
      let skipped = packing.skipped_buy_urls in
      let failed = previous_failures + length skipped in
      let summary = failure_summary failed in
      let extended = packing.current.content ++ (listing_separator ++ summary) in
      if length packing.current.books == 0
      then (if failed == 0
          then with_skipped skipped (ok [])
          else with_skipped skipped (render_failure_summary failed options))
      else if failed == 0
      then with_skipped skipped (ok (packing.chunks ++ packing.current ∷ []))
      else if chunk_exceeds_limits (packing.current_blocks + 2) extended options.limit
      then with_skipped skipped (
          ok (
            (packing.chunks ++ packing.current ∷ [])
            ++ record { content = summary; books = [] } ∷ []))
      else with_skipped skipped
          (ok (packing.chunks ++ record packing.current { content = extended } ∷ []))

  unfoldable pub render_empty : ℕ → Options → Rendered
  render_empty previous_failures options =
      if ltb 0 previous_failures
      then with_skipped [] (render_failure_summary previous_failures options)
      else if exceeds_text_limits html_parse empty_notification options.limit
      then with_skipped [] (err (message_too_long (text "empty notification")))
      else with_skipped [] (ok (record { content = empty_notification; books = [] } ∷ []))

  unfoldable pub render_sendable : List Book → Options → ℕ → Rendered
  render_sendable [] options previous_failures = render_empty previous_failures options
  render_sendable (book ∷ books) options previous_failures =
      if exceeds_text_limits html_parse header options.limit
      then with_skipped [] (err (message_too_long book.buy_url))
      else finish_chunks (pack_books first_packing (book ∷ books) options) previous_failures options
