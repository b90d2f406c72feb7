-- ===== src/Digest/Chunks/Bounds.antt =====
-- internal/digest/render.go: every chunk fits into one message.
use mathlib.Core.List.{append-nil}
use alib_fetcher.Base.{
  ℕ, ◌+◌, ◌≤◌, ◌≡◌, refl, sym, ap, ◌∙◌, List, [], ◌∷◌, ◌++◌, Text, Option, Bool, true, false, inl,
  inr, length, length-append, All, All-append, arith, Bool-cases, ltb, if◌then◌else◌,
}
use alib_fetcher.Html.{Node}
use alib_fetcher.Alib.Book.{Book}
use alib_fetcher.Digest.Item.{Options}
use alib_fetcher.Digest.Limits.{Result, ok, err, WithinTextLimits, render_book}
use alib_fetcher.Digest.Limits.Bounds.{within_limits, render_book_limits}
use alib_fetcher.Digest.Chunks.{
  Chunk, Packing, header, rich_message_block_limit, chunk_exceeds_limits, separator_of, add_item,
  close_chunk, append_book, pack_result, pack_books, first_packing,
}
use alib_fetcher.Digest.Chunks.Laid.{
  laid, blocks_of, nothing, Shown-length, Lists, Lists-add, FitsMessage,
}

module _ (html_parse : Text → Option Node) (options : Options) where
  abbrev pub Within : Text → Type 0
  Within = WithinTextLimits html_parse options.limit

  pub not_exceeds_chunk :
      (blocks : ℕ) (content : Text)
      → chunk_exceeds_limits html_parse blocks content options.limit ≡ false
      → (blocks ≤ rich_message_block_limit) × Within content
  unfolding chunk_exceeds_limits
  not_exceeds_chunk blocks content h =
      ground (arith, within_limits html_parse content options.limit)

  -- So many listings, and the rules between them, are another block or two.
  abbrev added_blocks : Packing → ℕ
  added_blocks packing =
      if ltb 0 (length packing.current.books)
      then packing.current_blocks + 1 + 1
      else packing.current_blocks + 1

  module _ (failed : ℕ) where
    abbrev pub Fits : Chunk → Type 0
    Fits = FitsMessage html_parse options failed

    -- The chunks that are put away fit, and the blocks of the current one are counted right.
    pub record IsCounted (packing : Packing) : Type 0 where
      pub closed : All (FitsMessage html_parse options failed) packing.chunks
      pub headed : Bool
      pub items : List Text
      pub lists : Lists html_parse options packing.current headed items
      pub blocks : packing.current_blocks ≡ blocks_of items

    -- Between two rounds of the loop the current chunk fits too.
    pub record IsPacked (packing : Packing) : Type 0 where
      pub counted : IsCounted packing
      pub within : WithinTextLimits html_parse options.limit packing.current.content
      pub few : packing.current_blocks ≤ rich_message_block_limit

    pub current-Fits : (packing : Packing) → IsPacked packing → Fits packing.current
    current-Fits packing v = record {
      within = v.within;
      headed = v.counted.headed;
      items = v.counted.items;
      note = [];
      shown = v.counted.lists.shown;
      noted = inl refl;
      content =
          v.counted.lists.content ∙ ap (laid v.counted.headed) (sym (append-nil v.counted.items));
      few = rw (append-nil v.counted.items) (omega (arith, v.few, v.counted.blocks));
    }

    pub closed_append :
        (packing : Packing)
        → IsPacked packing
        → All (FitsMessage html_parse options failed) (packing.chunks ++ packing.current ∷ [])
    closed_append packing v =
        All-append Fits packing.chunks (packing.current ∷ []) v.counted.closed
          (current-Fits packing v, tt)

    close_chunk-IsCounted : (packing : Packing) → IsPacked packing → IsCounted (close_chunk packing)
    unfolding close_chunk
    close_chunk-IsCounted packing v = record {
      closed = closed_append packing v;
      headed = false;
      items = [];
      lists = record { shown = nothing; content = refl };
      blocks = omega arith;
    }

    add_item-IsPacked :
        (packing : Packing) (item : Text) (book : Book)
        → IsCounted packing
        → render_book html_parse book options ≡ ok item
        → Within (packing.current.content ++ (separator_of packing.current ++ item))
        → added_blocks packing ≤ rich_message_block_limit
        → IsPacked (add_item packing (separator_of packing.current) book item)
    unfolding add_item
    add_item-IsPacked packing item book v rendered within few =
        let many = Shown-length html_parse options v.lists.shown in
        let more = length-append packing.current.books (book ∷ []) in
        let longer = length-append v.items (item ∷ []) in
        record {
          counted = record {
            closed = v.closed;
            headed = v.headed;
            items = v.items ++ item ∷ [];
            lists =
                Lists-add html_parse options packing.current v.headed v.items book item v.lists
                  rendered;
            blocks = ground (arith, many, more, longer, v.blocks);
          };
          within = within;
          few = ground (arith, many, more, v.blocks, few);
        }

    -- After a chunk is put away the next listing stands alone.
    close_then_add-IsPacked :
        (packing : Packing) (item : Text) (book : Book)
        → IsPacked packing
        → render_book html_parse book options ≡ ok item
        → Within item
        → IsPacked (add_item (close_chunk packing) [] book item)
    unfolding close_chunk separator_of
    close_then_add-IsPacked packing item book v rendered within =
        add_item-IsPacked (close_chunk packing) item book (close_chunk-IsCounted packing v) rendered
          within (omega arith)

    append_book-IsPacked :
        (packing : Packing) (book : Book) (item : Text)
        → IsPacked packing
        → render_book html_parse book options ≡ ok item
        → Within item
        → IsPacked (append_book html_parse packing book item options)
    unfolding append_book
    append_book-IsPacked packing book item v rendered within =
        let separator : Text = separator_of packing.current in
        let content : Text = packing.current.content ++ (separator ++ item) in
        elim (Bool-cases
          (chunk_exceeds_limits html_parse (added_blocks packing) content options.limit)) [
            | inl over ↦
                rw (over, append_book) (close_then_add-IsPacked packing item book v rendered within)
            | inr fits ↦
                let (few, fit) = not_exceeds_chunk (added_blocks packing) content fits in
                rw (fits, append_book)
                  (add_item-IsPacked packing item book v.counted rendered fit few)
          ]

    pack_result-IsPacked :
        (packing : Packing) (book : Book) (result : Result Text)
        → IsPacked packing
        → render_book html_parse book options ≡ result
        → ((item : Text) → result ≡ ok item → Within item)
        → IsPacked (pack_result html_parse packing book options result)
    unfolding pack_result
    pack_result-IsPacked packing book (ok item) v rendered within =
        append_book-IsPacked packing book item v rendered (within item refl)
    pack_result-IsPacked packing book (err e) v rendered within = record {
      counted = record {
        closed = v.counted.closed;
        headed = v.counted.headed;
        items = v.counted.items;
        lists = v.counted.lists;
        blocks = v.counted.blocks;
      };
      within = v.within;
      few = v.few;
    }

    pub pack_books-IsPacked :
        (packing : Packing) (books : List Book)
        → IsPacked packing
        → IsPacked (pack_books html_parse packing books options)
    unfolding pack_books
    pack_books-IsPacked packing [] v = v
    pack_books-IsPacked packing (book ∷ books) v =
        let result : Result Text = render_book html_parse book options in
        pack_books-IsPacked (pack_result html_parse packing book options result) books (
          pack_result-IsPacked packing book result v refl
            (render_book_limits html_parse book options).0)

    pub first_packing-IsPacked : Within header → IsPacked first_packing
    first_packing-IsPacked h = record {
      counted = record {
        closed = tt;
        headed = true;
        items = [];
        lists = record { shown = nothing; content = refl };
        blocks = omega arith;
      };
      within = h;
      few = omega arith;
    }

  skipped-pack_result :
      (packing : Packing) (book : Book) (result : Result Text)
      → length (pack_result html_parse packing book options result).skipped_buy_urls
        ≤ length packing.skipped_buy_urls + 1
  unfolding pack_result append_book add_item close_chunk
  skipped-pack_result packing book (ok item) = ground arith
  skipped-pack_result packing book (err e) =
      ground (arith, length-append packing.skipped_buy_urls (book.buy_url ∷ []))

  -- A loop over the books skips at most all of them.
  pub skipped_le :
      (packing : Packing) (books : List Book)
      → length (pack_books html_parse packing books options).skipped_buy_urls
        ≤ length packing.skipped_buy_urls + length books
  unfolding pack_books
  skipped_le packing [] = omega arith
  skipped_le packing (book ∷ books) =
      let result : Result Text = render_book html_parse book options in
      omega (
        arith,
        skipped_le (pack_result html_parse packing book options result) books,
        skipped-pack_result packing book result,
      )
