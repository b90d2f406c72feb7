-- ===== src/Digest/Chunks/Books.antt =====
-- internal/digest/render.go: which books the messages of a digest acknowledge.
use mathlib.Core.List.{append-nil, append_assoc, map-append}
use alib_fetcher.Base.{
  ℕ, ◌+◌, ◌<◌, ◌≡◌, refl, sym, ◌∙◌, List, [], ◌∷◌, ◌++◌, map, Text, Option, none, Bool, not, ◌⊎◌,
  inl, inr, length, length-append, keep, arith, if◌then◌else◌,
}
use alib_fetcher.Html.{Node}
use alib_fetcher.Alib.Book.{Book}
use alib_fetcher.Digest.Item.{Options}
use alib_fetcher.Digest.Limits.{Result, ok, err, is_ok, render_book}
use alib_fetcher.Digest.Chunks.{
  Chunk, Packing, listing_separator, failure_summary, add_item, close_chunk, append_book,
  pack_result, pack_books, render_failure_summary, with_skipped, finish_chunks, first_packing,
  render_empty, render_sendable,
}

length-eq_zero : (books : List Book) → length books ≡ 0 → books ≡ []
length-eq_zero [] h = refl
length-eq_zero (book ∷ books) h = absurd (omega arith)

-- The books that a row of messages acknowledges, in order.
abbrev pub acknowledged : List Chunk → List Book
acknowledged [] = []
acknowledged (chunk ∷ chunks) = chunk.books ++ acknowledged chunks

abbrev buy_urls : List Book → List Text
buy_urls = map λ book. book.buy_url

acknowledged-append :
    (cs ds : List Chunk) → acknowledged (cs ++ ds) ≡ acknowledged cs ++ acknowledged ds
acknowledged-append [] ds = refl
acknowledged-append (c ∷ cs) ds =
    rw (acknowledged-append cs ds) (sym (append_assoc c.books (acknowledged cs) (acknowledged ds)))

-- Put away or not, the books that have been packed.
abbrev packed : Packing → List Book
packed packing = acknowledged packing.chunks ++ packing.current.books

-- Only the first chunk can be without a book.
abbrev IsStarted : Packing → Type 0
IsStarted packing = (packing.chunks ≡ []) ⊎ (0 < length packing.current.books)

module _ (html_parse : Text → Option Node) (options : Options) where
  abbrev pub renders : Book → Bool
  renders book = is_ok (render_book html_parse book options)

  record AfterBook (before after : Packing) (book : Book) : Type 0 where
    added : packed after ≡ packed before ++ book ∷ []
    skipped : after.skipped_buy_urls ≡ before.skipped_buy_urls
    started : 0 < length after.current.books

  append_book-AfterBook :
      (packing : Packing) (book : Book) (item : Text)
      → AfterBook packing (append_book html_parse packing book item options) book
  unfolding append_book add_item close_chunk
  append_book-AfterBook packing book item = record {
    added = ground (
      arith,
      acknowledged-append packing.chunks (packing.current ∷ []),
      append_assoc (acknowledged packing.chunks) packing.current.books (book ∷ []),
      append-nil packing.current.books,
    );
    skipped = ground arith;
    started = ground (arith, length-append packing.current.books (book ∷ []));
  }

  -- From one packing to a later one, so many books were taken in and so many left out.
  record Packed (before after : Packing) (taken left_out : List Book) : Type 0 where
    added : packed after ≡ packed before ++ taken
    skipped : after.skipped_buy_urls ≡ before.skipped_buy_urls ++ buy_urls left_out
    started : IsStarted before → IsStarted after

  Packed-trans :
      {a b c : Packing} (xs ys us vs : List Book)
      → Packed a b xs us
      → Packed b c ys vs
      → Packed a c (xs ++ ys) (us ++ vs)
  Packed-trans {a} xs ys us vs p q = record {
    added = ground (arith, p.added, q.added, append_assoc (packed a) xs ys);
    skipped = ground (
      arith,
      p.skipped,
      q.skipped,
      map-append (λ (book : Book). book.buy_url) us vs,
      append_assoc a.skipped_buy_urls (buy_urls us) (buy_urls vs),
    );
    started = λ h. q.started (p.started h);
  }

  only_if : Bool → Book → List Book
  only_if taken book = if taken then book ∷ [] else []

  pack_result-Packed :
      (packing : Packing) (book : Book) (result : Result Text)
      → Packed packing
          (pack_result html_parse packing book options result)
          (only_if (is_ok result) book)
          (only_if (not (is_ok result)) book)
  unfolding pack_result only_if
  pack_result-Packed packing book (ok item) =
      let added = append_book-AfterBook packing book item in
      record {
        added = added.added;
        skipped = added.skipped ∙ sym (append-nil packing.skipped_buy_urls);
        started = λ h. inr added.started;
      }
  pack_result-Packed packing book (err e) = record {
    added = sym (append-nil (packed packing));
    skipped = refl;
    started = λ h. h;
  }

  keep-cons :
      (p : Book → Bool) (book : Book) (books : List Book)
      → keep p (book ∷ books) ≡ only_if (p book) book ++ keep p books
  unfolding keep only_if
  keep-cons p book books = ground arith

  pack_books-Packed :
      (packing : Packing) (books : List Book)
      → Packed packing
          (pack_books html_parse packing books options)
          (keep renders books)
          (keep (λ book. not (renders book)) books)
  unfolding pack_books
  pack_books-Packed packing [] =
      unfold keep in
      record {
        added = sym (append-nil (packed packing));
        skipped = sym (append-nil packing.skipped_buy_urls);
        started = λ h. h;
      }
  pack_books-Packed packing (book ∷ books) =
      let result : Result Text = render_book html_parse book options in
      let after : Packing = pack_result html_parse packing book options result in
      let dropped : Book → Bool = λ b. not (renders b) in
      rw (keep-cons renders book books, keep-cons dropped book books)
        (Packed-trans (only_if (renders book) book) (keep renders books)
          (only_if (dropped book) book) (keep dropped books)
          (pack_result-Packed packing book result) (pack_books-Packed after books))

  summary-acknowledged :
      (failed : ℕ) (skipped : List Text)
      → let summary = with_skipped skipped (render_failure_summary html_parse failed options) in
        (acknowledged summary.chunks ≡ []) × (summary.skipped_buy_urls ≡ skipped)
  unfolding render_failure_summary
  summary-acknowledged failed skipped = ground arith

  packed-unstarted :
      (packing : Packing)
      → IsStarted packing
      → length packing.current.books ≡ 0
      → packed packing ≡ []
  packed-unstarted packing started empty =
      let no_books : packing.current.books ≡ [] = length-eq_zero packing.current.books empty in
      ground arith

  finish_chunks-acknowledged :
      (packing : Packing) (previous_failures : ℕ)
      → IsStarted packing
      → (acknowledged (finish_chunks html_parse packing previous_failures options).chunks
          ≡ packed packing)
        × ((finish_chunks html_parse packing previous_failures options).skipped_buy_urls
            ≡ packing.skipped_buy_urls)
  unfolding finish_chunks
  finish_chunks-acknowledged packing previous_failures started =
      let failed : ℕ = previous_failures + length packing.skipped_buy_urls in
      let summary : Text = failure_summary failed in
      let current : Chunk = packing.current in
      let extended : Text = current.content ++ (listing_separator ++ summary) in
      let last : Chunk = record { content = extended; books = current.books } in
      let own : Chunk = record { content = summary; books = [] } in
      ground (
        arith,
        packed-unstarted packing started,
        summary-acknowledged failed packing.skipped_buy_urls,
        acknowledged-append packing.chunks (current ∷ []),
        acknowledged-append packing.chunks (last ∷ []),
        acknowledged-append (packing.chunks ++ current ∷ []) (own ∷ []),
        append-nil current.books,
        append-nil (packed packing),
      )

  -- Unless there is an error, the messages of a digest acknowledge exactly the books that can be
  -- rendered, each as often as it is given and in the order given, and the URLs that are reported
  -- as skipped are those of all other books, in order.
  pub render_sendable-partition :
      (books : List Book) (previous_failures : ℕ)
      → (render_sendable html_parse books options previous_failures).error ≡ none
      → (acknowledged (render_sendable html_parse books options previous_failures).chunks
          ≡ keep renders books)
        × ((render_sendable html_parse books options previous_failures).skipped_buy_urls
            ≡ buy_urls (keep (λ book. not (renders book)) books))
  unfolding render_sendable render_empty
  render_sendable-partition [] previous_failures done =
      unfold keep in ground (arith, summary-acknowledged previous_failures [])
  render_sendable-partition (book ∷ books) previous_failures done =
      let all = book ∷ books in
      let packing : Packing = pack_books html_parse first_packing all options in
      let through = pack_books-Packed first_packing all in
      let finished =
        finish_chunks-acknowledged packing previous_failures (through.started (inl refl)) in
      ground (arith, finished, through.added, through.skipped)
