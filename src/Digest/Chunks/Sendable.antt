-- ===== src/Digest/Chunks/Sendable.antt =====
-- internal/digest/render.go: what `RenderSendable` returns fits, and when it returns no error.
use alib_fetcher.Base.{
  ℕ, ◌+◌, ◌≤◌, ◌≡◌, refl, sym, ap, List, [], ◌∷◌, ◌++◌, Text, Option, none, false, inl, inr, length,
  All, All-append, arith, Bool-cases,
}
use alib_fetcher.Html.{Node}
use alib_fetcher.Alib.Book.{Book}
use alib_fetcher.Digest.Item.{Options}
use alib_fetcher.Digest.Limits.{exceeds_text_limits}
use alib_fetcher.Digest.Limits.Bounds.{within_limits, not_exceeds}
use alib_fetcher.Digest.Chunks.{
  Chunk, Packing, header, empty_notification, listing_separator, failure_summary, pack_books,
  render_failure_summary, finish_chunks, first_packing, render_empty, render_sendable,
}
use alib_fetcher.Digest.Chunks.Laid.{FitsMessage}
use alib_fetcher.Digest.Chunks.Notes.{
  AllFit, bare_fits, extended_fits, own_fits, summary_chunks-AllFit, summary_chunks-ok,
}
use alib_fetcher.Digest.Chunks.Bounds.{
  Within, IsPacked, pack_books-IsPacked, first_packing-IsPacked, closed_append, not_exceeds_chunk,
  skipped_le,
}

module _ (html_parse : Text → Option Node) (options : Options) where
  finish_chunks-AllFit :
      (packing : Packing) (previous_failures failed : ℕ)
      → failed ≡ previous_failures + length packing.skipped_buy_urls
      → IsPacked html_parse options failed packing
      → Within html_parse options (failure_summary failed)
      → AllFit html_parse options failed
          (finish_chunks html_parse packing previous_failures options)
  unfolding finish_chunks
  finish_chunks-AllFit packing previous_failures failed count v fits =
      let summary : Text = failure_summary failed in
      let extended : Text = packing.current.content ++ (listing_separator ++ summary) in
      let last : Chunk = record { content = extended; books = packing.current.books } in
      let own : Chunk = record { content = summary; books = [] } in
      let Fits : Chunk → Type 0 = FitsMessage html_parse options failed in
      rw (sym count) (
        ground (
          arith,
          closed_append html_parse options failed packing v,
          own_fits html_parse options failed fits,
          extended_fits html_parse options failed packing v,
          All-append Fits (packing.chunks ++ packing.current ∷ []) (own ∷ []),
          All-append Fits packing.chunks (last ∷ []) v.counted.closed,
          not_exceeds_chunk html_parse options (packing.current_blocks + 2) extended,
          summary_chunks-AllFit html_parse options failed fits packing.skipped_buy_urls,
        ))

  finish_chunks-skipped :
      (packing : Packing) (previous_failures : ℕ)
      → (finish_chunks html_parse packing previous_failures options).skipped_buy_urls
        ≡ packing.skipped_buy_urls
  unfolding finish_chunks render_failure_summary
  finish_chunks-skipped packing previous_failures = ground arith

  finish_chunks-ok :
      (packing : Packing) (previous_failures : ℕ)
      → Within html_parse options header
      → Within html_parse options
          (failure_summary (previous_failures + length packing.skipped_buy_urls))
      → (finish_chunks html_parse packing previous_failures options).error ≡ none
  unfolding finish_chunks
  finish_chunks-ok packing previous_failures header_fits fits =
      let failed : ℕ = previous_failures + length packing.skipped_buy_urls in
      ground (
        arith,
        summary_chunks-ok html_parse options failed fits packing.skipped_buy_urls header_fits,
      )

  render_empty-skipped :
      (previous_failures : ℕ)
      → (render_empty html_parse previous_failures options).skipped_buy_urls ≡ []
  unfolding render_empty render_failure_summary
  render_empty-skipped previous_failures = ground arith

  render_empty-AllFit :
      (previous_failures failed : ℕ)
      → failed ≡ previous_failures
      → Within html_parse options (failure_summary failed)
      → AllFit html_parse options failed (render_empty html_parse previous_failures options)
  unfolding render_empty
  render_empty-AllFit previous_failures failed same summary = rw (sym same) (
      ground (
        arith,
        summary_chunks-AllFit html_parse options failed summary [],
        λ (h : Within html_parse options empty_notification).
            bare_fits html_parse options failed false empty_notification (empty_notification ∷ []) h
              (inr (inr (refl, refl))) refl (omega arith),
        within_limits html_parse empty_notification options.limit,
      ))

  -- Every summary that a digest of so many books may need fits.
  abbrev pub SummariesFit : ℕ → Type 0
  SummariesFit most =
      (failed : ℕ) → failed ≤ most → Within html_parse options (failure_summary failed)

  -- Where the summaries of the failures fit, every message of a digest keeps the limits on text and
  -- blocks. It is made up of its books as they are rendered, in order, and at most one note: the
  -- summary of all failures, the skipped books included, or, without books, that there are none. Each
  -- of these parts and each rule between two of them is a block. And where the header and the
  -- notification fit too, there is no error.
  pub render_sendable-AllFit :
      (books : List Book) (previous_failures : ℕ)
      → SummariesFit (previous_failures + length books)
      → let rendered = render_sendable html_parse books options previous_failures in
        All
          (FitsMessage html_parse options (previous_failures + length rendered.skipped_buy_urls))
          rendered.chunks
        × (Within html_parse options header
            → Within html_parse options empty_notification
            → rendered.error ≡ none)
  unfolding render_sendable render_empty
  render_sendable-AllFit [] previous_failures fits =
      let summary : Within html_parse options (failure_summary previous_failures) =
        fits previous_failures (omega arith) in
      let count = render_empty-skipped previous_failures in
      (
        rw (count, render_sendable)
            (render_empty-AllFit previous_failures (previous_failures + 0) (omega arith)
              (fits (previous_failures + 0) (omega arith))),
        λ header_fits empty_fits. ground (
          arith,
          summary_chunks-ok html_parse options previous_failures summary [] header_fits,
          not_exceeds html_parse empty_notification options.limit empty_fits,
        ),
      )
  render_sendable-AllFit (book ∷ books) previous_failures fits =
      let packed : Packing = pack_books html_parse first_packing (book ∷ books) options in
      let failed : ℕ = previous_failures + length packed.skipped_buy_urls in
      let summary : Within html_parse options (failure_summary failed) =
        fits failed (omega (arith, skipped_le html_parse options first_packing (book ∷ books))) in
      (
        elim (Bool-cases (exceeds_text_limits html_parse header options.limit)) [
          | inl over ↦ rw (over, render_sendable) tt
          | inr within ↦
              rw (within, render_sendable)
                (finish_chunks-AllFit packed previous_failures _
                  (ap (λ urls. previous_failures + length urls)
                    (finish_chunks-skipped packed previous_failures))
                  (pack_books-IsPacked html_parse options _ first_packing (book ∷ books) (
                    first_packing-IsPacked html_parse options _
                      (within_limits html_parse header options.limit within)))
                  (rw (finish_chunks-skipped packed previous_failures) summary))
        ],
        λ header_fits empty_fits.
            rw (not_exceeds html_parse header options.limit header_fits, render_sendable)
              (finish_chunks-ok packed previous_failures header_fits summary),
      )
