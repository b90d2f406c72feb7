-- ===== src/Digest/Chunks/Notes.antt =====
-- internal/digest/render.go: the messages with a note, `renderFailureSummary` and the end of the last chunk.
use alib_fetcher.Base.{
  ℕ, ◌+◌, ◌≤◌, ◌<◌, ◌≡◌, refl, List, [], ◌∷◌, ◌++◌, Text, Option, none, Bool, true, false, inl, inr,
  length, length-append, All, arith,
}
use alib_fetcher.Html.{Node}
use alib_fetcher.Digest.Item.{Options, section_break}
use alib_fetcher.Digest.Limits.Bounds.{within_limits, not_exceeds}
use alib_fetcher.Digest.Chunks.{
  Packing, Rendered, header, listing_separator, failure_summary, rich_message_block_limit,
  render_failure_summary, with_skipped,
}
use alib_fetcher.Digest.Chunks.Laid.{
  laid, laid_behind, blocks_of, nothing, Shown-length, IsNote, FitsMessage,
}
use alib_fetcher.Digest.Chunks.Bounds.{Within, IsPacked, not_exceeds_chunk}

module _ (html_parse : Text → Option Node) (options : Options) where
  module _ (failed : ℕ) where
    abbrev pub AllFit : Rendered → Type 0
    AllFit rendered = All (FitsMessage html_parse options failed) rendered.chunks

    -- A message without books.
    pub bare_fits :
        (headed : Bool) (content : Text) (note : List Text)
        → Within html_parse options content
        → IsNote html_parse options failed [] note
        → content ≡ laid headed note
        → blocks_of note ≤ rich_message_block_limit
        → FitsMessage html_parse options failed (record { content = content; books = [] })
    bare_fits headed content note within noted same few = record {
      within = within;
      headed = headed;
      items = [];
      note = note;
      shown = nothing;
      noted = noted;
      content = same;
      few = few;
    }

    -- The last chunk with the summary behind its books.
    pub extended_fits :
        (packing : Packing)
        → (v : IsPacked html_parse options failed packing) → (0 < length packing.current.books)
        → Within html_parse options
            (packing.current.content ++ (listing_separator ++ failure_summary failed))
        → packing.current_blocks + 2 ≤ rich_message_block_limit
        → FitsMessage html_parse options failed (record packing.current {
          content = packing.current.content ++ (listing_separator ++ failure_summary failed);
        })
    extended_fits packing v some_book within few =
        let longer = length-append v.counted.items (failure_summary failed ∷ []) in
        let many = Shown-length html_parse options v.counted.lists.shown in
        record {
          within = within;
          headed = v.counted.headed;
          items = v.counted.items;
          note = failure_summary failed ∷ [];
          shown = v.counted.lists.shown;
          noted = inr (inl refl);
          content = rw v.counted.lists.content (
              laid_behind v.counted.headed v.counted.items (failure_summary failed)
                (omega (arith, many, some_book)));
          few = omega (arith, longer, many, v.counted.blocks, few, some_book);
        }

    module _ (summary_fits : Within html_parse options (failure_summary failed)) where
      pub own_fits :
          FitsMessage html_parse options failed
            (record { content = failure_summary failed; books = [] })
      own_fits =
          bare_fits false (failure_summary failed) (failure_summary failed ∷ []) summary_fits
            (inr (inl refl)) refl (omega arith)

      pub summary_chunks-AllFit :
          (skipped : List Text)
          → AllFit (with_skipped skipped (render_failure_summary html_parse failed options))
      unfolding render_failure_summary
      summary_chunks-AllFit skipped =
          let whole : Text = header ++ (section_break ++ failure_summary failed) in
          ground (
            arith,
            own_fits,
            λ (h : Within html_parse options header).
                bare_fits true header [] h (inl refl) refl (omega arith),
            λ (h : Within html_parse options whole).
                bare_fits true whole (failure_summary failed ∷ []) h (inr (inl refl)) refl
                  (omega arith),
            not_exceeds_chunk html_parse options 1 whole,
            within_limits html_parse header options.limit,
          )

      pub summary_chunks-ok :
          (skipped : List Text)
          → Within html_parse options header
          → (with_skipped skipped (render_failure_summary html_parse failed options)).error ≡ none
      unfolding render_failure_summary
      summary_chunks-ok skipped header_fits = ground (
        arith,
        not_exceeds html_parse (failure_summary failed) options.limit,
        not_exceeds html_parse header options.limit,
      )
