-- ===== src/Tests/DigestRuns.antt =====
-- Runs of the renderer, and its theorems at concrete inputs. The parser of these runs takes a whole
-- text for one text node.
use alib_fetcher.Base.{
  ℕ, zero, suc, ◌+◌, ◌≡◌, refl, Text, text, List, [], ◌∷◌, map, Option, some, none, false, pos,
  length, All, keep, arith, decimal, byte_length, replace_all,
}
use alib_fetcher.Html.{Node, node, text_node, nil}
use alib_fetcher.Alib.Book.{Book}
use alib_fetcher.Digest.Item.{Options, render_book_markup}
use alib_fetcher.Digest.Limits.{
  ok, WithinTextLimits, rendered_rune_count, exceeds_text_limits, truncated_to, search_length,
  candidate_fits, kept_length, truncate_content, render_book,
}
use alib_fetcher.Digest.Limits.Bounds.{render_book_limits, kept_length-greatest, IsDownClosed}
use alib_fetcher.Digest.Markup.{escape_link_target}
use alib_fetcher.Digest.Markup.Safety.{IsInert, escape_link_target-IsInert}
use alib_fetcher.Digest.Chunks.{
  Chunk, failure_summary, chunk_exceeds_limits, separator_of, add_item, close_chunk, append_book,
  pack_result, pack_books, render_failure_summary, finish_chunks, render_empty, render_sendable,
}
use alib_fetcher.Digest.Chunks.Laid.{FitsMessage}
use alib_fetcher.Digest.Chunks.Sendable.{render_sendable-AllFit, SummariesFit}
use alib_fetcher.Digest.Chunks.Books.{acknowledged, renders, render_sendable-partition}
use alib_fetcher.Tests.StoreRuns.{listing}

abbrev pub whole_text : Text → Option Node
whole_text value = some (node 0 text_node value [] nil)

abbrev pub options : Options
options = record {
  local_time = record { year = pos 2024; month = 5 };
  fresh_books_lower_year = some (pos 2020);
  limit = pos 64;
}

abbrev long_title : Text
long_title = text "A title that is too long for any message of sixty-four runes"

-- The third listing cannot be rendered.
abbrev pub books : List Book
books =
    listing (text "A") (text "a")
    ∷ listing (text "B") (text "b")
    ∷ listing long_title (text "c")
    ∷ []

-- The functions behind the renderer, opened together.
digest_steps : ℕ
unfolding render_book_markup exceeds_text_limits rendered_rune_count truncated_to search_length
    candidate_fits kept_length truncate_content render_book chunk_exceeds_limits separator_of
    add_item close_chunk append_book pack_result pack_books render_failure_summary finish_chunks
    render_empty render_sendable failure_summary decimal byte_length
digest_steps = 0

rendered_titles :
    map (λ (chunk : Chunk). length chunk.books) (render_sendable whole_text books options 0).chunks
    ≡ 0 ∷ 1 ∷ 1 ∷ 0 ∷ []
unfolding digest_steps
rendered_titles = refl

partition_done : (render_sendable whole_text books options 0).error ≡ none
unfolding digest_steps
partition_done = refl

render_sendable-partition_example :
    acknowledged (render_sendable whole_text books options 0).chunks
    ≡ keep (renders whole_text options) books
render_sendable-partition_example =
    (render_sendable-partition whole_text options books 0 partition_done).0

summaries_fit : SummariesFit whole_text options 3
unfolding digest_steps
summaries_fit zero h = omega arith
summaries_fit (suc zero) h = omega arith
summaries_fit (suc (suc zero)) h = omega arith
summaries_fit (suc (suc (suc zero))) h = omega arith
summaries_fit (suc (suc (suc (suc n)))) h = absurd (omega arith)

render_sendable-AllFit_example :
    All
      (FitsMessage whole_text options
        (0 + length (render_sendable whole_text books options 0).skipped_buy_urls))
      (render_sendable whole_text books options 0).chunks
render_sendable-AllFit_example = (render_sendable-AllFit whole_text options books 0 summaries_fit).0

abbrev wordy : Book
wordy = record (listing (text "A") (text "a")) { content = text "xyzw" }

abbrev narrow : Options
narrow = record options { limit = pos 55 }

cut_to_one : kept_length whole_text wordy narrow ≡ 1
unfolding digest_steps
cut_to_one = refl

cut_text :
    render_book whole_text wordy narrow
    ≡ ok (render_book_markup (record wordy { content = text "x…" }) narrow)
unfolding digest_steps
cut_text = refl

narrow-IsDownClosed : IsDownClosed (candidate_fits whole_text wordy narrow) 4
unfolding digest_steps
narrow-IsDownClosed zero n ordered below fits = refl
narrow-IsDownClosed (suc zero) n ordered below fits = refl
narrow-IsDownClosed (suc (suc m)) zero ordered below fits = absurd (omega arith)
narrow-IsDownClosed (suc (suc m)) (suc zero) ordered below fits = absurd (omega arith)
narrow-IsDownClosed (suc (suc m)) (suc (suc zero)) ordered below fits = cc fits
narrow-IsDownClosed (suc (suc m)) (suc (suc (suc zero))) ordered below fits = cc fits
narrow-IsDownClosed (suc (suc m)) (suc (suc (suc (suc zero)))) ordered below fits = cc fits
narrow-IsDownClosed (suc (suc m)) (suc (suc (suc (suc (suc n))))) ordered below fits =
    absurd (omega arith)

kept_length-greatest_example : candidate_fits whole_text wordy narrow 2 ≡ false
unfolding digest_steps
kept_length-greatest_example =
    (kept_length-greatest whole_text wordy narrow narrow-IsDownClosed).2 2 (omega arith)
      (omega arith)

render_book_limits_example :
    WithinTextLimits whole_text
      (pos 55)
      (render_book_markup (record wordy { content = text "x…" }) narrow)
render_book_limits_example =
    (render_book_limits whole_text wordy narrow).0
      (render_book_markup (record wordy { content = text "x…" }) narrow) cut_text

hostile : escape_link_target (text "a\"><b>\n") ≡ text "a&#34;&gt;&lt;b&gt;%0A"
unfolding escape_link_target replace_all
hostile = refl

escape_link_target-IsInert_example : All IsInert (escape_link_target (text "a\"><b>\n"))
escape_link_target-IsInert_example = escape_link_target-IsInert (text "a\"><b>\n")
