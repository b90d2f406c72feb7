-- ===== src/Tests/CycleRuns.antt =====
-- A digest cycle over the state database in memory, and the theorems on it at concrete inputs.
use alib_fetcher.Base.{
  ℕ, ◌≡◌, refl, Text, text, List, [], ◌∷◌, map, Option, some, none, Bool, true, false, ◌||◌, ℤ, pos,
  keep, contains, Perm, decimal, byte_length, text_eq, text_lt, sort_stable, ◌-ℤ◌, any,
}
use alib_fetcher.Alib.Book.{Book}
use alib_fetcher.Digest.Item.{render_book_markup}
use alib_fetcher.Digest.Limits.{
  rendered_rune_count, exceeds_text_limits, truncated_to, search_length, candidate_fits,
  kept_length, truncate_content, render_book,
}
use alib_fetcher.Digest.Chunks.{
  failure_summary, chunk_exceeds_limits, separator_of, add_item, close_chunk, append_book,
  pack_result, pack_books, render_failure_summary, finish_chunks, render_empty, render_sendable,
}
use alib_fetcher.Store.Record.{decode_record}
use alib_fetcher.Store.Discover.{
  record_discovered, record_books, record_book, prepare_discovered_record, put_record,
  enqueue_record, renew_record, existing, existing_from,
}
use alib_fetcher.Store.Sent.{
  mark_sent, mark_books, mark_value, sent_record, prune, prune_entries, prune_entry, is_expired,
}
use alib_fetcher.Store.Pending.{pending, pending_records, pending_less, as_pending}
use alib_fetcher.App.Ports.{done}
use alib_fetcher.App.Deliver.{send, deliver, after_send, acknowledge, after_mark}
use alib_fetcher.App.Service.{
  Shipment, Finished, with_key, with_keys, year_less, sort_pending, recordable_book,
  recordable_from, recordable_fetched, check_existing, existing_of, render_options, prepare,
  send_chunks, send_rendered, render_and_send, retention,
}
use alib_fetcher.App.Run.{
  without_failed, run_shipped, run_pending, run_recorded, record_recordable, run_existing,
  run_fetched, run_pruned, run,
}
use alib_fetcher.App.Run.Sorted.{InYearOrder, of_year, sort_pending-InYearOrder}
use alib_fetcher.App.Run.Recorded.{admitted, count_new, is_rejected, recordable_fetched-admitted}
use alib_fetcher.App.Run.Shipped.{Shipped, render_and_send-Shipped}
use alib_fetcher.App.Run.Ended.{Cycled}
use alib_fetcher.App.Run.Cycle.{run-Cycled}
use alib_fetcher.Tests.Memory.{Memory, empty_memory, insert_row, remove_row}
use alib_fetcher.Tests.StoreRuns.{listing, live, two_books, found}
use alib_fetcher.Tests.DigestRuns.{options, books}
use alib_fetcher.Tests.AppRuns.{service, service-laws}

abbrev dated : Text → ℤ → Book
dated title year = record (listing title title) { publication_year = year }

abbrev dated_books : List Book
dated_books =
    dated (text "a") (pos 1990)
    ∷ dated (text "b") (pos 2020)
    ∷ dated (text "c") (pos 0)
    ∷ dated (text "d") (pos 2020)
    ∷ []

sort_pending-InYearOrder_example :
    Perm (sort_pending dated_books) dated_books
    × InYearOrder (sort_pending dated_books)
    × ((year : ℤ)
        → keep (of_year year) (sort_pending dated_books) ≡ keep (of_year year) dated_books)
sort_pending-InYearOrder_example = sort_pending-InYearOrder dated_books

sorted_titles :
    map (λ (book : Book). book.title) (sort_pending dated_books)
    ≡ text "c" ∷ text "b" ∷ text "d" ∷ text "a" ∷ []
unfolding sort_pending year_less sort_stable
sorted_titles = refl

abbrev first_known : List Bool
first_known = true ∷ false ∷ false ∷ []

recordable_fetched-admitted_example :
    ((recordable_fetched service books first_known [] options).recordable
      ≡ admitted service options books first_known)
    × ((recordable_fetched service books first_known [] options).new_books
        ≡ count_new service options books first_known)
    × ((j : Text)
        → contains (recordable_fetched service books first_known [] options).failed_urls j
          ≡ (contains [] j || is_rejected service options books first_known j))
recordable_fetched-admitted_example =
    recordable_fetched-admitted service options books first_known []

cycle_steps : ℕ
unfolding render_book_markup exceeds_text_limits rendered_rune_count truncated_to search_length
    candidate_fits kept_length truncate_content render_book chunk_exceeds_limits separator_of
    add_item close_chunk append_book pack_result pack_books render_failure_summary finish_chunks
    render_empty render_sendable failure_summary decimal byte_length record_discovered record_books
    record_book prepare_discovered_record put_record text_eq text_lt enqueue_record renew_record
    insert_row remove_row decode_record existing existing_from mark_sent mark_books mark_value
    sent_record prune prune_entries prune_entry is_expired pending pending_records pending_less
    as_pending sort_stable send deliver after_send acknowledge after_mark with_key with_keys
    year_less sort_pending recordable_book recordable_from recordable_fetched check_existing
    existing_of render_options prepare send_chunks send_rendered render_and_send without_failed
    run_shipped run_pending run_recorded record_recordable run_existing run_fetched run_pruned run
    keep contains any
cycle_steps = 0

abbrev or_nothing_sent : Option (Shipment service) → Shipment service
or_nothing_sent none = record { sent = 0; failures = 0; error = none; world = (empty_memory, []) }
or_nothing_sent (some s) = s

abbrev shipment : Option (Shipment service)
shipment = render_and_send service 1 live two_books options (pos 9) 0 (found.1, [])

shipment_returns : shipment ≡ some (or_nothing_sent shipment)
unfolding cycle_steps
shipment_returns = refl

shipment_quiet : (or_nothing_sent shipment).error ≡ none
unfolding cycle_steps
shipment_quiet = refl

render_and_send-Shipped_example :
    Shipped service service-laws (found.1, []) two_books options 0 (or_nothing_sent shipment)
render_and_send-Shipped_example =
    render_and_send-Shipped service service-laws 1 live two_books options (pos 9) 0 (found.1, [])
      (or_nothing_sent shipment) shipment_returns shipment_quiet

abbrev or_nothing_done : Option (Finished service) → Finished service
or_nothing_done none = record {
  result = record { fetched = 0; new_books = 0; sent = 0; pruned = 0; failures = 0 };
  error = none;
  world = (empty_memory, []);
}
or_nothing_done (some f) = f

abbrev cycle : Option (Finished service)
cycle = run service 1 live (empty_memory, [])

cycle_returns : cycle ≡ some (or_nothing_done cycle)
unfolding cycle_steps
cycle_returns = refl

cycle_sends : (or_nothing_done cycle).result.sent ≡ 2
unfolding cycle_steps
cycle_sends = refl

cycle_quiet : (or_nothing_done cycle).error ≡ none
unfolding cycle_steps
cycle_quiet = refl

run-Cycled_example :
    (pruned : ℕ) × (start : Memory × List Text) × (service.prune live
        (service.now (empty_memory, []) -ℤ retention)
        (empty_memory, [])
      ≡ (done pruned, start))
    × Cycled service service-laws live
        (service.now (empty_memory, []))
        (render_options service (service.now (empty_memory, [])))
        start
        pruned
        (or_nothing_done cycle)
run-Cycled_example =
    run-Cycled service service-laws 1 live (empty_memory, []) (or_nothing_done cycle) cycle_returns
      cycle_quiet
