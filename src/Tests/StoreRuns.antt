-- ===== src/Tests/StoreRuns.antt =====
-- Runs of the state database in memory, and its theorems at concrete inputs.
use alib_fetcher.Base.{ℕ, ◌≡◌, refl, Text, text, List, [], ◌∷◌, false, pos, text_eq, text_lt}
use alib_fetcher.Alib.Book.{Book}
use alib_fetcher.Store.Record.{Result, ok, err, decode_record, missing_record}
use alib_fetcher.Store.Bolt.{Context}
use alib_fetcher.Store.Discover.{
  record_discovered, record_books, record_book, prepare_discovered_record, put_record,
  enqueue_record, renew_record,
}
use alib_fetcher.Store.Discover.Keeps.{Discovered, record_discovered-Discovered}
use alib_fetcher.Store.Sent.{
  mark_sent, mark_books, mark_value, sent_record, prune, prune_entries, prune_entry, is_expired,
}
use alib_fetcher.Store.Sent.Marks.{Marked, lists, mark_sent-Marked}
use alib_fetcher.Store.Sent.PrunesAll.{prune-Kept}
use alib_fetcher.Store.Sent.Prunes.{pruned_value}
use alib_fetcher.Tests.Memory.{Memory, memory, memory-laws, empty_memory, insert_row, remove_row}

abbrev pub listing : Text → Text → Book
listing title buy_url = record {
  title = title;
  bibliography = [];
  content = [];
  seller = [];
  seller_url = [];
  location = [];
  price = [];
  condition = [];
  buy_url = buy_url;
  photos = [];
  publication_year = pos 0;
}

abbrev pub live : Context
live poll = false

-- The functions behind the operations, opened together.
store_steps : ℕ
unfolding record_books record_book prepare_discovered_record put_record text_eq text_lt
    enqueue_record renew_record insert_row remove_row decode_record mark_books mark_value
    sent_record prune_entries prune_entry is_expired
store_steps = 0

abbrev pub two_books : List Book
two_books = listing (text "Old") (text "a") ∷ listing (text "B") (text "b") ∷ []

abbrev pub found : Result ℕ × Memory
found = record_discovered memory live empty_memory two_books (pos 5)

found_two : found.0 ≡ ok 2
unfolding record_discovered store_steps
found_two = refl

record_discovered-Discovered_example :
    Discovered memory memory-laws empty_memory two_books (pos 5) 2 found.1
record_discovered-Discovered_example =
    (record_discovered-Discovered memory memory-laws live empty_memory two_books (pos 5)).0 2
      found_two

abbrev delivered : Result (Unit {0}) × Memory
delivered = mark_sent memory live found.1 two_books (pos 9)

delivered_ok : delivered.0 ≡ ok tt
unfolding record_discovered mark_sent store_steps
delivered_ok = refl

mark_sent-Marked_example :
    Marked
      (lists two_books (text "a"))
      (pos 9)
      (memory.get found.1 (text "a"))
      (memory.get delivered.1 (text "a"))
mark_sent-Marked_example =
    (mark_sent-Marked memory memory-laws live found.1 two_books (pos 9)).0 delivered_ok (text "a")

-- A listing without a record cannot be marked, and nothing is.
mark_unknown :
    (mark_sent memory live found.1 (listing [] (text "z") ∷ []) (pos 9)).0
    ≡ err (missing_record (text "z"))
unfolding record_discovered mark_sent store_steps
mark_unknown = refl

pruned_two : (prune memory live delivered.1 (pos 10)).0 ≡ ok 2
unfolding record_discovered mark_sent prune store_steps
pruned_two = refl

-- At the cutoff itself a record stays.
pruned_none : (prune memory live delivered.1 (pos 9)).0 ≡ ok 0
unfolding record_discovered mark_sent prune store_steps
pruned_none = refl

prune-Kept_example :
    memory.get (prune memory live delivered.1 (pos 10)).1 (text "a")
    ≡ pruned_value (pos 10) (memory.get delivered.1 (text "a"))
prune-Kept_example =
    (((prune-Kept memory memory-laws live delivered.1 (pos 10)).0 2 pruned_two).1 (λ m k. refl)).1
      (text "a")
