-- ===== src/Tests/QueueRuns.antt =====
-- Runs of `Pending`, `DeleteLatest` and `Open` in memory, and their theorems at concrete inputs.
use alib_fetcher.Base.{
  ℕ, ◌≡◌, refl, text, [], ◌∷◌, true, ℤ, pos, text_eq, text_lt, arith, sort_stable,
}
use alib_fetcher.Store.Record.{marker, ok, decode_record}
use alib_fetcher.Store.Pending.{PendingRecord, pending, pending_records, pending_less, as_pending}
use alib_fetcher.Store.Pending.Queue.{Queued, waiting, pending-Queued, pending_less_circle}
use alib_fetcher.Store.Latest.{
  delete_latest, delete_latest_in, delete_latest_records, latest_records, latest_record_is_newer,
  delete_records, as_latest,
}
use alib_fetcher.Store.Latest.Newest.{Removal, found_records, Deleted, delete_latest-Deleted}
use alib_fetcher.Store.Migrate.{
  initialize, migrate_legacy_markers, migrations_of, migrate_entry, put_migrations, migrated_record,
  bare_book,
}
use alib_fetcher.Store.Migrate.Upgrades.{upgraded, Readable, initialize-upgraded}
use alib_fetcher.Store.Discover.{
  record_discovered, record_books, record_book, prepare_discovered_record, put_record,
  enqueue_record, renew_record,
}
use alib_fetcher.Tests.Memory.{Memory, memory, memory-laws, insert_row, remove_row}
use alib_fetcher.Tests.StoreRuns.{listing, live, two_books, found}

queue_steps : ℕ
unfolding record_discovered record_books record_book prepare_discovered_record put_record text_eq
    text_lt enqueue_record renew_record insert_row remove_row decode_record pending_records
    pending_less as_pending sort_stable delete_latest_in delete_latest_records latest_records
    latest_record_is_newer delete_records as_latest migrate_legacy_markers migrations_of
    migrate_entry put_migrations migrated_record bare_book
queue_steps = 0

pending_two : pending memory live found.1 ≡ ok two_books
unfolding pending queue_steps
pending_two = refl

pending-Queued_example : Queued two_books (waiting (memory.entries found.1))
pending-Queued_example = (pending-Queued memory live found.1).0 two_books pending_two

abbrev waits : ℤ → ℕ → PendingRecord
waits observed_at queue_order = record {
  book = listing [] (text "u");
  observed_at = observed_at;
  queue_order = queue_order;
}

pending_less_circle_example :
    (pending_less (waits (pos 1) 5) (waits (pos 2) 0) ≡ true)
    × (pending_less (waits (pos 2) 0) (waits (pos 3) 3) ≡ true)
    × (pending_less (waits (pos 3) 3) (waits (pos 1) 5) ≡ true)
pending_less_circle_example =
    pending_less_circle (waits (pos 1) 5) (waits (pos 2) 0) (waits (pos 3) 3) (omega arith)
      (omega arith) refl (omega arith) (omega arith)

deleted_one : (delete_latest memory live found.1 (pos 1)).0 ≡ ok 1
unfolding delete_latest queue_steps
deleted_one = refl

delete_latest-Deleted_example :
    (removal : Removal (found_records (memory.entries found.1)) 1) × Deleted memory memory-laws
      found.1 removal.removed
      (1, (delete_latest memory live found.1 (pos 1)).1)
delete_latest-Deleted_example =
    (delete_latest-Deleted memory memory-laws live found.1 (pos 1)).0 1 deleted_one

abbrev old_database : Memory
old_database = record {
  rows = (text "m", marker (text "2024")) ∷ [];
  counter = 0;
  ascending = (tt, tt);
}

migrated_one : (initialize memory old_database (pos 7)).0 ≡ ok tt
unfolding initialize queue_steps
migrated_one = refl

initialize-upgraded_example :
    (memory.get (initialize memory old_database (pos 7)).1 (text "m")
      ≡ upgraded (text "m") (pos 7) (memory.get old_database (text "m")))
    × Readable (text "m") (memory.get (initialize memory old_database (pos 7)).1 (text "m"))
initialize-upgraded_example =
    (initialize-upgraded memory memory-laws old_database (pos 7)).0 migrated_one (text "m")
