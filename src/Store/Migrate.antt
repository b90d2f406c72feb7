-- ===== src/Store/Migrate.antt =====
-- internal/store/store.go: `migrateLegacyMarkers`, and `Open` around it.
pub mod Upgrades
use alib_fetcher.Base.{Text, List, [], ◌∷◌, ◌++◌, true, ℤ, pos, if◌then◌else◌}
use alib_fetcher.Alib.Book.{Book}
use alib_fetcher.Store.Record.{
  BookRecord, Value, Result, ok, err, ◌>>=◌, ◌>>◌, decode_record, is_structured_record,
}
use alib_fetcher.Store.Bolt.{Bolt, update}
use alib_fetcher.Store.Discover.{put_record}

pub record LegacyMigration : Type 0 where
  pub key : Text
  pub stored : BookRecord

-- `alib.Book{BuyURL: string(key)}`
unfoldable pub bare_book : Text → Book
bare_book key = record {
  title = [];
  bibliography = [];
  content = [];
  seller = [];
  seller_url = [];
  location = [];
  price = [];
  condition = [];
  buy_url = key;
  photos = [];
  publication_year = pos 0;
}

-- The record that a marker becomes.
unfoldable pub migrated_record : Text → ℤ → BookRecord
unfolding bare_book
migrated_record key migrated_at = record {
  book = bare_book key;
  observed_at = migrated_at;
  sent_at = migrated_at;
  queue_order = 0;
  sent = true;
}

-- What `ForEach` does with a value.
unfoldable pub migrate_entry : Text → Value → ℤ → Result (List LegacyMigration)
unfolding migrated_record is_structured_record
migrate_entry key value migrated_at =
    if is_structured_record value
    then decode_record key value >> ok []
    else ok (record { key = key; stored = migrated_record key migrated_at } ∷ [])

-- `ForEach` over the entries; it stops at the first error.
unfoldable pub migrations_of : List (Text × Value) → ℤ → Result (List LegacyMigration)
unfolding migrate_entry
migrations_of [] migrated_at = ok []
migrations_of ((key, value) ∷ rest) migrated_at = do
  own ← migrate_entry key value migrated_at
  later ← migrations_of rest migrated_at
  ok (own ++ later)

module _ {Bucket : Type 0} (bolt : Bolt Bucket) where
  unfoldable pub put_migrations : Bucket → List LegacyMigration → Result Bucket
  put_migrations bucket [] = ok bucket
  put_migrations bucket (migration ∷ rest) = do
    after ← put_record bolt bucket migration.key migration.stored
    put_migrations after rest

  unfoldable pub migrate_legacy_markers : Bucket → ℤ → Result (Unit {0} × Bucket)
  unfolding migrations_of put_migrations
  migrate_legacy_markers bucket migrated_at = do
    migrations ← migrations_of (bolt.entries bucket) migrated_at
    after ← put_migrations bucket migrations
    ok (tt, after)

  -- The transaction of `Open`, on the bucket that `CreateBucketIfNotExists` returns.
  unfoldable pub initialize : Bucket → ℤ → Result (Unit {0}) × Bucket
  unfolding migrate_legacy_markers
  initialize bucket migrated_at = update bolt bucket (migrate_legacy_markers bucket migrated_at)
