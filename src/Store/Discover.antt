-- ===== src/Store/Discover.antt =====
-- internal/store/store.go: `RecordDiscovered` and `Existing`.
pub mod Step
pub mod Keeps
use alib_fetcher.Base.{
  ℕ, suc, Text, List, [], ◌∷◌, Option, none, some, Bool, true, false, not, ◌||◌, ℤ, pos,
  if◌then◌else◌, is_none, ◌==◌,
}
use alib_fetcher.Alib.Book.{Book}
use alib_fetcher.Store.Record.{
  BookRecord, Value, json, Result, ok, err, cancelled, ◌>>=◌, ◌>>◌, refuse_if, validate_record,
  decode_record,
}
use alib_fetcher.Store.Bolt.{Bolt, Context, or_bolt_failed, update}

module _ {Bucket : Type 0} (bolt : Bolt Bucket) where
  unfoldable pub put_record : Bucket → Text → BookRecord → Result Bucket
  unfolding validate_record
  put_record bucket key r = do validate_record key r; or_bolt_failed (bolt.put bucket key (json r))

  unfoldable pub next_queue_order : Bucket → Result (ℕ × Bucket)
  next_queue_order bucket = or_bolt_failed (bolt.next_sequence bucket)

  -- The record that is to be stored, whether it is new, and the bucket with its sequence.
  abbrev pub Prepared : Type 0
  Prepared = BookRecord × Bool × Bucket

  -- A queue order is drawn for the record.
  unfoldable pub enqueue_record : Bucket → BookRecord → Bool → Result Prepared
  unfolding next_queue_order
  enqueue_record bucket r is_new = do
    (queue_order, after) ← next_queue_order bucket
    ok (record r { queue_order = queue_order }, is_new, after)

  unfoldable pub renew_record : Bucket → Book → BookRecord → Result Prepared
  renew_record bucket book existing =
      let renewed : BookRecord = record existing { book = book } in
      if not (existing.queue_order == 0) || existing.sent
      then ok (renewed, false, bucket)
      else enqueue_record bucket renewed false

  unfoldable pub prepare_discovered_record :
      Bucket → Text → Book → ℤ → Option Value → Result Prepared
  prepare_discovered_record bucket key book observed_at none =
      enqueue_record bucket
        (record {
          book = book;
          observed_at = observed_at;
          sent_at = pos 0;
          queue_order = 0;
          sent = false;
        })
        true
  prepare_discovered_record bucket key book observed_at (some value) = do
    existing ← decode_record key value
    renew_record bucket book existing

  -- One round of the loop of `RecordDiscovered`.
  unfoldable pub record_book : Bucket → Book → ℤ → Result (Bool × Bucket)
  record_book bucket book observed_at = do
    let key = book.buy_url
    (r, is_new, sequenced) ←
        prepare_discovered_record bucket key book observed_at (bolt.get bucket key)
    after ← put_record sequenced key r
    ok (is_new, after)

  unfoldable pub record_books : Context → ℕ → Bucket → List Book → ℤ → Result (ℕ × Bucket)
  record_books ctx poll bucket [] observed_at = ok (0, bucket)
  record_books ctx poll bucket (book ∷ books) observed_at = do
    refuse_if (ctx poll) cancelled
    (is_new, after) ← record_book bucket book observed_at
    (created, final) ← record_books ctx (suc poll) after books observed_at
    ok ((if is_new then suc created else created), final)

  -- The number of records that were created, or an error, and the bucket after the transaction.
  unfoldable pub record_discovered : Context → Bucket → List Book → ℤ → Result ℕ × Bucket
  record_discovered ctx bucket books observed_at =
      if ctx 0
      then (err cancelled, bucket)
      else update bolt bucket (record_books ctx 1 bucket books observed_at)

  unfoldable pub existing_from : Context → ℕ → Bucket → List Book → Result (List Bool)
  existing_from ctx poll bucket [] = ok []
  existing_from ctx poll bucket (book ∷ books) = do
    refuse_if (ctx poll) cancelled
    rest ← existing_from ctx (suc poll) bucket books
    ok (not (is_none (bolt.get bucket book.buy_url)) ∷ rest)

  unfoldable pub existing : Context → Bucket → List Book → Result (List Bool)
  unfolding existing_from
  existing ctx bucket books = do refuse_if (ctx 0) cancelled; existing_from ctx 1 bucket books
