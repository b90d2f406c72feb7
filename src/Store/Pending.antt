-- ===== src/Store/Pending.antt =====
-- internal/store/store.go: `Pending`.
pub mod Queue
use alib_fetcher.Base.{
  ℕ, suc, Text, List, [], ◌∷◌, Bool, true, false, not, ◌&&◌, ◌||◌, ℤ, map, if◌then◌else◌, ltb_ℤ,
  eqb_ℤ, ltb, ◌==◌, text_lt, sort_stable,
}
use alib_fetcher.Alib.Book.{Book}
use alib_fetcher.Store.Record.{
  BookRecord, Value, Result, ok, err, cancelled, ◌>>=◌, ◌>>◌, refuse_if, decode_record,
}
use alib_fetcher.Store.Bolt.{Bolt, Context}

pub record PendingRecord : Type 0 where
  pub book : Book
  pub observed_at : ℤ
  pub queue_order : ℕ

unfoldable pub as_pending : BookRecord → PendingRecord
as_pending r = record { book = r.book; observed_at = r.observed_at; queue_order = r.queue_order }

-- The order of the queue.
unfoldable pub pending_less : PendingRecord → PendingRecord → Bool
pending_less left right =
    if ltb 0 left.queue_order
      && (ltb 0 right.queue_order && not (left.queue_order == right.queue_order))
    then ltb left.queue_order right.queue_order
    else if not (eqb_ℤ left.observed_at right.observed_at)
    then ltb_ℤ left.observed_at right.observed_at
    else text_lt left.book.buy_url right.book.buy_url

-- The loop of `Pending`: the records that are not sent.
unfoldable pub pending_records : Context → ℕ → List (Text × Value) → Result (List PendingRecord)
pending_records ctx poll [] = ok []
pending_records ctx poll ((key, value) ∷ rest) = do
  refuse_if (ctx poll) cancelled
  r ← decode_record key value
  later ← pending_records ctx (suc poll) rest
  ok (if r.sent then later else as_pending r ∷ later)

module _ {Bucket : Type 0} (bolt : Bolt Bucket) where
  unfoldable pub pending : Context → Bucket → Result (List Book)
  unfolding pending_records pending_less
  pending ctx bucket = do
    refuse_if (ctx 0) cancelled
    records ← pending_records ctx 1 (bolt.entries bucket)
    ok (map (λ (r : PendingRecord). r.book) (sort_stable pending_less records))
