-- ===== src/Store/Latest.antt =====
-- internal/store/store.go: `DeleteLatest`.
pub mod Newest
use alib_fetcher.Base.{
  ℕ, suc, ◌-◌, Text, List, [], ◌∷◌, Bool, true, false, not, ℤ, pos, negsuc, if◌then◌else◌, ltb_ℤ,
  eqb_ℤ, ltb, leb, ◌==◌, text_lt, text_eq, sort_stable, length, take, same_bool, ◌+◌,
}
use alib_fetcher.Store.Record.{
  BookRecord, Value, Result, ok, err, cancelled, limit_not_positive, ◌>>=◌, ◌>>◌, refuse_if,
  decode_record,
}
use alib_fetcher.Store.Bolt.{Bolt, Context, or_bolt_failed, update}

pub record LatestRecord : Type 0 where
  pub key : Text
  pub observed_at : ℤ
  pub queue_order : ℕ

unfoldable pub as_latest : Text → BookRecord → LatestRecord
as_latest key r = record { key = key; observed_at = r.observed_at; queue_order = r.queue_order }

unfoldable pub latest_records : Context → ℕ → List (Text × Value) → Result (List LatestRecord)
latest_records ctx poll [] = ok []
latest_records ctx poll ((key, value) ∷ rest) = do
  refuse_if (ctx poll) cancelled
  r ← decode_record key value
  later ← latest_records ctx (suc poll) rest
  ok (as_latest key r ∷ later)

unfoldable pub latest_record_is_newer : LatestRecord → LatestRecord → Bool
latest_record_is_newer left right =
    let left_has_queue_order = ltb 0 left.queue_order in
    let right_has_queue_order = ltb 0 right.queue_order in
    if not (same_bool left_has_queue_order right_has_queue_order)
    then left_has_queue_order
    else if not (left.queue_order == right.queue_order)
    then ltb right.queue_order left.queue_order
    else if not (eqb_ℤ left.observed_at right.observed_at)
    then ltb_ℤ right.observed_at left.observed_at
    else text_lt right.key left.key

module _ {Bucket : Type 0} (bolt : Bolt Bucket) where
  unfoldable pub delete_records : Context → ℕ → Bucket → List LatestRecord → Result (ℕ × Bucket)
  delete_records ctx poll bucket [] = ok (0, bucket)
  delete_records ctx poll bucket (r ∷ rest) = do
    refuse_if (ctx poll) cancelled
    after ← or_bolt_failed (bolt.delete bucket r.key)
    (deleted, final) ← delete_records ctx (suc poll) after rest
    ok (suc deleted, final)

  -- `limit` is positive; the records are cut at it.
  unfoldable pub delete_latest_records :
      Context → ℕ → Bucket → List LatestRecord → ℕ → Result (ℕ × Bucket)
  unfolding delete_records
  delete_latest_records ctx poll bucket records limit =
      let bounded = if ltb (length records) limit then length records else limit in
      delete_records ctx poll bucket (take bounded records)

  -- The function of the transaction.
  unfoldable pub delete_latest_in : Context → Bucket → ℕ → Result (ℕ × Bucket)
  unfolding latest_records latest_record_is_newer delete_latest_records
  delete_latest_in ctx bucket limit = do
    refuse_if (ctx 1) cancelled
    records ← latest_records ctx 2 (bolt.entries bucket)
    delete_latest_records ctx (2 + length records) bucket
        (sort_stable latest_record_is_newer records) limit

  unfoldable pub delete_latest : Context → Bucket → ℤ → Result ℕ × Bucket
  unfolding delete_latest_in
  delete_latest ctx bucket (negsuc n) =
      if ctx 0 then (err cancelled, bucket) else (err limit_not_positive, bucket)
  delete_latest ctx bucket (pos limit) =
      if ctx 0
      then (err cancelled, bucket)
      else if limit == 0
      then (err limit_not_positive, bucket)
      else update bolt bucket (delete_latest_in ctx bucket limit)
