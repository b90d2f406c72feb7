-- ===== src/Store/Sent.antt =====
-- internal/store/store.go: `MarkSent` and `Prune`.
pub mod Marks
pub mod Prunes
pub mod PrunesAll
use alib_fetcher.Base.{
  ℕ, zero, suc, Text, List, [], ◌∷◌, Option, none, some, Bool, true, false, not, ◌&&◌, ℤ, pos,
  if◌then◌else◌, ltb_ℤ, eqb_ℤ,
}
use alib_fetcher.Alib.Book.{Book}
use alib_fetcher.Store.Record.{
  BookRecord, Value, json, Error, Result, ok, err, cancelled, missing_record, ◌>>=◌, ◌>>◌,
  refuse_if, decode_record,
}
use alib_fetcher.Store.Bolt.{Bolt, Context, or_bolt_failed, update}
use alib_fetcher.Store.Discover.{put_record}

-- The record of a book that was delivered at `sent_at`.
unfoldable pub sent_record : BookRecord → ℤ → BookRecord
sent_record r sent_at = record r {
  observed_at = if eqb_ℤ r.observed_at (pos 0) then sent_at else r.observed_at;
  sent = true;
  sent_at = sent_at;
}

-- The test of `Prune`.
unfoldable pub is_expired : ℤ → BookRecord → Bool
is_expired before r = r.sent && (not (eqb_ℤ r.sent_at (pos 0)) && ltb_ℤ r.sent_at before)

module _ {Bucket : Type 0} (bolt : Bolt Bucket) where
  unfoldable pub mark_value : Bucket → Text → ℤ → Option Value → Result Bucket
  mark_value bucket key sent_at none = err (missing_record key)
  mark_value bucket key sent_at (some value) = do
    r ← decode_record key value
    put_record bolt bucket key (sent_record r sent_at)

  unfoldable pub mark_books : Context → ℕ → Bucket → List Book → ℤ → Result (Unit {0} × Bucket)
  mark_books ctx poll bucket [] sent_at = ok (tt, bucket)
  mark_books ctx poll bucket (book ∷ books) sent_at = do
    refuse_if (ctx poll) cancelled
    after ← mark_value bucket book.buy_url sent_at (bolt.get bucket book.buy_url)
    mark_books ctx (suc poll) after books sent_at

  unfoldable pub mark_sent : Context → Bucket → List Book → ℤ → Result (Unit {0}) × Bucket
  mark_sent ctx bucket books sent_at =
      if ctx 0
      then (err cancelled, bucket)
      else update bolt bucket (mark_books ctx 1 bucket books sent_at)

  unfoldable pub delete_if : Bool → Bucket → Text → Result (Bool × Bucket)
  delete_if false bucket key = ok (false, bucket)
  delete_if true bucket key = do after ← or_bolt_failed (bolt.delete bucket key); ok (true, after)

  -- One round of the loop of `Prune`: whether the entry is deleted.
  unfoldable pub prune_entry : Bucket → Text → Value → ℤ → Result (Bool × Bucket)
  unfolding delete_if
  prune_entry bucket key value before = do
    r ← decode_record key value
    delete_if (is_expired before r) bucket key

  -- The cursor goes over the entries; `skip` says that `Next` passes over the one at hand.
  unfoldable pub prune_entries :
      Context → ℕ → Bucket → Bool → List (Text × Value) → ℤ → Result (ℕ × Bucket)
  prune_entries ctx poll bucket skip [] before = ok (0, bucket)
  prune_entries ctx poll bucket true (entry ∷ rest) before =
      prune_entries ctx poll bucket false rest before
  prune_entries ctx poll bucket false ((key, value) ∷ rest) before = do
    refuse_if (ctx poll) cancelled
    (deleted, after) ← prune_entry bucket key value before
    (pruned, final) ←
        prune_entries ctx (suc poll) after (deleted && bolt.skips_after_delete bucket key) rest
          before
    ok ((if deleted then suc pruned else pruned), final)

  unfoldable pub prune : Context → Bucket → ℤ → Result ℕ × Bucket
  prune ctx bucket before =
      if ctx 0
      then (err cancelled, bucket)
      else update bolt bucket (prune_entries ctx 1 bucket false (bolt.entries bucket) before)
