-- ===== src/Store/Discover/Step.antt =====
-- internal/store/store.go: what one round of `RecordDiscovered` does to the bucket.
use alib_fetcher.Base.{
  ◌≡◌, ◌≢◌, refl, Text, Option, none, some, Bool, true, false, ℤ, pos, if◌then◌else◌, is_none,
  text_eq, text_eq_iff, arith, ap, ◌∙◌,
}
use alib_fetcher.Alib.Book.{Book}
use alib_fetcher.Store.Record.{
  BookRecord, Value, json, broken, marker, ok, bind-eq-ok, validate_record, decode_record,
}
use alib_fetcher.Store.Bolt.{Bolt, BoltLaws}
use alib_fetcher.Store.Discover.{
  put_record, next_queue_order, enqueue_record, renew_record, prepare_discovered_record,
  record_book,
}

-- What the record of a listing that is seen again keeps: when it was first seen and whether and
-- when it was sent, and its place in the queue if it had one.
pub record SameDelivery (old new : BookRecord) : Type 0 where
  pub observed_at : new.observed_at ≡ old.observed_at
  pub sent_at : new.sent_at ≡ old.sent_at
  pub sent : new.sent ≡ old.sent
  pub queue_order : old.queue_order ≢ 0 → new.queue_order ≡ old.queue_order

-- From one value of a key to a later one.
abbrev pub Extends : Option Value → Option Value → Type 0
Extends none after = Unit {0}
Extends (some (json old)) after =
    (new : BookRecord) × (after ≡ some (json new)) × SameDelivery old new
Extends (some (broken value)) after = after ≡ some (broken value)
Extends (some (marker value)) after = after ≡ some (marker value)

-- A record that waits to be sent has a place in the queue.
abbrev pub IsQueued : BookRecord → Type 0
IsQueued r = r.sent ≡ false → r.queue_order ≢ 0

module _ {Bucket : Type 0} (bolt : Bolt Bucket) (laws : BoltLaws bolt) where
  -- The record that is stored for a book, given what was there before.
  pub record Stored (before : Option Value) (book : Book) (observed_at : ℤ) (r : BookRecord)
      : Type 0 where
    pub of_book : r.book ≡ book
    pub extends : Extends before (some (json r))
    pub queued : IsQueued r
    pub fresh : before ≡ none → (r.sent ≡ false) × (r.observed_at ≡ observed_at)

  enqueue_record-fields :
      (bucket after : Bucket) (r new : BookRecord) (is_new was_new : Bool)
      → enqueue_record bolt bucket r is_new ≡ ok (new, was_new, after)
      → (was_new ≡ is_new)
        × (new ≡ record r { queue_order = new.queue_order })
        × (new.queue_order ≢ 0)
        × ((j : Text) → bolt.get after j ≡ bolt.get bucket j)
  unfolding enqueue_record next_queue_order
  enqueue_record-fields bucket after r new is_new was_new h = (
    ground arith,
    ground arith,
    ground (arith, laws.sequence-next_sequence bucket after new.queue_order),
    λ j. ground (arith, laws.get-next_sequence bucket after new.queue_order j),
  )

  -- The premises and results of preparing a record, whatever the value that was there.
  record Prepares (bucket : Bucket) (before : Option Value) (book : Book) (observed_at : ℤ)
      (r : BookRecord) (is_new : Bool) (after : Bucket) : Type 0 where
    stored : Stored before book observed_at r
    new : is_new ≡ is_none before
    same : (j : Text) → bolt.get after j ≡ bolt.get bucket j

  renew_record-Prepares :
      (bucket after : Bucket) (book : Book) (old r : BookRecord) (observed_at : ℤ) (is_new : Bool)
      → renew_record bolt bucket book old ≡ ok (r, is_new, after)
      → Prepares bucket (some (json old)) book observed_at r is_new after
  unfolding renew_record
  renew_record-Prepares bucket after book old r observed_at is_new h =
      let fields = enqueue_record-fields bucket after (record old { book = book }) r false is_new in
      record {
        stored = record {
          of_book = ground (arith, fields);
          extends = (
            r,
            refl,
            record {
              observed_at = ground (arith, fields);
              sent_at = ground (arith, fields);
              sent = ground (arith, fields);
              queue_order = ground (arith, fields);
            },
          );
          queued = ground (arith, fields);
          fresh = λ e. cc;
        };
        new = ground (arith, fields);
        same = λ j. ground (
          arith,
          λ (e : enqueue_record bolt bucket (record old { book = book }) false
                ≡ ok (r, is_new, after)).
              (fields e).3 j,
        );
      }

  prepare_discovered_record-Prepares :
      (bucket after : Bucket) (key : Text) (book : Book) (observed_at : ℤ) (before : Option Value)
      (r : BookRecord) (is_new : Bool)
      → prepare_discovered_record bolt bucket key book observed_at before ≡ ok (r, is_new, after)
      → Prepares bucket before book observed_at r is_new after
  unfolding prepare_discovered_record
  prepare_discovered_record-Prepares bucket after key book observed_at none r is_new h =
      let first : BookRecord = record {
        book = book;
        observed_at = observed_at;
        sent_at = pos 0;
        queue_order = 0;
        sent = false;
      } in
      let fields = enqueue_record-fields bucket after first r true is_new h in
      record {
        stored = record {
          of_book = ap (λ (x : BookRecord). x.book) fields.1;
          extends = tt;
          queued = λ e. fields.2;
          fresh = λ e. (
            ap (λ (x : BookRecord). x.sent) fields.1,
            ap (λ (x : BookRecord). x.observed_at) fields.1,
          );
        };
        new = fields.0;
        same = fields.3;
      }
  prepare_discovered_record-Prepares bucket after key book observed_at (some (json old)) r is_new
        h =
      renew_record-Prepares bucket after book old r observed_at is_new
        (unfold decode_record validate_record in ground arith)
  prepare_discovered_record-Prepares bucket after key book observed_at (some value) r is_new h =
      unfold decode_record in cc

  pub put_record-eq_ok :
      (bucket after : Bucket) (key : Text) (r : BookRecord)
      → put_record bolt bucket key r ≡ ok after
      → (r.book.buy_url ≡ key) × (bolt.put bucket key (json r) ≡ some after)
  unfolding put_record validate_record
  put_record-eq_ok bucket after key r h = ground (arith, text_eq_iff r.book.buy_url key)

  -- One round: the record of the book's own key is stored, and no other key changes.
  pub record Records (bucket : Bucket) (book : Book) (observed_at : ℤ) (is_new : Bool)
      (after : Bucket) : Type 0 where
    pub new : is_new ≡ is_none (bolt.get bucket book.buy_url)
    pub stored : BookRecord
    pub is_stored : Stored (bolt.get bucket book.buy_url) book observed_at stored
    pub values :
        (j : Text)
        → bolt.get after j
          ≡ (if text_eq book.buy_url j then some (json stored) else bolt.get bucket j)

  round-Records :
      (bucket sequenced after : Bucket) (book : Book) (observed_at : ℤ) (r : BookRecord)
      (is_new : Bool)
      → Prepares bucket (bolt.get bucket book.buy_url) book observed_at r is_new sequenced
      → put_record bolt sequenced book.buy_url r ≡ ok after
      → Records bucket book observed_at is_new after
  round-Records bucket sequenced after book observed_at r is_new prepared put = record {
    new = prepared.new;
    stored = r;
    is_stored = prepared.stored;
    values = λ j. rw (
      laws.get-put sequenced after book.buy_url j (json r)
          (put_record-eq_ok sequenced after book.buy_url r put).1,
      prepared.same j,
    );
  }

  pub record_book-Records :
      (bucket after : Bucket) (book : Book) (observed_at : ℤ) (is_new : Bool)
      → record_book bolt bucket book observed_at ≡ ok (is_new, after)
      → Records bucket book observed_at is_new after
  unfolding record_book
  record_book-Records bucket after book observed_at is_new h =
      let key : Text = book.buy_url in
      let before : Option Value = bolt.get bucket key in
      let ((r, n, sequenced), prepared, rest) =
        bind-eq-ok (prepare_discovered_record bolt bucket key book observed_at before) _ h in
      let (final, put, done) = bind-eq-ok (put_record bolt sequenced key r) _ rest in
      let same_new : n ≡ is_new = cc done in
      let same_after : final ≡ after = cc done in
      round-Records bucket sequenced after book observed_at r is_new
        (prepare_discovered_record-Prepares bucket sequenced key book observed_at before r is_new
          (prepared ∙ ap (λ x. ok (r, x, sequenced)) same_new))
        (put ∙ ap ok same_after)
