-- ===== src/Store/Pending/Queue.antt =====
-- internal/store/store.go: the order in which `Pending` hands books out.
use alib_fetcher.Base.{
  ℕ, suc, ◌≡◌, refl, subst, ◌<◌, Text, List, [], ◌∷◌, Bool, true, false, map, if◌then◌else◌, ltb_ℤ,
  ltb, sort_stable, arith, All, text_lt_negative_trans, text_lt_asym, IsOrder, IsSortedBy,
  sort_stable-perm, sort_stable-IsSortedBy, sort_stable-All, IsSortedBy-weaken, ◌<ℤ◌, Perm,
}
use alib_fetcher.Alib.Book.{Book}
use alib_fetcher.Store.Record.{
  BookRecord, Value, json, broken, marker, ok, cancelled, refuse_if, decode_record, validate_record,
  bind-eq-ok, ok-injective,
}
use alib_fetcher.Store.Bolt.{Bolt, Context}
use alib_fetcher.Store.Pending.{PendingRecord, as_pending, pending_less, pending_records, pending}

-- The records of a row of entries that wait for their delivery.
pub waiting : List (Text × Value) → List PendingRecord
waiting [] = []
waiting ((key, json r) ∷ rest) =
    let later = waiting rest in if r.sent then later else as_pending r ∷ later
waiting ((key, broken value) ∷ rest) = waiting rest
waiting ((key, marker value) ∷ rest) = waiting rest

-- All records have a place in the queue.
abbrev pub HasPlace : PendingRecord → Type 0
HasPlace r = 0 < r.queue_order

abbrev pub HasNoPlace : PendingRecord → Type 0
HasNoPlace r = r.queue_order ≡ 0

abbrev pub by_place : PendingRecord → PendingRecord → Bool
by_place x y = ltb x.queue_order y.queue_order

abbrev pub by_time : PendingRecord → PendingRecord → Bool
by_time x y = ltb_ℤ x.observed_at y.observed_at

places-IsOrder : IsOrder pending_less HasPlace
unfolding pending_less
places-IsOrder = record {
  asym = λ x y p q h. ground (arith, text_lt_asym x.book.buy_url y.book.buy_url);
  negative_trans = λ x y z p q r h k.
      ground (arith, text_lt_negative_trans x.book.buy_url y.book.buy_url z.book.buy_url);
}

no_places-IsOrder : IsOrder pending_less HasNoPlace
unfolding pending_less
no_places-IsOrder = record {
  asym = λ x y p q h. ground (arith, text_lt_asym x.book.buy_url y.book.buy_url);
  negative_trans = λ x y z p q r h k.
      ground (arith, text_lt_negative_trans x.book.buy_url y.book.buy_url z.book.buy_url);
}

pub pending_records-waiting :
    (ctx : Context) (poll : ℕ) (entries : List (Text × Value)) (records : List PendingRecord)
    → pending_records ctx poll entries ≡ ok records
    → waiting entries ≡ records
unfolding pending_records waiting decode_record validate_record
pending_records-waiting ctx poll [] records h = ok-injective h
pending_records-waiting ctx poll ((key, json r) ∷ rest) records h =
    let (_, _, round) = bind-eq-ok (refuse_if (ctx poll) cancelled) _ h in
    let (s, decoded, others) = bind-eq-ok (decode_record key (json r)) _ round in
    let (later, found, done) = bind-eq-ok (pending_records ctx (suc poll) rest) _ others in
    let same : s ≡ r = ground arith in
    let more = pending_records-waiting ctx (suc poll) rest later found in
    rw more (
      subst (λ (z : BookRecord). (if z.sent then later else as_pending z ∷ later) ≡ records) same
        (ok-injective done))
pending_records-waiting ctx poll ((key, broken value) ∷ rest) records h = ground arith
pending_records-waiting ctx poll ((key, marker value) ∷ rest) records h = ground arith

-- An entry that can be read.
abbrev pub Decodes : Text × Value → Type 0
Decodes (key, value) = (r : BookRecord) × (decode_record key value ≡ ok r)

pending_records-ok :
    (ctx : Context) (poll : ℕ) (entries : List (Text × Value))
    → ((n : ℕ) → ctx n ≡ false)
    → All Decodes entries
    → (records : List PendingRecord) × (pending_records ctx poll entries ≡ ok records)
unfolding pending_records
pending_records-ok ctx poll [] live h = ([], refl)
pending_records-ok ctx poll ((key, value) ∷ rest) live ((r, decoded), h) =
    let (later, found) = pending_records-ok ctx (suc poll) rest live h in
    ((if r.sent then later else as_pending r ∷ later), rw (live poll, decoded, found))

-- Books in the order of a queue: all of the waiting records.
pub record Queued (books : List Book) (records : List PendingRecord) : Type 0 where
  pub row : List PendingRecord
  pub of_row : books ≡ map (λ (r : PendingRecord). r.book) row
  pub same_records : Perm row records
  pub by_places : All HasPlace records → IsSortedBy by_place row
  pub by_times : All HasNoPlace records → IsSortedBy by_time row

sort-Queued :
    (records : List PendingRecord)
    → Queued (map (λ (r : PendingRecord). r.book) (sort_stable pending_less records)) records
unfolding pending_less
sort-Queued records =
    let row = sort_stable pending_less records in
    record {
      row = row;
      of_row = refl;
      same_records = sort_stable-perm pending_less records;
      by_places = λ h.
          IsSortedBy-weaken pending_less by_place HasPlace row (λ x y p q k. ground arith)
            (sort_stable-All pending_less HasPlace records h)
            (sort_stable-IsSortedBy pending_less HasPlace places-IsOrder records h);
      by_times = λ h.
          IsSortedBy-weaken pending_less by_time HasNoPlace row (λ x y p q k. ground arith)
            (sort_stable-All pending_less HasNoPlace records h)
            (sort_stable-IsSortedBy pending_less HasNoPlace no_places-IsOrder records h);
    }

module _ {Bucket : Type 0} (bolt : Bolt Bucket) where
  -- A successful `Pending` returns the books of the records that are not sent, each once; in the
  -- order of the queue if all of these have a place in it, in the order of the times when they were
  -- first seen if none has. It succeeds if all entries can be read and the context stays live.
  pub pending-Queued :
      (ctx : Context) (bucket : Bucket)
      → ((books : List Book)
          → pending bolt ctx bucket ≡ ok books
          → Queued books (waiting (bolt.entries bucket)))
        × (((n : ℕ) → ctx n ≡ false)
            → All Decodes (bolt.entries bucket)
            → (books : List Book) × (pending bolt ctx bucket ≡ ok books))
  unfolding pending
  pending-Queued ctx bucket = (
    λ books h.
        let (_, _, round) = bind-eq-ok (refuse_if (ctx 0) cancelled) _ h in
        let (records, found, done) =
          bind-eq-ok (pending_records ctx 1 (bolt.entries bucket)) _ round in
        subst (λ bs. Queued bs (waiting (bolt.entries bucket))) (ok-injective done)
          (rw (pending_records-waiting ctx 1 (bolt.entries bucket) records found)
            (sort-Queued records)),
    λ live h.
        let (records, found) = pending_records-ok ctx 1 (bolt.entries bucket) live h in
        (
          map (λ (r : PendingRecord). r.book) (sort_stable pending_less records),
          rw (live 0, found),
        ),
  )

-- The comparison of `Pending` is no order where only some records have a place: three records in a
-- circle, each before the next.
pub pending_less_circle :
    (x y z : PendingRecord)
    → HasPlace z
    → z.queue_order < x.queue_order
    → HasNoPlace y
    → x.observed_at <ℤ y.observed_at
    → y.observed_at <ℤ z.observed_at
    → (pending_less x y ≡ true) × (pending_less y z ≡ true) × (pending_less z x ≡ true)
unfolding pending_less
pending_less_circle x y z hz lt hy xy yz = (ground arith, ground arith, ground arith)
