-- ===== src/Store/Discover/Keeps.antt =====
-- internal/store/store.go: what `RecordDiscovered` leaves in the database.
use alib_fetcher.Base.{
  ℕ, suc, ◌≡◌, refl, sym, ap, subst, ◌∙◌, Text, List, [], ◌∷◌, Option, none, some, Bool, true,
  false, not, ◌||◌, ℤ, if◌then◌else◌, is_none, text_eq, text_eq_iff, arith, inl, inr, Bool-cases,
}
use alib_fetcher.Alib.Book.{Book}
use alib_fetcher.Store.Record.{
  BookRecord, Value, json, broken, marker, Error, Result, ok, err, ok-injective, bind-eq-ok,
  refuse_if, cancelled,
}
use alib_fetcher.Store.Bolt.{Bolt, BoltLaws, Context, update, update-ok, update-err}
use alib_fetcher.Store.Discover.{record_book, record_books, record_discovered}
use alib_fetcher.Store.Discover.Step.{Extends, IsQueued, Records, record_book-Records}

Extends-refl : (o : Option Value) → Extends o o
Extends-refl none = tt
Extends-refl (some (json r)) =
    (r, refl, record { observed_at = refl; sent_at = refl; sent = refl; queue_order = λ h. refl })
Extends-refl (some (broken v)) = refl
Extends-refl (some (marker v)) = refl

Extends-trans : (a b c : Option Value) → Extends a b → Extends b c → Extends a c
Extends-trans none b c p q = tt
Extends-trans (some (json r)) b c (s, e, p) q =
    let (t, f, k) = subst (λ o. Extends o c) e q in
    (
      t,
      f,
      record {
        observed_at = k.observed_at ∙ p.observed_at;
        sent_at = k.sent_at ∙ p.sent_at;
        sent = k.sent ∙ p.sent;
        queue_order = λ h. k.queue_order (λ z. h (sym (p.queue_order h) ∙ z)) ∙ p.queue_order h;
      },
    )
Extends-trans (some (broken v)) b c p q = subst (λ o. Extends o c) p q
Extends-trans (some (marker v)) b c p q = subst (λ o. Extends o c) p q

-- The last of the books with a URL.
abbrev later_or : Option Book → Option Book → Option Book
later_or (some later) book = some later
later_or none book = book

pub newest_for : Text → List Book → Option Book
newest_for url [] = none
newest_for url (book ∷ books) =
    later_or (newest_for url books) (if text_eq book.buy_url url then some book else none)

-- The number of URLs that are not known before.
pub count_unknown : (Text → Bool) → List Book → ℕ
count_unknown known [] = 0
count_unknown known (book ∷ books) =
    let again = count_unknown known books in
    let first = suc (count_unknown (λ j. text_eq book.buy_url j || known j) books) in
    if known book.buy_url then again else first

count_unknown-congr :
    (p q : Text → Bool) (books : List Book)
    → ((j : Text) → p j ≡ q j)
    → count_unknown p books ≡ count_unknown q books
count_unknown-congr p q books h = ap (λ r. count_unknown r books) (λ i j. h j i)

module _ {Bucket : Type 0} (bolt : Bolt Bucket) (laws : BoltLaws bolt) where
  abbrev is_known : Bucket → Text → Bool
  is_known bucket j = not (is_none (bolt.get bucket j))

  -- What a URL holds afterwards: the newest listing, waiting in the queue unless it was sent; or,
  -- if no listing has it, what it held before.
  abbrev pub Holds : Option Book → Option Value → Option Value → Type 0
  Holds none before after = after ≡ before
  Holds (some book) before after =
      (r : BookRecord) × (after ≡ some (json r)) × (r.book ≡ book) × IsQueued r

  -- What a URL without a record holds afterwards: a record that waits to be sent, or nothing if it is
  -- not listed.
  abbrev pub IsFresh : ℤ → Option Book → Option Value → Type 0
  IsFresh observed_at none after = after ≡ none
  IsFresh observed_at (some book) after =
      (r : BookRecord) × (after ≡ some (json r)) × (r.sent ≡ false) × (r.observed_at ≡ observed_at)

  pub record Discovered (before : Bucket) (books : List Book) (observed_at : ℤ) (created : ℕ)
      (after : Bucket) : Type 0 where
    pub fresh :
        (j : Text)
        → bolt.get before j ≡ none
        → IsFresh observed_at (newest_for j books) (bolt.get after j)
    pub keeps : (j : Text) → Extends (bolt.get before j) (bolt.get after j)
    pub holds : (j : Text) → Holds (newest_for j books) (bolt.get before j) (bolt.get after j)
    pub counts : created ≡ count_unknown (is_known before) books

  Discovered-nil : (observed_at : ℤ) (bucket : Bucket) → Discovered bucket [] observed_at 0 bucket
  unfolding newest_for count_unknown
  Discovered-nil observed_at bucket = record {
    fresh = λ j unknown. unknown;
    keeps = λ j. Extends-refl (bolt.get bucket j);
    holds = λ j. refl;
    counts = refl;
  }

  module _ {before middle : Bucket} {book : Book} {observed_at : ℤ} {is_new : Bool}
      (step : Records bolt laws before book observed_at is_new middle) where
    step-keeps : (j : Text) → Extends (bolt.get before j) (bolt.get middle j)
    step-keeps j = elim (Bool-cases (text_eq book.buy_url j)) [
      | inl hit ↦
          rw (step.values j, hit)
            (subst (λ k. Extends (bolt.get before k) (some (json step.stored)))
              ((text_eq_iff book.buy_url j).0 hit) step.is_stored.extends)
      | inr miss ↦ rw (step.values j, miss) (Extends-refl (bolt.get before j))
    ]

    -- What the key of the book holds carries over a later round that does not list the URL again.
    step-Holds :
        (j : Text) (later : Option Book) (after : Option Value)
        → Holds later (bolt.get middle j) after
        → Holds
            (later_or later (if text_eq book.buy_url j then some book else none))
            (bolt.get before j)
            after
    step-Holds j (some newer) after h = h
    step-Holds j none after h = elim (Bool-cases (text_eq book.buy_url j)) [
      | inl hit ↦
          rw hit (
            step.stored,
            h ∙ (step.values j ∙ rw hit),
            step.is_stored.of_book,
            step.is_stored.queued,
          )
      | inr miss ↦ rw miss (h ∙ (step.values j ∙ rw miss))
    ]

    -- A URL that had no record, behind a round and the rounds that follow it.
    step-IsFresh :
        (j : Text) (later : Option Book) (after : Option Value)
        → bolt.get before j ≡ none
        → Extends (bolt.get middle j) after
        → (bolt.get middle j ≡ none → IsFresh observed_at later after)
        → IsFresh observed_at
            (later_or later (if text_eq book.buy_url j then some book else none))
            after
    step-IsFresh j later after unknown kept rest = elim (Bool-cases (text_eq book.buy_url j)) [
      | inl hit ↦
          let stored : bolt.get middle j ≡ some (json step.stored) = step.values j ∙ rw hit in
          let (new, found, same) = subst (λ o. Extends o after) stored kept in
          let (waits, seen) =
            step.is_stored.fresh
              (ap (bolt.get before) ((text_eq_iff book.buy_url j).0 hit) ∙ unknown) in
          let fresh : IsFresh observed_at (some book) after =
            (new, found, same.sent ∙ waits, same.observed_at ∙ seen) in
          rw hit (only later fresh)
      | inr miss ↦ rw miss (neither later (rest (step.values j ∙ rw miss unknown)))
    ]
      where
        only :
            (later : Option Book)
            → IsFresh observed_at (some book) after
            → IsFresh observed_at (later_or later (some book)) after
        only none fresh = fresh
        only (some newer) fresh = fresh

        neither :
            (later : Option Book)
            → IsFresh observed_at later after
            → IsFresh observed_at (later_or later none) after
        neither none fresh = fresh
        neither (some newer) fresh = fresh

    step-is_known : (j : Text) → is_known middle j ≡ (text_eq book.buy_url j || is_known before j)
    step-is_known j = ground (arith, step.values j)

    step-is_known_again :
        is_known before book.buy_url ≡ true → (j : Text) → is_known middle j ≡ is_known before j
    step-is_known_again known j = elim (Bool-cases (text_eq book.buy_url j)) [
      | inl hit ↦
          step-is_known j
          ∙ rw (
            hit,
            subst (λ k. is_known before k ≡ true) ((text_eq_iff book.buy_url j).0 hit) known,
          )
      | inr miss ↦ step-is_known j ∙ rw miss
    ]

    Discovered-cons :
        (books : List Book) (created : ℕ) (after : Bucket)
        → Discovered middle books observed_at created after
        → Discovered before
            (book ∷ books)
            observed_at
            (if is_new then suc created else created)
            after
    unfolding newest_for count_unknown
    Discovered-cons books created after rest = record {
      fresh = λ j unknown.
          step-IsFresh j (newest_for j books) (bolt.get after j) unknown (rest.keeps j)
            (rest.fresh j);
      keeps = λ j.
          Extends-trans (bolt.get before j) (bolt.get middle j) (bolt.get after j) (step-keeps j)
            (rest.keeps j);
      holds = λ j. step-Holds j (newest_for j books) (bolt.get after j) (rest.holds j);
      counts = ground (
        arith,
        step.new,
        rest.counts,
        count_unknown-congr (is_known middle) (λ j. text_eq book.buy_url j || is_known before j)
            books step-is_known,
        count_unknown-congr (is_known middle) (is_known before) books,
        step-is_known_again,
      );
    }

  record_books-Discovered :
      (ctx : Context) (poll : ℕ) (before after : Bucket) (books : List Book) (observed_at : ℤ)
      (created : ℕ)
      → record_books bolt ctx poll before books observed_at ≡ ok (created, after)
      → Discovered before books observed_at created after
  unfolding record_books
  record_books-Discovered ctx poll before after [] observed_at created h =
      subst (λ (r : ℕ × Bucket). Discovered before [] observed_at r.0 r.1) (ok-injective h)
        (Discovered-nil observed_at before)
  record_books-Discovered ctx poll before after (book ∷ books) observed_at created h =
      let (_, _, round) = bind-eq-ok (refuse_if (ctx poll) cancelled) _ h in
      let ((is_new, middle), recorded, rest) =
        bind-eq-ok (record_book bolt before book observed_at) _ round in
      let ((n, final), later, done) =
        bind-eq-ok (record_books bolt ctx (suc poll) middle books observed_at) _ rest in
      subst (λ (r : ℕ × Bucket). Discovered before (book ∷ books) observed_at r.0 r.1)
        (ok-injective done)
        (Discovered-cons
          (record_book-Records bolt laws before middle book observed_at is_new recorded) books n
          final (record_books-Discovered ctx (suc poll) middle final books observed_at n later))

  -- After a successful `RecordDiscovered`: every record that was there keeps its times, whether it
  -- was sent and its place in the queue, every URL that is listed holds its newest listing, queued
  -- unless it was sent, every listed URL that had no record holds one that is not sent, seen at the
  -- time of the call, every other URL holds what it held, and the count is that of the URLs that had
  -- no record. After an error the database is what it was.
  pub record_discovered-Discovered :
      (ctx : Context) (bucket : Bucket) (books : List Book) (observed_at : ℤ)
      → ((created : ℕ)
          → (record_discovered bolt ctx bucket books observed_at).0 ≡ ok created
          → Discovered bucket books observed_at created
              (record_discovered bolt ctx bucket books observed_at).1)
        × ((e : Error)
            → (record_discovered bolt ctx bucket books observed_at).0 ≡ err e
            → (record_discovered bolt ctx bucket books observed_at).1 ≡ bucket)
  unfolding record_discovered
  record_discovered-Discovered ctx bucket books observed_at = elim (Bool-cases (ctx 0)) [
    | inl done ↦ rw (done, record_discovered) (λ created h. cc h, λ e h. refl)
    | inr live ↦
        let r : Result (ℕ × Bucket) = record_books bolt ctx 1 bucket books observed_at in
        rw (live, record_discovered)
          (
            λ created h.
                record_books-Discovered ctx 1 bucket (update bolt bucket r).1 books observed_at
                  created (update-ok bolt bucket r created h),
            λ e h. update-err bolt bucket r e h,
          )
  ]
