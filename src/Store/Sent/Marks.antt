-- ===== src/Store/Sent/Marks.antt =====
-- internal/store/store.go: what `MarkSent` records.
use alib_fetcher.Base.{
  ℕ, suc, ◌≡◌, ◌≢◌, refl, sym, ap, subst, ◌∙◌, Text, List, [], ◌∷◌, Option, none, some, Bool, true,
  false, ◌||◌, ℤ, pos, if◌then◌else◌, text_eq, text_eq_iff, arith, inl, inr, Bool-cases, any,
}
use alib_fetcher.Alib.Book.{Book}
use alib_fetcher.Store.Record.{
  BookRecord, Value, json, Error, Result, ok, err, ok-injective, bind-eq-ok, refuse_if, cancelled,
  decode_record, validate_record,
}
use alib_fetcher.Store.Bolt.{Bolt, BoltLaws, Context, update, update-ok, update-err}
use alib_fetcher.Store.Discover.Step.{put_record-eq_ok}
use alib_fetcher.Store.Sent.{sent_record, mark_value, mark_books, mark_sent}

-- The record of a delivered book: marked at that time, with its listing and its place in the queue,
-- and with the time when it was first seen, if there was one.
pub record IsSentAt (sent_at : ℤ) (old new : BookRecord) : Type 0 where
  pub book : new.book ≡ old.book
  pub queue_order : new.queue_order ≡ old.queue_order
  pub sent : new.sent ≡ true
  pub at_time : new.sent_at ≡ sent_at
  pub observed_at : old.observed_at ≢ pos 0 → new.observed_at ≡ old.observed_at

sent_record-IsSentAt : (r : BookRecord) (sent_at : ℤ) → IsSentAt sent_at r (sent_record r sent_at)
unfolding sent_record
sent_record-IsSentAt r sent_at = record {
  book = refl;
  queue_order = refl;
  sent = refl;
  at_time = refl;
  observed_at = ground arith;
}

IsSentAt-trans : {t : ℤ} {a b c : BookRecord} → IsSentAt t a b → IsSentAt t b c → IsSentAt t a c
IsSentAt-trans p q = record {
  book = q.book ∙ p.book;
  queue_order = q.queue_order ∙ p.queue_order;
  sent = q.sent;
  at_time = q.at_time;
  observed_at = λ h. q.observed_at (λ z. h (sym (p.observed_at h) ∙ z)) ∙ p.observed_at h;
}

abbrev pub lists : List Book → Text → Bool
lists books j = any (λ (book : Book). text_eq book.buy_url j) books

-- A key whose listing was delivered held a record, which is marked; any other is as it was.
abbrev pub Marked : Bool → ℤ → Option Value → Option Value → Type 0
Marked true sent_at old new =
    (r : BookRecord) × (s : BookRecord) × (old ≡ some (json r))
    × (new ≡ some (json s))
    × IsSentAt sent_at r s
Marked false sent_at old new = new ≡ old

Marked-here :
    (r : BookRecord) (old middle new : Option Value) (sent_at : ℤ) (later : Bool)
    → old ≡ some (json r)
    → middle ≡ some (json (sent_record r sent_at))
    → Marked later sent_at middle new
    → Marked true sent_at old new
Marked-here r old middle new sent_at false held step rest =
    (r, sent_record r sent_at, held, rest ∙ step, sent_record-IsSentAt r sent_at)
Marked-here r old middle new sent_at true held step (r', s, was, is, marked) =
    let same : r' ≡ sent_record r sent_at = cc (was, step) in
    (
      r,
      s,
      held,
      is,
      IsSentAt-trans (sent_record-IsSentAt r sent_at)
          (subst (λ x. IsSentAt sent_at x s) same marked),
    )

module _ {Bucket : Type 0} (bolt : Bolt Bucket) (laws : BoltLaws bolt) where
  -- One round: the record of the book's own key is marked.
  record Marks (bucket : Bucket) (key : Text) (sent_at : ℤ) (after : Bucket) : Type 0 where
    old : BookRecord
    found : bolt.get bucket key ≡ some (json old)
    values :
        (j : Text)
        → bolt.get after j
          ≡ (if text_eq key j then some (json (sent_record old sent_at)) else bolt.get bucket j)

  mark_value-Marks :
      (bucket after : Bucket) (key : Text) (sent_at : ℤ) (value : Option Value)
      → bolt.get bucket key ≡ value
      → mark_value bolt bucket key sent_at value ≡ ok after
      → Marks bucket key sent_at after
  unfolding mark_value decode_record validate_record
  mark_value-Marks bucket after key sent_at (some (json r)) found h = record {
    old = r;
    found = found;
    values = λ j.
        laws.get-put bucket after key j (json (sent_record r sent_at))
          (put_record-eq_ok bolt laws bucket after key (sent_record r sent_at) (ground arith)).1;
  }
  mark_value-Marks bucket after key sent_at none found h = cc
  mark_value-Marks bucket after key sent_at (some value) found h = cc

  Marked-cons :
      (bucket middle : Bucket) (key : Text) (sent_at : ℤ) (later : Bool) (j : Text)
      (new : Option Value)
      → Marks bucket key sent_at middle
      → Marked later sent_at (bolt.get middle j) new
      → Marked (text_eq key j || later) sent_at (bolt.get bucket j) new
  Marked-cons bucket middle key sent_at later j new step rest = elim (Bool-cases (text_eq key j)) [
    | inl hit ↦
        let held =
          subst (λ k. bolt.get bucket k ≡ some (json step.old)) ((text_eq_iff key j).0 hit)
            step.found in
        rw hit (
          Marked-here step.old (bolt.get bucket j) (bolt.get middle j) new sent_at later held
            (step.values j ∙ rw hit) rest)
    | inr miss ↦ rw miss (subst (λ o. Marked later sent_at o new) (step.values j ∙ rw miss) rest)
  ]

  mark_books-Marked :
      (ctx : Context) (poll : ℕ) (bucket after : Bucket) (books : List Book) (sent_at : ℤ)
      → mark_books bolt ctx poll bucket books sent_at ≡ ok (tt, after)
      → (j : Text) → Marked (lists books j) sent_at (bolt.get bucket j) (bolt.get after j)
  unfolding mark_books any
  mark_books-Marked ctx poll bucket after [] sent_at h j =
      ap (λ (r : Unit {0} × Bucket). bolt.get r.1 j) (sym (ok-injective h))
  mark_books-Marked ctx poll bucket after (book ∷ books) sent_at h j =
      let key : Text = book.buy_url in
      let (_, _, round) = bind-eq-ok (refuse_if (ctx poll) cancelled) _ h in
      let (middle, step, rest) =
        bind-eq-ok (mark_value bolt bucket key sent_at (bolt.get bucket key)) _ round in
      Marked-cons bucket middle key sent_at (lists books j) j (bolt.get after j)
        (mark_value-Marks bucket middle key sent_at (bolt.get bucket key) refl step)
        (mark_books-Marked ctx (suc poll) middle after books sent_at rest j)

  -- A successful `MarkSent` marks the record of every book that is given, each of which had one,
  -- and changes no other key. After an error the database is what it was.
  pub mark_sent-Marked :
      (ctx : Context) (bucket : Bucket) (books : List Book) (sent_at : ℤ)
      → ((mark_sent bolt ctx bucket books sent_at).0 ≡ ok tt
          → (j : Text)
          → Marked
              (lists books j)
              sent_at
              (bolt.get bucket j)
              (bolt.get (mark_sent bolt ctx bucket books sent_at).1 j))
        × ((e : Error)
            → (mark_sent bolt ctx bucket books sent_at).0 ≡ err e
            → (mark_sent bolt ctx bucket books sent_at).1 ≡ bucket)
  unfolding mark_sent
  mark_sent-Marked ctx bucket books sent_at = elim (Bool-cases (ctx 0)) [
    | inl done ↦ rw (done, mark_sent) (λ h. cc h, λ e h. refl)
    | inr live ↦
        let r : Result (Unit {0} × Bucket) = mark_books bolt ctx 1 bucket books sent_at in
        rw (live, mark_sent)
          (
            λ h.
                mark_books-Marked ctx 1 bucket (update bolt bucket r).1 books sent_at
                  (update-ok bolt bucket r tt h),
            λ e h. update-err bolt bucket r e h,
          )
  ]
