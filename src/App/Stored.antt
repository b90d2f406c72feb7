-- ===== src/App/Stored.antt =====
-- internal/app/service.go with internal/store/store.go: the service over the state database. The
-- state is the bucket of the database; the rest of the world stays abstract.
use alib_fetcher.Base.{
  ◌≡◌, refl, sym, ap, ◌∙◌, List, [], ◌∷◌, ◌++◌, Text, ℤ, Option, none, some, Bool, true, false,
  ◌||◌,
}
use alib_fetcher.Html.{Node}
use alib_fetcher.Alib.Book.{Book}
use alib_fetcher.Digest.Item.{LocalTime}
use alib_fetcher.Store.Record as Record
use alib_fetcher.Store.Record.{BookRecord, Value, json, broken, marker, Error, Result}
use alib_fetcher.Store.Bolt.{Bolt, BoltLaws, Context}
use alib_fetcher.Store.Discover.{record_discovered, existing}
use alib_fetcher.Store.Pending.{pending}
use alib_fetcher.Store.Sent.{mark_sent, prune}
use alib_fetcher.Store.Sent.Marks.{Marked, lists, mark_sent-Marked}
use alib_fetcher.App.Ports.{Attempt, failed, done, FetchResult, Dependencies}
use alib_fetcher.App.Deliver.Acks.{DeliveryLaws}

-- What the service uses beside the state.
pub record Remote (Rest : Type 0) : Type 0 where
  pub fetch_with_result : Context → Rest → Attempt Error FetchResult × Rest
  pub send : Context → Text → Bool → Bool → Rest → Attempt Error (Unit {0}) × Rest
  pub wait : Context → ℤ → Rest → Attempt Error (Unit {0}) × Rest
  pub lower_year : Option (ℤ → ℤ)
  pub local_time : ℤ → LocalTime
  pub now : Rest → ℤ
  pub message_limit : ℤ
  pub without_cancel : Context → Context
  pub retry_after : Error → Option ℤ
  pub html_parse : Text → Option Node
  -- the messages for which `Send` has returned no error
  pub accepted : Rest → List Text

pub record RemoteLaws {Rest : Type 0} (remote : Remote Rest) : Type 0 where
  pub send_done :
      (ctx : Context) (content : Text) (silent attach_refresh : Bool) (r r' : Rest)
      → remote.send ctx content silent attach_refresh r ≡ (done tt, r')
      → remote.accepted r' ≡ remote.accepted r ++ content ∷ []
  pub send_failed :
      (ctx : Context) (content : Text) (silent attach_refresh : Bool) (r r' : Rest) (e : Error)
      → remote.send ctx content silent attach_refresh r ≡ (failed e, r')
      → remote.accepted r' ≡ remote.accepted r
  pub wait_keeps :
      (ctx : Context) (delay : ℤ) (r : Rest)
      → remote.accepted (remote.wait ctx delay r).1 ≡ remote.accepted r

abbrev pub as_attempt : {A : Type 0} → Result A → Attempt Error A
as_attempt (Record.err e) = failed e
as_attempt (Record.ok a) = done a

as_attempt-eq_done : {A : Type 0} (r : Result A) (a : A) → as_attempt r ≡ done a → r ≡ Record.ok a
as_attempt-eq_done (Record.err e) a h = cc h
as_attempt-eq_done (Record.ok b) a h = cc h

as_attempt-eq_failed :
    {A : Type 0} (r : Result A) (e : Error) → as_attempt r ≡ failed e → r ≡ Record.err e
as_attempt-eq_failed (Record.err f) e h = cc h
as_attempt-eq_failed (Record.ok b) e h = cc h

-- A record that is marked as sent.
abbrev pub sent_value : Option Value → Bool
sent_value none = false
sent_value (some (json r)) = r.sent
sent_value (some (broken v)) = false
sent_value (some (marker v)) = false

Marked-sent_value :
    (listed : Bool) (t : ℤ) (old new : Option Value)
    → Marked listed t old new
    → sent_value new ≡ (listed || sent_value old)
Marked-sent_value true t old new (r, s, was, is, marked) = ap sent_value is ∙ marked.sent
Marked-sent_value false t old new same = ap sent_value same

module _ {Bucket Rest : Type 0} (bolt : Bolt Bucket) (remote : Remote Rest) where
  abbrev beside : {A : Type 0} → Rest → Attempt Error A × Bucket → Attempt Error A × (Bucket × Rest)
  beside r (a, b) = (a, (b, r))

  abbrev behind : {A : Type 0} → Bucket → Attempt Error A × Rest → Attempt Error A × (Bucket × Rest)
  behind b (a, r) = (a, (b, r))

  abbrev changed : {A : Type 0} → Result A × Bucket → Attempt Error A × Bucket
  changed (a, b) = (as_attempt a, b)

  abbrev pub store_backed : Dependencies (Bucket × Rest) Context Error
  store_backed = record {
    fetch_with_result = λ ctx w. behind w.0 (remote.fetch_with_result ctx w.1);
    prune = λ ctx before w. beside w.1 (changed (prune bolt ctx w.0 before));
    existing = λ ctx books w. (as_attempt (existing bolt ctx w.0 books), w);
    record_discovered =
        λ ctx books t w. beside w.1 (changed (record_discovered bolt ctx w.0 books t));
    pending = λ ctx w. (as_attempt (pending bolt ctx w.0), w);
    mark_sent = λ ctx books t w. beside w.1 (changed (mark_sent bolt ctx w.0 books t));
    send = λ ctx content silent attach_refresh w.
        behind w.0 (remote.send ctx content silent attach_refresh w.1);
    lower_year = remote.lower_year;
    local_time = remote.local_time;
    now = λ w. remote.now w.1;
    wait = λ ctx delay w. behind w.0 (remote.wait ctx delay w.1);
    before_delivery = none;
    message_limit = remote.message_limit;
    without_cancel = remote.without_cancel;
    retry_after = remote.retry_after;
    html_parse = remote.html_parse;
  }

  module _ (laws : BoltLaws bolt) (remote_laws : RemoteLaws remote) where
    abbrev Output : Type 0
    Output = Attempt Error (Unit {0}) × (Bucket × Rest)

    abbrev pub is_sent_in : Bucket → Text → Bool
    is_sent_in b j = sent_value (bolt.get b j)

    mark_done :
        (ctx : Context) (books : List Book) (t : ℤ) (w w' : Bucket × Rest)
        → store_backed.mark_sent ctx books t w ≡ (done tt, w')
        → ((j : Text) → is_sent_in w'.0 j ≡ (lists books j || is_sent_in w.0 j))
          × (remote.accepted w'.1 ≡ remote.accepted w.1)
    mark_done ctx books t w w' h =
        let marked = mark_sent bolt ctx w.0 books t in
        let success : marked.0 ≡ Record.ok tt =
          as_attempt-eq_done marked.0 tt (ap (λ (x : Output). x.0) h) in
        let same : marked.1 ≡ w'.0 = ap (λ (x : Output). x.1.0) h in
        (
          λ j.
              ap (λ b. sent_value (bolt.get b j)) (sym same)
              ∙ Marked-sent_value (lists books j) t (bolt.get w.0 j) (bolt.get marked.1 j)
                  ((mark_sent-Marked bolt laws ctx w.0 books t).0 success j),
          ap (λ (x : Output). remote.accepted x.1.1) (sym h),
        )

    mark_failed :
        (ctx : Context) (books : List Book) (t : ℤ) (w w' : Bucket × Rest) (e : Error)
        → store_backed.mark_sent ctx books t w ≡ (failed e, w')
        → ((j : Text) → is_sent_in w'.0 j ≡ is_sent_in w.0 j)
          × (remote.accepted w'.1 ≡ remote.accepted w.1)
    mark_failed ctx books t w w' e h =
        let marked = mark_sent bolt ctx w.0 books t in
        let failure : marked.0 ≡ Record.err e =
          as_attempt-eq_failed marked.0 e (ap (λ (x : Output). x.0) h) in
        let same : w'.0 ≡ w.0 =
          ap (λ (x : Output). x.1.0) (sym h)
          ∙ (mark_sent-Marked bolt laws ctx w.0 books t).1 e failure in
        (
          λ j. ap (λ b. sent_value (bolt.get b j)) same,
          ap (λ (x : Output). remote.accepted x.1.1) (sym h),
        )

    send_done :
        (ctx : Context) (content : Text) (silent attach_refresh : Bool) (w w' : Bucket × Rest)
        → store_backed.send ctx content silent attach_refresh w ≡ (done tt, w')
        → ((j : Text) → is_sent_in w'.0 j ≡ is_sent_in w.0 j)
          × (remote.accepted w'.1 ≡ remote.accepted w.1 ++ content ∷ [])
    send_done ctx content silent attach_refresh w w' h = (
      λ j. ap (λ (x : Output). sent_value (bolt.get x.1.0 j)) (sym h),
      remote_laws.send_done ctx content silent attach_refresh w.1 w'.1
          (ap (λ (x : Output). (x.0, x.1.1)) h),
    )

    send_failed :
        (ctx : Context) (content : Text) (silent attach_refresh : Bool) (w w' : Bucket × Rest)
        (e : Error)
        → store_backed.send ctx content silent attach_refresh w ≡ (failed e, w')
        → ((j : Text) → is_sent_in w'.0 j ≡ is_sent_in w.0 j)
          × (remote.accepted w'.1 ≡ remote.accepted w.1)
    send_failed ctx content silent attach_refresh w w' e h = (
      λ j. ap (λ (x : Output). sent_value (bolt.get x.1.0 j)) (sym h),
      remote_laws.send_failed ctx content silent attach_refresh w.1 w'.1 e
          (ap (λ (x : Output). (x.0, x.1.1)) h),
    )

    -- The state database does what the service relies on: `MarkSent` marks all of its books or
    -- changes nothing, and nothing but `MarkSent` marks a book while messages are sent.
    pub store_backed-laws : DeliveryLaws store_backed
    store_backed-laws = record {
      is_sent = λ w j. is_sent_in w.0 j;
      accepted = λ w. remote.accepted w.1;
      mark_done = mark_done;
      mark_failed = mark_failed;
      send_done = send_done;
      send_failed = send_failed;
      wait_keeps = λ ctx delay w. (λ j. refl, remote_laws.wait_keeps ctx delay w.1);
      hook_keeps = λ hook ctx w h. cc h;
    }
