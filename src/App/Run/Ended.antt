-- ===== src/App/Run/Ended.antt =====
-- internal/app/service.go: the end of a digest cycle, from the pending books on.
use alib_fetcher.Base.{
  ℕ, ◌+◌, ◌≡◌, refl, sym, ap, subst, ◌∙◌, List, [], ◌∷◌, Text, ℤ, Bool, true, ◌||◌, length, any,
  contains, Option, none, some,
}
use alib_fetcher.Alib.Book.{Book}
use alib_fetcher.Digest.Item.{Options}
use alib_fetcher.Digest.Chunks.Books.{renders}
use alib_fetcher.App.Ports.{Attempt, failed, done, FetchResult, Dependencies}
use alib_fetcher.App.Deliver.Acks.{DeliveryLaws, some-injective}
use alib_fetcher.App.Service.{
  RunResult, Recordable, Shipment, Finished, with_keys, sort_pending, recordable_fetched,
  render_and_send,
}
use alib_fetcher.App.Run.{without_failed, run_shipped, run_pending}
use alib_fetcher.Alib.Listings.Outcomes.{AreDistinct}
use alib_fetcher.App.Run.Failed.{
  contains-with_keys, failed-unlisted, with_keys-AreDistinct, recordable_fetched-AreDistinct,
}
use alib_fetcher.App.Run.Shipped.{Shipped, render_and_send-Shipped}
use alib_fetcher.App.Run.Recorded.{recordable_fetched-admitted, admitted, count_new, is_rejected}

module _ {World Ctx E : Type 0} (deps : Dependencies World Ctx E) (laws : DeliveryLaws deps) where
  -- The answer on which books are known; nothing is asked for no books.
  abbrev pub Looks : Ctx → List Book → World → List Bool → World → Type 0
  Looks ctx [] w existing w' = (existing ≡ []) × (w' ≡ w)
  Looks ctx (book ∷ books) w existing w' =
      (deps.existing ctx (book ∷ books) w ≡ (done existing, w'))
      × (length existing ≡ length (book ∷ books))

  -- The books are recorded, if there are any.
  abbrev pub Notes : Ctx → ℤ → List Book → World → World → Type 0
  Notes ctx t [] w w' = w' ≡ w
  Notes ctx t (book ∷ books) w w' =
      (created : ℕ) × (deps.record_discovered ctx (book ∷ books) t w ≡ (done created, w'))

  -- The calls of a cycle at `t` that lead to the one of `Pending`: what was fetched, which of it is
  -- known, and the recording of what is known or can be rendered.
  pub record Reached (ctx : Ctx) (t : ℤ) (options : Options) (start : World) (fetched : FetchResult)
      (existing : List Bool) (before : World) : Type 0 where
    pub looked : World
    pub noted : World
    pub fetch_called : deps.fetch_with_result ctx start ≡ (done fetched, looked)
    pub existing_called : Looks ctx fetched.books looked existing noted
    pub recorded : Notes ctx t (admitted deps options fetched.books existing) noted before

  -- A cycle without an error: what it found, what was pending, and what it did with that.
  pub record Cycled (ctx : Ctx) (t : ℤ) (options : Options) (start : World) (pruned : ℕ)
      (f : Finished deps) : Type 0 where
    pub fetched : FetchResult
    pub existing : List Bool
    pub failed_urls : List Text
    pub pending : List Book
    -- before and after the call of `Pending`
    pub before : World
    pub after : World
    pub reached : Reached ctx t options start fetched existing before
    pub pending_called : deps.pending ctx before ≡ (done pending, after)
    pub distinct : AreDistinct failed_urls
    pub failures :
        (j : Text)
        → contains failed_urls j ≡ (
            contains fetched.failed_buy_urls j || is_rejected deps options fetched.books existing j)
    pub shipment : Shipment deps
    pub shipped :
        Shipped deps laws after
          (without_failed failed_urls (sort_pending pending))
          options
          (fetched.unidentified_failures + length failed_urls)
          shipment
    pub of_result : f.result ≡ record {
      fetched = length fetched.books;
      new_books = count_new deps options fetched.books existing;
      sent = shipment.sent;
      pruned = pruned;
      failures = shipment.failures;
    }
    pub final : f.world ≡ shipment.world
    pub failed_unmarked :
        (j : Text) → contains failed_urls j ≡ true → laws.is_sent f.world j ≡ laws.is_sent after j

  -- The result as `Pending` is called.
  abbrev pub before_sending : FetchResult → Recordable → ℕ → RunResult
  before_sending fetched r pruned = record {
    fetched = length fetched.books;
    new_books = r.new_books;
    sent = 0;
    pruned = pruned;
    failures = fetched.unidentified_failures + length r.failed_urls;
  }

  run_shipped-eq_some :
      (result : RunResult) (shipment : Option (Shipment deps)) (f : Finished deps)
      → run_shipped deps result shipment ≡ some f
      → (s : Shipment deps) × (shipment ≡ some s)
        × (f.error ≡ s.error)
        × (f.world ≡ s.world)
        × (f.result ≡ record result { sent = s.sent; failures = s.failures })
  unfolding run_shipped
  run_shipped-eq_some result none f h = cc h
  run_shipped-eq_some result (some s) f h =
      let same = sym (some-injective h) in
      (
        s,
        refl,
        ap (λ (x : Finished deps). x.error) same,
        ap (λ (x : Finished deps). x.world) same,
        ap (λ (x : Finished deps). x.result) same,
      )

  pub run_pending-Cycled :
      (fuel : ℕ) (ctx : Ctx) (t : ℤ) (options : Options) (fetched : FetchResult)
      (existing : List Bool) (r : Recordable) (pruned : ℕ) (start before : World)
      (call : Attempt E (List Book) × World) (f : Finished deps)
      → Reached ctx t options start fetched existing before
      → deps.pending ctx before ≡ call
      → recordable_fetched deps fetched.books existing
          (with_keys fetched.failed_buy_urls [])
          options
        ≡ r
      → run_pending deps fuel ctx t options r.failed_urls (before_sending fetched r pruned) call
        ≡ some f
      → f.error ≡ none
      → Cycled ctx t options start pruned f
  unfolding run_pending contains any
  run_pending-Cycled fuel ctx t options fetched existing r pruned start before (failed e, w) f
        reached called recorded h quiet =
      cc (h, quiet)
  run_pending-Cycled fuel ctx t options fetched existing r pruned start before (done books, w) f
        reached called recorded h quiet =
      let row = without_failed r.failed_urls (sort_pending books) in
      let failures = fetched.unidentified_failures + length r.failed_urls in
      let (s, ran, same_error, same_world, same_result) =
        run_shipped-eq_some (before_sending fetched r pruned)
          (render_and_send deps fuel ctx row options t failures w) f h in
      let shipped : Shipped deps laws w row options failures s =
        render_and_send-Shipped deps laws fuel ctx row options t failures w s ran
          (sym same_error ∙ quiet) in
      let urls = with_keys fetched.failed_buy_urls [] in
      let admitted = recordable_fetched-admitted deps options fetched.books existing urls in
      record {
        fetched = fetched;
        existing = existing;
        failed_urls = r.failed_urls;
        pending = books;
        before = before;
        after = w;
        reached = reached;
        pending_called = called;
        distinct =
            subst (λ (x : Recordable). AreDistinct x.failed_urls) recorded
              (recordable_fetched-AreDistinct deps options fetched.books existing urls
                (with_keys-AreDistinct fetched.failed_buy_urls [] tt));
        failures = λ j.
            ap (λ (x : Recordable). contains x.failed_urls j) (sym recorded)
            ∙ admitted.2 j
            ∙ ap (λ b. b || is_rejected deps options fetched.books existing j)
                (contains-with_keys fetched.failed_buy_urls [] j);
        shipment = s;
        shipped = shipped;
        of_result =
            same_result
            ∙ ap
                (λ n. record {
                  fetched = length fetched.books;
                  new_books = n;
                  sent = s.sent;
                  pruned = pruned;
                  failures = s.failures;
                })
                (ap (λ (x : Recordable). x.new_books) (sym recorded) ∙ admitted.1);
        final = same_world;
        failed_unmarked = λ j gone.
            ap (λ v. laws.is_sent v j) same_world
            ∙ shipped.marks j
            ∙ ap (λ b. b || laws.is_sent w j)
                (failed-unlisted (renders deps.html_parse options) r.failed_urls
                  (sort_pending books) j gone);
      }
