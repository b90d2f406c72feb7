-- ===== src/App/Run/Cycle.antt =====
-- internal/app/service.go: what a digest cycle that ends without an error has done.
use alib_fetcher.Base.{
  ℕ, ◌≡◌, ◌+◌, ◌==◌, length, refl, sym, ap, subst, List, [], ◌∷◌, ℤ, Bool, none, some, inl, inr,
  Bool-cases, arith, ◌-ℤ◌,
}
use alib_fetcher.Alib.Book.{Book}
use alib_fetcher.Digest.Item.{Options}
use alib_fetcher.App.Ports.{Attempt, failed, done, FetchResult, Dependencies, ServiceError}
use alib_fetcher.App.Deliver.Acks.{DeliveryLaws}
use alib_fetcher.App.Service.{
  Recordable, Finished, check_existing, with_keys, recordable_fetched, existing_of, render_options,
  retention,
}
use alib_fetcher.App.Run.{
  run_recorded, record_recordable, run_existing, run_fetched, run_pruned, run,
}
use alib_fetcher.App.Run.Ended.{Cycled, Reached, Looks, Notes, before_sending, run_pending-Cycled}
use alib_fetcher.App.Run.Recorded.{recordable_fetched-admitted}

module _ {World Ctx E : Type 0} (deps : Dependencies World Ctx E) (laws : DeliveryLaws deps) where
  record_recordable-Notes :
      (fuel : ℕ) (ctx : Ctx) (t : ℤ) (options : Options) (books : List Book) (w w' : World) (n : ℕ)
      → record_recordable deps fuel ctx t options books w ≡ (done n, w')
      → Notes deps laws ctx t books w w'
  unfolding record_recordable
  record_recordable-Notes fuel ctx t options [] w w' n h = sym (ap (λ r. r.1) h)
  record_recordable-Notes fuel ctx t options (book ∷ books) w w' n h = (n, h)

  check_existing-eq_done :
      (books : List Book) (call : Attempt E (List Bool) × World) (existing : List Bool) (w' : World)
      → check_existing deps books call ≡ (done existing, w')
      → (call ≡ (done existing, w')) × (length existing ≡ length books)
  unfolding check_existing
  check_existing-eq_done books (failed e, w) existing w' h = cc h
  check_existing-eq_done books (done known, w) existing w' h =
      elim (Bool-cases (length known == length books)) [
        | inl same ↦ ground (arith, h, same)
        | inr other ↦ cc (rw other at h)
      ]

  existing_of-Looks :
      (ctx : Ctx) (books : List Book) (w : World) (existing : List Bool) (w' : World)
      → existing_of deps ctx books w ≡ (done existing, w')
      → Looks deps laws ctx books w existing w'
  unfolding existing_of
  existing_of-Looks ctx [] w existing w' h = (cc h, cc h)
  existing_of-Looks ctx (book ∷ books) w existing w' h =
      check_existing-eq_done (book ∷ books) (deps.existing ctx (book ∷ books) w) existing w' h

  module _ (fuel : ℕ) (ctx : Ctx) (t : ℤ) (options : Options) (start : World) (pruned : ℕ)
      (f : Finished deps) (quiet : f.error ≡ none) where
    run_recorded-Cycled :
        (fetched : FetchResult) (existing : List Bool) (r : Recordable) (call : Attempt E ℕ × World)
        → recordable_fetched deps fetched.books existing
            (with_keys fetched.failed_buy_urls [])
            options
          ≡ r
        → ((n : ℕ) (w : World)
            → call ≡ (done n, w)
            → Reached deps laws ctx t options start fetched existing w)
        → run_recorded deps fuel ctx t options r
            (record (before_sending deps laws fetched r pruned) { new_books = 0 })
            call
          ≡ some f
        → Cycled deps laws ctx t options start pruned f
    unfolding run_recorded
    run_recorded-Cycled fetched existing r (failed e, w) recorded reached h = cc (h, quiet)
    run_recorded-Cycled fetched existing r (done n, w) recorded reached h =
        run_pending-Cycled deps laws fuel ctx t options fetched existing r pruned start w
          (deps.pending ctx w) f (reached n w refl) refl recorded h quiet

    run_existing-Cycled :
        (fetched : FetchResult) (failures : ℕ) (looked : World)
        (call : Attempt (ServiceError E) (List Bool) × World)
        → deps.fetch_with_result ctx start ≡ (done fetched, looked)
        → existing_of deps ctx fetched.books looked ≡ call
        → run_existing deps fuel ctx t options fetched
            (with_keys fetched.failed_buy_urls [])
            (record {
              fetched = length fetched.books;
              new_books = 0;
              sent = 0;
              pruned = pruned;
              failures = failures;
            })
            call
          ≡ some f
        → Cycled deps laws ctx t options start pruned f
    unfolding run_existing
    run_existing-Cycled fetched failures looked (failed e, w) fetch look h = cc (h, quiet)
    run_existing-Cycled fetched failures looked (done existing, w) fetch look h =
        let urls = with_keys fetched.failed_buy_urls [] in
        let r = recordable_fetched deps fetched.books existing urls options in
        let same = (recordable_fetched-admitted deps options fetched.books existing urls).0 in
        run_recorded-Cycled fetched existing r
          (record_recordable deps fuel ctx t options r.recordable w) refl
          (λ n w' recorded. record {
            looked = looked;
            noted = w;
            fetch_called = fetch;
            existing_called = existing_of-Looks ctx fetched.books looked existing w look;
            recorded =
                subst (λ books. Notes deps laws ctx t books w w') same
                  (record_recordable-Notes fuel ctx t options r.recordable w w' n recorded);
          })
          h

    run_fetched-Cycled :
        (call : Attempt E FetchResult × World)
        → deps.fetch_with_result ctx start ≡ call
        → run_fetched deps fuel ctx t options
            (record { fetched = 0; new_books = 0; sent = 0; pruned = pruned; failures = 0 })
            call
          ≡ some f
        → Cycled deps laws ctx t options start pruned f
    unfolding run_fetched
    run_fetched-Cycled (failed e, w) fetch h = cc (h, quiet)
    run_fetched-Cycled (done fetched, w) fetch h =
        run_existing-Cycled fetched
          (fetched.unidentified_failures + length (with_keys fetched.failed_buy_urls [])) w
          (existing_of deps ctx fetched.books w) fetch refl h

  run_pruned-Cycled :
      (fuel : ℕ) (ctx : Ctx) (t : ℤ) (options : Options) (f : Finished deps)
      (call : Attempt E ℕ × World)
      → f.error ≡ none
      → run_pruned deps fuel ctx t options call ≡ some f
      → (pruned : ℕ) × (start : World) × (call ≡ (done pruned, start))
        × Cycled deps laws ctx t options start pruned f
  unfolding run_pruned
  run_pruned-Cycled fuel ctx t options f (failed e, w) quiet h = cc (h, quiet)
  run_pruned-Cycled fuel ctx t options f (done pruned, w) quiet h = (
    pruned,
    w,
    refl,
    run_fetched-Cycled fuel ctx t options w pruned f quiet (deps.fetch_with_result ctx w) refl h,
  )

  -- A digest cycle that ends without an error has made its calls one after the other: it has pruned
  -- the records that are older than fourteen days, fetched, asked which books are known, recorded
  -- those that are known or can be rendered, and read the pending ones. The URLs that failed are,
  -- each once, those of the fetcher and of new listings that cannot be rendered; of the books that
  -- `Pending` returned it has sent and marked exactly those that can be rendered and did not fail,
  -- and it has counted them, the new books and the failures. No book that failed is marked.
  pub run-Cycled :
      (fuel : ℕ) (ctx : Ctx) (w : World) (f : Finished deps)
      → run deps fuel ctx w ≡ some f
      → f.error ≡ none
      → (pruned : ℕ) × (start : World) × (deps.prune ctx (deps.now w -ℤ retention) w
          ≡ (done pruned, start))
        × Cycled deps laws ctx (deps.now w) (render_options deps (deps.now w)) start pruned f
  unfolding run
  run-Cycled fuel ctx w f h quiet =
      run_pruned-Cycled fuel ctx (deps.now w) (render_options deps (deps.now w)) f
        (deps.prune ctx (deps.now w -ℤ retention) w) quiet h
