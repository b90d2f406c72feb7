-- ===== src/App/Run.antt =====
-- internal/app/service.go: `Run`, from one call of an adapter to the next.
pub mod Sorted
pub mod Recorded
pub mod Shipped
pub mod Failed
pub mod Ended
pub mod Cycle
use alib_fetcher.Base.{
  ℕ, ◌+◌, List, [], ◌∷◌, Text, ℤ, Option, none, some, Bool, not, ◌-ℤ◌, length, keep, contains,
}
use alib_fetcher.Alib.Book.{Book}
use alib_fetcher.Digest.Item.{Options}
use alib_fetcher.App.Ports.{
  Attempt, failed, done, FetchResult, Dependencies, ServiceError, prune_failed, fetch_failed,
  record_failed, pending_failed,
}
use alib_fetcher.App.Service.{
  RunResult, Recordable, Shipment, Finished, with_keys, sort_pending, recordable_fetched,
  existing_of, render_options, render_and_send, retention,
}

abbrev no_result : RunResult
no_result = record { fetched = 0; new_books = 0; sent = 0; pruned = 0; failures = 0 }

-- `slices.DeleteFunc` of the books that failed.
unfoldable pub without_failed : List Text → List Book → List Book
without_failed failed_urls books = keep (λ book. not (contains failed_urls book.buy_url)) books

module _ {World Ctx E : Type 0} (deps : Dependencies World Ctx E) where
  -- `return result, err`
  abbrev pub stop : RunResult → ServiceError E → World → Option (Finished deps)
  stop result e w = some (record { result = result; error = some e; world = w })

  unfoldable pub run_shipped : RunResult → Option (Shipment deps) → Option (Finished deps)
  run_shipped result none = none
  run_shipped result (some s) = some (record {
    result = record result { sent = s.sent; failures = s.failures };
    error = s.error;
    world = s.world;
  })

  -- The variables of `Run` that all steps read.
  module _ (fuel : ℕ) (ctx : Ctx) (cycle_time : ℤ) (options : Options) where
    unfoldable pub run_pending :
        List Text → RunResult → Attempt E (List Book) × World → Option (Finished deps)
    unfolding run_shipped without_failed
    run_pending failed_urls result (failed e, w) = stop result (pending_failed e) w
    run_pending failed_urls result (done books, w) = run_shipped result (
        render_and_send deps fuel ctx (without_failed failed_urls (sort_pending books)) options
          cycle_time result.failures w)

    unfoldable pub run_recorded :
        Recordable → RunResult → Attempt E ℕ × World → Option (Finished deps)
    unfolding run_pending
    run_recorded r result (failed e, w) = stop result (record_failed e) w
    run_recorded r result (done created, w) =
        run_pending r.failed_urls (record result { new_books = r.new_books }) (deps.pending ctx w)

    unfoldable pub record_recordable : List Book → World → Attempt E ℕ × World
    record_recordable [] w = (done 0, w)
    record_recordable (book ∷ books) w = deps.record_discovered ctx (book ∷ books) cycle_time w

    unfoldable pub run_existing :
        FetchResult
        → List Text
        → RunResult
        → Attempt (ServiceError E) (List Bool) × World
        → Option (Finished deps)
    unfolding run_recorded record_recordable
    run_existing f failed_urls result (failed e, w) = stop result e w
    run_existing f failed_urls result (done existing, w) =
        let r = recordable_fetched deps f.books existing failed_urls options in
        run_recorded r (record result { failures = f.unidentified_failures + length r.failed_urls })
          (record_recordable r.recordable w)

    unfoldable pub run_fetched : RunResult → Attempt E FetchResult × World → Option (Finished deps)
    unfolding run_existing
    run_fetched result (failed e, w) = stop result (fetch_failed e) w
    run_fetched result (done f, w) =
        let failed_urls = with_keys f.failed_buy_urls [] in
        run_existing f failed_urls
          (record result {
            fetched = length f.books;
            failures = f.unidentified_failures + length failed_urls;
          })
          (existing_of deps ctx f.books w)

    unfoldable pub run_pruned : Attempt E ℕ × World → Option (Finished deps)
    unfolding run_fetched
    run_pruned (failed e, w) = stop no_result (prune_failed e) w
    run_pruned (done pruned, w) =
        run_fetched (record no_result { pruned = pruned }) (deps.fetch_with_result ctx w)

  -- `none` while a message is still being retried.
  unfoldable pub run : ℕ → Ctx → World → Option (Finished deps)
  unfolding run_pruned
  run fuel ctx w =
      let cycle_time = deps.now w in
      run_pruned fuel ctx cycle_time (render_options deps cycle_time)
        (deps.prune ctx (cycle_time -ℤ retention) w)
