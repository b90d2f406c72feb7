-- ===== src/App/Service.antt =====
-- internal/app/service.go: `Run` and the steps that it is made of.
use alib_fetcher.Base.{
  ℕ, suc, ◌+◌, ◌*◌, List, [], ◌∷◌, ◌++◌, Text, ℤ, pos, Option, none, some, Bool, true, false, not,
  if◌then◌else◌, ltb_ℤ, eqb_ℤ, ◌==◌, length, contains, sort_stable,
}
use alib_fetcher.Alib.Book.{Book}
use alib_fetcher.Digest.Item.{Options}
use alib_fetcher.Digest.Limits as Limits
use alib_fetcher.Digest.Chunks.{Chunk, Rendered, render_sendable}
use alib_fetcher.App.Ports.{
  Attempt, failed, done, Dependencies, ServiceError, existing_failed, existing_invalid,
  render_failed, prepare_failed,
}
use alib_fetcher.App.Deliver.{Delivery, is_nil, deliver}

-- `Result`
pub record RunResult : Type 0 where
  pub fetched : ℕ
  pub new_books : ℕ
  pub sent : ℕ
  pub pruned : ℕ
  pub failures : ℕ

-- The keys of a `map[string]struct{}`, each once.
unfoldable pub with_key : Text → List Text → List Text
with_key key keys = if contains keys key then keys else keys ++ key ∷ []

unfoldable pub with_keys : List Text → List Text → List Text
unfolding with_key
with_keys [] keys = keys
with_keys (key ∷ rest) keys = with_keys rest (with_key key keys)

-- Books without a year come first, then the newest.
unfoldable pub year_less : Book → Book → Bool
year_less left right =
    if eqb_ℤ left.publication_year (pos 0)
    then not (eqb_ℤ right.publication_year (pos 0))
    else if eqb_ℤ right.publication_year (pos 0)
    then false
    else ltb_ℤ right.publication_year left.publication_year

unfoldable pub sort_pending : List Book → List Book
unfolding year_less
sort_pending books = sort_stable year_less books

-- The three results of the loop of `recordableFetched`.
pub record Recordable : Type 0 where
  pub recordable : List Book
  pub new_books : ℕ
  pub failed_urls : List Text

abbrev pub lower_year_of : Option (ℤ → ℤ) → ℤ → Option ℤ
lower_year_of none year = none
lower_year_of (some policy) year = some (policy year)

-- `14*24*time.Hour` in nanoseconds.
abbrev pub retention : ℤ
retention = pos (14 * 24 * 3600 * 1000000000)

module _ {World Ctx E : Type 0} (deps : Dependencies World Ctx E) where
  unfoldable pub render_options : ℤ → Options
  render_options cycle_time =
      let local_time = deps.local_time cycle_time in
      record {
        local_time = local_time;
        fresh_books_lower_year = lower_year_of deps.lower_year local_time.year;
        limit = deps.message_limit;
      }

  -- One round: a new book that cannot be rendered is not recorded.
  unfoldable pub recordable_book : Book → Bool → Bool → Recordable → Recordable
  unfolding with_key
  recordable_book book true rendered r = record r { recordable = r.recordable ++ book ∷ [] }
  recordable_book book false false r = record r {
    failed_urls = with_key book.buy_url r.failed_urls;
  }
  recordable_book book false true r = record r {
    recordable = r.recordable ++ book ∷ [];
    new_books = suc r.new_books;
  }

  -- The two lists have the same length.
  unfoldable pub recordable_from : List Book → List Bool → Options → Recordable → Recordable
  unfolding recordable_book
  recordable_from [] existing options r = r
  recordable_from (book ∷ books) [] options r = r
  recordable_from (book ∷ books) (known ∷ existing) options r =
      recordable_from books existing options (
        recordable_book book known (Limits.is_ok (Limits.render_book deps.html_parse book options))
          r)

  unfoldable pub recordable_fetched : List Book → List Bool → List Text → Options → Recordable
  unfolding recordable_from
  recordable_fetched books existing failed_urls options =
      recordable_from books existing options
        (record { recordable = []; new_books = 0; failed_urls = failed_urls })

  unfoldable pub check_existing :
      List Book → Attempt E (List Bool) × World → Attempt (ServiceError E) (List Bool) × World
  check_existing books (failed e, w) = (failed (existing_failed e), w)
  check_existing books (done existing, w) =
      if length existing == length books then (done existing, w) else (failed existing_invalid, w)

  unfoldable pub existing_of :
      Ctx → List Book → World → Attempt (ServiceError E) (List Bool) × World
  unfolding check_existing
  existing_of ctx [] w = (done [], w)
  existing_of ctx (book ∷ books) w =
      check_existing (book ∷ books) (deps.existing ctx (book ∷ books) w)

  -- What `renderAndSend` returns, and what `Run` returns.
  pub record Shipment : Type 0 where
    pub sent : ℕ
    pub failures : ℕ
    pub error : Option (ServiceError E)
    pub world : World

  pub record Finished : Type 0 where
    pub result : RunResult
    pub error : Option (ServiceError E)
    pub world : World

  abbrev pub shipped : ℕ → Option (Delivery World E) → Option Shipment
  shipped failures none = none
  shipped failures (some d) =
      some (record { sent = d.sent; failures = failures; error = d.error; world = d.world })

  -- The hook before the first message, where there is one.
  unfoldable pub prepare :
      Bool
      → Option (Ctx → World → Attempt E (Unit {0}) × World)
      → Ctx
      → World
      → Attempt E (Unit {0}) × World
  prepare no_chunks none ctx w = (done tt, w)
  prepare true (some hook) ctx w = (done tt, w)
  prepare false (some hook) ctx w = hook ctx w

  unfoldable pub send_chunks :
      ℕ → Ctx → ℤ → List Chunk → ℕ → Attempt E (Unit {0}) × World → Option Shipment
  send_chunks fuel ctx cycle_time chunks failures (failed e, w) =
      some (record { sent = 0; failures = failures; error = some (prepare_failed e); world = w })
  send_chunks fuel ctx cycle_time chunks failures (done u, w) =
      shipped failures (deliver deps fuel ctx cycle_time chunks 0 w)

  unfoldable pub send_rendered :
      ℕ → Ctx → ℤ → ℕ → Rendered → Option Limits.Error → World → Option Shipment
  unfolding send_chunks prepare
  send_rendered fuel ctx cycle_time previous_failures rendered (some e) w =
      some (record {
        sent = 0;
        failures = previous_failures;
        error = some (render_failed e);
        world = w;
      })
  send_rendered fuel ctx cycle_time previous_failures rendered none w =
      send_chunks fuel ctx cycle_time rendered.chunks
        (previous_failures + length rendered.skipped_buy_urls)
        (prepare (is_nil rendered.chunks) deps.before_delivery ctx w)

  unfoldable pub render_and_send : ℕ → Ctx → List Book → Options → ℤ → ℕ → World → Option Shipment
  unfolding send_rendered
  render_and_send fuel ctx pending options cycle_time previous_failures w =
      let rendered = render_sendable deps.html_parse pending options previous_failures in
      send_rendered fuel ctx cycle_time previous_failures rendered rendered.error w
