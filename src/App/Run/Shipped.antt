-- ===== src/App/Run/Shipped.antt =====
-- internal/app/service.go: what `renderAndSend` sends and marks.
use alib_fetcher.Base.{
  ℕ, suc, ◌+◌, ◌≡◌, refl, sym, ap, subst, ◌∙◌, List, [], ◌∷◌, ◌++◌, Text, ℤ, Bool, true, false, not,
  ◌||◌, length, keep, arith, map, Option, none, some,
}
use mathlib.Core.List.{append-nil}
use alib_fetcher.Alib.Book.{Book}
use alib_fetcher.Digest.Item.{Options}
use alib_fetcher.Digest.Limits as Limits
use alib_fetcher.Digest.Chunks.{Chunk, Rendered, render_sendable}
use alib_fetcher.Digest.Chunks.Books.{acknowledged, renders, render_sendable-partition}
use alib_fetcher.App.Ports.{Attempt, failed, done, Dependencies}
use alib_fetcher.App.Deliver.{Delivery, is_nil, deliver}
use alib_fetcher.App.Deliver.Acks.{DeliveryLaws, any_listing, some-injective}
use alib_fetcher.App.Deliver.Loop.{Delivered, deliver-Delivered}
use alib_fetcher.App.Service.{
  Shipment, shipped, prepare, send_chunks, send_rendered, render_and_send,
}

length-map_urls :
    (books : List Book) → length (map (λ (book : Book). book.buy_url) books) ≡ length books
length-map_urls [] = refl
length-map_urls (book ∷ books) = ap suc (length-map_urls books)

module _ {World Ctx E : Type 0} (deps : Dependencies World Ctx E) (laws : DeliveryLaws deps) where
  -- A shipment without an error.
  pub record Shipped (w : World) (pending : List Book) (options : Options) (previous_failures : ℕ)
      (s : Shipment deps) : Type 0 where
    pub counts : s.sent ≡ length (keep (renders deps.html_parse options) pending)
    pub failures :
        s.failures
        ≡ previous_failures
          + length (keep (λ book. not (renders deps.html_parse options book)) pending)
    pub marks :
        (j : Text)
        → laws.is_sent s.world j
          ≡ (any_listing (keep (renders deps.html_parse options) pending) j || laws.is_sent w j)
    pub messages :
        laws.accepted s.world
        ≡ laws.accepted w
          ++ map
              (λ (chunk : Chunk). chunk.content)
              (render_sendable deps.html_parse pending options previous_failures).chunks

  append-nil_left : (xs ys : List Chunk) → xs ++ ys ≡ [] → xs ≡ []
  append-nil_left [] ys h = refl
  append-nil_left (x ∷ xs) ys h = cc h

  Delivered-complete :
      (w : World) (chunks : List Chunk) (d : Delivery World E)
      → Delivered deps laws w chunks 0 d
      → d.error ≡ none
      → (d.sent ≡ length (acknowledged chunks))
        × ((j : Text)
            → laws.is_sent d.world j ≡ (any_listing (acknowledged chunks) j || laws.is_sent w j))
        × (laws.accepted d.world ≡ laws.accepted w ++ map (λ (c : Chunk). c.content) chunks)
  Delivered-complete w chunks d r none_left =
      let nothing = r.complete none_left in
      let all : r.finished ≡ chunks =
        sym (r.split ∙ ap (λ cs. r.finished ++ cs) nothing ∙ append-nil r.finished) in
      let messages : r.finished ++ r.unmarked ≡ chunks =
        ap (λ cs. r.finished ++ cs) (append-nil_left r.unmarked r.untouched nothing)
        ∙ append-nil r.finished
        ∙ all in
      (
        omega (arith, r.counts) ∙ ap (λ cs. length (acknowledged cs)) all,
        λ j. r.marks j ∙ ap (λ cs. any_listing (acknowledged cs) j || laws.is_sent w j) all,
        r.messages ∙ ap (λ cs. laws.accepted w ++ map (λ (c : Chunk). c.content) cs) messages,
      )

  prepare_keeps :
      (no_chunks : Bool) (hook : Option (Ctx → World → Attempt E (Unit {0}) × World)) (ctx : Ctx)
      (w : World)
      → deps.before_delivery ≡ hook
      → ((j : Text) → laws.is_sent (prepare deps no_chunks hook ctx w).1 j ≡ laws.is_sent w j)
        × (laws.accepted (prepare deps no_chunks hook ctx w).1 ≡ laws.accepted w)
  unfolding prepare
  prepare_keeps no_chunks none ctx w h = (λ j. refl, refl)
  prepare_keeps true (some hook) ctx w h = (λ j. refl, refl)
  prepare_keeps false (some hook) ctx w h = laws.hook_keeps hook ctx w h

  -- All chunks went out and all their books are marked.
  record Completed (w : World) (chunks : List Chunk) (failures : ℕ) (s : Shipment deps)
      : Type 0 where
    counts : s.sent ≡ length (acknowledged chunks)
    marks :
        (j : Text)
        → laws.is_sent s.world j ≡ (any_listing (acknowledged chunks) j || laws.is_sent w j)
    messages : laws.accepted s.world ≡ laws.accepted w ++ map (λ (c : Chunk). c.content) chunks
    same_failures : s.failures ≡ failures

  shipped-Completed :
      (w : World) (chunks : List Chunk) (failures : ℕ) (delivery : Option (Delivery World E))
      (s : Shipment deps)
      → ((d : Delivery World E) → delivery ≡ some d → Delivered deps laws w chunks 0 d)
      → shipped deps failures delivery ≡ some s
      → s.error ≡ none
      → Completed w chunks failures s
  shipped-Completed w chunks failures none s delivered h quiet = cc h
  shipped-Completed w chunks failures (some d) s delivered h quiet =
      let same = some-injective h in
      let all =
        Delivered-complete w chunks d (delivered d refl)
          (ap (λ (x : Shipment deps). x.error) same ∙ quiet) in
      subst (Completed w chunks failures) same
        (record { counts = all.0; marks = all.1; messages = all.2; same_failures = refl })

  send_chunks-Completed :
      (fuel : ℕ) (ctx : Ctx) (t : ℤ) (chunks : List Chunk) (failures : ℕ)
      (prepared : Attempt E (Unit {0}) × World) (s : Shipment deps)
      → send_chunks deps fuel ctx t chunks failures prepared ≡ some s
      → s.error ≡ none
      → Completed prepared.1 chunks failures s
  unfolding send_chunks
  send_chunks-Completed fuel ctx t chunks failures (failed e, w) s h quiet = cc (h, quiet)
  send_chunks-Completed fuel ctx t chunks failures (done u, w) s h quiet =
      shipped-Completed w chunks failures (deliver deps fuel ctx t chunks 0 w) s
        (λ d delivered. deliver-Delivered deps laws fuel ctx t chunks 0 w d delivered) h quiet

  send_rendered-Completed :
      (fuel : ℕ) (ctx : Ctx) (t : ℤ) (previous_failures : ℕ) (rendered : Rendered)
      (error : Option Limits.Error) (w : World) (s : Shipment deps)
      → send_rendered deps fuel ctx t previous_failures rendered error w ≡ some s
      → s.error ≡ none
      → (error ≡ none)
        × Completed w rendered.chunks (previous_failures + length rendered.skipped_buy_urls) s
  unfolding send_rendered
  send_rendered-Completed fuel ctx t previous_failures rendered (some e) w s h quiet = cc (h, quiet)
  send_rendered-Completed fuel ctx t previous_failures rendered none w s h quiet =
      let prepared = prepare deps (is_nil rendered.chunks) deps.before_delivery ctx w in
      let all =
        send_chunks-Completed fuel ctx t rendered.chunks
          (previous_failures + length rendered.skipped_buy_urls) prepared s h quiet in
      let keeps = prepare_keeps (is_nil rendered.chunks) deps.before_delivery ctx w refl in
      (
        refl,
        record {
          counts = all.counts;
          marks = λ j.
              all.marks j ∙ ap (λ b. any_listing (acknowledged rendered.chunks) j || b) (keeps.0 j);
          messages =
              all.messages
              ∙ ap (λ texts. texts ++ map (λ (c : Chunk). c.content) rendered.chunks) keeps.1;
          same_failures = all.same_failures;
        },
      )

  -- When `renderAndSend` returns no error, all messages of the digest were accepted, in order; the
  -- books that it marks and counts are exactly those of the pending ones that can be rendered, and
  -- all others are counted as failures.
  pub render_and_send-Shipped :
      (fuel : ℕ) (ctx : Ctx) (pending : List Book) (options : Options) (cycle_time : ℤ)
      (previous_failures : ℕ) (w : World) (s : Shipment deps)
      → render_and_send deps fuel ctx pending options cycle_time previous_failures w ≡ some s
      → s.error ≡ none
      → Shipped w pending options previous_failures s
  unfolding render_and_send
  render_and_send-Shipped fuel ctx pending options cycle_time previous_failures w s h quiet =
      let rendered : Rendered = render_sendable deps.html_parse pending options previous_failures in
      let (clean, all) =
        send_rendered-Completed fuel ctx cycle_time previous_failures rendered rendered.error w s h
          quiet in
      let parts =
        render_sendable-partition deps.html_parse options pending previous_failures clean in
      record {
        counts = all.counts ∙ ap (λ (books : List Book). length books) parts.0;
        failures =
            all.same_failures
            ∙ ap (λ (urls : List Text). previous_failures + length urls) parts.1
            ∙ ap (λ n. previous_failures + n)
                (length-map_urls
                  (keep (λ book. not (renders deps.html_parse options book)) pending));
        marks = λ j. all.marks j ∙ ap (λ books. any_listing books j || laws.is_sent w j) parts.0;
        messages = all.messages;
      }
