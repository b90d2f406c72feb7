-- ===== src/Tests/AppRuns.antt =====
-- Runs of the service over the state database in memory, and its theorems at concrete inputs.
use alib_fetcher.Base.{
  ℕ, zero, suc, ◌<◌, ◌≡◌, ◌↔◌, refl, sym, ap, Text, text, List, [], ◌∷◌, ◌++◌, Option, some, none,
  true, false, pos, arith, text_eq, text_lt,
}
use alib_fetcher.Digest.Chunks.{Chunk}
use alib_fetcher.Store.Record.{Error}
use alib_fetcher.Store.Bolt.{Context}
use alib_fetcher.App.Ports.{Attempt, failed, done, FetchResult, Dependencies}
use alib_fetcher.App.Deliver.{Delivery, after_send, send, deliver, after_mark, acknowledge}
use alib_fetcher.App.Deliver.Retries.{Attempts, accepted, retried, send_iff}
use alib_fetcher.App.Deliver.Loop.{Delivered, deliver-Delivered}
use alib_fetcher.App.Deliver.Acks.{DeliveryLaws}
use alib_fetcher.App.Stored.{Remote, RemoteLaws, store_backed, store_backed-laws}
use alib_fetcher.Store.Discover.{
  record_discovered, record_books, record_book, prepare_discovered_record, put_record,
  enqueue_record, renew_record,
}
use alib_fetcher.Store.Sent.{mark_sent, mark_books, mark_value, sent_record}
use alib_fetcher.Store.Record.{decode_record}
use alib_fetcher.Tests.Memory.{Memory, memory, memory-laws, empty_memory, insert_row, remove_row}
use alib_fetcher.Tests.StoreRuns.{live, two_books, found}
use alib_fetcher.Tests.DigestRuns.{whole_text}

-- A sender that refuses as many times as the world counts.
abbrev refuse_first : ℕ → Attempt ℕ (Unit {0}) × ℕ
refuse_first zero = (done tt, 0)
refuse_first (suc n) = (failed 7, n)

abbrev flaky : Dependencies ℕ (Unit {0}) ℕ
flaky = record {
  fetch_with_result = λ ctx w. (failed 0, w);
  prune = λ ctx before w. (failed 0, w);
  existing = λ ctx books w. (failed 0, w);
  record_discovered = λ ctx books t w. (failed 0, w);
  pending = λ ctx w. (failed 0, w);
  mark_sent = λ ctx books t w. (failed 0, w);
  send = λ ctx content silent attach_refresh w. refuse_first w;
  lower_year = none;
  local_time = λ t. record { year = pos 2024; month = 5 };
  now = λ w. pos 0;
  wait = λ ctx delay w. (done tt, w);
  before_delivery = none;
  message_limit = pos 64;
  without_cancel = λ ctx. ctx;
  retry_after = λ e. some (pos e);
  html_parse = whole_text;
}

-- Three refusals that ask for a wait, then the message is accepted.
three_retries : Attempts flaky tt (text "hi") false true 3 3 (done tt, 0)
three_retries =
    retried refl (refl, omega arith) refl
      (retried refl (refl, omega arith) refl
        (retried refl (refl, omega arith) refl (accepted refl)))

send_iff_example :
    (send flaky 4 tt (text "hi") false true 3 ≡ some (done tt, 0))
    ↔ ((n : ℕ) × (n < 4) × Attempts flaky tt (text "hi") false true 3 n (done tt, 0))
send_iff_example = send_iff flaky tt (text "hi") false true 4 3 (done tt, 0)

fourth_attempt_accepted : send flaky 4 tt (text "hi") false true 3 ≡ some (done tt, 0)
fourth_attempt_accepted =
    (send_iff flaky tt (text "hi") false true 4 3 (done tt, 0)).1 (3, omega arith, three_retries)

abbrev two_found : FetchResult
two_found = record { books = two_books; failed_buy_urls = []; unidentified_failures = 0 }

-- The rest of the world: the messages that were accepted.
abbrev pub wire : Remote (List Text)
wire = record {
  fetch_with_result = λ ctx r. (done two_found, r);
  send = λ ctx content silent attach_refresh r. (done tt, r ++ content ∷ []);
  wait = λ ctx delay r. (done tt, r);
  lower_year = none;
  local_time = λ t. record { year = pos 2024; month = 5 };
  now = λ r. pos 2000000000000000;
  message_limit = pos 64;
  without_cancel = λ ctx. ctx;
  retry_after = λ e. none;
  html_parse = whole_text;
  accepted = λ r. r;
}

pub wire-laws : RemoteLaws wire
wire-laws = record {
  send_done = λ ctx content silent attach_refresh r r' h.
      ap (λ (x : Attempt Error (Unit {0}) × List Text). x.1) (sym h);
  send_failed = λ ctx content silent attach_refresh r r' e h. cc h;
  wait_keeps = λ ctx delay r. refl;
}

abbrev pub service : Dependencies (Memory × List Text) Context Error
service = store_backed memory wire

abbrev pub service-laws : DeliveryLaws service
service-laws = store_backed-laws memory wire memory-laws wire-laws

abbrev or_unsent :
    Option (Delivery (Memory × List Text) Error) → Delivery (Memory × List Text) Error
or_unsent none = record { sent = 0; error = none; world = (empty_memory, []) }
or_unsent (some d) = d

abbrev one_chunk : List Chunk
one_chunk = record { content = text "A and B"; books = two_books } ∷ []

abbrev shipment : Option (Delivery (Memory × List Text) Error)
shipment = deliver service 1 live (pos 9) one_chunk 0 (found.1, [])

app_steps : ℕ
unfolding deliver send after_send acknowledge after_mark mark_sent mark_books mark_value sent_record
    record_discovered record_books record_book prepare_discovered_record put_record text_eq text_lt
    enqueue_record renew_record insert_row remove_row decode_record
app_steps = 0

shipment_arrives : shipment ≡ some (or_unsent shipment)
unfolding app_steps
shipment_arrives = refl

deliver-Delivered_example :
    Delivered service service-laws (found.1, []) one_chunk 0 (or_unsent shipment)
deliver-Delivered_example =
    deliver-Delivered service service-laws 1 live (pos 9) one_chunk 0 (found.1, [])
      (or_unsent shipment) shipment_arrives
