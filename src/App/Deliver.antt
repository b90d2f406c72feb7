-- ===== src/App/Deliver.antt =====
-- internal/app/service.go: `send`, `retryDelay` and the loop of `renderAndSend` over the chunks.
pub mod Retries
pub mod Acks
pub mod Loop
use alib_fetcher.Base.{
  ℕ, zero, suc, ◌+◌, List, [], ◌∷◌, Text, ℤ, pos, Option, none, some, Bool, true, false, not,
  if◌then◌else◌, ltb_ℤ, length,
}
use alib_fetcher.Alib.Book.{Book}
use alib_fetcher.Digest.Chunks.{Chunk}
use alib_fetcher.App.Ports.{
  Attempt, failed, done, Dependencies, ServiceError, send_failed, wait_failed, mark_failed,
}

-- What the loop over the chunks ends with: the number of books that were sent, and the error.
pub record Delivery (World E : Type 0) : Type 0 where
  pub sent : ℕ
  pub error : Option (ServiceError E)
  pub world : World

abbrev pub is_nil {ℓ} : {A : Type ℓ} → List A → Bool
is_nil [] = true
is_nil (x ∷ xs) = false

module _ {World Ctx E : Type 0} (deps : Dependencies World Ctx E) where
  abbrev positive : Option ℤ → Option ℤ
  positive none = none
  positive (some delay) = if ltb_ℤ (pos 0) delay then some delay else none

  unfoldable pub retry_delay : E → Option ℤ
  retry_delay e = positive (deps.retry_after e)

  -- `none` for a delivery that is still being retried.
  abbrev pub Sending : Type 0
  Sending = Option (Attempt (ServiceError E) (Unit {0}) × World)

  unfoldable pub after_wait : Attempt E (Unit {0}) × World → (World → Sending) → Sending
  after_wait (failed e, w) again = some (failed (wait_failed e), w)
  after_wait (done u, w) again = again w

  unfoldable pub retry : Ctx → E → Option ℤ → World → (World → Sending) → Sending
  unfolding after_wait
  retry ctx e none w again = some (failed (send_failed e), w)
  retry ctx e (some delay) w again = after_wait (deps.wait ctx delay w) again

  unfoldable pub after_send : Ctx → Attempt E (Unit {0}) × World → (World → Sending) → Sending
  unfolding retry retry_delay
  after_send ctx (done u, w) again = some (done tt, w)
  after_send ctx (failed e, w) again = retry ctx e (retry_delay e) w again

  -- `send`, with at most `fuel` attempts.
  unfoldable pub send : ℕ → Ctx → Text → Bool → Bool → World → Sending
  send zero ctx content silent attach_refresh w = none
  send (suc fuel) ctx content silent attach_refresh w =
      after_send ctx (deps.send ctx content silent attach_refresh w)
        (send fuel ctx content silent attach_refresh)

  unfoldable pub after_mark :
      ℕ
      → List Book
      → Attempt E (Unit {0}) × World
      → (ℕ → World → Option (Delivery World E))
      → Option (Delivery World E)
  after_mark sent books (failed e, w) continue =
      some (record { sent = sent; error = some (mark_failed e); world = w })
  after_mark sent books (done u, w) continue = continue (sent + length books) w

  -- What follows the message of a chunk.
  unfoldable pub acknowledge :
      Ctx
      → ℤ
      → ℕ
      → List Book
      → Sending
      → (ℕ → World → Option (Delivery World E))
      → Option (Delivery World E)
  unfolding after_mark
  acknowledge ctx cycle_time sent books none continue = none
  acknowledge ctx cycle_time sent books (some (failed e, w)) continue =
      some (record { sent = sent; error = some e; world = w })
  acknowledge ctx cycle_time sent [] (some (done u, w)) continue = continue sent w
  acknowledge ctx cycle_time sent (book ∷ books) (some (done u, w)) continue =
      after_mark sent (book ∷ books)
        (deps.mark_sent (deps.without_cancel ctx) (book ∷ books) cycle_time w) continue

  unfoldable pub deliver : ℕ → Ctx → ℤ → List Chunk → ℕ → World → Option (Delivery World E)
  deliver fuel ctx cycle_time [] sent w = some (record { sent = sent; error = none; world = w })
  deliver fuel ctx cycle_time (chunk ∷ rest) sent w =
      acknowledge ctx cycle_time sent chunk.books
        (send fuel ctx chunk.content (not (is_nil rest)) (is_nil rest) w)
        (deliver fuel ctx cycle_time rest)
