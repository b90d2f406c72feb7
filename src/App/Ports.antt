-- ===== src/App/Ports.antt =====
-- internal/app/service.go: what the service is given, `Dependencies` and its interfaces.
use alib_fetcher.Base.{ℕ, List, Text, ℤ, Option, Bool}
use alib_fetcher.Html.{Node}
use alib_fetcher.Alib.Book.{Book}
use alib_fetcher.Digest.Item.{LocalTime}
use alib_fetcher.Digest.Limits as Limits

-- `(A, error)`
pub data Attempt {ℓ} (E : Type 0) (A : Type ℓ) : Type ℓ where
  failed : E → Attempt E A
  done : A → Attempt E A

-- internal/alib/client.go
pub record FetchResult : Type 0 where
  pub books : List Book
  pub failed_buy_urls : List Text
  pub unidentified_failures : ℕ

-- A call of an adapter: it may fail, and it changes the world.
abbrev pub Call : Type 0 → Type 0 → Type 0 → Type 0
Call World E A = World → Attempt E A × World

-- `Fetcher`, `State`, `Sender`, `FreshBooksPolicy` and the functions of `Dependencies`. `Ctx` stands
-- for the contexts, `E` for the errors of the adapters, `World` for all that they can change.
pub record Dependencies (World Ctx E : Type 0) : Type 0 where
  pub fetch_with_result : Ctx → Call World E FetchResult
  pub prune : Ctx → ℤ → Call World E ℕ
  pub existing : Ctx → List Book → Call World E (List Bool)
  pub record_discovered : Ctx → List Book → ℤ → Call World E ℕ
  pub pending : Ctx → Call World E (List Book)
  pub mark_sent : Ctx → List Book → ℤ → Call World E (Unit {0})
  pub send : Ctx → Text → Bool → Bool → Call World E (Unit {0})
  pub lower_year : Option (ℤ → ℤ)
  -- `cycleTime.In(Location)`
  pub local_time : ℤ → LocalTime
  pub now : World → ℤ
  pub wait : Ctx → ℤ → Call World E (Unit {0})
  pub before_delivery : Option (Ctx → Call World E (Unit {0}))
  pub message_limit : ℤ
  -- `context.WithoutCancel`
  pub without_cancel : Ctx → Ctx
  -- the delay of an error that `errors.As` finds to have one
  pub retry_after : E → Option ℤ
  -- the parser behind the renderer
  pub html_parse : Text → Option Node

-- The errors of the service, by the text that they are wrapped in.
pub data ServiceError (E : Type 0) : Type 0 where
  prune_failed fetch_failed existing_failed record_failed pending_failed : E → ServiceError E
  existing_invalid : ServiceError E
  render_failed : Limits.Error → ServiceError E
  prepare_failed send_failed wait_failed mark_failed : E → ServiceError E
