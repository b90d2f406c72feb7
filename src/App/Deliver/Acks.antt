-- ===== src/App/Deliver/Acks.antt =====
-- internal/app/service.go: which books are acknowledged, and which messages went out before.
use alib_fetcher.Base.{
  ℕ, zero, suc, ◌≡◌, refl, sym, ap, subst, ◌∙◌, List, [], ◌∷◌, ◌++◌, Text, ℤ, Option, none, some,
  Bool, ◌||◌, any, text_eq,
}
use mathlib.Core.List.{append-nil}
use alib_fetcher.Alib.Book.{Book}
use alib_fetcher.App.Ports.{
  Attempt, failed, done, Dependencies, ServiceError, send_failed, wait_failed,
}
use alib_fetcher.App.Deliver.{Sending, retry_delay, after_wait, retry, after_send, send}

-- Whether one of the books has that URL.
abbrev pub any_listing : List Book → Text → Bool
any_listing books j = any (λ (book : Book). text_eq book.buy_url j) books

-- What the service relies on: what is marked as sent and which messages `Send` has accepted.
pub record DeliveryLaws {World Ctx E : Type 0} (deps : Dependencies World Ctx E) : Type 0 where
  pub is_sent : World → Text → Bool
  pub accepted : World → List Text
  pub mark_done :
      (ctx : Ctx) (books : List Book) (t : ℤ) (w w' : World)
      → deps.mark_sent ctx books t w ≡ (done tt, w')
      → ((j : Text) → is_sent w' j ≡ (any_listing books j || is_sent w j))
        × (accepted w' ≡ accepted w)
  pub mark_failed :
      (ctx : Ctx) (books : List Book) (t : ℤ) (w w' : World) (e : E)
      → deps.mark_sent ctx books t w ≡ (failed e, w')
      → ((j : Text) → is_sent w' j ≡ is_sent w j) × (accepted w' ≡ accepted w)
  pub send_done :
      (ctx : Ctx) (content : Text) (silent attach_refresh : Bool) (w w' : World)
      → deps.send ctx content silent attach_refresh w ≡ (done tt, w')
      → ((j : Text) → is_sent w' j ≡ is_sent w j) × (accepted w' ≡ accepted w ++ content ∷ [])
  pub send_failed :
      (ctx : Ctx) (content : Text) (silent attach_refresh : Bool) (w w' : World) (e : E)
      → deps.send ctx content silent attach_refresh w ≡ (failed e, w')
      → ((j : Text) → is_sent w' j ≡ is_sent w j) × (accepted w' ≡ accepted w)
  pub wait_keeps :
      (ctx : Ctx) (delay : ℤ) (w : World)
      → ((j : Text) → is_sent (deps.wait ctx delay w).1 j ≡ is_sent w j)
        × (accepted (deps.wait ctx delay w).1 ≡ accepted w)
  pub hook_keeps :
      (hook : Ctx → World → Attempt E (Unit {0}) × World) (ctx : Ctx) (w : World)
      → deps.before_delivery ≡ some hook
      → ((j : Text) → is_sent (hook ctx w).1 j ≡ is_sent w j)
        × (accepted (hook ctx w).1 ≡ accepted w)

pub some-injective {ℓ} : {A : Type ℓ} {x y : A} → some x ≡ some y → x ≡ y
some-injective e = cc e

module _ {World Ctx E : Type 0} (deps : Dependencies World Ctx E) (laws : DeliveryLaws deps) where
  -- From `w` to `w'` no book is marked, and these messages are accepted.
  pub record Accepts (w : World) (contents : List Text) (w' : World) : Type 0 where
    pub sent : (j : Text) → laws.is_sent w' j ≡ laws.is_sent w j
    pub accepted : laws.accepted w' ≡ laws.accepted w ++ contents

  -- What a delivery that returned has accepted.
  unfoldable pub accepted_of : Text → Attempt (ServiceError E) (Unit {0}) → List Text
  accepted_of content (failed e) = []
  accepted_of content (done u) = content ∷ []

  unfoldable pub Sends : World → Text → Attempt (ServiceError E) (Unit {0}) × World → Type 0
  Sends w content (attempt, w') = Accepts w (accepted_of content attempt) w'

  pub Keeps : World → World → Type 0
  Keeps w w' =
      ((j : Text) → laws.is_sent w' j ≡ laws.is_sent w j) × (laws.accepted w' ≡ laws.accepted w)

  Keeps-Sends :
      (w w' : World) (content : Text) (result : Attempt (ServiceError E) (Unit {0}) × World)
      → Keeps w w'
      → Sends w' content result
      → Sends w content result
  unfolding Keeps Sends
  Keeps-Sends w w' content (attempt, w'') keeps sends = record {
    sent = λ j. sends.sent j ∙ keeps.0 j;
    accepted = sends.accepted ∙ ap (λ texts. texts ++ accepted_of content attempt) keeps.1;
  }

  Keeps-failed :
      (w w' : World) (content : Text) (e : ServiceError E)
      → Keeps w w'
      → Sends w content (failed e, w')
  unfolding Keeps Sends accepted_of
  Keeps-failed w w' content e keeps = record {
    sent = keeps.0;
    accepted = keeps.1 ∙ sym (append-nil (laws.accepted w));
  }

  after_wait-Sends :
      (w : World) (content : Text) (waited : Attempt E (Unit {0}) × World)
      (again : World → Sending deps) (result : Attempt (ServiceError E) (Unit {0}) × World)
      → Keeps w waited.1
      → ((w' : World) → again w' ≡ some result → Sends w' content result)
      → after_wait deps waited again ≡ some result
      → Sends w content result
  unfolding after_wait
  after_wait-Sends w content (failed e, w') again result keeps h r =
      subst (Sends w content) (some-injective r) (Keeps-failed w w' content (wait_failed e) keeps)
  after_wait-Sends w content (done u, w') again result keeps h r =
      Keeps-Sends w w' content result keeps (h w' r)

  retry-Sends :
      (ctx : Ctx) (e : E) (delay : Option ℤ) (w : World) (content : Text)
      (again : World → Sending deps) (result : Attempt (ServiceError E) (Unit {0}) × World)
      → ((w' : World) → again w' ≡ some result → Sends w' content result)
      → retry deps ctx e delay w again ≡ some result
      → Sends w content result
  unfolding retry Keeps
  retry-Sends ctx e none w content again result h r =
      subst (Sends w content) (some-injective r)
        (Keeps-failed w w content (send_failed e) (λ j. refl, refl))
  retry-Sends ctx e (some d) w content again result h r =
      after_wait-Sends w content (deps.wait ctx d w) again result (laws.wait_keeps ctx d w) h r

  after_send-Sends :
      (ctx : Ctx) (content : Text) (silent attach_refresh : Bool) (w : World)
      (attempt : Attempt E (Unit {0}) × World) (again : World → Sending deps)
      (result : Attempt (ServiceError E) (Unit {0}) × World)
      → deps.send ctx content silent attach_refresh w ≡ attempt
      → ((w' : World) → again w' ≡ some result → Sends w' content result)
      → after_send deps ctx attempt again ≡ some result
      → Sends w content result
  unfolding after_send Sends accepted_of Keeps
  after_send-Sends ctx content silent attach_refresh w (done u, w') again result sent h r =
      let step = laws.send_done ctx content silent attach_refresh w w' sent in
      subst (Sends w content) (some-injective r) (record { sent = step.0; accepted = step.1 })
  after_send-Sends ctx content silent attach_refresh w (failed e, w') again result sent h r =
      Keeps-Sends w w' content result
        (laws.send_failed ctx content silent attach_refresh w w' e sent)
        (retry-Sends ctx e (retry_delay deps e) w' content again result h r)

  pub send-Sends :
      (fuel : ℕ) (ctx : Ctx) (content : Text) (silent attach_refresh : Bool) (w : World)
      (result : Attempt (ServiceError E) (Unit {0}) × World)
      → send deps fuel ctx content silent attach_refresh w ≡ some result
      → Sends w content result
  unfolding send
  send-Sends zero ctx content silent attach_refresh w result h = cc h
  send-Sends (suc fuel) ctx content silent attach_refresh w result h =
      after_send-Sends ctx content silent attach_refresh w
        (deps.send ctx content silent attach_refresh w)
        (send deps fuel ctx content silent attach_refresh) result refl
        (λ w'. send-Sends fuel ctx content silent attach_refresh w' result) h
