-- ===== src/App/Deliver/Retries.antt =====
-- internal/app/service.go: how often `send` is tried, and what it returns.
use alib_fetcher.Base.{
  ℕ, zero, suc, ◌<◌, ◌≡◌, refl, subst, ◌↔◌, Text, ℤ, pos, ltb_ℤ, ◌<ℤ◌, none, some, Bool, arith, inl,
  inr, Option-cases, Bool-cases, ◌⊎◌, ◌≤ℤ◌,
}
use alib_fetcher.App.Ports.{
  Attempt, failed, done, Dependencies, ServiceError, send_failed, wait_failed,
}
use alib_fetcher.App.Deliver.{Sending, retry_delay, after_wait, retry, after_send, send}
use alib_fetcher.App.Deliver.Acks.{some-injective}

module _ {World Ctx E : Type 0} (deps : Dependencies World Ctx E) where
  -- An error that asks for a wait, and one that asks for none.
  abbrev pub AsksFor : E → ℤ → Type 0
  AsksFor e delay = (deps.retry_after e ≡ some delay) × (pos 0 <ℤ delay)

  abbrev pub AsksForNone : E → Type 0
  AsksForNone e =
      (deps.retry_after e ≡ none)
      ⊎ ((delay : ℤ) × (deps.retry_after e ≡ some delay) × (delay ≤ℤ pos 0))

  abbrev pub Sent : Type 0
  Sent = Attempt (ServiceError E) (Unit {0}) × World

  module _ (ctx : Ctx) (content : Text) (silent attach_refresh : Bool) where
    -- The attempts of a delivery: what it comes to, behind so many failures that each asked for a wait
    -- which then passed.
    pub data Attempts : World → ℕ → Sent → Type 0 where
      accepted :
          {w w' : World}
          → deps.send ctx content silent attach_refresh w ≡ (done tt, w')
          → Attempts w 0 (done tt, w')
      given_up :
          {w w' : World} {e : E}
          → deps.send ctx content silent attach_refresh w ≡ (failed e, w')
          → AsksForNone e
          → Attempts w 0 (failed (send_failed e), w')
      interrupted :
          {w w' w'' : World} {e e' : E} {delay : ℤ}
          → deps.send ctx content silent attach_refresh w ≡ (failed e, w')
          → AsksFor e delay
          → deps.wait ctx delay w' ≡ (failed e', w'')
          → Attempts w 0 (failed (wait_failed e'), w'')
      retried :
          {w w' w'' : World} {e : E} {delay : ℤ} {n : ℕ} {sent : Sent}
          → deps.send ctx content silent attach_refresh w ≡ (failed e, w')
          → AsksFor e delay
          → deps.wait ctx delay w' ≡ (done tt, w'')
          → Attempts w'' n sent
          → Attempts w (suc n) sent

    retry_delay-none : (e : E) → AsksForNone e → retry_delay deps e ≡ none
    unfolding retry_delay
    retry_delay-none e (inl h) = rw h refl
    retry_delay-none e (inr (delay, h, small)) = rw h (ground (arith, small))

    retry_delay-some : (e : E) (delay : ℤ) → AsksFor e delay → retry_delay deps e ≡ some delay
    unfolding retry_delay
    retry_delay-some e delay (h, large) = rw h (ground (arith, large))

    retry_delay-cases : (e : E) → AsksForNone e ⊎ ((delay : ℤ) × AsksFor e delay)
    retry_delay-cases e = elim (Option-cases (deps.retry_after e)) [
      | inl h ↦ inl (inl h)
      | inr (delay, h) ↦ elim (Bool-cases (ltb_ℤ (pos 0) delay)) [
        | inl large ↦ inr (delay, (h, ground (arith, large)))
        | inr small ↦ inl (inr (delay, h, ground (arith, small)))
      ]
    ]

    Attempts-send :
        (fuel n : ℕ) (w : World) (sent : Sent)
        → n < fuel
        → Attempts w n sent
        → send deps fuel ctx content silent attach_refresh w ≡ some sent
    unfolding send after_send retry after_wait
    Attempts-send zero n w sent h attempts = absurd (omega (arith, h))
    Attempts-send (suc fuel) zero w sent h (accepted called) = rw called refl
    Attempts-send (suc fuel) zero w sent h (given_up called asks) =
        rw (called, retry_delay-none _ asks) refl
    Attempts-send (suc fuel) zero w sent h (interrupted called asks waited) =
        rw (called, retry_delay-some _ _ asks, waited) refl
    Attempts-send (suc fuel) (suc n) w sent h (retried called asks waited more) =
        rw (called, retry_delay-some _ _ asks, waited)
          (Attempts-send fuel n _ sent (omega (arith, h)) more)

    abbrev Has : ℕ → World → Sent → Type 0
    Has fuel w sent = (n : ℕ) × (n < fuel) × Attempts w n sent

    after_wait-Attempts :
        (fuel : ℕ) (w w' : World) (sent : Sent) (e : E) (delay : ℤ)
        (call : Attempt E (Unit {0}) × World) (again : World → Sending deps)
        → ((w'' : World) → again w'' ≡ some sent → Has fuel w'' sent)
        → deps.send ctx content silent attach_refresh w ≡ (failed e, w')
        → AsksFor e delay
        → deps.wait ctx delay w' ≡ call
        → after_wait deps call again ≡ some sent
        → Has (suc fuel) w sent
    unfolding after_wait
    after_wait-Attempts fuel w w' sent e delay (failed e', w'') again later called asks wait h =
        subst (Has (suc fuel) w) (some-injective h) (0, omega arith, interrupted called asks wait)
    after_wait-Attempts fuel w w' sent e delay (done u, w'') again later called asks wait h =
        let (n, few, more) = later w'' h in
        (suc n, omega (arith, few), retried called asks wait more)

    after_send-Attempts :
        (fuel : ℕ) (w : World) (sent : Sent) (call : Attempt E (Unit {0}) × World)
        (again : World → Sending deps)
        → ((w'' : World) → again w'' ≡ some sent → Has fuel w'' sent)
        → deps.send ctx content silent attach_refresh w ≡ call
        → after_send deps ctx call again ≡ some sent
        → Has (suc fuel) w sent
    unfolding after_send retry
    after_send-Attempts fuel w sent (done u, w') again later called h =
        subst (Has (suc fuel) w) (some-injective h) (0, omega arith, accepted called)
    after_send-Attempts fuel w sent (failed e, w') again later called h =
        elim (retry_delay-cases e) [
          | inl asks ↦
              subst (Has (suc fuel) w) (some-injective (rw (retry_delay-none e asks) at h))
                (0, omega arith, given_up called asks)
          | inr (delay, asks) ↦
              after_wait-Attempts fuel w w' sent e delay (deps.wait ctx delay w') again later called
                asks refl (rw (retry_delay-some e delay asks) at h)
        ]

    send-Attempts :
        (fuel : ℕ) (w : World) (sent : Sent)
        → send deps fuel ctx content silent attach_refresh w ≡ some sent
        → Has fuel w sent
    unfolding send
    send-Attempts zero w sent h = cc h
    send-Attempts (suc fuel) w sent h =
        after_send-Attempts fuel w sent (deps.send ctx content silent attach_refresh w)
          (send deps fuel ctx content silent attach_refresh) (λ w''. send-Attempts fuel w'' sent)
          refl h

    -- A delivery returns exactly what its attempts come to: it is tried again while the error asks for
    -- a positive wait and the wait passes, and for no other reason. With more attempts allowed than
    -- are followed by another one it has returned, and with no more it is still at it.
    pub send_iff :
        (fuel : ℕ) (w : World) (sent : Sent)
        → (send deps fuel ctx content silent attach_refresh w ≡ some sent)
          ↔ ((n : ℕ) × (n < fuel) × Attempts w n sent)
    send_iff fuel w sent = (
      send-Attempts fuel w sent,
      λ attempts. Attempts-send fuel attempts.0 w sent attempts.1 attempts.2,
    )
