-- ===== src/Telegram/Errors/Classified.antt =====
-- internal/telegram/sender.go: what the adapter returns for an answer of Telegram.
use alib_fetcher.Base.{
  ℕ, ℤ, pos, ◌≤ℤ◌, ◌≡◌, ◌≢◌, refl, subst, ◌⊎◌, inl, inr, List, Text, Option, none, some, Bool, true,
  false, ◌||◌, if◌then◌else◌, Bool-cases, has_text, text, arith,
}
use alib_fetcher.Telegram.Errors.{
  RateLimit, SdkError, Normalized, response_too_large, rejected, not_negative, is_sdk_rejection,
  other_problem, answered, not_sent, normalize_sdk_error, seconds, is_unsuccessful, is_rejected,
  by_status, normalize_sdk_call_error,
}

-- A wait that Telegram asks for is not negative.
abbrev pub WaitIsNatural : Normalized → Type 0
WaitIsNatural (rejected description retry_after) = pos 0 ≤ℤ retry_after
WaitIsNatural _ = Unit

not_negative-natural : (n : ℤ) → pos 0 ≤ℤ not_negative n
not_negative-natural n = ground arith

some-injective : {A : Type 0} {x y : A} → some x ≡ some y → x ≡ y
some-injective e = cc e

module _ (secrets : List Text) where
  other-natural : (e : SdkError) → WaitIsNatural (other_problem secrets e)
  other-natural e = elim (Bool-cases (is_sdk_rejection e)) [
    | inl rejection ↦ rw rejection (omega arith)
    | inr other ↦ elim (Bool-cases (has_text e.message (text "error decode response"))) [
      | inl decode ↦ rw (other, decode) tt
      | inr unknown ↦ rw (other, unknown) tt
    ]
  ]

  answered-natural :
      (e : SdkError) (limit : Option RateLimit) → WaitIsNatural (answered secrets e limit)
  answered-natural e none = other-natural e
  answered-natural e (some limit) = not_negative-natural (seconds limit.retry_after)

  not_sent-natural :
      (cancelled : Bool) (e : SdkError) (cause : Option Text)
      → WaitIsNatural (not_sent secrets cancelled e cause)
  not_sent-natural cancelled e (some cause) = tt
  not_sent-natural true e none = tt
  not_sent-natural false e none =
      fitting-natural e.too_large (answered secrets e e.rate_limit)
        (answered-natural e e.rate_limit)
    where
      fitting-natural :
          (large : Bool) (problem : Normalized)
          → WaitIsNatural problem
          → WaitIsNatural (if large then response_too_large else problem)
      fitting-natural true problem h = tt
      fitting-natural false problem h = h

  module _ (status_text : ℕ → Text) (cancelled : Bool) (status_code : ℕ) where
    -- Success is reported only for a status that is no failure and no error of the SDK. A status that
    -- is a failure is a rejection, or the context is done.
    abbrev pub IsSound : Option SdkError → Option Normalized → Type 0
    IsSound e none = (is_unsuccessful status_code ≡ false) × (e ≡ none)
    IsSound e (some problem) =
        WaitIsNatural problem
        × (((is_unsuccessful status_code ≡ false) × (e ≢ none))
            ⊎ ((is_unsuccessful status_code ≡ true)
                × ((is_rejected problem ≡ true) ⊎ (cancelled ≡ true))))

    by_status-IsSound :
        (e : Option SdkError) (problem : Option Normalized)
        → is_unsuccessful status_code ≡ true
        → ((p : Normalized) → problem ≡ some p → WaitIsNatural p)
        → IsSound e (by_status status_text status_code cancelled problem)
    by_status-IsSound e none failed natural = (omega arith, inr (failed, inl refl))
    by_status-IsSound e (some p) failed natural = elim (Bool-cases (is_rejected p || cancelled)) [
      | inl kept ↦ rw kept (natural p refl, inr (failed, one_of (is_rejected p) cancelled kept))
      | inr other ↦ rw other (omega arith, inr (failed, inl refl))
    ]
      where
        one_of : (a b : Bool) → (a || b) ≡ true → (a ≡ true) ⊎ (b ≡ true)
        one_of true b h = inl refl
        one_of false b h = inr h

    sdk_error-natural :
        (e : Option SdkError) (p : Normalized)
        → normalize_sdk_error secrets cancelled e ≡ some p
        → WaitIsNatural p
    unfolding normalize_sdk_error
    sdk_error-natural none p h = cc h
    sdk_error-natural (some e) p h =
        subst WaitIsNatural (some-injective h) (not_sent-natural cancelled e e.request_cause)

    sdk_error-IsSound :
        (e : Option SdkError)
        → is_unsuccessful status_code ≡ false
        → IsSound e (normalize_sdk_error secrets cancelled e)
    unfolding normalize_sdk_error
    sdk_error-IsSound none fine = (fine, refl)
    sdk_error-IsSound (some e) fine =
        (not_sent-natural cancelled e e.request_cause, inl (fine, λ q. cc q))

    -- A call is a success exactly if its status is no failure and the SDK found no error. A status that
    -- is a failure is always a rejection, unless the context is done, which is then an error as well.
    -- No wait that is asked for is negative, however large the number was that Telegram sent.
    pub normalize_sdk_call_error-IsSound :
        (e : Option SdkError)
        → IsSound e (normalize_sdk_call_error secrets status_text cancelled status_code e)
    unfolding normalize_sdk_call_error
    normalize_sdk_call_error-IsSound e = elim (Bool-cases (is_unsuccessful status_code)) [
      | inl failed ↦ rw failed (
          by_status-IsSound e (normalize_sdk_error secrets cancelled e) failed
            (sdk_error-natural e))
      | inr fine ↦ rw fine (sdk_error-IsSound e fine)
    ]
