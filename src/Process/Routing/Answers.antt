-- ===== src/Process/Routing/Answers.antt =====
-- internal/process/callbacks.go: a button starts a refresh for the only recipient that it can mean.
use alib_fetcher.Base.{
  ◌≡◌, refl, List, [], ◌∷◌, Text, Option, ◌≢◌, none, some, Bool, ℤ, keep, inl, inr, Bool-cases,
  text_eq, text_eq_iff,
}
use alib_fetcher.Process.Routing.{
  Callback, refresh_callback_data, CallbackRecipient, Response, ignored, unavailable, refreshed,
  matches_expected_chat, match_recipients, handle_grouped_callback,
}

-- The answer to a refresh, by the recipients that it may be meant for.
abbrev pub answer_to : List CallbackRecipient → Response
answer_to [] = unavailable
answer_to (recipient ∷ []) = refreshed recipient
answer_to (recipient ∷ other ∷ rest) = unavailable

abbrev before : Option CallbackRecipient → List CallbackRecipient → List CallbackRecipient
before none recipients = recipients
before (some match) recipients = match ∷ recipients

module _ (parse_int : Text → Option ℤ) (equal_fold : Text → Text → Bool) where
  abbrev pub is_meant : Callback → CallbackRecipient → Bool
  is_meant callback recipient =
      matches_expected_chat parse_int equal_fold callback recipient.chat_id

  match_recipients-answer_to :
      (callback : Callback) (found : Option CallbackRecipient) (recipients : List CallbackRecipient)
      → match_recipients parse_int equal_fold callback found recipients
        ≡ answer_to (before found (keep (is_meant callback) recipients))
  unfolding match_recipients keep
  match_recipients-answer_to callback none [] = refl
  match_recipients-answer_to callback (some match) [] = refl
  match_recipients-answer_to callback none (recipient ∷ rest) =
      elim (Bool-cases (is_meant callback recipient)) [
        | inl meant ↦ rw meant (match_recipients-answer_to callback (some recipient) rest)
        | inr other ↦ rw other (match_recipients-answer_to callback none rest)
      ]
  match_recipients-answer_to callback (some match) (recipient ∷ rest) =
      elim (Bool-cases (is_meant callback recipient)) [
        | inl meant ↦ rw meant refl
        | inr other ↦ rw other (match_recipients-answer_to callback (some match) rest)
      ]

  -- A refresh is started for a recipient exactly when the button asks for one and that recipient is
  -- the only one of the group whose chat it can come from; with none or several the button is
  -- answered as unavailable; other buttons are ignored.
  pub handle_grouped_callback-answer_to :
      (recipients : List CallbackRecipient) (callback : Callback)
      → (callback.callback_data ≡ refresh_callback_data
          → handle_grouped_callback parse_int equal_fold recipients callback
            ≡ answer_to (keep (is_meant callback) recipients))
        × (callback.callback_data ≢ refresh_callback_data
            → handle_grouped_callback parse_int equal_fold recipients callback ≡ ignored)
  unfolding handle_grouped_callback
  handle_grouped_callback-answer_to recipients callback = (
    λ asks.
        rw ((text_eq_iff callback.callback_data refresh_callback_data).1 asks)
          (match_recipients-answer_to callback none recipients),
    λ other. elim (Bool-cases (text_eq callback.callback_data refresh_callback_data)) [
      | inl asks ↦
          absurd (other ((text_eq_iff callback.callback_data refresh_callback_data).0 asks))
      | inr differs ↦ rw differs refl
    ],
  )
