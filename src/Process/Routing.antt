-- ===== src/Process/Routing.antt =====
-- internal/process/callbacks.go: which recipients share a client, and which of them a button of
-- Telegram belongs to.
pub mod Answers
pub mod Groups
use alib_fetcher.Base.{
  ℕ, List, [], ◌∷◌, ◌++◌, Text, text, Option, none, some, Bool, true, false, not, ◌&&◌, ℤ,
  if◌then◌else◌, is_empty, eqb_ℤ, has_prefix, drop, text_eq,
}
use alib_fetcher.Process.Runner.{Runner, try_start_refresh}

pub record Callback : Type 0 where
  pub id : Text
  pub callback_data : Text
  pub message_chat_username : Text
  pub message_chat_id : ℤ
  pub message_id : ℤ

-- `RefreshCallbackData` of internal/telegram/updates.go.
abbrev pub refresh_callback_data : Text
refresh_callback_data = text "refresh"

-- `callbackRecipient`; a runner is known by its number.
pub record CallbackRecipient : Type 0 where
  pub runner : ℕ
  pub chat_id : Text

-- What is done with a callback.
pub data Response : Type 0 where
  ignored : Response
  unavailable : Response
  refreshed : CallbackRecipient → Response

-- `strings.TrimPrefix(s, "@")`
abbrev trim_at : Text → Text
trim_at s = if has_prefix s (text "@") then drop 1 s else s

-- `strconv.ParseInt(s, 10, 64)` and `strings.EqualFold` are parameters.
module _ (parse_int : Text → Option ℤ) (equal_fold : Text → Text → Bool) where
  abbrev matches_username : Callback → Text → Bool
  matches_username callback username =
      not (is_empty username) && equal_fold callback.message_chat_username username

  unfoldable pub matches_expected_chat : Callback → Text → Bool
  matches_expected_chat callback expected_chat_id =
      if is_empty expected_chat_id then true else elim (parse_int expected_chat_id) [
        | none ↦ matches_username callback (trim_at expected_chat_id)
        | some numeric_chat_id ↦ eqb_ℤ callback.message_chat_id numeric_chat_id
      ]

  -- The loop over the recipients, with the match that was found before.
  unfoldable pub match_recipients :
      Callback → Option CallbackRecipient → List CallbackRecipient → Response
  match_recipients callback none [] = unavailable
  match_recipients callback (some match) [] = refreshed match
  match_recipients callback none (recipient ∷ rest) =
      let passed = match_recipients callback none rest in
      let found = match_recipients callback (some recipient) rest in
      if matches_expected_chat callback recipient.chat_id then found else passed
  match_recipients callback (some match) (recipient ∷ rest) =
      let passed = match_recipients callback (some match) rest in
      if matches_expected_chat callback recipient.chat_id then unavailable else passed

  unfoldable pub handle_grouped_callback : List CallbackRecipient → Callback → Response
  unfolding match_recipients
  handle_grouped_callback recipients callback =
      if text_eq callback.callback_data refresh_callback_data
      then match_recipients callback none recipients
      else ignored

-- `handleRefreshCallback` for the runner of the recipient: the answer, and the runner after it.
pub data Answer : Type 0 where
  refresh_started refresh_already_running : Answer

unfoldable pub handle_refresh_callback : Runner → Answer × Runner
handle_refresh_callback runner = elim (try_start_refresh runner) [
  | none ↦ (refresh_already_running, runner)
  | some started ↦ (refresh_started, started)
]

-- The grouping of `startCallbackGroups`: recipients in order, each with its client if it has one.
module _ {Client : Type 0} (same_client : Client → Client → Bool) where
  pub record CallbackGroup : Type 0 where
    pub client : Client
    pub recipients : List CallbackRecipient

  unfoldable pub add_to_group : Client → CallbackRecipient → List CallbackGroup → List CallbackGroup
  add_to_group client recipient [] = record { client = client; recipients = recipient ∷ [] } ∷ []
  add_to_group client recipient (group ∷ groups) =
      let later = add_to_group client recipient groups in
      if same_client group.client client
      then record group { recipients = group.recipients ++ recipient ∷ [] } ∷ groups
      else group ∷ later

  unfoldable pub callback_groups :
      List (Option Client × CallbackRecipient) → List CallbackGroup → List CallbackGroup
  unfolding add_to_group
  callback_groups [] groups = groups
  callback_groups ((none, recipient) ∷ rest) groups = callback_groups rest groups
  callback_groups ((some client, recipient) ∷ rest) groups =
      callback_groups rest (add_to_group client recipient groups)
