-- ===== src/Telegram/Client.antt =====
-- internal/telegram/sender.go: the settings of a client, `newClient` and `SetTimeout`. Times are
-- nanoseconds.
use alib_fetcher.Base.{
  ℤ, pos, ltb_ℤ, eqb_ℤ, List, [], ◌∷◌, Text, not, Bool, if◌then◌else◌, is_empty, trim_space,
  Outcome, done, require, ◌>>◌,
}
use alib_fetcher.Telegram.Secrets.{standard_api_base}

pub data ClientProblem : Type 0 where
  missing_token timeout_not_positive sdk_client_failed missing_chat_id : ClientProblem

pub record Client : Type 0 where
  pub token : Text
  pub secrets : List Text
  pub timeout : ℤ
  pub http_timeout : ℤ
  pub poll_timeout : ℤ

pub record Sender : Type 0 where
  pub client : Client
  pub chat_id : Text

abbrev pub minimum_sdk_poll_timeout : ℤ
minimum_sdk_poll_timeout = pos 2000000000

-- `max(timeout, minimumSDKPollTimeout)`
unfoldable pub sdk_poll_timeout : ℤ → ℤ
sdk_poll_timeout timeout =
    if ltb_ℤ timeout minimum_sdk_poll_timeout then minimum_sdk_poll_timeout else timeout

-- Whether the SDK makes its bot is a parameter, by the token and the timeout of polling.
unfoldable pub new_client : (Text → ℤ → Bool) → Text → ℤ → Outcome ClientProblem Client
new_client makes_bot token timeout = do
  require (not (is_empty token)) missing_token
  require (ltb_ℤ (pos 0) timeout) timeout_not_positive
  require (makes_bot token (sdk_poll_timeout timeout)) sdk_client_failed
  done (record {
    token = token;
    secrets = token ∷ standard_api_base ∷ [];
    timeout = timeout;
    http_timeout = timeout;
    poll_timeout = sdk_poll_timeout timeout;
  })

unfoldable pub set_timeout : ℤ → Client → Outcome ClientProblem Client
set_timeout timeout client = do
  require (ltb_ℤ (pos 0) timeout) timeout_not_positive
  done (
      if eqb_ℤ client.timeout timeout then client else record client {
        poll_timeout = sdk_poll_timeout timeout;
        http_timeout = timeout;
        timeout = timeout;
      })

unfoldable pub new_sender : Client → Text → Outcome ClientProblem Sender
new_sender client chat_id = do
  require (not (is_empty (trim_space chat_id))) missing_chat_id
  done (record { client = client; chat_id = chat_id })
