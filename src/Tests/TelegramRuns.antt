-- ===== src/Tests/TelegramRuns.antt =====
-- Errors and responses of Telegram, and the theorems on them at concrete inputs.
use alib_fetcher.Base.{
  ℕ, zero, suc, any, ◌≤◌, ◌≡◌, refl, pos, List, [], ◌∷◌, Text, text, none, some, false,
  if◌then◌else◌, is_empty, All, length, has_text, has_prefix, replace_all, replace_from, take, drop,
  arith,
}
use alib_fetcher.Telegram.Secrets.{standard_api_base, sanitize_error}
use alib_fetcher.Telegram.Secrets.Hidden.{IsSecret, sanitize_error-hides}
use alib_fetcher.Telegram.Responses.{
  end_of_file, response_too_large, Body, LimitBody, read, read_all,
}
use alib_fetcher.Telegram.Responses.Limited.{Counts, read_all-Counts}
use alib_fetcher.Telegram.Errors.{
  SdkError, rejected, seconds, wrap_int64, normalize_sdk_error, normalize_sdk_call_error,
}
use alib_fetcher.Telegram.Errors.Classified.{IsSound, normalize_sdk_call_error-IsSound}

abbrev secrets : List Text
secrets = text "42:token" ∷ standard_api_base ∷ []

abbrev message : Text
message = text "Post https://api.telegram.org/bot42:token/sendMessage: 42:token"

secrets-IsSecret : All IsSecret secrets
unfolding any
secrets-IsSecret = ((refl, refl), ((refl, refl), tt))

masked : sanitize_error secrets message ≡ text "Post ***/bot***/sendMessage: ***"
unfolding sanitize_error replace_all replace_from has_prefix
masked = refl

sanitize_error-hides_example :
    All (λ t. has_text (sanitize_error secrets message) t ≡ false) secrets
sanitize_error-hides_example = sanitize_error-hides secrets message secrets-IsSecret

-- A body of some bytes, handed out as the buffer asks.
abbrev body : Body (List ℕ) Text
body size world = (
  record { bytes = take size world; problem = if is_empty world then some end_of_file else none },
  drop size world,
)

length-take_le : (n : ℕ) (xs : List ℕ) → length (take n xs) ≤ n
length-take_le zero xs = omega arith
length-take_le (suc n) [] = omega arith
length-take_le (suc n) (x ∷ xs) = omega (arith, length-take_le n xs)

body-IsReader : (size : ℕ) (world : List ℕ) → length (body size world).0.bytes ≤ size
body-IsReader size world = length-take_le size world

abbrev limited : LimitBody (List ℕ)
limited = record { remaining = 4; world = text "abcdef" }

limit_reached : read_all body (3 ∷ 3 ∷ 3 ∷ []) limited ≡ (
  record { bytes = text "abcd"; problem = some response_too_large },
  record { remaining = 0; world = text "f" },
)
unfolding read_all read
limit_reached = refl

read_all-Counts_example : Counts 4 (read_all body (3 ∷ 3 ∷ 3 ∷ []) limited)
read_all-Counts_example = read_all-Counts body body-IsReader (3 ∷ 3 ∷ 3 ∷ []) limited

-- More seconds than fit in a duration.
abbrev limit_error : SdkError
limit_error = record {
  message = text "too many requests";
  request_cause = none;
  too_large = false;
  rate_limit = some (record { message = text "retry later"; retry_after = pos 10000000000 });
  migrate = false;
  known_rejection = false;
}

abbrev status_text : ℕ → Text
status_text code = text "Status"

overflow_waits_zero :
    normalize_sdk_call_error secrets status_text false 429 (some limit_error)
    ≡ some (rejected (text "retry later") (pos 0))
unfolding normalize_sdk_call_error normalize_sdk_error seconds wrap_int64 sanitize_error replace_all
    replace_from has_prefix
overflow_waits_zero = refl

normalize_sdk_call_error-IsSound_example :
    IsSound secrets status_text false 429
      (some limit_error)
      (normalize_sdk_call_error secrets status_text false 429 (some limit_error))
normalize_sdk_call_error-IsSound_example =
    normalize_sdk_call_error-IsSound secrets status_text false 429 (some limit_error)
