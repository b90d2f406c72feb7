-- ===== src/Telegram/Errors.antt =====
-- internal/telegram/sender.go: what the errors of the SDK mean, `normalizeSDKError` and
-- `normalizeSDKCallError`. An error of the SDK is known by what `errors.As` and `errors.Is` find in it.
pub mod Classified
use alib_fetcher.Base.{
  ℕ, suc, ◌+◌, ◌-◌, ◌*◌, ◌%◌, ◌^◌, ℤ, pos, negsuc, ltb_ℤ, List, [], ◌∷◌, ◌++◌, Text, text, Option,
  none, some, Bool, true, false, not, ◌&&◌, ◌||◌, ◌==◌, ltb, leb, if◌then◌else◌, has_text, is_none,
  trim_space, decimal,
}
use alib_fetcher.Telegram.Secrets.{sanitize_error}

-- `TooManyRequestsError`
pub record RateLimit : Type 0 where
  pub message : Text
  pub retry_after : ℤ

pub record SdkError : Type 0 where
  pub message : Text
  pub request_cause : Option Text
  pub too_large : Bool
  pub rate_limit : Option RateLimit
  pub migrate : Bool
  pub known_rejection : Bool

-- What the adapter returns: `ErrRequest`, joined with the error of the context if it is done; the
-- response that is too large; `ErrRejected`; a response that cannot be read; any other.
pub data Normalized : Type 0 where
  request_failed : Bool → Text → Normalized
  response_too_large : Normalized
  rejected : Text → ℤ → Normalized
  decode_failed : Normalized
  other_error : Text → Normalized

-- The value of an `int64`.
unfoldable pub wrap_int64 : ℤ → ℤ
wrap_int64 (pos n) = let r = n % 2 ^ 64 in if ltb r (2 ^ 63) then pos r else negsuc (2 ^ 64 - r - 1)
wrap_int64 (negsuc n) =
    let r = n % 2 ^ 64 in if ltb r (2 ^ 63) then negsuc r else pos (2 ^ 64 - r - 1)

-- `time.Duration(n) * time.Second`
unfoldable pub seconds : ℤ → ℤ
seconds (pos n) = wrap_int64 (pos (n * 1000000000))
seconds (negsuc n) = wrap_int64 (negsuc (suc n * 1000000000 - 1))

abbrev pub not_negative : ℤ → ℤ
not_negative n = if ltb_ℤ n (pos 0) then pos 0 else n

unfoldable pub is_sdk_rejection : SdkError → Bool
is_sdk_rejection e =
    e.migrate
    || e.known_rejection
    || has_text e.message (text "error response from telegram for method")

abbrev pub is_unsuccessful : ℕ → Bool
is_unsuccessful status_code = not (status_code == 0) && (ltb status_code 200 || leb 300 status_code)

abbrev pub is_rejected : Normalized → Bool
is_rejected (rejected description retry_after) = true
is_rejected _ = false

-- `http.StatusText` is a parameter.
abbrev pub by_status : (ℕ → Text) → ℕ → Bool → Option Normalized → Option Normalized
by_status status_text status_code cancelled none =
    some (rejected (trim_space (decimal status_code ++ 32 ∷ status_text status_code)) (pos 0))
by_status status_text status_code cancelled (some problem) =
    if is_rejected problem || cancelled
    then some problem
    else some (rejected (trim_space (decimal status_code ++ 32 ∷ status_text status_code)) (pos 0))

module _ (secrets : List Text) where
  abbrev pub other_problem : SdkError → Normalized
  other_problem e =
      if is_sdk_rejection e
      then rejected (sanitize_error secrets e.message) (pos 0)
      else if has_text e.message (text "error decode response")
      then decode_failed
      else other_error (sanitize_error secrets e.message)

  abbrev pub answered : SdkError → Option RateLimit → Normalized
  answered e none = other_problem e
  answered e (some limit) =
      rejected (sanitize_error secrets limit.message) (not_negative (seconds limit.retry_after))

  abbrev pub not_sent : Bool → SdkError → Option Text → Normalized
  not_sent cancelled e (some cause) =
      request_failed cancelled (text "call Telegram SDK: " ++ sanitize_error secrets cause)
  not_sent cancelled e none =
      if cancelled
      then request_failed true (text "call Telegram SDK")
      else if e.too_large
      then response_too_large
      else answered e e.rate_limit

  unfoldable pub normalize_sdk_error : Bool → Option SdkError → Option Normalized
  normalize_sdk_error cancelled none = none
  normalize_sdk_error cancelled (some e) = some (not_sent cancelled e e.request_cause)

  unfoldable pub normalize_sdk_call_error :
      (ℕ → Text) → Bool → ℕ → Option SdkError → Option Normalized
  normalize_sdk_call_error status_text cancelled status_code e =
      if is_unsuccessful status_code
      then by_status status_text status_code cancelled (normalize_sdk_error cancelled e)
      else normalize_sdk_error cancelled e
