-- ===== src/Telegram/Secrets.antt =====
-- internal/telegram/sender.go: `sanitizeError`, which takes the token out of messages.
pub mod Hidden
use alib_fetcher.Base.{List, [], ◌∷◌, Text, text, if◌then◌else◌, is_empty, replace_all}

abbrev pub mask : Text
mask = text "***"

abbrev pub standard_api_base : Text
standard_api_base = text "https://api.telegram.org"

abbrev pub without : Text → Text → Text
without secret message = if is_empty secret then message else replace_all message secret mask

unfoldable pub sanitize_error : List Text → Text → Text
sanitize_error [] message = message
sanitize_error (secret ∷ secrets) message = sanitize_error secrets (without secret message)
