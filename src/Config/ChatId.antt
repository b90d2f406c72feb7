-- ===== src/Config/ChatId.antt =====
-- internal/config/config.go: the one way in which a chat is written, `normalizeChatID`.
pub mod Canonical
use mathlib.Core.Option
use alib_fetcher.Base.{
  ℕ, ◌≡◌, Text, text, map, Option, none, some, Bool, ◌||◌, ◌==◌, if◌then◌else◌, has_prefix,
  byte_length, any, is_space, parse_int, format_int,
}

-- `unicode.ToLower`, with what Unicode says of it.
pub record LowerCase (lower : ℕ → ℕ) : Type 0 where
  pub at_sign : lower 64 ≡ 64
  pub idempotent : (c : ℕ) → lower (lower c) ≡ lower c
  pub keeps_space : (c : ℕ) → is_space (lower c) ≡ is_space c

module _ (lower : ℕ → ℕ) where
  -- `none` is the error "must be a signed decimal int64 or @channel username"; `strings.ToLower`
  -- changes rune by rune.
  unfoldable pub normalize_chat_id : Text → Option Text
  unfolding parse_int format_int has_prefix byte_length
  normalize_chat_id value =
      if has_prefix value (text "@")
      then (if byte_length value == 1 || any is_space value then none else some (map lower value))
      else Option.map format_int (parse_int value)
