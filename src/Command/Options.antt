-- ===== src/Command/Options.antt =====
-- cmd/alib-fetcher/main.go: the options that are accepted, `validateCommandOptions`.
use alib_fetcher.Base.{
  ℕ, ◌+◌, ℤ, pos, ltb_ℤ, Text, Bool, not, ◌&&◌, ◌==◌, if◌then◌else◌, is_empty, Outcome, done,
  require, ◌>>◌,
}

pub record ForgetLatestOption : Type 0 where
  pub value : ℤ
  pub set : Bool

pub record CommandOptions : Type 0 where
  pub config_path : Text
  pub chat_id : Text
  pub help : Bool
  pub service : Bool
  pub once : Bool
  pub forget_latest : ForgetLatestOption

pub data OptionsProblem : Type 0 where
  not_one_mode chat_with_service limit_not_positive missing_chat : OptionsProblem

abbrev pub count : Bool → ℕ
count b = if b then 1 else 0

abbrev pub mode_count : CommandOptions → ℕ
mode_count options = count options.service + count options.once + count options.forget_latest.set

unfoldable pub validate_command_options : CommandOptions → Outcome OptionsProblem CommandOptions
validate_command_options options = do
  require (mode_count options == 1) not_one_mode
  require (not (options.service && not (is_empty options.chat_id))) chat_with_service
  require (not (options.forget_latest.set && not (ltb_ℤ (pos 0) options.forget_latest.value)))
      limit_not_positive
  require (not (options.forget_latest.set && is_empty options.chat_id)) missing_chat
  done options
