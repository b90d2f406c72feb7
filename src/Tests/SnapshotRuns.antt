-- ===== src/Tests/SnapshotRuns.antt =====
-- What a process is made of, and the theorem on it at concrete inputs.
use alib_fetcher.Base.{
  ◌≡◌, refl, ℤ, [], ◌∷◌, Text, text, Option, none, some, Bool, true, false, not, if◌then◌else◌,
  text_eq, is_empty, has_prefix, trim_space, drop_while, is_space, All, keep, done, refused,
}
use alib_fetcher.Alib.Client.{Address, parse_endpoint, parse_endpoints, new_alib_client}
use alib_fetcher.Telegram.Client.{Client, new_client, new_sender, sdk_poll_timeout}
use alib_fetcher.Config.Search.Checks.{value_at}
use alib_fetcher.Config.Settings.Valid.{validate-AreValid}
use alib_fetcher.Command.Options.{CommandOptions, validate_command_options, missing_chat}
use alib_fetcher.Command.Snapshot.{
  RuntimeFactory, unknown_selected, client_for, make_recipient, make_recipients, snapshot,
}
use alib_fetcher.Command.Snapshot.Recipients.{IsUsable}
use alib_fetcher.Command.Snapshot.Served.{Answers, snapshot-Answers}
use alib_fetcher.Tests.SettingsRuns.{libraries, raw, config_path, settings, validated}

abbrev parse_url : Text → Option Address
parse_url t =
    if has_prefix t (text "https://")
    then some
        (record { address = t; scheme = text "https"; host = text "alib.ru"; has_user = false })
    else none

abbrev makes_bot : Text → ℤ → Bool
makes_bot token timeout = not (is_empty token)

makes_bot_given :
    (token : Text) (timeout : ℤ) → is_empty token ≡ false → makes_bot token timeout ≡ true
makes_bot_given token timeout h = rw h refl

-- A client that an earlier snapshot made for another token.
abbrev old_client : Client
old_client = record {
  token = text "1:old";
  secrets = text "1:old" ∷ [];
  timeout = settings.http_timeout;
  http_timeout = settings.http_timeout;
  poll_timeout = settings.http_timeout;
}

abbrev factory : RuntimeFactory
factory = record {
  clients = (text "1:old", record { pointer = 0; client = old_client }) ∷ [];
  next_pointer = 1;
}

settings-IsUsable : All (IsUsable parse_url) settings.chats
unfolding parse_endpoints parse_endpoint has_prefix trim_space drop_while is_space text_eq
settings-IsUsable = (((_, refl), refl), (((_, refl), refl), tt))

-- Both chats share a token, so there is one client more.
one_client_more : (snapshot parse_url makes_bot settings [] factory).0.next_pointer ≡ 2
unfolding snapshot make_recipients make_recipient client_for new_alib_client parse_endpoints
    parse_endpoint new_client new_sender sdk_poll_timeout value_at keep has_prefix trim_space
    drop_while is_space text_eq
one_client_more = refl

other_chat_refused :
    snapshot parse_url makes_bot settings (text "@other") factory
    ≡ (factory, refused (unknown_selected (text "@other")))
unfolding snapshot make_recipients keep text_eq
other_chat_refused = refl

snapshot-Answers_example :
    Answers settings [] factory (snapshot parse_url makes_bot settings [] factory)
snapshot-Answers_example =
    snapshot-Answers parse_url makes_bot makes_bot_given libraries raw config_path settings []
      factory (validate-AreValid libraries raw config_path settings validated) settings-IsUsable
      (refl, tt)

abbrev forget : Text → CommandOptions
forget chat_id = record {
  config_path = config_path;
  chat_id = chat_id;
  help = false;
  service = false;
  once = false;
  forget_latest = record { value = settings.message_limit; set = true };
}

forget_needs_chat : validate_command_options (forget []) ≡ refused missing_chat
unfolding validate_command_options
forget_needs_chat = refl

forget_accepted : validate_command_options (forget (text "@books")) ≡ done (forget (text "@books"))
unfolding validate_command_options
forget_accepted = refl
