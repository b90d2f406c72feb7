-- ===== src/Tests/SettingsRuns.antt =====
-- A configuration, and the theorems on the settings that are made of it.
use alib_fetcher.Base.{
  ◌≢◌, ◌↔◌, inl, inr, All, ◌≡◌, refl, pos, [], ◌∷◌, ◌++◌, Text, text, none, some, false,
  if◌then◌else◌, text_eq, is_space, any, contains, done, refused, has_prefix, byte_length,
  rune_bytes, split, cut_last, join, trim_space, drop_while, sort_stable, sort_from, move_left,
}
use alib_fetcher.Config.ChatId.{normalize_chat_id}
use alib_fetcher.Config.Paths.{
  is_abs, push_part, clean_parts, clean, join_path, dir_of, abs, resolve_state_dir, rooted_path,
}
use alib_fetcher.Config.StateFiles.{
  validate_state_file, inspect, collides, validate_state_alias, map_chat, map_chats,
  validate_state_mappings,
}
use alib_fetcher.Config.Search.Checks.{
  value_at, sorted_keys, is_ascii_word, validate_categories, validate_search_value, validate_keys,
  validate_filter, validate_filter_fields, validate_filters, validate_query_field,
  validate_query_fields, validate_query, validate_queries,
}
use alib_fetcher.Config.Search.Encoding.{query_escape}
use alib_fetcher.Config.Search.Urls.{
  append_unique, has_last_days, encode_search_value, field_parameters, build_search_url,
  add_categories, add_values, add_filters, add_queries, build_search_endpoints, build_search_urls,
}
use alib_fetcher.Config.Settings.{
  Libraries, bad_message_limit, unknown_chat, RawConfig, Chat, Settings, parse_duration,
  parse_non_negative_duration, fresh_books_policy, complete_chat, complete_chats, validate_chats,
  validate, load_for_maintenance,
}
use alib_fetcher.Config.Settings.Valid.{AreValid, validate-AreValid}
use alib_fetcher.Config.Settings.Maintenance.{IsStateOf, load_for_maintenance-agrees}
use alib_fetcher.Tests.ChatRuns.{ascii_lower, system, raw_chats}
use alib_fetcher.Tests.SearchRuns.{ascii_bytes}

-- Only whole seconds can be read, and one time zone.
abbrev pub libraries : Libraries
libraries = record {
  system = system;
  cron_is_valid = λ t. text_eq t (text "0 0 * * *");
  load_location = λ t. if text_eq t (text "Europe/Moscow") then some 3 else none;
  duration = λ t. if text_eq t (text "5s") then some (pos 5000000000) else none;
  windows_1251 = ascii_bytes;
  cwd = none;
}

abbrev pub raw : RawConfig
raw = record {
  state_path = some (text "../var/./books");
  cron_schedule = none;
  timezone = none;
  run_on_startup = some false;
  http_timeout = none;
  alib_download_delay = some (text "5s");
  alib_max_retries = none;
  message_limit = some (pos 64);
  fresh_books = some [];
  chats = raw_chats;
}

abbrev pub config_path : Text
config_path = text "/etc/config.toml"

abbrev chat_of : Text → Text → Chat
chat_of chat_id state_file = record {
  chat_id = chat_id;
  telegram_token = text "42:secret";
  state_file = state_file;
  state_path = text "/var/books/" ++ state_file;
  search_config = record {
    categories = text "tdetz" ∷ [];
    filters = [];
    queries = ((text "author", text "Dahl") ∷ []) ∷ [];
  };
  alib_urls =
      text "https://www.alib.ru/tdetz.phtml?tnew=7"
      ∷ text "https://alib.ru/findp.php4?author=Dahl&lday=7"
      ∷ [];
}

abbrev pub settings : Settings
settings = record {
  location = 3;
  fresh_books = none;
  state_path = text "/var/books";
  cron_schedule = text "0 0 * * *";
  path = config_path;
  chats =
      chat_of (text "@books") (text "@books.db") ∷ chat_of (text "@readers") (text "old.db") ∷ [];
  alib_download_delay = pos 5000000000;
  alib_max_retries = pos 3;
  http_timeout = pos 30000000000;
  message_limit = pos 64;
  run_on_startup = false;
}

pub validated : validate libraries raw config_path ≡ done settings
unfolding validate validate_chats complete_chats complete_chat build_search_urls
    build_search_endpoints add_categories add_filters add_values add_queries append_unique
    build_search_url field_parameters encode_search_value has_last_days query_escape
    validate_queries validate_query validate_query_fields validate_query_field validate_filters
    validate_filter_fields validate_filter validate_keys validate_search_value validate_categories
    is_ascii_word sorted_keys value_at sort_stable sort_from move_left validate_state_mappings
    map_chats map_chat validate_state_alias collides inspect validate_state_file resolve_state_dir
    abs dir_of join_path clean clean_parts push_part rooted_path is_abs normalize_chat_id has_prefix
    byte_length rune_bytes any is_space contains text_eq split cut_last join trim_space drop_while
    parse_duration parse_non_negative_duration fresh_books_policy
validated = refl

small_limit_refused :
    validate libraries (record raw { message_limit = some (pos 63) }) config_path
    ≡ refused bad_message_limit
unfolding validate text_eq
small_limit_refused = refl

validate-AreValid_example : AreValid libraries raw config_path settings
validate-AreValid_example = validate-AreValid libraries raw config_path settings validated

readers : normalize_chat_id ascii_lower (text "@Readers") ≡ some (text "@readers")
unfolding normalize_chat_id has_prefix byte_length rune_bytes any is_space
readers = refl

readers_found :
    load_for_maintenance libraries raw config_path (text "@Readers")
    ≡ done (text "/var/books/old.db")
readers_found =
    ((load_for_maintenance-agrees libraries raw config_path (text "@Readers") (text "@readers")
          settings validated readers).0
        (text "/var/books/old.db")).1
      (record {
        chat = chat_of (text "@readers") (text "old.db");
        running = inr (inl refl);
        named = refl;
        placed = refl;
      })

load_for_maintenance-agrees_example :
    ((path : Text)
      → (load_for_maintenance libraries raw config_path (text "@Readers") ≡ done path)
        ↔ IsStateOf libraries (text "@readers") path settings.chats)
    × (All (λ (chat : Chat). chat.chat_id ≢ text "@readers") settings.chats
        → load_for_maintenance libraries raw config_path (text "@Readers")
          ≡ refused (unknown_chat (text "@readers")))
load_for_maintenance-agrees_example =
    load_for_maintenance-agrees libraries raw config_path (text "@Readers") (text "@readers")
      settings validated readers
