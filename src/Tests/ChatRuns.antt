-- ===== src/Tests/ChatRuns.antt =====
-- Configurations, and the theorems on how they are accepted at concrete inputs.
use alib_fetcher.Base.{
  ℕ, ◌+◌, ◌≡◌, ◌≢◌, ◌↔◌, refl, List, [], ◌∷◌, ◌++◌, Text, text, map, Option, none, some, true,
  false, ◌&&◌, ◌||◌, leb, if◌then◌else◌, text_eq, is_space, any, contains, All, arith, done,
  refused, has_prefix, byte_length, rune_bytes, split, cut_last, join,
}
use alib_fetcher.Config.ChatId.{LowerCase, normalize_chat_id}
use alib_fetcher.Config.ChatId.Canonical.{Names, normalize_again, normalize_chat_id-canonical}
use alib_fetcher.Config.Paths.{
  is_abs, push_part, clean_parts, clean, join_path, dir_of, abs, resolve_state_dir, rooted_path,
}
use alib_fetcher.Config.Paths.Within.{IsPlain}
use alib_fetcher.Config.StateFiles.{
  Found, absent, present, System, RawChat, Mapping, at_chat, colliding_state_file,
  validate_state_file, inspect, collides, validate_state_alias, map_chat, map_chats,
  validate_state_mappings,
}
use alib_fetcher.Config.StateFiles.Apart.{EachMaps, AllApart}
use alib_fetcher.Config.StateFiles.Mapped.{validate_state_mappings_iff}
use alib_fetcher.Config.StateFiles.Below.{validate_state_mappings-Within}

abbrev pub ascii_lower : ℕ → ℕ
ascii_lower c = if leb 65 c && leb c 90 then c + 32 else c

ascii_lower-LowerCase : LowerCase ascii_lower
unfolding is_space
ascii_lower-LowerCase = record {
  at_sign = refl;
  idempotent = λ c. ground arith;
  keeps_space = λ c. ground arith;
}

channel_lowered : normalize_chat_id ascii_lower (text "@Books") ≡ some (text "@books")
unfolding normalize_chat_id has_prefix byte_length rune_bytes any is_space
channel_lowered = refl

normalize_chat_id-canonical_example :
    ((normalize_chat_id ascii_lower (text "@Books") ≡ some (text "@books"))
      ↔ Names ascii_lower (text "@Books") (text "@books"))
    × (normalize_again ascii_lower (normalize_chat_id ascii_lower (text "@Books"))
        ≡ normalize_chat_id ascii_lower (text "@Books"))
normalize_chat_id-canonical_example =
    normalize_chat_id-canonical ascii_lower ascii_lower-LowerCase (text "@Books") (text "@books")

-- Only one file is there, under two names.
abbrev pub found_at : Text → Found
found_at path =
    if text_eq path (text "/var/books/old.db") || text_eq path (text "/var/books/new.db")
    then present (record { is_symlink = false; file = 7 })
    else absent

abbrev pub system : System
system = record {
  lower = ascii_lower;
  nfc = λ t. t;
  equal_fold = λ a b. text_eq (map ascii_lower a) (map ascii_lower b);
  lstat = found_at;
  stat = found_at;
}

abbrev pub raw_chat : Text → Option Text → RawChat
raw_chat chat_id state_file = record {
  chat_id = chat_id;
  telegram_token = text "42:secret";
  state_file = state_file;
  categories = text "tdetz" ∷ [];
  filters = [];
  queries = ((text "author", text "Dahl") ∷ []) ∷ [];
}

abbrev pub raw_chats : List RawChat
raw_chats = raw_chat (text "@Books") none ∷ raw_chat (text "@readers") (some (text "old.db")) ∷ []

abbrev pub mappings : List Mapping
mappings =
    record {
      chat_id = text "@books";
      state_file = text "@books.db";
      state_path = text "/var/books/@books.db";
    }
    ∷ record {
      chat_id = text "@readers";
      state_file = text "old.db";
      state_path = text "/var/books/old.db";
    }
    ∷ []

mapped : validate_state_mappings system raw_chats (text "/var/books") ≡ done mappings
unfolding validate_state_mappings map_chats map_chat validate_state_alias collides inspect
    validate_state_file normalize_chat_id has_prefix byte_length rune_bytes any is_space contains
    text_eq is_abs join_path clean clean_parts push_part rooted_path split join
mapped = refl

-- The third chat would write to the file of the second under another name.
shared_file_refused :
    validate_state_mappings system
      (raw_chats ++ raw_chat (text "@more") (some (text "new.db")) ∷ [])
      (text "/var/books")
    ≡ refused (at_chat 2 colliding_state_file)
unfolding validate_state_mappings map_chats map_chat validate_state_alias collides inspect
    validate_state_file normalize_chat_id has_prefix byte_length rune_bytes any is_space contains
    text_eq is_abs join_path clean clean_parts push_part rooted_path split join
shared_file_refused = refl

validate_state_mappings_iff_example :
    (validate_state_mappings system raw_chats (text "/var/books") ≡ done mappings) ↔ (
      (raw_chats ≢ [])
      × EachMaps system (text "/var/books") raw_chats mappings
      × AllApart system [] mappings)
validate_state_mappings_iff_example =
    validate_state_mappings_iff system raw_chats (text "/var/books") mappings

resolved :
    resolve_state_dir none (some (text "../var/./books")) (text "/etc/config.toml")
    ≡ some (text "/var/books")
unfolding resolve_state_dir abs dir_of has_prefix text_eq is_abs join_path clean clean_parts
    push_part rooted_path split join cut_last
resolved = refl

rooted : is_abs (text "/etc/config.toml") ≡ true
unfolding is_abs has_prefix
rooted = refl

validate_state_mappings-Within_example :
    (parts : List Text) × All IsPlain parts
    × (text "/var/books" ≡ rooted_path parts)
    × All (λ m. m.state_path ≡ rooted_path (parts ++ m.state_file ∷ [])) mappings
validate_state_mappings-Within_example =
    validate_state_mappings-Within system none (some (text "../var/./books"))
      (text "/etc/config.toml") (text "/var/books") raw_chats mappings rooted resolved mapped
