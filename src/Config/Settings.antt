-- ===== src/Config/Settings.antt =====
-- internal/config/config.go: the settings of the process, `validate` with `validateChats`, and
-- `LoadForMaintenance` behind the reading of the file.
pub mod Valid
pub mod Maintenance
use alib_fetcher.Base.{
  ℕ, suc, ◌^◌, ℤ, pos, negsuc, ltb_ℤ, List, [], ◌∷◌, ◌++◌, Text, text, Option, none, some, Bool,
  true, false, not, ◌&&◌, ◌||◌, if◌then◌else◌, text_eq, is_empty, Outcome, done, refused, require,
  ◌>>=◌, ◌>>◌,
}
use alib_fetcher.Config.FreshBooks.{FreshBooksPolicy, parse_fresh_books}
use alib_fetcher.Config.ChatId.{normalize_chat_id}
use alib_fetcher.Config.Paths.{resolve_state_dir, value_or, default_state_path}
use alib_fetcher.Config.StateFiles.{
  System, MappingProblem, RawChat, Mapping, validate_state_mappings,
}
use alib_fetcher.Config.Search.Checks.{SearchProblem}
use alib_fetcher.Config.Search.Urls.{SearchConfig, build_search_urls}

-- What the program does not implement: the parser of cron expressions (github.com/robfig/cron), the
-- time zones, the parser of durations in nanoseconds, the encoding, the working directory.
pub record Libraries : Type 0 where
  pub system : System
  pub cron_is_valid : Text → Bool
  pub load_location : Text → Option ℕ
  pub duration : Text → Option ℤ
  pub windows_1251 : Text → Option (List ℕ)
  pub cwd : Option Text

pub data Problem : Type 0 where
  bad_cron_schedule bad_max_retries bad_message_limit bad_timezone bad_http_timeout : Problem
  bad_download_delay bad_fresh_books bad_state_path : Problem
  bad_mapping : MappingProblem → Problem
  missing_token : ℕ → Problem
  bad_search : ℕ → SearchProblem → Problem
  bad_chat : Problem
  unknown_chat : Text → Problem

-- `rawConfig`
pub record RawConfig : Type 0 where
  pub state_path : Option Text
  pub cron_schedule : Option Text
  pub timezone : Option Text
  pub run_on_startup : Option Bool
  pub http_timeout : Option Text
  pub alib_download_delay : Option Text
  pub alib_max_retries : Option ℤ
  pub message_limit : Option ℤ
  pub fresh_books : Option Text
  pub chats : List RawChat

pub record Chat : Type 0 where
  pub chat_id : Text
  pub telegram_token : Text
  pub state_file : Text
  pub state_path : Text
  pub search_config : SearchConfig
  pub alib_urls : List Text

-- `Config`; a location stands for itself.
pub record Settings : Type 0 where
  pub location : ℕ
  pub fresh_books : Option FreshBooksPolicy
  pub state_path : Text
  pub cron_schedule : Text
  pub path : Text
  pub chats : List Chat
  pub alib_download_delay : ℤ
  pub alib_max_retries : ℤ
  pub http_timeout : ℤ
  pub message_limit : ℤ
  pub run_on_startup : Bool

abbrev pub default_alib_max_retries : ℤ
default_alib_max_retries = pos 3

abbrev pub default_cron_schedule : Text
default_cron_schedule = text "0 0 * * *"

abbrev pub default_http_timeout : ℤ
default_http_timeout = pos 30000000000

abbrev pub default_message_limit : ℤ
default_message_limit = pos 32000

abbrev pub default_timezone : Text
default_timezone = text "Europe/Moscow"

abbrev pub telegram_hard_message_limit : ℤ
telegram_hard_message_limit = pos 32768

abbrev pub or_refuse : {E A : Type 0} → E → Option A → Outcome E A
or_refuse e none = refused e
or_refuse e (some a) = done a

abbrev pub wrapped : {E F A : Type 0} → (E → F) → Outcome E A → Outcome F A
wrapped wrap (done a) = done a
wrapped wrap (refused e) = refused (wrap e)

-- A duration that is given, by its test.
abbrev pub checked_duration : Problem → (ℤ → Bool) → Option ℤ → Outcome Problem ℤ
checked_duration problem test none = refused problem
checked_duration problem test (some parsed) = do require (test parsed) problem; done parsed

abbrev pub is_positive : ℤ → Bool
is_positive n = ltb_ℤ (pos 0) n

abbrev pub is_negative : ℤ → Bool
is_negative n = ltb_ℤ n (pos 0)

unfoldable pub parse_duration : (Text → Option ℤ) → Option Text → Outcome Problem ℤ
parse_duration duration none = done default_http_timeout
parse_duration duration (some value) =
    checked_duration bad_http_timeout is_positive (duration value)

unfoldable pub parse_non_negative_duration : (Text → Option ℤ) → Option Text → Outcome Problem ℤ
parse_non_negative_duration duration none = done (pos 0)
parse_non_negative_duration duration (some value) =
    checked_duration bad_download_delay (λ n. not (is_negative n)) (duration value)

abbrev pub some_policy : Option FreshBooksPolicy → Outcome Problem (Option FreshBooksPolicy)
some_policy none = refused bad_fresh_books
some_policy (some policy) = done (some policy)

-- An empty text counts as none.
unfoldable pub fresh_books_policy : Option Text → Outcome Problem (Option FreshBooksPolicy)
fresh_books_policy none = done none
fresh_books_policy (some value) =
    if is_empty value then done none else some_policy (parse_fresh_books value)

abbrev pub search_of : RawChat → SearchConfig
search_of raw = record { categories = raw.categories; filters = raw.filters; queries = raw.queries }

abbrev pub limit_in_range : ℤ → Bool
limit_in_range limit = not (ltb_ℤ limit (pos 64) || ltb_ℤ telegram_hard_message_limit limit)

unfoldable pub state_path_of : Text → List Mapping → Outcome Problem Text
state_path_of chat_id [] = refused (unknown_chat chat_id)
state_path_of chat_id (mapping ∷ mappings) =
    let rest = state_path_of chat_id mappings in
    if text_eq mapping.chat_id chat_id then done mapping.state_path else rest

module _ (libraries : Libraries) where
  unfoldable pub complete_chat : ℕ → RawChat → Mapping → Outcome Problem Chat
  complete_chat index raw mapping = do
    require (not (is_empty raw.telegram_token)) (missing_token index)
    urls ← wrapped (bad_search index) (build_search_urls libraries.windows_1251 (search_of raw))
    done (record {
      chat_id = mapping.chat_id;
      telegram_token = raw.telegram_token;
      state_file = mapping.state_file;
      state_path = mapping.state_path;
      search_config = search_of raw;
      alib_urls = urls;
    })

  -- The second loop: the mappings are as many as the raw chats.
  unfoldable pub complete_chats : ℕ → List RawChat → List Mapping → Outcome Problem (List Chat)
  complete_chats index [] mappings = done []
  complete_chats index (raw ∷ raws) [] = done []
  complete_chats index (raw ∷ raws) (mapping ∷ mappings) = do
    chat ← complete_chat index raw mapping
    rest ← complete_chats (suc index) raws mappings
    done (chat ∷ rest)

  unfoldable pub validate_chats : List RawChat → Text → Outcome Problem (List Chat)
  validate_chats raws state_dir = do
    mappings ← wrapped bad_mapping (validate_state_mappings libraries.system raws state_dir)
    complete_chats 0 raws mappings

  unfoldable pub validate : RawConfig → Text → Outcome Problem Settings
  validate raw config_path = do
    let cron_schedule = value_or raw.cron_schedule default_cron_schedule
    let max_retries = value_or raw.alib_max_retries default_alib_max_retries
    let message_limit = value_or raw.message_limit default_message_limit
    require (libraries.cron_is_valid cron_schedule) bad_cron_schedule
    require (not (is_negative max_retries)) bad_max_retries
    require (limit_in_range message_limit) bad_message_limit
    location ←
        or_refuse bad_timezone (libraries.load_location (value_or raw.timezone default_timezone))
    http_timeout ← parse_duration libraries.duration raw.http_timeout
    download_delay ← parse_non_negative_duration libraries.duration raw.alib_download_delay
    fresh_books ← fresh_books_policy raw.fresh_books
    state_dir ←
        or_refuse bad_state_path (resolve_state_dir libraries.cwd raw.state_path config_path)
    chats ← validate_chats raw.chats state_dir
    done (record {
      location = location;
      fresh_books = fresh_books;
      state_path = state_dir;
      cron_schedule = cron_schedule;
      path = config_path;
      chats = chats;
      alib_download_delay = download_delay;
      alib_max_retries = max_retries;
      http_timeout = http_timeout;
      message_limit = message_limit;
      run_on_startup = value_or raw.run_on_startup true;
    })

  unfoldable pub load_for_maintenance : RawConfig → Text → Text → Outcome Problem Text
  load_for_maintenance raw config_path chat_id = do
    state_dir ←
        or_refuse bad_state_path (resolve_state_dir libraries.cwd raw.state_path config_path)
    mappings ← wrapped bad_mapping (validate_state_mappings libraries.system raw.chats state_dir)
    normalized ← or_refuse bad_chat (normalize_chat_id libraries.system.lower chat_id)
    state_path_of normalized mappings
