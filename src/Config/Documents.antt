-- ===== src/Config/Documents.antt =====
-- internal/config/config.go: which keys a document may have, `validateDocumentKeys`. The parser of
-- github.com/pelletier/go-toml hands out the document, a table of values.
use alib_fetcher.Base.{
  ℕ, suc, List, [], ◌∷◌, Text, text, Option, some, Bool, true, false, ◌||◌, not, text_eq, contains,
  Outcome, done, require, ◌>>◌,
}
use alib_fetcher.Config.Search.Checks.{value_at, sorted_keys}

mutual
  pub data Value : Type 0 where
    scalar : Value
    array : Values → Value
    table : Entries → Value

  pub data Values : Type 0 where
    nil : Values
    cons : Value → Values → Values

  pub data Entries : Type 0 where
    end : Entries
    entry : Text → Value → Entries → Entries

pub data KeyProblem : Type 0 where
  unknown_field : Text → KeyProblem
  unknown_chat_field : Text → ℕ → KeyProblem
  filters_not_a_table : ℕ → KeyProblem

abbrev pub Keys : Type 0
Keys = Outcome KeyProblem (Unit {0})

abbrev pub root_fields : List Text
root_fields =
    text "state_path"
    ∷ text "cron_schedule"
    ∷ text "timezone"
    ∷ text "run_on_startup"
    ∷ text "http_timeout"
    ∷ text "alib_max_retries"
    ∷ text "alib_download_delay"
    ∷ text "message_limit"
    ∷ text "fresh_books"
    ∷ text "chats"
    ∷ []

abbrev pub chat_fields : List Text
chat_fields =
    text "chat_id"
    ∷ text "telegram_token"
    ∷ text "state_file"
    ∷ text "categories"
    ∷ text "filters"
    ∷ text "queries"
    ∷ []

abbrev pub pairs_in : Entries → List (Text × Value)
pairs_in end = []
pairs_in (entry key value entries) = (key, value) ∷ pairs_in entries

unfoldable pub validate_root_keys : List Text → Keys
validate_root_keys [] = done tt
validate_root_keys (key ∷ keys) = do
  require (contains root_fields key) (unknown_field key)
  validate_root_keys keys

abbrev pub is_table : Option Value → Bool
is_table (some (table entries)) = true
is_table other = false

unfoldable pub validate_chat_keys : ℕ → List (Text × Value) → List Text → Keys
validate_chat_keys index chat [] = done tt
validate_chat_keys index chat (key ∷ keys) = do
  require (contains chat_fields key) (unknown_chat_field key index)
  require (not (text_eq key (text "filters")) || is_table (value_at key chat))
      (filters_not_a_table index)
  validate_chat_keys index chat keys

-- What is no table is passed over: the decoding of the document has refused it.
abbrev pub validate_chat_item : ℕ → Value → Keys
validate_chat_item index (table entries) =
    validate_chat_keys index (pairs_in entries) (sorted_keys (pairs_in entries))
validate_chat_item index (array items) = done tt
validate_chat_item index scalar = done tt

unfoldable pub validate_chat_items : ℕ → Values → Keys
validate_chat_items index nil = done tt
validate_chat_items index (cons item items) = do
  validate_chat_item index item
  validate_chat_items (suc index) items

-- `asAnySlice`
abbrev pub as_any_slice : Option Value → Values
as_any_slice (some (array items)) = items
as_any_slice other = nil

unfoldable pub validate_document_keys : List (Text × Value) → Keys
validate_document_keys document = do
  validate_root_keys (sorted_keys document)
  validate_chat_items 0 (as_any_slice (value_at (text "chats") document))
