-- ===== src/Config/Search/Urls.antt =====
-- internal/config/search.go: the URLs, and `buildSearchURLs`. The encoding of a text in
-- Windows-1251, from golang.org/x/text, is a parameter: its bytes, or `none` for its error.
pub mod Query
pub mod Unique
pub mod Nonempty
use alib_fetcher.Base.{
  ℕ, List, [], ◌∷◌, ◌++◌, Text, text, Option, none, some, Bool, true, false, not, ◌&&◌, ◌||◌,
  is_none, if◌then◌else◌, text_eq, any, contains, join, Outcome, done, refused, require, ◌>>=◌,
  ◌>>◌,
}
use alib_fetcher.Config.Search.Fields.{alib_search_fields, search_field_last_days}
use alib_fetcher.Config.Search.Checks.{
  SearchProblem, unencodable, nothing_to_search, value_at, is_empty_list, validate_categories,
  validate_filters, validate_queries,
}
use alib_fetcher.Config.Search.Encoding.{query_escape}

-- `SearchConfig`
pub record SearchConfig : Type 0 where
  pub categories : List Text
  pub filters : List (Text × List Text)
  pub queries : List (List (Text × Text))

abbrev pub Urls : Type 0
Urls = Outcome SearchProblem (List Text)

unfoldable pub append_unique : List Text → Text → List Text
append_unique endpoints endpoint =
    if contains endpoints endpoint then endpoints else endpoints ++ endpoint ∷ []

abbrev pub category_url : Text → Text
category_url category = text "https://www.alib.ru/" ++ (category ++ text ".phtml?tnew=7")

abbrev pub search_base : Text
search_base = text "https://alib.ru/findp.php4?"

abbrev pub parameter : Text → List ℕ → Text
parameter field bytes = field ++ 61 ∷ query_escape bytes

abbrev pub encoded_or : SearchProblem → Option (List ℕ) → Outcome SearchProblem (List ℕ)
encoded_or problem none = refused problem
encoded_or problem (some bytes) = done bytes

-- The flag after the loop.
unfoldable pub has_last_days : List (Text × Text) → Bool
has_last_days values =
    any (λ field. text_eq field search_field_last_days && not (is_none (value_at field values)))
      alib_search_fields

unfoldable pub add_categories : List Text → List Text → List Text
add_categories [] endpoints = endpoints
add_categories (category ∷ categories) endpoints =
    add_categories categories (append_unique endpoints (category_url category))

abbrev pub filter_values : Option (List Text) → List Text
filter_values none = []
filter_values (some values) = values

module _ (windows_1251 : Text → Option (List ℕ)) where
  unfoldable pub encode_search_value : Text → Text → Outcome SearchProblem (List ℕ)
  encode_search_value field value = encoded_or (unencodable field value) (windows_1251 value)

  -- One pass of the loop over the fields.
  abbrev pub field_parameter : Text → Option Text → Urls
  field_parameter field none = done []
  field_parameter field (some value) = do
    bytes ← encode_search_value field value
    done (parameter field bytes ∷ [])

  unfoldable pub field_parameters : List (Text × Text) → List Text → Urls
  field_parameters values [] = done []
  field_parameters values (field ∷ fields) = do
    first ← field_parameter field (value_at field values)
    rest ← field_parameters values fields
    done (first ++ rest)

  abbrev pub default_parameter : Bool → Urls
  default_parameter true = done []
  default_parameter false = field_parameter search_field_last_days (some (text "7"))

  unfoldable pub build_search_url : List (Text × Text) → Outcome SearchProblem Text
  build_search_url values = do
    parameters ← field_parameters values alib_search_fields
    default ← default_parameter (has_last_days values)
    done (search_base ++ join (parameters ++ default) (text "&"))

  -- The loop over the values of one field of the filters.
  unfoldable pub add_values : Text → List Text → List Text → Urls
  add_values field [] endpoints = done endpoints
  add_values field (value ∷ values) endpoints = do
    endpoint ← build_search_url ((field, value) ∷ [])
    add_values field values (append_unique endpoints endpoint)

  unfoldable pub add_filters : List (Text × List Text) → List Text → List Text → Urls
  add_filters filters [] endpoints = done endpoints
  add_filters filters (field ∷ fields) endpoints = do
    more ← add_values field (filter_values (value_at field filters)) endpoints
    add_filters filters fields more

  unfoldable pub add_queries : List (List (Text × Text)) → List Text → Urls
  add_queries [] endpoints = done endpoints
  add_queries (query ∷ queries) endpoints = do
    endpoint ← build_search_url query
    add_queries queries (append_unique endpoints endpoint)

  unfoldable pub build_search_endpoints : SearchConfig → Urls
  build_search_endpoints search = do
    filtered ← add_filters search.filters alib_search_fields (add_categories search.categories [])
    add_queries search.queries filtered

  unfoldable pub build_search_urls : SearchConfig → Urls
  build_search_urls search = do
    require
        (not (
          is_empty_list search.categories
          && is_empty_list search.filters
          && is_empty_list search.queries))
        nothing_to_search
    validate_categories 0 search.categories
    validate_filters search.filters
    validate_queries 0 search.queries
    build_search_endpoints search
