-- ===== src/Config/Search/Checks.antt =====
-- internal/config/search.go: `validateCategories`, `validateFilters` and `validateQueries`. A map is
-- the list of its keys with their values. Errors carry what they name, not the whole message.
use alib_fetcher.Base.{
  ℕ, suc, List, [], ◌∷◌, Text, text, map, Option, none, some, Bool, true, false, not, ◌&&◌, ◌||◌,
  leb, if◌then◌else◌, text_eq, text_lt, is_empty, contains, trim_space, sort_stable, Outcome, done,
  require, ◌>>◌,
}
use alib_fetcher.Config.Search.Fields.{
  alib_search_fields, alib_tipfind_values, search_field_no_reprint, search_field_no_engraving,
  search_field_photo_only, search_field_price_range, search_field_category, search_field_sort,
}

pub data ValueProblem : Type 0 where
  empty_value not_da not_a_price_range unknown_rubric not_an_order : ValueProblem

pub data SearchProblem : Type 0 where
  nothing_to_search : SearchProblem
  invalid_category : ℕ → Text → SearchProblem
  unknown_filter : Text → SearchProblem
  no_values : Text → SearchProblem
  bad_value : Text → ℕ → ValueProblem → SearchProblem
  empty_query : ℕ → SearchProblem
  unknown_query_field : ℕ → Text → SearchProblem
  unencodable : Text → Text → SearchProblem

abbrev pub Checked : Type 0
Checked = Outcome SearchProblem (Unit {0})

abbrev pub is_empty_list : {A : Type 0} → List A → Bool
is_empty_list [] = true
is_empty_list (x ∷ xs) = false

-- The value of a map at a key.
unfoldable pub value_at : {A : Type 0} → Text → List (Text × A) → Option A
value_at key [] = none
value_at key ((k, v) ∷ entries) =
    let rest = value_at key entries in if text_eq k key then some v else rest

abbrev pub key_in : {A : Type 0} → Text × A → Text
key_in (k, v) = k

-- `slices.Sorted(maps.Keys(m))`
unfoldable pub sorted_keys : {A : Type 0} → List (Text × A) → List Text
sorted_keys entries = sort_stable text_lt (map key_in entries)

abbrev pub is_ascii_letter : ℕ → Bool
is_ascii_letter c = (leb 97 c && leb c 122) || (leb 65 c && leb c 90)

abbrev pub all_letters : Text → Bool
all_letters [] = true
all_letters (c ∷ cs) = is_ascii_letter c && all_letters cs

unfoldable pub is_ascii_word : Text → Bool
is_ascii_word value = not (is_empty value) && all_letters value

unfoldable pub validate_categories : ℕ → List Text → Checked
validate_categories index [] = done tt
validate_categories index (category ∷ categories) = do
  require (is_ascii_word category) (invalid_category index category)
  validate_categories (suc index) categories

-- `oneOf` of the first numbers, as texts.
abbrev pub price_ranges : List Text
price_ranges = text "1" ∷ text "2" ∷ text "3" ∷ text "4" ∷ text "5" ∷ []

abbrev pub orders : List Text
orders =
    text "0"
    ∷ text "1"
    ∷ text "2"
    ∷ text "3"
    ∷ text "4"
    ∷ text "5"
    ∷ text "6"
    ∷ text "7"
    ∷ text "8"
    ∷ text "9"
    ∷ text "10"
    ∷ []

abbrev pub is_flag : Text → Bool
is_flag field =
    text_eq field search_field_no_reprint
    || text_eq field search_field_no_engraving
    || text_eq field search_field_photo_only

unfoldable pub validate_search_value : Text → Text → ℕ → Checked
validate_search_value field value index = do
  require (not (is_empty (trim_space value))) (bad_value field index empty_value)
  (if is_flag field
      then require (text_eq value (text "da")) (bad_value field index not_da)
      else if text_eq field search_field_price_range
      then require (contains price_ranges value) (bad_value field index not_a_price_range)
      else if text_eq field search_field_category
      then require (contains alib_tipfind_values value) (bad_value field index unknown_rubric)
      else if text_eq field search_field_sort
      then require (contains orders value) (bad_value field index not_an_order)
      else done tt)

-- `validateFilterKeys` and `validateQueryKeys`, on the sorted keys.
unfoldable pub validate_keys : (Text → SearchProblem) → List Text → Checked
validate_keys problem [] = done tt
validate_keys problem (key ∷ keys) = do
  require (contains alib_search_fields key) (problem key)
  validate_keys problem keys

unfoldable pub validate_values : Text → ℕ → List Text → Checked
validate_values field index [] = done tt
validate_values field index (value ∷ values) = do
  validate_search_value field value index
  validate_values field (suc index) values

unfoldable pub validate_filter : Text → Option (List Text) → Checked
validate_filter field none = done tt
validate_filter field (some values) = do
  require (not (is_empty_list values)) (no_values field)
  validate_values field 0 values

unfoldable pub validate_filter_fields : List (Text × List Text) → List Text → Checked
validate_filter_fields filters [] = done tt
validate_filter_fields filters (field ∷ fields) = do
  validate_filter field (value_at field filters)
  validate_filter_fields filters fields

unfoldable pub validate_filters : List (Text × List Text) → Checked
validate_filters filters = do
  validate_keys unknown_filter (sorted_keys filters)
  validate_filter_fields filters alib_search_fields

unfoldable pub validate_query_field : Text → Option Text → ℕ → Checked
validate_query_field field none index = done tt
validate_query_field field (some value) index = validate_search_value field value index

unfoldable pub validate_query_fields : List (Text × Text) → ℕ → List Text → Checked
validate_query_fields query index [] = done tt
validate_query_fields query index (field ∷ fields) = do
  validate_query_field field (value_at field query) index
  validate_query_fields query index fields

unfoldable pub validate_query : ℕ → List (Text × Text) → Checked
validate_query index query = do
  require (not (is_empty_list query)) (empty_query index)
  validate_keys (unknown_query_field index) (sorted_keys query)
  validate_query_fields query index alib_search_fields

unfoldable pub validate_queries : ℕ → List (List (Text × Text)) → Checked
validate_queries index [] = done tt
validate_queries index (query ∷ queries) = do
  validate_query index query
  validate_queries (suc index) queries
