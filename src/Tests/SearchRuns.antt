-- ===== src/Tests/SearchRuns.antt =====
-- Searches, and the theorems on their URLs at concrete inputs.
use alib_fetcher.Base.{
  ℕ, ◌<◌, ◌≡◌, refl, subst, inl, inr, List, [], ◌∷◌, ◌++◌, Text, text, map, Option, none, some,
  Bool, true, ◌&&◌, ltb, if◌then◌else◌, done, ◌>>=◌, All, any, contains, text_eq, join, Bool-cases,
  arith,
}
use alib_fetcher.Config.Search.Fields.{alib_search_fields, search_field_last_days}
use alib_fetcher.Config.Search.Checks.{value_at}
use alib_fetcher.Config.Search.Encoding.{query_escape}
use alib_fetcher.Config.Search.Urls.{
  SearchConfig, append_unique, category_url, search_base, has_last_days, encode_search_value,
  field_parameters, build_search_url, add_categories, add_values, add_filters, add_queries,
  build_search_endpoints,
}
use alib_fetcher.Config.Search.Urls.Query.{
  EncodesBytes, read_query, pairs_of, default_pair, build_search_url-query,
}
use alib_fetcher.Config.Search.Urls.Unique.{
  first_occurrences, urls_of, searches_of, build_search_endpoints_unique,
}

abbrev is_ascii : Text → Bool
is_ascii [] = true
is_ascii (c ∷ cs) = ltb c 128 && is_ascii cs

-- The part of Windows-1251 that is ASCII.
abbrev pub ascii_bytes : Text → Option (List ℕ)
ascii_bytes value = if is_ascii value then some value else none

is_ascii-All : (value : Text) → is_ascii value ≡ true → All (λ b. b < 256) value
is_ascii-All [] h = tt
is_ascii-All (c ∷ cs) h = (ground (arith, h), is_ascii-All cs (ground (arith, h)))

ascii_bytes-bytes : EncodesBytes ascii_bytes
ascii_bytes-bytes value bytes h = elim (Bool-cases (is_ascii value)) [
  | inl ascii ↦ subst (All (λ b. b < 256)) (ground (arith, ascii, h)) (is_ascii-All value ascii)
  | inr other ↦ ground (arith, other, h)
]

abbrev query : List (Text × Text)
query = (text "title", text "War & Peace") ∷ (text "author", text "Tolstoy") ∷ []

abbrev query_url : Text
query_url = text "https://alib.ru/findp.php4?author=Tolstoy&title=War+%26+Peace&lday=7"

query_built : build_search_url ascii_bytes query ≡ done query_url
unfolding build_search_url field_parameters encode_search_value has_last_days value_at any text_eq
    query_escape join
query_built = refl

build_search_url-query_example :
    (q : Text) × (query_url ≡ search_base ++ q)
    × (read_query q
        ≡ pairs_of ascii_bytes query alib_search_fields
          ++ default_pair ascii_bytes (value_at search_field_last_days query))
build_search_url-query_example =
    build_search_url-query ascii_bytes ascii_bytes-bytes query query_url query_built

-- A category is named twice, and a query repeats a filter.
abbrev search : SearchConfig
search = record {
  categories = text "tdetz" ∷ text "thobby" ∷ text "tdetz" ∷ [];
  filters = (text "author", text "Dahl" ∷ text "Lem" ∷ []) ∷ [];
  queries = ((text "author", text "Lem") ∷ []) ∷ query ∷ [];
}

search_built :
    build_search_endpoints ascii_bytes search
    ≡ done (
        text "https://www.alib.ru/tdetz.phtml?tnew=7"
        ∷ text "https://www.alib.ru/thobby.phtml?tnew=7"
        ∷ text "https://alib.ru/findp.php4?author=Dahl&lday=7"
        ∷ text "https://alib.ru/findp.php4?author=Lem&lday=7"
        ∷ query_url
        ∷ [])
unfolding build_search_endpoints add_categories add_filters add_values add_queries append_unique
    contains build_search_url field_parameters encode_search_value has_last_days value_at any
    text_eq query_escape join
search_built = refl

build_search_endpoints_unique_example : build_search_endpoints ascii_bytes search ≡ (
    urls_of ascii_bytes (searches_of search) >>= λ urls.
    done (first_occurrences (map category_url search.categories ++ urls)))
build_search_endpoints_unique_example = build_search_endpoints_unique ascii_bytes search
