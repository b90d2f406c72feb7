-- ===== src/Config/Search/Urls/Nonempty.antt =====
-- internal/config/search.go: a recipient that is accepted has a URL.
use alib_fetcher.Base.{
  ℕ, ◌≡◌, ◌≢◌, refl, sym, ap, ◌∙◌, inl, inr, List, [], ◌∷◌, ◌++◌, Text, map, Option, some, true,
  not, ◌&&◌, text_eq, text_eq_iff, text_lt, any, contains, All, Outcome, done, refused, ◌>>◌,
  >>=-eq-done, done-injective, require-eq-done, Bool-cases, arith,
}
use alib_fetcher.Base.Sorts.Unsorted.{All-sort_stable}
use alib_fetcher.Config.Search.Fields.{alib_search_fields}
use alib_fetcher.Config.Search.Checks.{
  SearchProblem, Checked, value_at, key_in, sorted_keys, is_empty_list, validate_keys,
  validate_filter, validate_filter_fields, validate_filters, validate_categories, validate_queries,
  unknown_filter, nothing_to_search,
}
use alib_fetcher.Config.Search.Urls.{
  SearchConfig, category_url, filter_values, build_search_url, build_search_urls,
}
use alib_fetcher.Config.Search.Urls.Unique.{
  first_occurrences-eq-nil, filter_searches, searches_of, urls_of, build_search_endpoints_unique,
  single,
}

abbrev pub IsKnown : Text → Type 0
IsKnown key = contains alib_search_fields key ≡ true

pub validate_keys-IsKnown :
    (problem : Text → SearchProblem) (keys : List Text)
    → validate_keys problem keys ≡ done tt
    → All IsKnown keys
unfolding validate_keys
validate_keys-IsKnown problem [] h = tt
validate_keys-IsKnown problem (key ∷ keys) h =
    let (known, rest) = require-eq-done (contains alib_search_fields key) (problem key) _ h in
    (known, validate_keys-IsKnown problem keys rest)

first_key-IsKnown :
    (key : Text) (values : List Text) (filters : List (Text × List Text))
    → validate_keys unknown_filter (sorted_keys ((key, values) ∷ filters)) ≡ done tt
    → IsKnown key
unfolding sorted_keys
first_key-IsKnown key values filters h =
    (All-sort_stable text_lt IsKnown (key ∷ map key_in filters)
      (validate_keys-IsKnown unknown_filter _ h)).0

append-eq-nil {ℓ} : {A : Type ℓ} (xs ys : List A) → xs ++ ys ≡ [] → (xs ≡ []) × (ys ≡ [])
append-eq-nil [] ys e = (refl, e)
append-eq-nil (x ∷ xs) ys e = cc e

checked-then :
    {A : Type 0} (check : Checked) (rest : Outcome SearchProblem A) {a : A}
    → (check >> rest) ≡ done a
    → (check ≡ done tt) × (rest ≡ done a)
checked-then (done u) rest h = (refl, h)
checked-then (refused e) rest h = cc h

validate_filter-values :
    (field : Text) (values : List Text)
    → validate_filter field (some values) ≡ done tt
    → values ≢ []
unfolding validate_filter
validate_filter-values field [] h e = cc h
validate_filter-values field (v ∷ vs) h e = cc e

map-eq-nil {ℓ κ} : {A : Type ℓ} {B : Type κ} (f : A → B) (xs : List A) → map f xs ≡ [] → xs ≡ []
map-eq-nil f [] e = refl
map-eq-nil f (x ∷ xs) e = cc e

filter_searches-nonempty :
    (filters : List (Text × List Text)) (key : Text) (values fields : List Text)
    → contains fields key ≡ true
    → value_at key filters ≡ some values
    → validate_filter_fields filters fields ≡ done tt
    → filter_searches filters fields ≢ []
unfolding contains any validate_filter_fields
filter_searches-nonempty filters key values [] known found h e = cc known
filter_searches-nonempty filters key values (field ∷ fields) known found h e =
    let (checked, rest) = checked-then (validate_filter field (value_at field filters)) _ h in
    let (first, later) =
      append-eq-nil (map (single field) (filter_values (value_at field filters)))
        (filter_searches filters fields) e in
    elim (Bool-cases (text_eq key field)) [
      | inr other ↦
          filter_searches-nonempty filters key values fields (rw other at known) found rest later
      | inl same ↦
          let here : value_at field filters ≡ some values =
            ap (λ k. value_at k filters) (sym ((text_eq_iff key field).0 same)) ∙ found in
          validate_filter-values field values (rw here at checked)
            (map-eq-nil (single field) values (rw here at first))
    ]

value_at-first :
    (key : Text) (values : List Text) (filters : List (Text × List Text))
    → value_at key ((key, values) ∷ filters) ≡ some values
unfolding value_at
value_at-first key values filters = rw ((text_eq_iff key key).1 refl) refl

filters-searched :
    (filters : List (Text × List Text))
    → validate_filters filters ≡ done tt
    → filter_searches filters alib_search_fields ≡ []
    → filters ≡ []
unfolding validate_filters
filters-searched [] h e = refl
filters-searched ((key, values) ∷ filters) h e =
    let (keys, fields) =
      checked-then (validate_keys unknown_filter (sorted_keys ((key, values) ∷ filters))) _ h in
    absurd (
      filter_searches-nonempty ((key, values) ∷ filters) key values alib_search_fields
        (first_key-IsKnown key values filters keys) (value_at-first key values filters) fields e)

is_empty_list-nil : {A : Type 0} (xs : List A) → xs ≡ [] → is_empty_list xs ≡ true
is_empty_list-nil [] e = refl
is_empty_list-nil (x ∷ xs) e = cc e

module _ (windows_1251 : Text → Option (List ℕ)) where
  urls_of-eq-nil :
      (searches : List (List (Text × Text)))
      → urls_of windows_1251 searches ≡ done []
      → searches ≡ []
  urls_of-eq-nil [] h = refl
  urls_of-eq-nil (q ∷ qs) h =
      let (url, e1, h1) = >>=-eq-done (build_search_url windows_1251 q) _ h in
      let (rest, e2, h2) = >>=-eq-done (urls_of windows_1251 qs) _ h1 in cc (done-injective h2)

  -- Where the sources of a recipient are accepted there is a URL to fetch.
  pub build_search_urls-nonempty :
      (sources : SearchConfig) (urls : List Text)
      → build_search_urls windows_1251 sources ≡ done urls
      → urls ≢ []
  unfolding build_search_urls
  build_search_urls-nonempty sources urls h e =
      let (given, h1) =
        require-eq-done
          (not (
            is_empty_list sources.categories
            && is_empty_list sources.filters
            && is_empty_list sources.queries))
          nothing_to_search _ h in
      let (categories, h2) = checked-then (validate_categories 0 sources.categories) _ h1 in
      let (filters, h3) = checked-then (validate_filters sources.filters) _ h2 in
      let (queries, h4) = checked-then (validate_queries 0 sources.queries) _ h3 in
      let (found, e1, same) =
        >>=-eq-done (urls_of windows_1251 (searches_of sources)) _
          (sym (build_search_endpoints_unique windows_1251 sources) ∙ h4) in
      let (no_categories, no_urls) =
        append-eq-nil (map category_url sources.categories) found
          (first_occurrences-eq-nil _ (done-injective same ∙ e)) in
      let (no_filters, no_queries) =
        append-eq-nil (filter_searches sources.filters alib_search_fields) sources.queries
          (urls_of-eq-nil (searches_of sources) (e1 ∙ ap done no_urls)) in
      ground (
        arith,
        given,
        is_empty_list-nil sources.categories
            (map-eq-nil category_url sources.categories no_categories),
        is_empty_list-nil sources.filters (filters-searched sources.filters filters no_filters),
        is_empty_list-nil sources.queries no_queries,
      )
