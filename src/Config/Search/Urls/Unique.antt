-- ===== src/Config/Search/Urls/Unique.antt =====
-- internal/config/search.go: the URLs of a recipient are those of its sources, each once.
use mathlib.Core.List.{append_assoc, append-nil}
use mathlib.Core.Path.{fun_ext}
use alib_fetcher.Base.{
  ℕ, ◌≡◌, refl, sym, ap, ◌∙◌, inl, inr, List, [], ◌∷◌, ◌++◌, Text, map, Option, Bool, true, not,
  ◌&&◌, text_eq, any, any-append, contains, keep, Bool-cases, text_eq_iff, Outcome, done, refused,
  ◌>>=◌, arith,
}
use alib_fetcher.Config.Search.Fields.{alib_search_fields}
use alib_fetcher.Config.Search.Checks.{SearchProblem, value_at}
use alib_fetcher.Config.Search.Urls.{
  SearchConfig, Urls, append_unique, category_url, build_search_url, add_categories, add_values,
  filter_values, add_filters, add_queries, build_search_endpoints,
}

-- Each text once, where it stands first.
pub first_occurrences : List Text → List Text
first_occurrences [] = []
first_occurrences (t ∷ ts) = t ∷ keep (λ u. not (text_eq u t)) (first_occurrences ts)

pub first_occurrences-eq-nil : (urls : List Text) → first_occurrences urls ≡ [] → urls ≡ []
unfolding first_occurrences
first_occurrences-eq-nil [] e = refl
first_occurrences-eq-nil (u ∷ us) e = cc e

-- What a row of URLs adds to those that are there.
add_all : List Text → List Text → List Text
add_all [] endpoints = endpoints
add_all (url ∷ urls) endpoints = add_all urls (append_unique endpoints url)

keep-keep :
    (p q r : Text → Bool) (ts : List Text)
    → ((t : Text) → (p t && q t) ≡ r t)
    → keep p (keep q ts) ≡ keep r ts
unfolding keep
keep-keep p q r [] h = refl
keep-keep p q r (t ∷ ts) h = ground (arith, h t, keep-keep p q r ts h)

keep_same : (p q : Text → Bool) (ts : List Text) → ((t : Text) → p t ≡ q t) → keep p ts ≡ keep q ts
unfolding keep
keep_same p q [] h = refl
keep_same p q (t ∷ ts) h = ground (arith, h t, keep_same p q ts h)

keep_all : (ts : List Text) → keep (λ t. true) ts ≡ ts
unfolding keep
keep_all [] = refl
keep_all (t ∷ ts) = ap (◌∷◌ t) (keep_all ts)

abbrev is_new : List Text → Text → Bool
is_new endpoints t = not (contains endpoints t)

text_eq_refl : (t : Text) → text_eq t t ≡ true
text_eq_refl t = (text_eq_iff t t).1 refl

-- A text that is there already is not new, whatever equals it.
old_absorbs :
    (endpoints : List Text) (url t : Text)
    → contains endpoints url ≡ true
    → (is_new endpoints t && not (text_eq t url)) ≡ is_new endpoints t
old_absorbs endpoints url t old = elim (Bool-cases (text_eq t url)) [
  | inr other ↦ rw other (ground arith)
  | inl same ↦ rw ((text_eq_iff t url).0 same, old) refl
]

is_new-append :
    (endpoints : List Text) (url t : Text)
    → (is_new endpoints t && not (text_eq t url)) ≡ is_new (endpoints ++ url ∷ []) t
unfolding contains any
is_new-append endpoints url t = ground (arith, any-append (text_eq t) endpoints (url ∷ []))

add_all-first_occurrences :
    (urls endpoints : List Text)
    → add_all urls endpoints ≡ endpoints ++ keep (is_new endpoints) (first_occurrences urls)
unfolding add_all first_occurrences keep append_unique
add_all-first_occurrences [] endpoints = sym (append-nil endpoints)
add_all-first_occurrences (url ∷ urls) endpoints =
    let later : List Text = first_occurrences urls in
    let others : Text → Bool = λ t. not (text_eq t url) in
    elim (Bool-cases (contains endpoints url)) [
      | inl old ↦ rw old (
          add_all-first_occurrences urls endpoints
          ∙ ap (λ rest. endpoints ++ rest)
              (sym (
                keep-keep (is_new endpoints) others (is_new endpoints) later
                  (λ t. old_absorbs endpoints url t old))))
      | inr new ↦ rw new (
          add_all-first_occurrences urls (endpoints ++ url ∷ [])
          ∙ append_assoc endpoints (url ∷ []) (keep (is_new (endpoints ++ url ∷ [])) later)
          ∙ ap (λ rest. endpoints ++ url ∷ rest)
              (sym (
                keep-keep (is_new endpoints) others (is_new (endpoints ++ url ∷ [])) later
                  (is_new-append endpoints url))))
    ]

add_all-append :
    (a b endpoints : List Text) → add_all (a ++ b) endpoints ≡ add_all b (add_all a endpoints)
unfolding add_all
add_all-append [] b endpoints = refl
add_all-append (url ∷ urls) b endpoints = add_all-append urls b (append_unique endpoints url)

add_all_unique : (urls : List Text) → add_all urls [] ≡ first_occurrences urls
unfolding contains any
add_all_unique urls =
    add_all-first_occurrences urls []
    ∙ keep_same (is_new []) (λ t. true) (first_occurrences urls) (λ t. refl)
    ∙ keep_all (first_occurrences urls)

-- A filter is a search for one field.
abbrev pub single : Text → Text → List (Text × Text)
single field value = (field, value) ∷ []

abbrev pub filter_searches : List (Text × List Text) → List Text → List (List (Text × Text))
filter_searches filters [] = []
filter_searches filters (field ∷ fields) =
    map (single field) (filter_values (value_at field filters)) ++ filter_searches filters fields

-- The searches of a recipient: field by field each value of the filters, and the queries.
abbrev pub searches_of : SearchConfig → List (List (Text × Text))
searches_of search = filter_searches search.filters alib_search_fields ++ search.queries

bind_assoc :
    {A B C : Type 0} (m : Outcome SearchProblem A) (f : A → Outcome SearchProblem B)
    (g : B → Outcome SearchProblem C)
    → ((m >>= f) >>= g) ≡ (m >>= λ a. f a >>= g)
bind_assoc (done a) f g = refl
bind_assoc (refused e) f g = refl

bind-done : (m : Urls) → (m >>= λ a. done a) ≡ m
bind-done (done a) = refl
bind-done (refused e) = refl

add_categories-eq :
    (categories endpoints : List Text)
    → add_categories categories endpoints ≡ add_all (map category_url categories) endpoints
unfolding add_categories add_all
add_categories-eq [] endpoints = refl
add_categories-eq (c ∷ cs) endpoints =
    add_categories-eq cs (append_unique endpoints (category_url c))

module _ (windows_1251 : Text → Option (List ℕ)) where
  -- The URL of each search, or the first error.
  abbrev pub urls_of : List (List (Text × Text)) → Urls
  urls_of [] = done []
  urls_of (search ∷ searches) = do
    url ← build_search_url windows_1251 search
    rest ← urls_of searches
    done (url ∷ rest)

  add_queries-eq :
      (searches : List (List (Text × Text))) (endpoints : List Text)
      → add_queries windows_1251 searches endpoints
        ≡ (urls_of searches >>= λ urls. done (add_all urls endpoints))
  unfolding add_queries add_all
  add_queries-eq [] endpoints = refl
  add_queries-eq (search ∷ searches) endpoints =
      let url : Outcome SearchProblem Text = build_search_url windows_1251 search in
      ap (λ k. url >>= k)
        (fun_ext (λ u.
          add_queries-eq searches (append_unique endpoints u)
          ∙ sym (
              bind_assoc (urls_of searches) (λ rest. done (u ∷ rest))
                (λ urls. done (add_all urls endpoints)))))
      ∙ sym (
          bind_assoc url (λ u. urls_of searches >>= λ rest. done (u ∷ rest))
            (λ urls. done (add_all urls endpoints)))

  add_values-eq :
      (field : Text) (values endpoints : List Text)
      → add_values windows_1251 field values endpoints
        ≡ add_queries windows_1251 (map (single field) values) endpoints
  unfolding add_values add_queries
  add_values-eq field [] endpoints = refl
  add_values-eq field (value ∷ values) endpoints =
      ap (λ k. build_search_url windows_1251 (single field value) >>= k)
        (fun_ext (λ u. add_values-eq field values (append_unique endpoints u)))

  add_queries-append :
      (a b : List (List (Text × Text))) (endpoints : List Text)
      → add_queries windows_1251 (a ++ b) endpoints
        ≡ (add_queries windows_1251 a endpoints >>= λ more. add_queries windows_1251 b more)
  unfolding add_queries
  add_queries-append [] b endpoints = refl
  add_queries-append (search ∷ searches) b endpoints =
      ap (λ k. build_search_url windows_1251 search >>= k)
        (fun_ext (λ u. add_queries-append searches b (append_unique endpoints u)))
      ∙ sym (
          bind_assoc (build_search_url windows_1251 search)
            (λ u. add_queries windows_1251 searches (append_unique endpoints u))
            (λ more. add_queries windows_1251 b more))

  add_filters-eq :
      (filters : List (Text × List Text)) (fields endpoints : List Text)
      → add_filters windows_1251 filters fields endpoints
        ≡ add_queries windows_1251 (filter_searches filters fields) endpoints
  unfolding add_filters add_queries
  add_filters-eq filters [] endpoints = refl
  add_filters-eq filters (field ∷ fields) endpoints =
      let values : List Text = filter_values (value_at field filters) in
      ap (λ m. m >>= λ more. add_filters windows_1251 filters fields more)
        (add_values-eq field values endpoints)
      ∙ ap (λ k. add_queries windows_1251 (map (single field) values) endpoints >>= k)
          (fun_ext (λ more. add_filters-eq filters fields more))
      ∙ sym (
          add_queries-append (map (single field) values) (filter_searches filters fields) endpoints)

  -- The URLs are those of the categories, of the filters in the order of the form and of the queries,
  -- each once where it stands first; the first search that cannot be built is the error.
  pub build_search_endpoints_unique :
      (search : SearchConfig)
      → build_search_endpoints windows_1251 search ≡ (
          urls_of (searches_of search) >>= λ urls.
          done (first_occurrences (map category_url search.categories ++ urls)))
  unfolding build_search_endpoints
  build_search_endpoints_unique search =
      let categories : List Text = map category_url search.categories in
      let filtered = filter_searches search.filters alib_search_fields in
      let start : List Text = add_categories search.categories [] in
      ap (λ m. m >>= λ more. add_queries windows_1251 search.queries more)
        (add_filters-eq search.filters alib_search_fields start)
      ∙ sym (add_queries-append filtered search.queries start)
      ∙ add_queries-eq (filtered ++ search.queries) start
      ∙ ap (λ k. urls_of (filtered ++ search.queries) >>= k)
          (fun_ext (λ urls. ap done (
            ap (add_all urls) (add_categories-eq search.categories [])
            ∙ sym (add_all-append categories urls [])
            ∙ add_all_unique (categories ++ urls))))
