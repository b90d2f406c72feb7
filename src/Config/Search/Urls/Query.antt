-- ===== src/Config/Search/Urls/Query.antt =====
-- internal/config/search.go: the query of a URL that is built says what was asked for.
use mathlib.Core.List.{map-append, append-nil}
use alib_fetcher.Base.{
  ℕ, ◌<◌, ◌≡◌, ◌≢◌, refl, sym, ap, subst, ◌∙◌, inl, inr, List, [], ◌∷◌, ◌++◌, Text, text, map,
  Option, none, some, Bool, true, false, not, ◌&&◌, ◌==◌, is_none, text_eq, any, any-append, All,
  All-append, join, split, cut_text, has_prefix, Bool-cases, Option-cases, done, >>=-eq-done,
  done-injective, arith,
}
use alib_fetcher.Base.Strings.Splits.{IsWhole, has_separator, split-join}
use alib_fetcher.Config.Search.Fields.{alib_search_fields, search_field_last_days}
use alib_fetcher.Config.Search.Checks.{SearchProblem, unencodable, value_at}
use alib_fetcher.Config.Search.Encoding.{query_escape}
use alib_fetcher.Config.Search.Encoding.Decoded.{
  unescape, unescape-query_escape, query_escape-whole,
}
use alib_fetcher.Config.Search.Urls.{
  encoded_or, encode_search_value, parameter, field_parameter, field_parameters, has_last_days,
  default_parameter, build_search_url, search_base,
}

abbrev read_cut : Text → Option (Text × Text) → Text × List ℕ
read_cut p none = (p, [])
read_cut p (some (name, value)) = (name, unescape value)

-- The name and the value of a parameter, as a server reads them.
abbrev pub read_pair : Text → Text × List ℕ
read_pair p = read_cut p (cut_text p (text "="))

abbrev pub read_query : Text → List (Text × List ℕ)
read_query query = map read_pair (split 38 query)

abbrev IsName : Text → Type 0
IsName t = IsWhole 38 t × IsWhole 61 t

are_names : List Text → Bool
are_names [] = true
are_names (t ∷ ts) = not (has_separator 38 t) && not (has_separator 61 t) && are_names ts

are_names_sound : (ts : List Text) → are_names ts ≡ true → All IsName ts
unfolding are_names
are_names_sound [] h = tt
are_names_sound (t ∷ ts) h =
    ((ground (arith, h), ground (arith, h)), are_names_sound ts (ground (arith, h)))

fields-IsName : All IsName alib_search_fields
unfolding are_names any
fields-IsName = are_names_sound alib_search_fields refl

cut_text-equals :
    (name value : Text)
    → IsWhole 61 name
    → cut_text (name ++ 61 ∷ value) (text "=") ≡ some (name, value)
unfolding cut_text has_prefix any
cut_text-equals [] value h = refl
cut_text-equals (c ∷ cs) value h = elim (Bool-cases (c == 61)) [
  | inl ends ↦ cc (rw ends at h)
  | inr other ↦ rw (other, cut_text-equals cs value (rw other at h)) refl
]

split-join_all :
    (ts : List Text) → All (IsWhole 38) ts → ts ≢ [] → split 38 (join ts (text "&")) ≡ ts
split-join_all [] whole n = absurd (n refl)
split-join_all (t ∷ ts) whole n = split-join 38 t ts whole

encoded_or-done :
    (problem : SearchProblem) (found : Option (List ℕ)) (bytes : List ℕ)
    → encoded_or problem found ≡ done bytes
    → found ≡ some bytes
encoded_or-done problem none bytes h = cc h
encoded_or-done problem (some found) bytes h = ap some (done-injective h)

abbrev pub bytes_in : Option (List ℕ) → List ℕ
bytes_in none = []
bytes_in (some bytes) = bytes

module _ (windows_1251 : Text → Option (List ℕ)) where
  -- The encoding hands out bytes.
  abbrev pub EncodesBytes : Type 0
  EncodesBytes =
      (value : Text) (bytes : List ℕ) → windows_1251 value ≡ some bytes → All (λ b. b < 256) bytes

  abbrev pub bytes_of : Text → List ℕ
  bytes_of value = bytes_in (windows_1251 value)

  abbrev pub pair_of : Text → Option Text → List (Text × List ℕ)
  pair_of field none = []
  pair_of field (some value) = (field, bytes_of value) ∷ []

  -- What is asked for, field by field in the order of the form.
  abbrev pub pairs_of : List (Text × Text) → List Text → List (Text × List ℕ)
  pairs_of values [] = []
  pairs_of values (field ∷ fields) = pair_of field (value_at field values) ++ pairs_of values fields

  -- Seven days, if no number of days is asked for.
  abbrev pub default_pair : Option Text → List (Text × List ℕ)
  default_pair none = (search_field_last_days, bytes_of (text "7")) ∷ []
  default_pair (some value) = []

  has_last_days-value_at :
      (values : List (Text × Text))
      → has_last_days values ≡ not (is_none (value_at search_field_last_days values))
  unfolding has_last_days any text_eq
  has_last_days-value_at values = elim (Option-cases (value_at search_field_last_days values)) [
    | inl absent ↦ rw absent refl
    | inr (days, given) ↦ rw given refl
  ]

  encode_search_value-done :
      (field value : Text) (bytes : List ℕ)
      → encode_search_value windows_1251 field value ≡ done bytes
      → windows_1251 value ≡ some bytes
  unfolding encode_search_value
  encode_search_value-done field value bytes h =
      encoded_or-done (unencodable field value) (windows_1251 value) bytes h

  pairs_of-nonempty :
      (values : List (Text × Text)) (fields : List Text)
      → any
          (λ field. text_eq field search_field_last_days && not (is_none (value_at field values)))
          fields
        ≡ true
      → pairs_of values fields ≢ []
  unfolding any
  pairs_of-nonempty values [] h e = cc h
  pairs_of-nonempty values (field ∷ fields) h e = elim (Option-cases (value_at field values)) [
    | inl absent ↦ pairs_of-nonempty values fields (ground (arith, absent, h)) (rw absent at e)
    | inr (value, given) ↦ cc (rw given at e)
  ]

  with_default-nonempty :
      (pairs : List (Text × List ℕ)) (days : Option Text)
      → (is_none days ≡ false → pairs ≢ [])
      → pairs ++ default_pair days ≢ []
  with_default-nonempty [] none given e = cc e
  with_default-nonempty (p ∷ ps) none given e = cc e
  with_default-nonempty pairs (some days) given e = given refl (sym (append-nil pairs) ∙ e)

  pairs-nonempty :
      (values : List (Text × Text))
      → pairs_of values alib_search_fields ++ default_pair (value_at search_field_last_days values)
        ≢ []
  unfolding has_last_days
  pairs-nonempty values =
      with_default-nonempty (pairs_of values alib_search_fields)
        (value_at search_field_last_days values)
        (λ given.
          pairs_of-nonempty values alib_search_fields
            (has_last_days-value_at values ∙ ap not given))

  module _ (bytes_only : EncodesBytes) where
    abbrev Reads : List Text → List (Text × List ℕ) → Type 0
    Reads parameters pairs = (map read_pair parameters ≡ pairs) × All (IsWhole 38) parameters

    Reads-append :
        (ps qs : List Text) (pairs more : List (Text × List ℕ))
        → Reads ps pairs
        → Reads qs more
        → Reads (ps ++ qs) (pairs ++ more)
    Reads-append ps qs pairs more p q =
        (map-append read_pair ps qs ∙ rw (p.0, q.0) refl, All-append (IsWhole 38) ps qs p.1 q.1)

    parameter-Reads :
        (field : Text) (bytes : List ℕ)
        → IsName field
        → All (λ b. b < 256) bytes
        → (read_pair (parameter field bytes) ≡ (field, bytes)) × IsWhole 38 (parameter field bytes)
    unfolding any
    parameter-Reads field bytes name small = (
      ap (read_cut (parameter field bytes)) (cut_text-equals field (query_escape bytes) name.1)
          ∙ ap (λ b. (field, b)) (unescape-query_escape bytes small),
      any-append (λ c. c == 38) field (61 ∷ query_escape bytes)
          ∙ rw (name.0) ((query_escape-whole bytes small).0),
    )

    field_parameter-Reads :
        (field : Text) (value : Option Text) (parameters : List Text)
        → IsName field
        → field_parameter windows_1251 field value ≡ done parameters
        → Reads parameters (pair_of field value)
    field_parameter-Reads field none parameters name h =
        subst (λ ps. Reads ps []) (done-injective h) (refl, tt)
    field_parameter-Reads field (some value) parameters name h =
        let (bytes, encoded, h1) = >>=-eq-done (encode_search_value windows_1251 field value) _ h in
        let known : windows_1251 value ≡ some bytes =
          encode_search_value-done field value bytes encoded in
        let (same, whole) = parameter-Reads field bytes name (bytes_only value bytes known) in
        subst (λ ps. Reads ps (pair_of field (some value))) (done-injective h1)
          (rw (same, ap bytes_in known) refl, (whole, tt))

    field_parameters-Reads :
        (values : List (Text × Text)) (fields parameters : List Text)
        → All IsName fields
        → field_parameters windows_1251 values fields ≡ done parameters
        → Reads parameters (pairs_of values fields)
    unfolding field_parameters
    field_parameters-Reads values [] parameters names h =
        subst (λ ps. Reads ps []) (done-injective h) (refl, tt)
    field_parameters-Reads values (field ∷ fields) parameters names h =
        let (first, e1, h1) =
          >>=-eq-done (field_parameter windows_1251 field (value_at field values)) _ h in
        let (rest, e2, h2) = >>=-eq-done (field_parameters windows_1251 values fields) _ h1 in
        subst (λ ps. Reads ps (pairs_of values (field ∷ fields))) (done-injective h2)
          (Reads-append first rest (pair_of field (value_at field values)) (pairs_of values fields)
            (field_parameter-Reads field (value_at field values) first names.0 e1)
            (field_parameters-Reads values fields rest names.1 e2))

    default_parameter-Reads :
        (days : Option Text) (parameters : List Text)
        → default_parameter windows_1251 (not (is_none days)) ≡ done parameters
        → Reads parameters (default_pair days)
    unfolding any
    default_parameter-Reads none parameters h =
        field_parameter-Reads search_field_last_days (some (text "7")) parameters (refl, refl) h
    default_parameter-Reads (some value) parameters h =
        subst (λ ps. Reads ps []) (done-injective h) (refl, tt)

    -- A URL that is built asks for the fields that are given, in the order of the form, each with the
    -- bytes of its value in Windows-1251, and for the last seven days if no number of days is
    -- given: this is what a server reads in its query.
    pub build_search_url-query :
        (values : List (Text × Text)) (url : Text)
        → build_search_url windows_1251 values ≡ done url
        → (query : Text) × (url ≡ search_base ++ query)
          × (read_query query
              ≡ pairs_of values alib_search_fields
                ++ default_pair (value_at search_field_last_days values))
    unfolding build_search_url
    build_search_url-query values url h =
        let (first, e1, h1) =
          >>=-eq-done (field_parameters windows_1251 values alib_search_fields) _ h in
        let (last, e2, h2) =
          >>=-eq-done (default_parameter windows_1251 (has_last_days values)) _ h1 in
        let days : Option Text = value_at search_field_last_days values in
        let (same, whole) =
          Reads-append first last (pairs_of values alib_search_fields) (default_pair days)
            (field_parameters-Reads values alib_search_fields first fields-IsName e1)
            (default_parameter-Reads days last (rw (sym (has_last_days-value_at values)) e2)) in
        (
          join (first ++ last) (text "&"),
          sym (done-injective h2),
          ap (map read_pair) (
                split-join_all (first ++ last) whole
                  (λ e. pairs-nonempty values (sym same ∙ ap (map read_pair) e)))
              ∙ same,
        )
