-- ===== src/Store/Entries.antt =====
-- Rows of entries in ascending order of their keys, as a cursor of the database visits them.
use alib_fetcher.Base.{
  ◌≡◌, refl, Text, List, [], ◌∷◌, none, some, true, text_eq, text_lt, text_eq_iff, text_eq-eq_false,
  arith, All,
}
use alib_fetcher.Store.Record.{Value}
use alib_fetcher.Store.Bolt.{IsAscending, lookup}

-- A key that is smaller than those of all entries.
abbrev pub Above : Text → List (Text × Value) → Type 0
Above key = All (λ entry. text_lt key entry.0 ≡ true)

pub lookup-Above :
    (key j : Text) (rest : List (Text × Value))
    → Above key rest
    → text_eq key j ≡ true
    → lookup j rest ≡ none
lookup-Above key j [] above h = refl
lookup-Above key j ((k, v) ∷ rest) above h = ground (
  arith,
  lookup-Above key j rest above.1 h,
  text_eq_iff key j,
  text_eq_iff k j,
  text_eq_iff key k,
  text_eq-eq_false key k above.0,
)

-- Entries behind a smaller key are found behind it.
All-found_behind :
    (key : Text) (value : Value) (rest found : List (Text × Value))
    → Above key found
    → All (λ entry. lookup entry.0 rest ≡ some entry.1) found
    → All (λ entry. lookup entry.0 ((key, value) ∷ rest) ≡ some entry.1) found
All-found_behind key value rest [] above h = tt
All-found_behind key value rest ((k, v) ∷ found) above h =
    (rw (text_eq-eq_false key k above.0) h.0, All-found_behind key value rest found above.1 h.1)

-- Each entry is what its key leads to.
pub All-found :
    (entries : List (Text × Value))
    → IsAscending entries
    → All (λ entry. lookup entry.0 entries ≡ some entry.1) entries
All-found [] ascending = tt
All-found ((key, value) ∷ rest) ascending = (
  rw ((text_eq_iff key key).1 refl),
  All-found_behind key value rest rest ascending.0 (All-found rest ascending.1),
)
