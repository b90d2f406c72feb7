-- ===== src/Tests/Memory.antt =====
-- A bucket in memory: a sorted row of entries and a counter. It meets what is asked of bbolt.
use alib_fetcher.Base.{
  ℕ, suc, ◌≡◌, refl, subst, Text, List, [], ◌∷◌, none, some, true, false, if◌then◌else◌, is_empty,
  text_eq, text_lt, text_eq_iff, text_lt_trans, text_lt_total, arith, inl, inr, Bool-cases, All,
}
use alib_fetcher.Store.Record.{Value}
use alib_fetcher.Store.Bolt.{Bolt, BoltLaws, IsAscending, lookup}

abbrev Above : Text → List (Text × Value) → Type 0
Above key = All (λ entry. text_lt key entry.0 ≡ true)

unfoldable pub insert_row : Text → Value → List (Text × Value) → List (Text × Value)
insert_row key v [] = (key, v) ∷ []
insert_row key v ((k, w) ∷ rest) =
    let later = insert_row key v rest in
    if text_eq k key
    then (key, v) ∷ rest
    else if text_lt key k
    then (key, v) ∷ (k, w) ∷ rest
    else (k, w) ∷ later

unfoldable pub remove_row : Text → List (Text × Value) → List (Text × Value)
remove_row key [] = []
remove_row key ((k, w) ∷ rest) =
    let later = remove_row key rest in if text_eq k key then later else (k, w) ∷ later

lookup-insert_row :
    (key j : Text) (v : Value) (rows : List (Text × Value))
    → lookup j (insert_row key v rows) ≡ (if text_eq key j then some v else lookup j rows)
unfolding insert_row
lookup-insert_row key j v [] = refl
lookup-insert_row key j v ((k, w) ∷ rest) =
    ground
      (arith, lookup-insert_row key j v rest, text_eq_iff k key, text_eq_iff k j, text_eq_iff key j)

lookup-remove_row :
    (key j : Text) (rows : List (Text × Value))
    → lookup j (remove_row key rows) ≡ (if text_eq key j then none else lookup j rows)
unfolding remove_row
lookup-remove_row key j [] = ground arith
lookup-remove_row key j ((k, w) ∷ rest) =
    ground
      (arith, lookup-remove_row key j rest, text_eq_iff k key, text_eq_iff k j, text_eq_iff key j)

Above-insert_row :
    (k key : Text) (v : Value) (rows : List (Text × Value))
    → Above k rows
    → text_lt k key ≡ true
    → Above k (insert_row key v rows)
unfolding insert_row
Above-insert_row k key v [] above h = (h, tt)
Above-insert_row k key v ((j, w) ∷ rest) above h =
    ground (arith, Above-insert_row k key v rest above.1 h)

Above-trans :
    (j k : Text) (rows : List (Text × Value)) → text_lt j k ≡ true → Above k rows → Above j rows
Above-trans j k [] h above = tt
Above-trans j k ((i, w) ∷ rest) h above =
    (text_lt_trans j k i h above.0, Above-trans j k rest h above.1)

Above-remove_row :
    (k key : Text) (rows : List (Text × Value)) → Above k rows → Above k (remove_row key rows)
unfolding remove_row
Above-remove_row k key [] above = tt
Above-remove_row k key ((j, w) ∷ rest) above = ground (arith, Above-remove_row k key rest above.1)

pub remove_row-IsAscending :
    (key : Text) (rows : List (Text × Value)) → IsAscending rows → IsAscending (remove_row key rows)
unfolding remove_row
remove_row-IsAscending key [] h = tt
remove_row-IsAscending key ((k, w) ∷ rest) h =
    ground (arith, remove_row-IsAscending key rest h.1, Above-remove_row k key rest h.0)

pub insert_row-IsAscending :
    (key : Text) (v : Value) (rows : List (Text × Value))
    → IsAscending rows
    → IsAscending (insert_row key v rows)
unfolding insert_row
insert_row-IsAscending key v [] h = (tt, tt)
insert_row-IsAscending key v ((k, w) ∷ rest) h = elim (Bool-cases (text_eq k key)) [
  | inl same ↦
      rw (same, insert_row) (subst (λ j. Above j rest) ((text_eq_iff k key).0 same) h.0, h.1)
  | inr other ↦ ground (
    arith,
    other,
    Above-trans key k rest,
    insert_row-IsAscending key v rest h.1,
    Above-insert_row k key v rest h.0,
    text_lt_total k key other,
    text_lt_total key k,
    text_eq_iff key k,
    text_eq_iff k key,
  )
]

pub record Memory : Type 0 where
  pub rows : List (Text × Value)
  pub counter : ℕ
  pub ascending : IsAscending rows

abbrev pub empty_memory : Memory
empty_memory = record { rows = []; counter = 0; ascending = tt }

abbrev put_row : Memory → Text → Value → Memory
put_row m key v = record {
  rows = insert_row key v m.rows;
  counter = m.counter;
  ascending = insert_row-IsAscending key v m.rows m.ascending;
}

abbrev delete_row : Memory → Text → Memory
delete_row m key = record {
  rows = remove_row key m.rows;
  counter = m.counter;
  ascending = remove_row-IsAscending key m.rows m.ascending;
}

abbrev pub memory : Bolt Memory
memory = record {
  get = λ m key. lookup key m.rows;
  put = λ m key v. if is_empty key then none else some (put_row m key v);
  delete = λ m key. some (delete_row m key);
  sequence = λ m. m.counter;
  next_sequence = λ m. some (suc m.counter, record m { counter = suc m.counter });
  entries = λ m. m.rows;
  skips_after_delete = λ m key. false;
  commits = λ m. true;
}

some-injective : {m n : Memory} → some m ≡ some n → m ≡ n
some-injective h = cc h

pub memory-laws : BoltLaws memory
memory-laws = record {
  get-put = λ m m' key j v h. ground (arith, lookup-insert_row key j v m.rows);
  sequence-put = λ m m' key v h. ground arith;
  get-delete = λ m m' key j h. ground (arith, lookup-remove_row key j m.rows);
  get-next_sequence = λ m m' n j h. ground arith;
  sequence-next_sequence = λ m m' n h. ground arith;
  entries-IsAscending = λ m. m.ascending;
  lookup-entries = λ m j. refl;
}
