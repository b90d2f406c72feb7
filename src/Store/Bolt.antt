-- ===== src/Store/Bolt.antt =====
-- go.etcd.io/bbolt as internal/store/store.go uses it: the operations on the one bucket, what they
-- are documented to do, and the transactions around them.
use alib_fetcher.Base.{
  All, text_lt, true, refl, arith, ℕ, ◌+◌, ◌≡◌, Text, List, [], ◌∷◌, Option, none, some, Bool,
  if◌then◌else◌, text_eq,
}
use alib_fetcher.Store.Record.{Value, Error, Result, ok, err, commit_failed, bolt_failed}

-- An operation that returns `none` has failed.
pub record Bolt (Bucket : Type 0) : Type 0 where
  pub get : Bucket → Text → Option Value
  pub put : Bucket → Text → Value → Option Bucket
  pub delete : Bucket → Text → Option Bucket
  pub sequence : Bucket → ℕ
  pub next_sequence : Bucket → Option (ℕ × Bucket)
  -- what a cursor visits from the first key on, while nothing is changed
  pub entries : Bucket → List (Text × Value)
  -- whether `Next` passes over the entry behind one that `Cursor.Delete` has just removed
  pub skips_after_delete : Bucket → Text → Bool
  pub commits : Bucket → Bool

-- The value of a key in a row of entries.
abbrev pub lookup : Text → List (Text × Value) → Option Value
lookup key [] = none
lookup key ((k, v) ∷ rest) = if text_eq k key then some v else lookup key rest

-- Keys stand in strictly ascending order of their bytes.
abbrev pub IsAscending : List (Text × Value) → Type 0
IsAscending [] = Unit
IsAscending ((k, v) ∷ rest) = All (λ entry. text_lt k entry.0 ≡ true) rest × IsAscending rest

pub record BoltLaws {Bucket : Type 0} (bolt : Bolt Bucket) : Type 0 where
  pub get-put :
      (b b' : Bucket) (k j : Text) (v : Value)
      → bolt.put b k v ≡ some b'
      → bolt.get b' j ≡ (if text_eq k j then some v else bolt.get b j)
  pub sequence-put :
      (b b' : Bucket) (k : Text) (v : Value)
      → bolt.put b k v ≡ some b'
      → bolt.sequence b' ≡ bolt.sequence b
  pub get-delete :
      (b b' : Bucket) (k j : Text)
      → bolt.delete b k ≡ some b'
      → bolt.get b' j ≡ (if text_eq k j then none else bolt.get b j)
  pub get-next_sequence :
      (b b' : Bucket) (n : ℕ) (j : Text)
      → bolt.next_sequence b ≡ some (n, b')
      → bolt.get b' j ≡ bolt.get b j
  pub sequence-next_sequence :
      (b b' : Bucket) (n : ℕ)
      → bolt.next_sequence b ≡ some (n, b')
      → (n ≡ bolt.sequence b + 1) × (bolt.sequence b' ≡ n)
  pub entries-IsAscending : (b : Bucket) → IsAscending (bolt.entries b)
  pub lookup-entries : (b : Bucket) (j : Text) → lookup j (bolt.entries b) ≡ bolt.get b j

-- Polls of a context: whether it is done at each of the checks that a call makes, in order.
abbrev pub Context : Type 0
Context = ℕ → Bool

abbrev pub or_bolt_failed {ℓ} : {A : Type ℓ} → Option A → Result A
or_bolt_failed none = err bolt_failed
or_bolt_failed (some a) = ok a

module _ {Bucket : Type 0} (bolt : Bolt Bucket) where
  -- `db.Update`: an error of the function or of the commit rolls everything back.
  abbrev pub update {ℓ} : {A : Type ℓ} → Bucket → Result (A × Bucket) → Result A × Bucket
  update before (err e) = (err e, before)
  update before (ok (a, after)) =
      if bolt.commits after then (ok a, after) else (err commit_failed, before)

  pub update-ok {ℓ} :
      {A : Type ℓ} (before : Bucket) (r : Result (A × Bucket)) (a : A)
      → (update before r).0 ≡ ok a
      → r ≡ ok (a, (update before r).1)
  update-ok before (err e) a h = cc
  update-ok before (ok (b, after)) a h = ground arith

  -- An operation that checks its context and then runs a transaction changes nothing if it fails.
  pub update-err {ℓ} :
      {A : Type ℓ} (before : Bucket) (r : Result (A × Bucket)) (e : Error)
      → (update before r).0 ≡ err e
      → (update before r).1 ≡ before
  update-err before (err f) e h = refl
  update-err before (ok (b, after)) e h = ground arith
