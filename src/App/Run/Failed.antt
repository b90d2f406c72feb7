-- ===== src/App/Run/Failed.antt =====
-- internal/app/service.go: the URLs of the books that failed in a cycle, each once.
use alib_fetcher.Base.{
  ◌≡◌, refl, sym, subst, List, [], ◌∷◌, Text, Bool, true, false, ◌||◌, keep, any, contains, text_eq,
  text_eq_iff, arith, inl, inr, Bool-cases,
}
use alib_fetcher.Alib.Book.{Book}
use alib_fetcher.Alib.Listings.Outcomes.{AreDistinct, AreDistinct-snoc}
use alib_fetcher.Digest.Item.{Options}
use alib_fetcher.App.Ports.{Dependencies}
use alib_fetcher.App.Deliver.Acks.{any_listing}
use alib_fetcher.App.Service.{
  Recordable, with_key, with_keys, recordable_book, recordable_from, recordable_fetched,
}
use alib_fetcher.App.Run.{without_failed}
use alib_fetcher.App.Run.Recorded.{contains-with_key}

pub contains-with_keys :
    (urls keys : List Text) (j : Text)
    → contains (with_keys urls keys) j ≡ (contains keys j || contains urls j)
unfolding with_keys contains any
contains-with_keys [] keys j = ground arith
contains-with_keys (url ∷ urls) keys j = ground (
  arith,
  contains-with_keys urls (with_key url keys) j,
  contains-with_key url j keys,
  text_eq_iff url j,
  text_eq_iff j url,
)

-- A URL that failed is the URL of no book that is left.
pub failed-unlisted :
    (p : Book → Bool) (failed_urls : List Text) (books : List Book) (j : Text)
    → contains failed_urls j ≡ true
    → any_listing (keep p (without_failed failed_urls books)) j ≡ false
unfolding without_failed keep any
failed-unlisted p failed_urls [] j h = refl
failed-unlisted p failed_urls (book ∷ books) j h =
    let rest = failed-unlisted p failed_urls books j h in
    elim (Bool-cases (text_eq book.buy_url j)) [
      | inl hit ↦
          let gone =
            subst (λ k. contains failed_urls k ≡ true) (sym ((text_eq_iff book.buy_url j).0 hit))
              h in
          rw gone rest
      | inr miss ↦ elim (Bool-cases (contains failed_urls book.buy_url)) [
        | inl gone ↦ rw gone rest
        | inr left ↦ elim (Bool-cases (p book)) [
          | inl passes ↦ rw (left, passes, miss) rest
          | inr fails ↦ rw (left, fails) rest
        ]
      ]
    ]

with_key-AreDistinct :
    (key : Text) (keys : List Text) → AreDistinct keys → AreDistinct (with_key key keys)
unfolding with_key
with_key-AreDistinct key keys d = elim (Bool-cases (contains keys key)) [
  | inl there ↦ rw there d
  | inr new ↦ rw new (AreDistinct-snoc keys key d new)
]

pub with_keys-AreDistinct :
    (urls keys : List Text) → AreDistinct keys → AreDistinct (with_keys urls keys)
unfolding with_keys
with_keys-AreDistinct [] keys d = d
with_keys-AreDistinct (url ∷ urls) keys d =
    with_keys-AreDistinct urls (with_key url keys) (with_key-AreDistinct url keys d)

module _ {World Ctx E : Type 0} (deps : Dependencies World Ctx E) (options : Options) where
  recordable_book-AreDistinct :
      (book : Book) (known rendered : Bool) (r : Recordable)
      → AreDistinct r.failed_urls
      → AreDistinct (recordable_book deps book known rendered r).failed_urls
  unfolding recordable_book
  recordable_book-AreDistinct book true rendered r d = d
  recordable_book-AreDistinct book false true r d = d
  recordable_book-AreDistinct book false false r d =
      with_key-AreDistinct book.buy_url r.failed_urls d

  recordable_from-AreDistinct :
      (books : List Book) (existing : List Bool) (r : Recordable)
      → AreDistinct r.failed_urls
      → AreDistinct (recordable_from deps books existing options r).failed_urls
  unfolding recordable_from
  recordable_from-AreDistinct [] existing r d = d
  recordable_from-AreDistinct (book ∷ books) [] r d = d
  recordable_from-AreDistinct (book ∷ books) (known ∷ existing) r d =
      recordable_from-AreDistinct books existing _ (recordable_book-AreDistinct book known _ r d)

  pub recordable_fetched-AreDistinct :
      (books : List Book) (existing : List Bool) (urls : List Text)
      → AreDistinct urls
      → AreDistinct (recordable_fetched deps books existing urls options).failed_urls
  unfolding recordable_fetched
  recordable_fetched-AreDistinct books existing urls d =
      recordable_from-AreDistinct books existing
        (record { recordable = []; new_books = 0; failed_urls = urls }) d
