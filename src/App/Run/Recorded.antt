-- ===== src/App/Run/Recorded.antt =====
-- internal/app/service.go: which fetched books `recordableFetched` lets through.
use alib_fetcher.Base.{
  any-append, ℕ, suc, ◌+◌, ◌≡◌, refl, sym, ap, ◌∙◌, List, [], ◌∷◌, ◌++◌, Text, Bool, true, false,
  not, ◌&&◌, ◌||◌, if◌then◌else◌, any, contains, text_eq, text_eq_iff, arith,
}
use mathlib.Core.List.{append-nil, append_assoc}
use alib_fetcher.Alib.Book.{Book}
use alib_fetcher.Digest.Item.{Options}
use alib_fetcher.Digest.Chunks.Books as Books
use alib_fetcher.App.Ports.{Dependencies}
use alib_fetcher.App.Service.{
  Recordable, with_key, recordable_book, recordable_from, recordable_fetched,
}

pub contains-with_key :
    (key j : Text) (keys : List Text)
    → contains (with_key key keys) j ≡ (contains keys j || text_eq key j)
unfolding with_key contains any
contains-with_key key j keys =
    ground (arith, any-append (text_eq j) keys (key ∷ []), text_eq_iff key j, text_eq_iff j key)

module _ {World Ctx E : Type 0} (deps : Dependencies World Ctx E) (options : Options) where
  abbrev renders : Book → Bool
  renders = Books.renders deps.html_parse options

  -- The known books and those that can be rendered; the number of the latter that are not known;
  -- whether a URL is that of another book.
  pub admitted : List Book → List Bool → List Book
  admitted [] existing = []
  admitted (book ∷ books) [] = []
  admitted (book ∷ books) (known ∷ existing) =
      let rest = admitted books existing in if known || renders book then book ∷ rest else rest

  pub count_new : List Book → List Bool → ℕ
  count_new [] existing = 0
  count_new (book ∷ books) [] = 0
  count_new (book ∷ books) (known ∷ existing) =
      let rest = count_new books existing in if not known && renders book then suc rest else rest

  pub is_rejected : List Book → List Bool → Text → Bool
  is_rejected [] existing j = false
  is_rejected (book ∷ books) [] j = false
  is_rejected (book ∷ books) (known ∷ existing) j =
      (not known && (not (renders book) && text_eq book.buy_url j)) || is_rejected books existing j

  recordable_book_lem :
      (book : Book) (known rendered : Bool) (r : Recordable)
      → ((recordable_book deps book known rendered r).recordable
          ≡ r.recordable ++ (if known || rendered then book ∷ [] else []))
        × ((recordable_book deps book known rendered r).new_books
            ≡ r.new_books + (if not known && rendered then 1 else 0))
        × ((j : Text)
            → contains (recordable_book deps book known rendered r).failed_urls j ≡ (
                contains r.failed_urls j
                || (not known && (not rendered && text_eq book.buy_url j))))
  unfolding recordable_book
  recordable_book_lem book true rendered r = (refl, omega arith, λ j. ground arith)
  recordable_book_lem book false true r = (refl, omega arith, λ j. ground arith)
  recordable_book_lem book false false r = (
    sym (append-nil r.recordable),
    omega arith,
    λ j. contains-with_key book.buy_url j r.failed_urls,
  )

  recordable_from_lem :
      (books : List Book) (existing : List Bool) (r : Recordable)
      → ((recordable_from deps books existing options r).recordable
          ≡ r.recordable ++ admitted books existing)
        × ((recordable_from deps books existing options r).new_books
            ≡ r.new_books + count_new books existing)
        × ((j : Text)
            → contains (recordable_from deps books existing options r).failed_urls j
              ≡ (contains r.failed_urls j || is_rejected books existing j))
  unfolding recordable_from recordable_book admitted count_new is_rejected
  recordable_from_lem [] existing r =
      (sym (append-nil r.recordable), omega arith, λ j. ground arith)
  recordable_from_lem (book ∷ books) [] r =
      (sym (append-nil r.recordable), omega arith, λ j. ground arith)
  recordable_from_lem (book ∷ books) (known ∷ existing) r =
      let next = recordable_book deps book known (renders book) r in
      let step = recordable_book_lem book known (renders book) r in
      let later = recordable_from_lem books existing next in
      let assoc =
        append_assoc r.recordable (if known || renders book then book ∷ [] else [])
          (admitted books existing) in
      let front : (if known || renders book then book ∷ [] else []) ++ admitted books existing ≡ (
          if known || renders book
          then book ∷ admitted books existing
          else admitted books existing) =
        ground arith in
      (
        later.0
            ∙ ap (λ list. list ++ admitted books existing) step.0
            ∙ assoc
            ∙ ap (λ list. r.recordable ++ list) front,
        ground (arith, later.1, step.1),
        λ j. ground (arith, later.2 j, step.2 j),
      )

  -- `recordableFetched` lets the books through that are known already or can be rendered, in order,
  -- counts those of them that are not known, and adds the URLs of all others to the failed ones.
  pub recordable_fetched-admitted :
      (books : List Book) (existing : List Bool) (failed_urls : List Text)
      → ((recordable_fetched deps books existing failed_urls options).recordable
          ≡ admitted books existing)
        × ((recordable_fetched deps books existing failed_urls options).new_books
            ≡ count_new books existing)
        × ((j : Text)
            → contains (recordable_fetched deps books existing failed_urls options).failed_urls j
              ≡ (contains failed_urls j || is_rejected books existing j))
  unfolding recordable_fetched
  recordable_fetched-admitted books existing failed_urls =
      let all =
        recordable_from_lem books existing
          (record { recordable = []; new_books = 0; failed_urls = failed_urls }) in
      (all.0, omega (arith, all.1), all.2)
