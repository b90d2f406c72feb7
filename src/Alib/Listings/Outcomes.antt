-- ===== src/Alib/Listings/Outcomes.antt =====
-- internal/alib/parser.go and client.go: which books and which failures a row of listings leaves.
use alib_fetcher.Base.{
  any-append, ◌≡◌, refl, sym, ap, ◌∙◌, List, [], ◌∷◌, ◌++◌, Text, Bool, true, false, not, ◌&&◌,
  ◌||◌, keep, contains, any, text_eq, text_eq_iff, arith, inl, inr, Bool-cases, map,
}
use mathlib.Core.List.{map-append}
use alib_fetcher.Alib.Book.{Book}
use alib_fetcher.Alib.Listings.{
  Listing, not_candidate, parsed, broken, unidentified, ParseState, without_key, add_book,
  add_failure, add_listing, add_listings,
}

-- Whether a URL is that of a book that was parsed, and of a listing that was not.
unfoldable pub succeeds : List Listing → Text → Bool
succeeds [] j = false
succeeds (parsed book ∷ rest) j = text_eq book.buy_url j || succeeds rest j
succeeds (not_candidate ∷ rest) j = succeeds rest j
succeeds (broken url ∷ rest) j = succeeds rest j
succeeds (unidentified ∷ rest) j = succeeds rest j

unfoldable pub fails : List Listing → Text → Bool
fails [] j = false
fails (broken url ∷ rest) j = text_eq url j || fails rest j
fails (parsed book ∷ rest) j = fails rest j
fails (not_candidate ∷ rest) j = fails rest j
fails (unidentified ∷ rest) j = fails rest j

-- The keys, one after the other, each different from all before it.
abbrev pub AreDistinct : List Text → Type 0
AreDistinct [] = Unit
AreDistinct (t ∷ ts) = (contains ts t ≡ false) × AreDistinct ts

abbrev pub urls_of : List Book → List Text
urls_of = map λ book. book.buy_url

contains-snoc :
    (ts : List Text) (t j : Text) → contains (ts ++ t ∷ []) j ≡ (contains ts j || text_eq t j)
unfolding contains any
contains-snoc ts t j =
    ground (arith, any-append (text_eq j) ts (t ∷ []), text_eq_iff t j, text_eq_iff j t)

contains-congr : (ts : List Text) (j k : Text) → text_eq j k ≡ true → contains ts j ≡ contains ts k
contains-congr ts j k h = ap (contains ts) ((text_eq_iff j k).0 h)

contains-without_key :
    (ts : List Text) (t j : Text)
    → contains (without_key t ts) j ≡ (contains ts j && not (text_eq t j))
unfolding without_key keep contains any
contains-without_key [] t j = refl
contains-without_key (x ∷ ts) t j = ground (
  arith,
  contains-without_key ts t j,
  text_eq_iff x t,
  text_eq_iff j x,
  text_eq_iff t j,
  text_eq_iff j t,
)

pub AreDistinct-snoc :
    (ts : List Text) (t : Text)
    → AreDistinct ts
    → contains ts t ≡ false
    → AreDistinct (ts ++ t ∷ [])
unfolding contains any
AreDistinct-snoc [] t d h = (refl, tt)
AreDistinct-snoc (x ∷ ts) t d h = (
  contains-snoc ts t x ∙ ground (arith, d.0, text_eq_iff t x),
  AreDistinct-snoc ts t d.1 (ground arith),
)

-- What the state says of a URL after some listings.
pub record Follows (listings : List Listing) (before after : ParseState) : Type 0 where
  pub seen : (j : Text) → contains after.seen j ≡ (contains before.seen j || succeeds listings j)
  pub failed :
      (j : Text)
      → contains after.failed j ≡ (
          (contains before.failed j || (fails listings j && not (contains before.seen j)))
          && not (succeeds listings j))

-- What holds of the state at any time.
pub record WellFormed (state : ParseState) : Type 0 where
  pub seen : state.seen ≡ urls_of state.books
  pub distinct : AreDistinct state.seen
  pub ordered : (j : Text) → contains state.failed j ≡ true → contains state.failed_order j ≡ true

pub add_book-seen :
    (book : Book) (state : ParseState) (j : Text)
    → contains (add_book book state).seen j ≡ (contains state.seen j || text_eq book.buy_url j)
unfolding add_book
add_book-seen book state j =
    ground
      (arith, contains-snoc state.seen book.buy_url j, contains-congr state.seen book.buy_url j)

pub add_book-failed :
    (book : Book) (state : ParseState) (j : Text)
    → contains (add_book book state).failed j
      ≡ (contains state.failed j && not (text_eq book.buy_url j))
unfolding add_book
add_book-failed book state j = elim (Bool-cases (contains state.seen book.buy_url)) [
  | inl known ↦ rw known (contains-without_key state.failed book.buy_url j)
  | inr new ↦ rw new (contains-without_key state.failed book.buy_url j)
]

pub add_failure-seen : (url : Text) (state : ParseState) → (add_failure url state).seen ≡ state.seen
unfolding add_failure
add_failure-seen url state = ground arith

pub add_failure-failed :
    (url : Text) (state : ParseState) (j : Text)
    → contains (add_failure url state).failed j
      ≡ (contains state.failed j || (text_eq url j && not (contains state.seen j)))
unfolding add_failure
add_failure-failed url state j = ground (
  arith,
  contains-snoc state.failed url j,
  contains-congr state.seen url j,
  contains-congr state.failed url j,
)

pub add_listings-Follows :
    (listings : List Listing) (state : ParseState)
    → Follows listings state (add_listings listings state)
unfolding add_listings add_listing succeeds fails
add_listings-Follows [] state = record { seen = λ j. ground arith; failed = λ j. ground arith }
add_listings-Follows (not_candidate ∷ rest) state =
    let f = add_listings-Follows rest state in record { seen = f.seen; failed = f.failed }
add_listings-Follows (unidentified ∷ rest) state =
    let f = add_listings-Follows rest state in record { seen = f.seen; failed = f.failed }
add_listings-Follows (parsed book ∷ rest) state =
    let f = add_listings-Follows rest (add_book book state) in
    record {
      seen = λ j. ground (arith, f.seen j, add_book-seen book state j);
      failed =
          λ j. ground (arith, f.failed j, add_book-seen book state j, add_book-failed book state j);
    }
add_listings-Follows (broken url ∷ rest) state =
    let f = add_listings-Follows rest (add_failure url state) in
    record {
      seen = λ j.
          f.seen j ∙ ap (λ seen. contains seen j || succeeds rest j) (add_failure-seen url state);
      failed = λ j. ground (
        arith,
        f.failed j,
        ap (λ seen. contains seen j) (add_failure-seen url state),
        add_failure-failed url state j,
      );
    }

pub add_book-WellFormed :
    (book : Book) (state : ParseState) → WellFormed state → WellFormed (add_book book state)
unfolding add_book
add_book-WellFormed book state w = elim (Bool-cases (contains state.seen book.buy_url)) [
  | inl known ↦ rw known (record {
    seen = w.seen;
    distinct = w.distinct;
    ordered =
        λ j h. w.ordered j (ground (arith, h, contains-without_key state.failed book.buy_url j));
  })
  | inr new ↦ rw new (record {
    seen =
        ap (λ urls. urls ++ book.buy_url ∷ []) w.seen
        ∙ sym (map-append (λ (b : Book). b.buy_url) state.books (book ∷ []));
    distinct = AreDistinct-snoc state.seen book.buy_url w.distinct new;
    ordered =
        λ j h. w.ordered j (ground (arith, h, contains-without_key state.failed book.buy_url j));
  })
]

pub add_failure-WellFormed :
    (url : Text) (state : ParseState) → WellFormed state → WellFormed (add_failure url state)
unfolding add_failure
add_failure-WellFormed url state w = elim (Bool-cases (contains state.seen url)) [
  | inl known ↦ rw known w
  | inr new ↦ elim (Bool-cases (contains state.failed url)) [
    | inl again ↦ rw (new, again) w
    | inr first ↦
        rw (new, first)
          (record {
            seen = w.seen;
            distinct = w.distinct;
            ordered = λ j h. ground (
              arith,
              h,
              w.ordered j,
              contains-snoc state.failed url j,
              contains-snoc state.failed_order url j,
            );
          })
  ]
]

pub add_listings-WellFormed :
    (listings : List Listing) (state : ParseState)
    → WellFormed state
    → WellFormed (add_listings listings state)
unfolding add_listings add_listing
add_listings-WellFormed [] state w = w
add_listings-WellFormed (not_candidate ∷ rest) state w = add_listings-WellFormed rest state w
add_listings-WellFormed (unidentified ∷ rest) state w = add_listings-WellFormed rest state w
add_listings-WellFormed (parsed book ∷ rest) state w =
    add_listings-WellFormed rest (add_book book state) (add_book-WellFormed book state w)
add_listings-WellFormed (broken url ∷ rest) state w =
    add_listings-WellFormed rest (add_failure url state) (add_failure-WellFormed url state w)
