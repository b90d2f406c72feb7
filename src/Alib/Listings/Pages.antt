-- ===== src/Alib/Listings/Pages.antt =====
-- internal/alib/client.go: the books and the failures of all pages together.
use alib_fetcher.Base.{
  ◌≡◌, refl, ap, ◌∙◌, List, [], ◌∷◌, Text, Bool, false, not, ◌&&◌, ◌||◌, keep, contains, any,
  text_eq, text_eq_iff, arith, inl, inr, Bool-cases,
}
use alib_fetcher.Alib.Book.{Book}
use alib_fetcher.Alib.Listings.{
  ParseState, empty_state, add_book, add_failure, failed_buy_urls, add_failures, add_books,
}
use alib_fetcher.Alib.Listings.Outcomes.{
  urls_of, WellFormed, add_book-seen, add_book-failed, add_failure-seen, add_failure-failed,
  add_book-WellFormed, add_failure-WellFormed,
}

pub empty-WellFormed : WellFormed empty_state
unfolding contains any
empty-WellFormed = record { seen = refl; distinct = tt; ordered = λ j h. h }

contains-keep :
    (p : Text → Bool) (ts : List Text) (j : Text) → contains (keep p ts) j ≡ (contains ts j && p j)
unfolding contains any keep
contains-keep p [] j = refl
contains-keep p (t ∷ ts) j = elim (Bool-cases (text_eq j t)) [
  | inl same ↦
      rw (← (text_eq_iff j t).0 same)
        (ground (arith, (text_eq_iff j j).1 refl, contains-keep p ts j))
  | inr other ↦ ground (arith, other, contains-keep p ts j)
]

pub failed_buy_urls-contains :
    (state : ParseState)
    → WellFormed state
    → (j : Text) → contains (failed_buy_urls state) j ≡ contains state.failed j
unfolding failed_buy_urls
failed_buy_urls-contains state w j =
    contains-keep (contains state.failed) state.failed_order j ∙ ground (arith, w.ordered j)

-- The state gains these books and these failures.
pub record Gains (wins losses : Text → Bool) (before after : ParseState) : Type 0 where
  pub seen : (j : Text) → contains after.seen j ≡ (contains before.seen j || wins j)
  pub failed :
      (j : Text)
      → contains after.failed j
        ≡ ((contains before.failed j || (losses j && not (contains before.seen j))) && not (wins j))
  pub well_formed : WellFormed before → WellFormed after

pub Gains-trans :
    (w l w' l' : Text → Bool) (a b c : ParseState)
    → Gains w l a b
    → Gains w' l' b c
    → Gains (λ j. w j || w' j) (λ j. l j || l' j) a c
Gains-trans w l w' l' a b c p q = record {
  seen = λ j. ground (arith, p.seen j, q.seen j);
  failed = λ j. ground (arith, p.seen j, p.failed j, q.failed j);
  well_formed = λ h. q.well_formed (p.well_formed h);
}

pub Gains-change :
    (w l w' l' : Text → Bool) (a b : ParseState)
    → ((j : Text) → w j ≡ w' j)
    → ((j : Text) → (l j && not (w j)) ≡ (l' j && not (w j)))
    → Gains w l a b
    → Gains w' l' a b
Gains-change w l w' l' a b same_wins same_losses g = record {
  seen = λ j. ground (arith, g.seen j, same_wins j);
  failed = λ j. ground (arith, g.failed j, same_wins j, same_losses j);
  well_formed = g.well_formed;
}

pub add_failures-Gains :
    (urls : List Text) (state : ParseState)
    → Gains (λ j. false) (contains urls) state (add_failures urls state)
unfolding add_failures contains any
add_failures-Gains [] state = record {
  seen = λ j. ground arith;
  failed = λ j. ground arith;
  well_formed = λ h. h;
}
add_failures-Gains (url ∷ urls) state =
    let g = add_failures-Gains urls (add_failure url state) in
    let seen : (j : Text) → contains (add_failure url state).seen j ≡ contains state.seen j =
      λ j. ap (λ seen. contains seen j) (add_failure-seen url state) in
    record {
      seen = λ j. ground (arith, g.seen j, seen j);
      failed = λ j. ground (
        arith,
        g.failed j,
        seen j,
        add_failure-failed url state j,
        text_eq_iff url j,
        text_eq_iff j url,
      );
      well_formed = λ h. g.well_formed (add_failure-WellFormed url state h);
    }

pub add_books-Gains :
    (books : List Book) (state : ParseState)
    → Gains (contains (urls_of books)) (λ j. false) state (add_books books state)
unfolding add_books contains any
add_books-Gains [] state = record {
  seen = λ j. ground arith;
  failed = λ j. ground arith;
  well_formed = λ h. h;
}
add_books-Gains (book ∷ books) state =
    let g = add_books-Gains books (add_book book state) in
    record {
      seen = λ j. ground (
        arith,
        g.seen j,
        add_book-seen book state j,
        text_eq_iff book.buy_url j,
        text_eq_iff j book.buy_url,
      );
      failed = λ j. ground (
        arith,
        g.failed j,
        add_book-seen book state j,
        add_book-failed book state j,
        text_eq_iff book.buy_url j,
        text_eq_iff j book.buy_url,
      );
      well_formed = λ h. g.well_formed (add_book-WellFormed book state h);
    }
