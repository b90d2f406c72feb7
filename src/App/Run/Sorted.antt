-- ===== src/App/Run/Sorted.antt =====
-- internal/app/service.go: the order of `sortPending`.
use alib_fetcher.Base.{
  ◌≡◌, List, [], ◌∷◌, ℤ, pos, Bool, true, false, eqb_ℤ, eqb_ℤ_iff, arith, keep, sort_stable,
  sort_stable-perm, sort_stable-IsSortedBy, keep-sort_stable, IsOrder, IsSortedBy, Perm, All,
  All-trivial, All-weaken, ◌⊎◌, inl, inr, ◌≢◌, ◌≤ℤ◌, Bool-cases,
}
use alib_fetcher.Alib.Book.{Book}
use alib_fetcher.App.Service.{year_less, sort_pending}

years-IsOrder : IsOrder year_less (λ (book : Book). Unit {0})
unfolding year_less
years-IsOrder = record {
  asym = λ x y p q h. ground arith;
  negative_trans = λ x y z p q r h k. ground arith;
}

abbrev pub of_year : ℤ → Book → Bool
of_year year book = eqb_ℤ book.publication_year year

years-alike :
    (year : ℤ) (x y : Book) → of_year year x ≡ true → of_year year y ≡ true → year_less x y ≡ false
unfolding year_less
years-alike year x y h k = ground arith

-- A book that may stand behind another: the other has no year, or both have one and it is not newer.
abbrev pub MayFollow : Book → Book → Type 0
MayFollow x y =
    (x.publication_year ≡ pos 0)
    ⊎ ((y.publication_year ≢ pos 0) × (y.publication_year ≤ℤ x.publication_year))

abbrev pub InYearOrder : List Book → Type 0
InYearOrder [] = Unit
InYearOrder (x ∷ xs) = All (MayFollow x) xs × InYearOrder xs

not_less-MayFollow : (x y : Book) → year_less y x ≡ false → MayFollow x y
unfolding year_less
not_less-MayFollow x y h = elim (Bool-cases (eqb_ℤ x.publication_year (pos 0))) [
  | inl unknown ↦ inl ((eqb_ℤ_iff x.publication_year (pos 0)).0 unknown)
  | inr known ↦ inr (ground arith)
]

InYearOrder-IsSortedBy : (books : List Book) → IsSortedBy year_less books → InYearOrder books
InYearOrder-IsSortedBy [] s = tt
InYearOrder-IsSortedBy (x ∷ xs) s = (
  All-weaken (λ y. year_less y x ≡ false) (MayFollow x) xs (not_less-MayFollow x) s.0,
  InYearOrder-IsSortedBy xs s.1,
)

-- `sortPending` returns the same books: those without a year first, then the newest years; books of
-- the same year keep the order in which they were given.
pub sort_pending-InYearOrder :
    (books : List Book)
    → Perm (sort_pending books) books
      × InYearOrder (sort_pending books)
      × ((year : ℤ) → keep (of_year year) (sort_pending books) ≡ keep (of_year year) books)
unfolding sort_pending
sort_pending-InYearOrder books = (
  sort_stable-perm year_less books,
  InYearOrder-IsSortedBy (sort_stable year_less books)
      (sort_stable-IsSortedBy year_less (λ book. Unit {0}) years-IsOrder books (All-trivial books)),
  λ year. keep-sort_stable year_less (of_year year) (years-alike year) books,
)
