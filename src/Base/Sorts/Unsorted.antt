-- ===== src/Base/Sorts/Unsorted.antt =====
-- What holds of all elements of a sorted list holds of those of the list.
use mathlib.Core.List.{List, [], ◌∷◌, reverse, reverse-reverse}
use mathlib.Core.Bool.{Bool}
use mathlib.Core.Path.{subst}
use mathlib.Core.Logic.{inl, inr}
use alib_fetcher.Base.Tests.{Bool-cases}
use alib_fetcher.Base.Lists.{All, All-reverse}
use alib_fetcher.Base.Sorts.{move_left, sort_from, sort_stable}

module _ {ℓ κ} {A : Type ℓ} (less : A → A → Bool) (Q : A → Type κ) where
  All-move_left : (x : A) (ys : List A) → All Q (move_left less x ys) → Q x × All Q ys
  unfolding move_left
  All-move_left x [] qs = qs
  All-move_left x (y ∷ ys) qs = elim (Bool-cases (less x y)) [
    | inl lt ↦
        let moved = rw lt at qs in
        let rest = All-move_left x ys moved.1 in (rest.0, (moved.0, rest.1))
    | inr ge ↦ rw ge at qs
  ]

  All-sort_from : (done xs : List A) → All Q (sort_from less done xs) → All Q done × All Q xs
  unfolding sort_from
  All-sort_from done [] qs =
      (subst (All Q) (reverse-reverse done) (All-reverse Q (reverse done) qs), tt)
  All-sort_from done (x ∷ xs) qs =
      let (moved, rest) = All-sort_from (move_left less x done) xs qs in
      let (q, before) = All-move_left x done moved in (before, (q, rest))

  pub All-sort_stable : (xs : List A) → All Q (sort_stable less xs) → All Q xs
  unfolding sort_stable
  All-sort_stable xs qs = (All-sort_from [] xs qs).1
