-- ===== src/Base/Sorts.antt =====
-- `sort.SliceStable`: every element in turn moves left past those that it is less than.
pub mod Unsorted
use mathlib.Core.List.{
  List, [], ◌∷◌, ◌++◌, reverse, reverse-cons, append_assoc, reverse_perm, Perm, perm_middle,
  append-nil,
}
use mathlib.Core.List.Perm
use mathlib.Core.Path.{◌≡◌, refl, sym, ap, ◌∙◌}
use mathlib.Core.Bool.{Bool, true, false}
use mathlib.Core.Logic.{inl, inr}
use native.Mathlib.Omega.{arith}
use alib_fetcher.Base.Tests.{if◌then◌else◌, Bool-cases}
use alib_fetcher.Base.Lists.{All, All-append, All-weaken, All-both, keep}

module _ {ℓ} {A : Type ℓ} (less : A → A → Bool) where
  -- The elements that are in order stand last first.
  unfoldable pub move_left : A → List A → List A
  move_left x [] = x ∷ []
  move_left x (y ∷ ys) =
      let passed = move_left x ys in if less x y then y ∷ passed else x ∷ (y ∷ ys)

  unfoldable pub sort_from : List A → List A → List A
  sort_from done [] = reverse done
  sort_from done (x ∷ xs) = sort_from (move_left x done) xs

  unfoldable pub sort_stable : List A → List A
  unfolding sort_from move_left
  sort_stable xs = sort_from [] xs

  -- No element is less than one before it.
  abbrev pub IsSortedBy : List A → Type ℓ
  IsSortedBy [] = Unit
  IsSortedBy (x ∷ xs) = All (λ y. less y x ≡ false) xs × IsSortedBy xs

  abbrev IsReversed : List A → Type ℓ
  IsReversed [] = Unit
  IsReversed (x ∷ xs) = All (λ y. less x y ≡ false) xs × IsReversed xs

  move_left-perm : (x : A) (ys : List A) → Perm (move_left x ys) (x ∷ ys)
  unfolding move_left
  move_left-perm x [] = Perm.refl (x ∷ [])
  move_left-perm x (y ∷ ys) = elim (Bool-cases (less x y)) [
    | inl lt ↦
        rw (lt, move_left) (Perm.trans (Perm.cons y (move_left-perm x ys)) (Perm.swap x y ys))
    | inr ge ↦ rw (ge, move_left) (Perm.refl (x ∷ (y ∷ ys)))
  ]

  sort_from-perm : (done xs : List A) → Perm (sort_from done xs) (xs ++ done)
  unfolding sort_from
  sort_from-perm done [] = reverse_perm done
  sort_from-perm done (x ∷ xs) =
      Perm.trans (sort_from-perm (move_left x done) xs)
        (Perm.trans (Perm.append_left xs (move_left-perm x done)) (perm_middle xs done))

  -- The order of a sort, on the elements of a kind.
  pub record IsOrder {κ} (P : A → Type κ) : Type (ℓ ⊔ κ) where
    pub asym : (x y : A) → P x → P y → less x y ≡ true → less y x ≡ false
    pub negative_trans :
        (x y z : A) → P x → P y → P z → less x y ≡ false → less y z ≡ false → less x z ≡ false

  pub sort_stable-perm : (xs : List A) → Perm (sort_stable xs) xs
  unfolding sort_stable
  sort_stable-perm xs = rw append-nil at (sort_from-perm [] xs)

move_left-All {ℓ κ} :
    {A : Type ℓ} (less : A → A → Bool) (Q : A → Type κ) (x : A) (ys : List A)
    → Q x
    → All Q ys
    → All Q (move_left less x ys)
unfolding move_left
move_left-All less Q x [] q qs = (q, tt)
move_left-All less Q x (y ∷ ys) q qs = elim (Bool-cases (less x y)) [
  | inl lt ↦ rw (lt, move_left) (qs.0, move_left-All less Q x ys q qs.1)
  | inr ge ↦ rw (ge, move_left) (q, qs)
]

All-reverse {ℓ κ} : {A : Type ℓ} (Q : A → Type κ) (xs : List A) → All Q xs → All Q (reverse xs)
All-reverse Q [] q = tt
All-reverse Q (x ∷ xs) q =
    rw (reverse-cons x xs) (All-append Q (reverse xs) (x ∷ []) (All-reverse Q xs q.1) (q.0, tt))

sort_from-All {ℓ κ} :
    {A : Type ℓ} (less : A → A → Bool) (Q : A → Type κ) (done xs : List A)
    → All Q done
    → All Q xs
    → All Q (sort_from less done xs)
unfolding sort_from
sort_from-All less Q done [] ds qs = All-reverse Q done ds
sort_from-All less Q done (x ∷ xs) ds qs =
    sort_from-All less Q (move_left less x done) xs (move_left-All less Q x done qs.0 ds) qs.1

module _ {ℓ} {A : Type ℓ} (less : A → A → Bool) where
  IsSortedBy-snoc :
      (xs : List A) (x : A)
      → IsSortedBy less xs
      → All (λ y. less x y ≡ false) xs
      → IsSortedBy less (xs ++ x ∷ [])
  IsSortedBy-snoc [] x s h = (tt, tt)
  IsSortedBy-snoc (y ∷ ys) x s h =
      (All-append (λ z. less z y ≡ false) ys (x ∷ []) s.0 (h.0, tt), IsSortedBy-snoc ys x s.1 h.1)

  IsSortedBy-reverse : (xs : List A) → IsReversed less xs → IsSortedBy less (reverse xs)
  IsSortedBy-reverse [] h = tt
  IsSortedBy-reverse (x ∷ xs) h = rw (reverse-cons x xs) (
      IsSortedBy-snoc (reverse xs) x (IsSortedBy-reverse xs h.1)
        (All-reverse (λ y. less x y ≡ false) xs h.0))

module _ {ℓ κ} {A : Type ℓ} (less : A → A → Bool) (P : A → Type κ) (order : IsOrder less P) where
  behind :
      (x y : A) (ys : List A)
      → P x
      → P y
      → All P ys
      → less x y ≡ false
      → All (λ z. less y z ≡ false) ys
      → All (λ z. less x z ≡ false) ys
  behind x y [] px py ps h hs = tt
  behind x y (z ∷ zs) px py ps h hs =
      (order.negative_trans x y z px py ps.0 h hs.0, behind x y zs px py ps.1 h hs.1)

  move_left-IsReversed :
      (x : A) (ys : List A)
      → P x
      → All P ys
      → IsReversed less ys
      → IsReversed less (move_left less x ys)
  unfolding move_left
  move_left-IsReversed x [] px ps h = (tt, tt)
  move_left-IsReversed x (y ∷ ys) px ps h = elim (Bool-cases (less x y)) [
    | inl lt ↦
        rw (lt, move_left)
          (
            move_left-All less (λ z. less y z ≡ false) x ys (order.asym x y px ps.0 lt) h.0,
            move_left-IsReversed x ys px ps.1 h.1,
          )
    | inr ge ↦ rw (ge, move_left) ((ge, behind x y ys px ps.0 ps.1 ge h.0), h)
  ]

  sort_from-IsSortedBy :
      (done xs : List A)
      → All P done
      → All P xs
      → IsReversed less done
      → IsSortedBy less (sort_from less done xs)
  unfolding sort_from
  sort_from-IsSortedBy done [] pd ps h = IsSortedBy-reverse less done h
  sort_from-IsSortedBy done (x ∷ xs) pd ps h =
      sort_from-IsSortedBy (move_left less x done) xs (move_left-All less P x done ps.0 pd) ps.1
        (move_left-IsReversed x done ps.0 pd h)

  pub sort_stable-IsSortedBy : (xs : List A) → All P xs → IsSortedBy less (sort_stable less xs)
  unfolding sort_stable
  sort_stable-IsSortedBy xs ps = sort_from-IsSortedBy [] xs tt ps tt

-- Elements of which none is less than another keep their order.
module _ {ℓ} {A : Type ℓ} (less : A → A → Bool) (p : A → Bool)
    (alike : (x y : A) → p x ≡ true → p y ≡ true → less x y ≡ false) where
  keep-append : (xs ys : List A) → keep p (xs ++ ys) ≡ keep p xs ++ keep p ys
  unfolding keep
  keep-append [] ys = refl
  keep-append (x ∷ xs) ys = ground (arith, keep-append xs ys)

  keep-move_left : (x : A) (ys : List A) → keep p (move_left less x ys) ≡ keep p (x ∷ ys)
  unfolding keep move_left
  keep-move_left x [] = refl
  keep-move_left x (y ∷ ys) = ground (arith, keep-move_left x ys, alike x y)

  keep-reverse : (xs : List A) → keep p (reverse xs) ≡ reverse (keep p xs)
  unfolding keep
  keep-reverse [] = refl
  keep-reverse (x ∷ xs) =
      rw (reverse-cons x xs, keep-append (reverse xs) (x ∷ []), keep-reverse xs)
        (elim (Bool-cases (p x)) [
          | inl e ↦ rw (e, reverse-cons x (keep p xs)) refl
          | inr e ↦ rw (e, append-nil (reverse (keep p xs))) refl
        ])

  keep-reverse-move_left :
      (x : A) (done : List A)
      → keep p (reverse (move_left less x done)) ≡ keep p (reverse done) ++ keep p (x ∷ [])
  keep-reverse-move_left x done =
      keep-reverse (move_left less x done)
      ∙ ap reverse (keep-move_left x done)
      ∙ sym (keep-reverse (x ∷ done))
      ∙ ap (keep p) (reverse-cons x done)
      ∙ keep-append (reverse done) (x ∷ [])

  keep-sort_from :
      (done xs : List A) → keep p (sort_from less done xs) ≡ keep p (reverse done) ++ keep p xs
  unfolding sort_from keep
  keep-sort_from done [] = sym (append-nil (keep p (reverse done)))
  keep-sort_from done (x ∷ xs) =
      keep-sort_from (move_left less x done) xs
      ∙ ap (λ front. front ++ keep p xs) (keep-reverse-move_left x done)
      ∙ append_assoc (keep p (reverse done)) (keep p (x ∷ [])) (keep p xs)
      ∙ ap (λ back. keep p (reverse done) ++ back) (sym (keep-append (x ∷ []) xs))

  -- Such elements keep the order that they had.
  pub keep-sort_stable : (xs : List A) → keep p (sort_stable less xs) ≡ keep p xs
  unfolding sort_stable keep
  keep-sort_stable xs = keep-sort_from [] xs

-- A coarser order of elements of a kind.
pub IsSortedBy-weaken {ℓ κ} :
    {A : Type ℓ} (less coarser : A → A → Bool) (P : A → Type κ) (xs : List A)
    → ((x y : A) → P x → P y → less y x ≡ false → coarser y x ≡ false)
    → All P xs
    → IsSortedBy less xs
    → IsSortedBy coarser xs
IsSortedBy-weaken less coarser P [] h ps s = tt
IsSortedBy-weaken less coarser P (x ∷ xs) h ps s = (
  All-weaken (λ y. P y × (less y x ≡ false)) (λ y. coarser y x ≡ false) xs
      (λ y k. h x y ps.0 k.0 k.1) (All-both P (λ y. less y x ≡ false) xs ps.1 s.0),
  IsSortedBy-weaken less coarser P xs h ps.1 s.1,
)

pub sort_stable-All {ℓ κ} :
    {A : Type ℓ} (less : A → A → Bool) (Q : A → Type κ) (xs : List A)
    → All Q xs
    → All Q (sort_stable less xs)
unfolding sort_stable
sort_stable-All less Q xs qs = sort_from-All less Q [] xs tt qs
