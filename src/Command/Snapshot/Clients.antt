-- ===== src/Command/Snapshot/Clients.antt =====
-- cmd/alib-fetcher/main.go: the clients that the factory keeps.
use mathlib.Core.List.{append_assoc}
use alib_fetcher.Base.{
  ◌≡◌, refl, sym, ap, subst, ◌∙◌, inl, inr, List, [], ◌∷◌, ◌++◌, Text, none, some, Bool, text_eq,
  text_eq_iff, keep, All, Bool-cases,
}
use alib_fetcher.Config.Search.Checks.{value_at}
use alib_fetcher.Command.Snapshot.{Handle}

pub value_at-append :
    {A : Type 0} (t : Text) (xs ys : List (Text × A))
    → value_at t (xs ++ ys) ≡ none
    → value_at t ys ≡ none
unfolding value_at
value_at-append t [] ys h = h
value_at-append t ((k, v) ∷ xs) ys h = elim (Bool-cases (text_eq k t)) [
  | inl same ↦ cc (rw same at h)
  | inr other ↦ value_at-append t xs ys (rw other at h)
]

pub value_at-All :
    {A : Type 0} (P : Text × A → Type 0) (t : Text) (xs : List (Text × A)) (v : A)
    → value_at t xs ≡ some v
    → All P xs
    → P (t, v)
unfolding value_at
value_at-All P t [] v h all = cc h
value_at-All P t ((k, w) ∷ xs) v h all = elim (Bool-cases (text_eq k t)) [
  | inl same ↦ subst P (cc (rw same at h, (text_eq_iff k t).0 same)) all.0
  | inr other ↦ value_at-All P t xs v (rw other at h) all.1
]

pub All-keep :
    {A : Type 0} (P : A → Type 0) (p : A → Bool) (xs : List A) → All P xs → All P (keep p xs)
unfolding keep
All-keep P p [] all = tt
All-keep P p (x ∷ xs) all = elim (Bool-cases (p x)) [
  | inl kept ↦ rw kept (all.0, All-keep P p xs all.1)
  | inr dropped ↦ rw dropped (All-keep P p xs all.1)
]

abbrev pub Clients : Type 0
Clients = List (Text × Handle)

-- The clients that were there are kept, and one is made only for a token without one.
abbrev pub IsKept : Clients → Clients → Type 0
IsKept before after =
    (added : Clients) × (after ≡ added ++ before)
    × All (λ entry. value_at entry.0 before ≡ none) added

-- Every client is found under its own token.
abbrev pub HaveTokens : Clients → Type 0
HaveTokens clients = All (λ entry. entry.1.client.token ≡ entry.0) clients

fresh-kept :
    (t : Text) (handle : Handle) (added before : Clients)
    → All (λ entry. value_at entry.0 before ≡ none) added
    → value_at t before ≡ some handle
    → value_at t (added ++ before) ≡ some handle
unfolding value_at
fresh-kept t handle [] before fresh h = h
fresh-kept t handle ((k, v) ∷ added) before fresh h = elim (Bool-cases (text_eq k t)) [
  | inl same ↦ absurd (cc (fresh.0, h, ap (λ n. value_at n before) ((text_eq_iff k t).0 same)))
  | inr other ↦ rw other (fresh-kept t handle added before fresh.1 h)
]

pub IsKept-found :
    (t : Text) (handle : Handle) (before after : Clients)
    → IsKept before after
    → value_at t before ≡ some handle
    → value_at t after ≡ some handle
IsKept-found t handle before after (added, e, fresh) h =
    ap (value_at t) e ∙ fresh-kept t handle added before fresh h

pub IsKept-refl : (clients : Clients) → IsKept clients clients
IsKept-refl clients = ([], refl, tt)

fresh-append :
    (xs before middle : Clients) (added : Clients)
    → middle ≡ added ++ before
    → All (λ entry. value_at entry.0 middle ≡ none) xs
    → All (λ entry. value_at entry.0 before ≡ none) added
    → All (λ entry. value_at entry.0 before ≡ none) (xs ++ added)
fresh-append [] before middle added e fresh more = more
fresh-append ((t, v) ∷ xs) before middle added e fresh more = (
  value_at-append t added before (ap (value_at t) (sym e) ∙ fresh.0),
  fresh-append xs before middle added e fresh.1 more,
)

pub IsKept-trans : (a b c : Clients) → IsKept a b → IsKept b c → IsKept a c
IsKept-trans a b c (first, e, fresh) (second, d, more) = (
  second ++ first,
  d ∙ ap (λ xs. second ++ xs) e ∙ sym (append_assoc second first a),
  fresh-append second a b first e more fresh,
)
