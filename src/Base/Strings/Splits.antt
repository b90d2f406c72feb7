-- ===== src/Base/Strings/Splits.antt =====
-- `strings.Split` at one character takes apart what `strings.Join` puts together.
use Prim.Native.Nat.{ℕ}
use mathlib.Core.Path.{◌≡◌, refl, ap, ◌∙◌}
use mathlib.Core.Logic.{inl, inr}
use mathlib.Core.Bool.{Bool, true, false}
use mathlib.Core.List.{List, [], ◌∷◌, ◌++◌}
use native.Mathlib.Omega.{arith}
use alib_fetcher.Base.Tests.{◌==◌, Bool-cases}
use alib_fetcher.Base.Lists.{any, All}
use alib_fetcher.Base.Texts.{Text, join}
use alib_fetcher.Base.Strings.{split, onto_first}

module _ (separator : ℕ) where
  abbrev pub has_separator : Text → Bool
  has_separator t = any (λ c. c == separator) t

  abbrev pub IsWhole : Text → Type 0
  IsWhole t = has_separator t ≡ false

  onto_first-IsWhole :
      (c : ℕ) (ts : List Text)
      → (c == separator) ≡ false
      → All IsWhole ts
      → All IsWhole (onto_first c ts)
  unfolding any
  onto_first-IsWhole c [] h hs = (rw h refl, tt)
  onto_first-IsWhole c (t ∷ ts) h hs = (rw h hs.0, hs.1)

  pub split-IsWhole : (s : Text) → All IsWhole (split separator s)
  unfolding split any
  split-IsWhole [] = (refl, tt)
  split-IsWhole (c ∷ cs) = elim (Bool-cases (c == separator)) [
    | inl ends ↦ rw ends (refl, split-IsWhole cs)
    | inr other ↦ rw other (onto_first-IsWhole c (split separator cs) other (split-IsWhole cs))
  ]

  split-cons : (s : Text) → (t : Text) × (ts : List Text) × (split separator s ≡ t ∷ ts)
  unfolding split
  split-cons [] = ([], [], refl)
  split-cons (c ∷ cs) = elim (Bool-cases (c == separator)) [
    | inl ends ↦ ([], split separator cs, rw ends refl)
    | inr other ↦ let (t, ts, e) = split-cons cs in (c ∷ t, ts, rw other (ap (onto_first c) e))
  ]

  separator-eq : (separator == separator) ≡ true
  separator-eq = ground arith

  pub split-append :
      (a b : Text) → split separator (a ++ separator ∷ b) ≡ split separator a ++ split separator b
  unfolding split
  split-append [] b = rw separator-eq refl
  split-append (c ∷ cs) b = elim (Bool-cases (c == separator)) [
    | inl ends ↦ rw ends (ap (◌∷◌ []) (split-append cs b))
    | inr other ↦ let (t, ts, e) = split-cons cs in rw (other, split-append cs b, e) refl
  ]

  pub split-whole : (t : Text) → IsWhole t → split separator t ≡ t ∷ []
  unfolding split any
  split-whole [] h = refl
  split-whole (c ∷ cs) h = elim (Bool-cases (c == separator)) [
    | inl ends ↦ cc (rw ends at h)
    | inr other ↦ rw (other, split-whole cs (rw other at h)) refl
  ]

  pub split-join :
      (t : Text) (ts : List Text)
      → All IsWhole (t ∷ ts)
      → split separator (join (t ∷ ts) (separator ∷ [])) ≡ t ∷ ts
  unfolding join
  split-join t [] ps = split-whole t ps.0
  split-join t (u ∷ us) ps =
      split-append t (join (u ∷ us) (separator ∷ []))
      ∙ rw (split-whole t ps.0, split-join u us ps.1) refl
