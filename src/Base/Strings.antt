-- ===== src/Base/Strings.antt =====
-- More of the package `strings`, on texts.
pub mod Splits
use Prim.Native.Nat.{ℕ}
use mathlib.Core.Bool.{Bool, ◌||◌}
use mathlib.Core.Option.{Option, none, some}
use mathlib.Core.List.{List, [], ◌∷◌, reverse}
use alib_fetcher.Base.Tests.{◌==◌, if◌then◌else◌}
use alib_fetcher.Base.Lists.{length, drop}
use alib_fetcher.Base.Texts.{Text, is_space, drop_while, has_prefix}

-- `strings.Contains`
unfoldable pub has_text : Text → Text → Bool
unfolding has_prefix
has_text [] t = has_prefix [] t
has_text (c ∷ cs) t = has_prefix (c ∷ cs) t || has_text cs t

abbrev pub in_front : ℕ → Option (Text × Text) → Option (Text × Text)
in_front c none = none
in_front c (some (before, after)) = some (c ∷ before, after)

-- `strings.Cut`: the texts around the first occurrence of a separator that is not empty; `none` is
-- the result "not found".
unfoldable pub cut_text : Text → Text → Option (Text × Text)
unfolding has_prefix
cut_text [] separator = none
cut_text (c ∷ cs) separator =
    let later = in_front c (cut_text cs separator) in
    if has_prefix (c ∷ cs) separator then some ([], drop (length separator) (c ∷ cs)) else later

-- The same around the last occurrence, as the program takes it by `strings.LastIndex`.
unfoldable pub cut_last : Text → Text → Option (Text × Text)
unfolding has_prefix
cut_last [] separator = none
cut_last (c ∷ cs) separator =
    let here =
      if has_prefix (c ∷ cs) separator then some ([], drop (length separator) (c ∷ cs)) else none in
    elim (cut_last cs separator) [ none ↦ here | some (before, after) ↦ some (c ∷ before, after) ]

-- The first part of `strings.Cut`, which is the whole text if nothing is found.
abbrev pub before_text : Text → Text → Text
before_text s separator = elim (cut_text s separator) [ none ↦ s | some (before, after) ↦ before ]

-- `strings.TrimPrefix`
unfoldable pub trim_prefix : Text → Text → Text
unfolding has_prefix
trim_prefix s prefix = if has_prefix s prefix then drop (length prefix) s else s

-- `strings.Trim`, with the set of the characters to take away as a test.
unfoldable pub trim : (ℕ → Bool) → Text → Text
unfolding drop_while
trim p s = reverse (drop_while p (reverse (drop_while p s)))

-- `strings.Split` at one character.
abbrev pub onto_first : ℕ → List Text → List Text
onto_first c [] = (c ∷ []) ∷ []
onto_first c (t ∷ ts) = (c ∷ t) ∷ ts

unfoldable pub split : ℕ → Text → List Text
split separator [] = [] ∷ []
split separator (c ∷ cs) =
    let rest = split separator cs in if c == separator then [] ∷ rest else onto_first c rest

-- `strings.Fields`: the maximal runs of characters that are no white space.
abbrev pub add_field : Text → List Text → List Text
add_field [] ts = ts
add_field (c ∷ cs) ts = (c ∷ cs) ∷ ts

-- `field` holds the characters of the field that is being read, the last one first.
unfoldable pub fields_from : Text → Text → List Text
unfolding is_space
fields_from field [] = add_field (reverse field) []
fields_from field (c ∷ cs) =
    let ended = add_field (reverse field) (fields_from [] cs) in
    let longer = fields_from (c ∷ field) cs in if is_space c then ended else longer

unfoldable pub fields : Text → List Text
unfolding fields_from
fields s = fields_from [] s
