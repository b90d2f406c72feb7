-- ===== src/Alib/Parser/Lines/Found.antt =====
-- internal/alib/parser.go: `findNode` finds where a node stands in the lines.
use alib_fetcher.Base.{
  ℕ, zero, suc, ◌+◌, ◌≡◌, refl, ap, ◌∙◌, ◌↔◌, subst, List, [], ◌∷◌, Option, none, some,
  Option-cases, true, Bool-cases, inl, inr, arith,
}
use alib_fetcher.Html.{Node}
use alib_fetcher.Alib.Parser.Texts.{identity_of}
use alib_fetcher.Alib.Parser.Lines.{
  Line, ListingPart, ListingPosition, is_node, find_in_line, find_in_lines, find_node,
}

abbrev at_place : ℕ → ℕ → ListingPosition
at_place line part = record { line = line; part = part }

some_place-injective : (a b : ListingPosition) → some a ≡ some b → a ≡ b
some_place-injective a b e = cc e

same_place : (k l i j : ℕ) → k ≡ l → i ≡ j → some (at_place k i) ≡ some (at_place l j)
same_place k l i j e f = rw (e, f) refl

module _ (n : Node) where
  abbrev IsPart : ListingPart → Type 0
  IsPart part = (m : Node) × (part.part_node ≡ some m) × (identity_of m ≡ identity_of n)

  -- The first part of a line that is the node.
  pub data StandsIn : ℕ → Line → Type 0 where
    first_part : {part : ListingPart} {parts : Line} → IsPart part → StandsIn 0 (part ∷ parts)
    later_part :
        {part : ListingPart} {parts : Line} {i : ℕ}
        → ¬ IsPart part
        → StandsIn i parts
        → StandsIn (suc i) (part ∷ parts)

  -- The first line, and the first part of it, that is the node.
  pub data StandsAt : ℕ → ℕ → List Line → Type 0 where
    first_line :
        {line : Line} {lines : List Line} {i : ℕ} → StandsIn i line → StandsAt 0 i (line ∷ lines)
    later_line :
        {line : Line} {lines : List Line} {k i : ℕ}
        → ((j : ℕ) → ¬ StandsIn j line)
        → StandsAt k i lines
        → StandsAt (suc k) i (line ∷ lines)

  is_node-IsPart :
      (part : ListingPart) (o : Option Node) → part.part_node ≡ o → is_node n o ≡ true → IsPart part
  is_node-IsPart part none e h = cc h
  is_node-IsPart part (some m) e h = (m, e, ground (arith, h))

  IsPart-is_node : (part : ListingPart) → IsPart part → is_node n part.part_node ≡ true
  IsPart-is_node part (m, e, same) = rw e (ground (arith, same))

  StandsIn-find :
      (i index : ℕ) (line : Line) → StandsIn i line → find_in_line n index line ≡ some (index + i)
  unfolding find_in_line
  StandsIn-find zero index [] stands = elim stands [ ]
  StandsIn-find (suc i) index [] stands = elim stands [ ]
  StandsIn-find zero index (part ∷ parts) (first_part is) =
      rw (IsPart-is_node part is) (ap some (omega arith))
  StandsIn-find (suc i) index (part ∷ parts) (later_part other later) =
      elim (Bool-cases (is_node n part.part_node)) [
        | inl is ↦ absurd (other (is_node-IsPart part part.part_node refl is))
        | inr passed ↦ rw passed (StandsIn-find i (suc index) parts later ∙ ap some (omega arith))
      ]

  find-StandsIn :
      (index j : ℕ) (line : Line)
      → find_in_line n index line ≡ some j
      → (i : ℕ) × (j ≡ index + i) × StandsIn i line
  unfolding find_in_line
  find-StandsIn index j [] h = cc h
  find-StandsIn index j (part ∷ parts) h = elim (Bool-cases (is_node n part.part_node)) [
    | inl is ↦
        let same = rw is at h in
        (0, ground (arith, same), first_part (is_node-IsPart part part.part_node refl is))
    | inr passed ↦
        let (i, e, stands) = find-StandsIn (suc index) j parts (rw passed at h) in
        (suc i, omega (arith, e), later_part (λ is. cc (passed, IsPart-is_node part is)) stands)
  ]

  missing-find : (line : Line) → ((j : ℕ) → ¬ StandsIn j line) → find_in_line n 0 line ≡ none
  missing-find line missing = elim (Option-cases (find_in_line n 0 line)) [
    | inl h ↦ h
    | inr (j, h) ↦ let (i, e, stands) = find-StandsIn 0 j line h in absurd (missing i stands)
  ]

  StandsAt-find :
      (k i index : ℕ) (lines : List Line)
      → StandsAt k i lines
      → find_in_lines n index lines ≡ some (record { line = index + k; part = i })
  unfolding find_in_lines
  StandsAt-find zero i index [] stands = elim stands [ ]
  StandsAt-find (suc k) i index [] stands = elim stands [ ]
  StandsAt-find zero i index (line ∷ lines) (first_line stands) =
      rw (StandsIn-find i 0 line stands, find_in_lines)
        (same_place index (index + 0) (0 + i) i (omega arith) (omega arith))
  StandsAt-find (suc k) i index (line ∷ lines) (later_line missing stands) =
      rw (missing-find line missing, StandsAt-find k i (suc index) lines stands, find_in_lines)
        (same_place (suc index + k) (index + suc k) i i (omega arith) refl)

  find-StandsAt :
      (index : ℕ) (at : ListingPosition) (lines : List Line)
      → find_in_lines n index lines ≡ some at
      → (k : ℕ) × (at.line ≡ index + k) × StandsAt k at.part lines
  unfolding find_in_lines
  find-StandsAt index at [] h = cc h
  find-StandsAt index at (line ∷ lines) h = elim (Option-cases (find_in_line n 0 line)) [
    | inl missing ↦
        let (k, e, stands) =
          find-StandsAt (suc index) at lines (rw (missing, find_in_lines) at h) in
        (
          suc k,
          omega (arith, e),
          later_line (λ j is. cc (missing, StandsIn-find j 0 line is)) stands,
        )
    | inr (j, found) ↦
        let (i, e, stands) = find-StandsIn 0 j line found in
        let same = some_place-injective (at_place index j) at (rw (found, find_in_lines) at h) in
        (
          0,
          omega (arith, ap (λ p. p.line) same),
          subst (λ part. StandsAt 0 part (line ∷ lines)) (omega (arith, e, ap (λ p. p.part) same))
              (first_line stands),
        )
  ]

  pub find_node_iff :
      (at : ListingPosition) (lines : List Line)
      → (find_node lines (some n) ≡ some at) ↔ StandsAt at.line at.part lines
  unfolding find_node
  find_node_iff at lines = (
    λ h.
        let (k, e, stands) = find-StandsAt 0 at lines h in
        subst (λ line. StandsAt line at.part lines) (omega (arith, e)) stands,
    λ stands.
        StandsAt-find at.line at.part 0 lines stands
        ∙ same_place (0 + at.line) at.line at.part at.part (omega arith) refl,
  )
