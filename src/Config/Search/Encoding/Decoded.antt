-- ===== src/Config/Search/Encoding/Decoded.antt =====
-- What `url.QueryEscape` writes is read back, and holds no sign that divides a query.
use alib_fetcher.Base.{
  ℕ, ◌+◌, ◌-◌, ◌*◌, ◌/◌, ◌%◌, ◌<◌, ◌≡◌, refl, ap, ◌∙◌, inl, inr, List, [], ◌∷◌, ◌++◌, Text, true,
  false, ◌==◌, ltb, if◌then◌else◌, any, any-append, All, Bool-cases, arith,
}
use alib_fetcher.Config.Search.Encoding.{is_unreserved, hex_digit, escape_byte, query_escape}

-- The value of an upper-case hexadecimal digit.
abbrev digit_value : ℕ → ℕ
digit_value c = if ltb c 65 then c - 48 else c - 55

abbrev decode_byte : ℕ → ℕ
decode_byte c = if c == 43 then 32 else c

-- A plus stands for a space, and a percent sign with two digits for a byte.
pub unescape : Text → List ℕ
unescape [] = []
unescape (c ∷ []) = decode_byte c ∷ []
unescape (c ∷ d ∷ []) = decode_byte c ∷ decode_byte d ∷ []
unescape (c ∷ d ∷ e ∷ cs) =
    let byte = (digit_value d * 16 + digit_value e) ∷ unescape cs in
    let plain = decode_byte c ∷ unescape (d ∷ e ∷ cs) in if c == 37 then byte else plain

unescape-plain :
    (c : ℕ) (cs : Text) → (c == 37) ≡ false → unescape (c ∷ cs) ≡ decode_byte c ∷ unescape cs
unfolding unescape
unescape-plain c [] h = refl
unescape-plain c (d ∷ []) h = refl
unescape-plain c (d ∷ e ∷ cs) h = rw h refl

unescape-percent :
    (d e : ℕ) (cs : Text)
    → unescape (37 ∷ d ∷ e ∷ cs) ≡ (digit_value d * 16 + digit_value e) ∷ unescape cs
unfolding unescape
unescape-percent d e cs = refl

digit_value-hex_digit : (n : ℕ) → n < 16 → digit_value (hex_digit n) ≡ n
digit_value-hex_digit n h = ground (arith, h)

hex_digit-plain : (n : ℕ) → n < 16 → ((hex_digit n == 38) ≡ false) × ((hex_digit n == 61) ≡ false)
hex_digit-plain n h = ground (arith, h)

unreserved-plain :
    (c : ℕ)
    → is_unreserved c ≡ true
    → ((c == 37) ≡ false) × ((c == 43) ≡ false) × ((c == 38) ≡ false) × ((c == 61) ≡ false)
unreserved-plain c h = ground (arith, h)

unescape-escape_byte :
    (c : ℕ) (rest : Text) → c < 256 → unescape (escape_byte c ++ rest) ≡ c ∷ unescape rest
unescape-escape_byte c rest h = elim (Bool-cases (is_unreserved c)) [
  | inl kept ↦
      let plain = unreserved-plain c kept in
      rw kept (unescape-plain c rest plain.0 ∙ rw (plain.1) refl)
  | inr escaped ↦ elim (Bool-cases (c == 32)) [
    | inl space ↦
        rw (escaped, space)
          (unescape-plain 43 rest refl ∙ ap (λ b. b ∷ unescape rest) (ground (arith, space)))
    | inr other ↦
        rw (escaped, other)
          (unescape-percent (hex_digit (c / 16)) (hex_digit (c % 16)) rest
            ∙ ap (λ b. b ∷ unescape rest)
                (omega (
                  arith,
                  digit_value-hex_digit (c / 16) (omega (arith, h)),
                  digit_value-hex_digit (c % 16) (omega arith),
                )))
  ]
]

pub unescape-query_escape :
    (bytes : List ℕ) → All (λ b. b < 256) bytes → unescape (query_escape bytes) ≡ bytes
unfolding query_escape unescape
unescape-query_escape [] h = refl
unescape-query_escape (c ∷ cs) h =
    unescape-escape_byte c (query_escape cs) h.0 ∙ ap (◌∷◌ c) (unescape-query_escape cs h.1)

escape_byte-whole :
    (c : ℕ)
    → c < 256
    → (any (λ d. d == 38) (escape_byte c) ≡ false) × (any (λ d. d == 61) (escape_byte c) ≡ false)
unfolding any
escape_byte-whole c h = elim (Bool-cases (is_unreserved c)) [
  | inl kept ↦ let plain = unreserved-plain c kept in rw kept (rw (plain.2) refl, rw (plain.3) refl)
  | inr escaped ↦ elim (Bool-cases (c == 32)) [
    | inl space ↦ rw (escaped, space) (refl, refl)
    | inr other ↦
        let high = hex_digit-plain (c / 16) (omega (arith, h)) in
        let low = hex_digit-plain (c % 16) (omega arith) in
        rw (escaped, other) (rw (high.0, low.0) refl, rw (high.1, low.1) refl)
  ]
]

-- An escaped text holds no ampersand and no equals sign.
pub query_escape-whole :
    (bytes : List ℕ)
    → All (λ b. b < 256) bytes
    → (any (λ d. d == 38) (query_escape bytes) ≡ false)
      × (any (λ d. d == 61) (query_escape bytes) ≡ false)
unfolding query_escape any
query_escape-whole [] h = (refl, refl)
query_escape-whole (c ∷ cs) h =
    let first = escape_byte-whole c h.0 in
    let rest = query_escape-whole cs h.1 in
    (
      any-append (λ d. d == 38) (escape_byte c) (query_escape cs) ∙ rw (first.0, rest.0) refl,
      any-append (λ d. d == 61) (escape_byte c) (query_escape cs) ∙ rw (first.1, rest.1) refl,
    )
