-- ===== src/Digest/Markup/Safety.antt =====
-- internal/digest/render.go: what of a text or a link target can reach the markup.
use alib_fetcher.Base.{
  ℕ, zero, suc, ◌≢◌, [], ◌∷◌, Text, text, All, All-append, arith, replace_all, replace_from, length,
  ◌-◌, Bool-cases, inl, inr, has_prefix, ◌==◌,
}
use alib_fetcher.Digest.Markup.{
  escape_rune, escape_string, escape_link_target, render_multiline_text, line_break,
}

-- A replacement keeps what holds of every rune of the text and of the new part.
replace_from-All :
    (P : ℕ → Type 0) (skip : ℕ) (old new s : Text)
    → All P new
    → All P s
    → All P (replace_from skip old new s)
unfolding replace_from
replace_from-All P skip old new [] hn hs = tt
replace_from-All P (suc skip) old new (c ∷ cs) hn hs = replace_from-All P skip old new cs hn hs.1
replace_from-All P zero old new (c ∷ cs) hn hs = elim (Bool-cases (has_prefix (c ∷ cs) old)) [
  | inl hit ↦
      rw (hit, replace_from)
        (All-append P new (replace_from (length old - 1) old new cs) hn
          (replace_from-All P (length old - 1) old new cs hn hs.1))
  | inr miss ↦ rw (miss, replace_from) (hs.0, replace_from-All P zero old new cs hn hs.1)
]

-- A replaced rune is gone.
replace_from-gone :
    (r : ℕ) (new s : Text) → All (λ c. c ≢ r) new → All (λ c. c ≢ r) (replace_from 0 (r ∷ []) new s)
unfolding replace_from has_prefix
replace_from-gone r new [] hn = tt
replace_from-gone r new (c ∷ cs) hn = elim (Bool-cases (c == r)) [
  | inl hit ↦
      rw (hit, replace_from)
        (All-append (λ x. x ≢ r) new (replace_from 0 (r ∷ []) new cs) hn
          (replace_from-gone r new cs hn))
  | inr miss ↦ rw (miss, replace_from) (ground arith, replace_from-gone r new cs hn)
]

abbrev IsLine : ℕ → Type 0
IsLine c = (c ≢ 10) × (c ≢ 13)

-- A rune that cannot end an attribute, a tag or a line.
abbrev pub IsInert : ℕ → Type 0
IsInert c = (c ≢ b'"') × (c ≢ b'\'') × (c ≢ b'<') × (c ≢ b'>') × (c ≢ 10) × (c ≢ 13)

escape_rune-IsInert : (c : ℕ) → IsLine c → All IsInert (escape_rune c)
unfolding escape_rune
escape_rune-IsInert c h = ground arith

escape_string-IsInert : (s : Text) → All IsLine s → All IsInert (escape_string s)
unfolding escape_string
escape_string-IsInert [] h = tt
escape_string-IsInert (c ∷ cs) h =
    All-append IsInert (escape_rune c) (escape_string cs) (escape_rune-IsInert c h.0)
      (escape_string-IsInert cs h.1)

All-both : (P Q : ℕ → Type 0) (s : Text) → All P s → All Q s → All (λ c. P c × Q c) s
All-both P Q [] hp hq = tt
All-both P Q (c ∷ cs) hp hq = ((hp.0, hq.0), All-both P Q cs hp.1 hq.1)

-- The target of a link cannot leave its attribute: no quote, angle bracket or line end of a URL
-- reaches the markup.
pub escape_link_target-IsInert : (target : Text) → All IsInert (escape_link_target target)
unfolding escape_link_target replace_all
escape_link_target-IsInert target =
    let without_cr : Text = replace_from 0 (13 ∷ []) (text "%0D") target in
    let without_lf : Text = replace_from 0 (10 ∷ []) (text "%0A") without_cr in
    escape_string-IsInert without_lf (
      All-both (λ c. c ≢ 10) (λ c. c ≢ 13) without_lf
        (replace_from-gone 10 (text "%0A") without_cr (omega arith))
        (replace_from-All (λ c. c ≢ 13) 0 (10 ∷ []) (text "%0A") without_cr (omega arith)
          (replace_from-gone 13 (text "%0D") target (omega arith))))

abbrev pub IsUnquoted : ℕ → Type 0
IsUnquoted c = (c ≢ b'"') × (c ≢ b'\'')

escape_string-IsUnquoted : (s : Text) → All IsUnquoted (escape_string s)
unfolding escape_string escape_rune
escape_string-IsUnquoted [] = tt
escape_string-IsUnquoted (c ∷ cs) =
    All-append IsUnquoted (escape_rune c) (escape_string cs) (ground arith)
      (escape_string-IsUnquoted cs)

-- A rendered text holds no quotes and no line ends: these have become references and `<br/>`.
pub render_multiline_text_plain :
    (value : Text)
    → All IsUnquoted (render_multiline_text value) × All IsLine (render_multiline_text value)
unfolding render_multiline_text replace_all
render_multiline_text_plain value =
    let escaped : Text = escape_string value in
    let crlf : Text = 13 ∷ 10 ∷ [] in
    let without_crlf : Text = replace_from 0 crlf (10 ∷ []) escaped in
    let without_cr : Text = replace_from 0 (13 ∷ []) (10 ∷ []) without_crlf in
    let result : Text = replace_from 0 (10 ∷ []) line_break without_cr in
    (
      replace_from-All IsUnquoted 0 (10 ∷ []) line_break without_cr (omega arith) (
          replace_from-All IsUnquoted 0 (13 ∷ []) (10 ∷ []) without_crlf (omega arith) (
            replace_from-All IsUnquoted 0 crlf (10 ∷ []) escaped (omega arith)
              (escape_string-IsUnquoted value))),
      All-both (λ c. c ≢ 10) (λ c. c ≢ 13) result
          (replace_from-gone 10 line_break without_cr (omega arith))
          (replace_from-All (λ c. c ≢ 13) 0 (10 ∷ []) line_break without_cr (omega arith)
            (replace_from-gone 13 (10 ∷ []) without_crlf (omega arith))),
    )
