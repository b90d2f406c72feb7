-- ===== src/Telegram/Secrets/Hidden.antt =====
-- internal/telegram/sender.go: no secret is left in a message that `sanitizeError` returns.
use alib_fetcher.Base.{
  ℕ, zero, suc, ◌-◌, ◌≡◌, refl, ap, ◌∙◌, inl, inr, List, [], ◌∷◌, ◌++◌, Text, true, false, ◌==◌,
  is_empty, any, has_prefix, has_text, length, replace_from, replace_all, All, Bool-cases, arith,
}
use alib_fetcher.Telegram.Secrets.{mask, without, sanitize_error}

-- A secret is not empty, and the mask shares no sign with it.
abbrev pub IsSecret : Text → Type 0
IsSecret t = (is_empty t ≡ false) × (any (λ c. c == 42) t ≡ false)

no_mask :
    (x : ℕ) (xs rest : Text)
    → any (λ c. c == 42) (x ∷ xs) ≡ false
    → has_prefix (42 ∷ rest) (x ∷ xs) ≡ true
    → ⊥
unfolding has_prefix any
no_mask x xs rest plain h = ground (arith, plain, h)

star_first :
    (t rest : Text)
    → is_empty t ≡ false
    → any (λ c. c == 42) t ≡ false
    → has_prefix (42 ∷ rest) t ≡ false
unfolding has_prefix any
star_first [] rest nonempty plain = cc nonempty
star_first (x ∷ xs) rest nonempty plain = ground (arith, plain)

replaced_nil : (skip : ℕ) (old : Text) → replace_from skip old mask [] ≡ []
unfolding replace_from
replaced_nil zero old = refl
replaced_nil (suc k) old = refl

-- A secret that the new text begins with stood there before.
prefix-replaced :
    (old t message : Text)
    → any (λ c. c == 42) t ≡ false
    → has_prefix (replace_from 0 old mask message) t ≡ true
    → has_prefix message t ≡ true
unfolding replace_from has_prefix any
prefix-replaced old [] message plain h = refl
prefix-replaced old (x ∷ xs) [] plain h = h
prefix-replaced old (x ∷ xs) (c ∷ cs) plain h = elim (Bool-cases (has_prefix (c ∷ cs) old)) [
  | inl hit ↦ absurd (no_mask x xs _ plain (rw hit at h))
  | inr miss ↦
      let seen = rw miss at h in
      ground (arith, seen, prefix-replaced old xs cs (ground (arith, plain)))
]

-- The text after a match is written, and the rest of the text.
replaced_hit :
    (old : Text) (c : ℕ) (cs : Text)
    → has_prefix (c ∷ cs) old ≡ true
    → replace_from 0 old mask (c ∷ cs) ≡ mask ++ replace_from (length old - 1) old mask cs
unfolding replace_from
replaced_hit old c cs h = rw h refl

replaced_miss :
    (old : Text) (c : ℕ) (cs : Text)
    → has_prefix (c ∷ cs) old ≡ false
    → replace_from 0 old mask (c ∷ cs) ≡ c ∷ replace_from 0 old mask cs
unfolding replace_from
replaced_miss old c cs h = rw h refl

replaced_skip :
    (k : ℕ) (old : Text) (c : ℕ) (cs : Text)
    → replace_from (suc k) old mask (c ∷ cs) ≡ replace_from k old mask cs
unfolding replace_from
replaced_skip k old c cs = refl

module _ (t : Text) (secret : IsSecret t) where
  absent-nil : has_text [] t ≡ false
  unfolding has_text has_prefix
  absent-nil = nonempty t secret.0
    where
      nonempty : (t : Text) → is_empty t ≡ false → has_prefix [] t ≡ false
      nonempty [] h = cc h
      nonempty (x ∷ xs) h = refl

  absent-mask : (rest : Text) → has_text rest t ≡ false → has_text (mask ++ rest) t ≡ false
  unfolding has_text
  absent-mask rest h =
      let one = star_first t rest secret.0 secret.1 in
      let two = star_first t (42 ∷ rest) secret.0 secret.1 in
      let three = star_first t (42 ∷ 42 ∷ rest) secret.0 secret.1 in rw (three, two, one, h) refl

  absent-cons :
      (c : ℕ) (cs : Text)
      → has_prefix (c ∷ cs) t ≡ false
      → has_text cs t ≡ false
      → has_text (c ∷ cs) t ≡ false
  unfolding has_text
  absent-cons c cs first rest = rw (first, rest) refl

  absent-parts :
      (c : ℕ) (cs : Text)
      → has_text (c ∷ cs) t ≡ false
      → (has_prefix (c ∷ cs) t ≡ false) × (has_text cs t ≡ false)
  unfolding has_text
  absent-parts c cs h = (ground (arith, h), ground (arith, h))

  -- At a place where nothing is replaced, nothing new begins.
  absent-first :
      (old : Text) (c : ℕ) (cs : Text)
      → has_prefix (c ∷ cs) old ≡ false
      → has_prefix (c ∷ cs) t ≡ false
      → has_prefix (c ∷ replace_from 0 old mask cs) t ≡ false
  absent-first old c cs miss no_prefix =
      elim (Bool-cases (has_prefix (c ∷ replace_from 0 old mask cs) t)) [
        | inr fine ↦ fine
        | inl found ↦
            let before =
              prefix-replaced old t (c ∷ cs) secret.1
                (ap (λ s. has_prefix s t) (replaced_miss old c cs miss) ∙ found) in
            cc (before, no_prefix)
      ]

  -- What is replaced is gone.
  replaced-absent :
      (skip : ℕ) (message : Text) → has_text (replace_from skip t mask message) t ≡ false
  replaced-absent skip [] = ap (λ s. has_text s t) (replaced_nil skip t) ∙ absent-nil
  replaced-absent (suc k) (c ∷ cs) =
      ap (λ s. has_text s t) (replaced_skip k t c cs) ∙ replaced-absent k cs
  replaced-absent zero (c ∷ cs) = elim (Bool-cases (has_prefix (c ∷ cs) t)) [
    | inl hit ↦
        ap (λ s. has_text s t) (replaced_hit t c cs hit)
        ∙ absent-mask _ (replaced-absent (length t - 1) cs)
    | inr miss ↦
        ap (λ s. has_text s t) (replaced_miss t c cs miss)
        ∙ absent-cons c _ (absent-first t c cs miss miss) (replaced-absent 0 cs)
  ]

  -- What was not there does not come in when another text is replaced.
  other-absent :
      (old : Text) (skip : ℕ) (message : Text)
      → has_text message t ≡ false
      → has_text (replace_from skip old mask message) t ≡ false
  other-absent old skip [] h = ap (λ s. has_text s t) (replaced_nil skip old) ∙ absent-nil
  other-absent old (suc k) (c ∷ cs) h =
      ap (λ s. has_text s t) (replaced_skip k old c cs)
      ∙ other-absent old k cs (absent-parts c cs h).1
  other-absent old zero (c ∷ cs) h = elim (Bool-cases (has_prefix (c ∷ cs) old)) [
    | inl hit ↦
        ap (λ s. has_text s t) (replaced_hit old c cs hit)
        ∙ absent-mask _ (other-absent old (length old - 1) cs (absent-parts c cs h).1)
    | inr miss ↦
        ap (λ s. has_text s t) (replaced_miss old c cs miss)
        ∙ absent-cons c _ (absent-first old c cs miss (absent-parts c cs h).0)
            (other-absent old 0 cs (absent-parts c cs h).1)
  ]

  without-absent :
      (old message : Text) → has_text message t ≡ false → has_text (without old message) t ≡ false
  unfolding replace_all
  without-absent [] message h = h
  without-absent (c ∷ cs) message h = other-absent (c ∷ cs) 0 message h

  without_self-absent : (message : Text) → has_text (without t message) t ≡ false
  unfolding replace_all
  without_self-absent message = rw (secret.0) (replaced-absent 0 message)

  sanitize_error-absent :
      (secrets : List Text) (message : Text)
      → has_text message t ≡ false
      → has_text (sanitize_error secrets message) t ≡ false
  unfolding sanitize_error
  sanitize_error-absent [] message h = h
  sanitize_error-absent (s ∷ ss) message h =
      sanitize_error-absent ss (without s message) (without-absent s message h)

-- Whatever a message says, none of the secrets stands in what is left of it, if no secret is empty or
-- holds the sign of the mask.
pub sanitize_error-hides :
    (secrets : List Text) (message : Text)
    → All IsSecret secrets
    → All (λ t. has_text (sanitize_error secrets message) t ≡ false) secrets
unfolding sanitize_error
sanitize_error-hides [] message h = tt
sanitize_error-hides (s ∷ ss) message h = (
  sanitize_error-absent s h.0 ss (without s message) (without_self-absent s h.0 message),
  sanitize_error-hides ss (without s message) h.1,
)
