-- ===== src/Config/ChatId/Canonical.antt =====
-- internal/config/config.go: what `normalizeChatID` returns is canonical.
use alib_fetcher.Base.{
  ℕ, ◌≤◌, ◌≡◌, ◌≢◌, refl, sym, ap, ◌∙◌, ◌⊎◌, inl, inr, [], ◌∷◌, Text, text, map, some, true, false,
  ◌||◌, ◌&&◌, ◌↔◌, ◌==◌, has_prefix, byte_length, rune_bytes, any, is_space, ℤ, pos, negsuc,
  parse_int, format_int, Bool-cases, Option, none, Option-cases, arith, decimal,
  contains_only_digits,
}
use alib_fetcher.Base.Numerals.Printed.{
  IsInt64, parse_int-format_int, parse_int-IsInt64, contains_only_digits-decimal,
}
use alib_fetcher.Config.ChatId.{LowerCase, normalize_chat_id}

digits_no_at : (s : Text) → contains_only_digits s ≡ true → has_prefix s (text "@") ≡ false
unfolding contains_only_digits has_prefix
digits_no_at [] h = refl
digits_no_at (c ∷ cs) h = ground (arith, h)

format_int-no_at : (z : ℤ) → has_prefix (format_int z) (text "@") ≡ false
unfolding format_int has_prefix
format_int-no_at (pos n) = digits_no_at (decimal n) (contains_only_digits-decimal n)
format_int-no_at (negsuc n) = refl

rune_bytes-positive : (c : ℕ) → 1 ≤ rune_bytes c
unfolding rune_bytes
rune_bytes-positive c = ground arith

-- A text that begins with the sign has one byte only if it is the sign.
only_at_sign :
    (s : Text) → has_prefix s (text "@") ≡ true → (byte_length s == 1) ≡ true → s ≡ text "@"
unfolding has_prefix byte_length
only_at_sign [] h one = cc h
only_at_sign (c ∷ []) h one = ground (arith, h)
only_at_sign (c ∷ d ∷ ds) h one =
    absurd (ground (arith, one, rune_bytes-positive c, rune_bytes-positive d))

not_sign :
    (value : Text) → (byte_length value == 1 || any is_space value) ≡ false → value ≢ text "@"
unfolding byte_length rune_bytes
not_sign value fine e = cc (rw e at fine)

abbrev pub normalize_again : (ℕ → ℕ) → Option Text → Option Text
normalize_again lower none = none
normalize_again lower (some id) = normalize_chat_id lower id

-- A channel is named by more than the sign `@`, without white space.
abbrev pub IsChannel : Text → Type 0
IsChannel value =
    (has_prefix value (text "@") ≡ true) × (value ≢ text "@") × (any is_space value ≡ false)

-- A number of 64 bits.
abbrev pub IsNumber : Text → Text → Type 0
IsNumber value id =
    (has_prefix value (text "@") ≡ false)
    × ((z : ℤ) × (parse_int value ≡ some z) × (id ≡ format_int z))

module _ (lower : ℕ → ℕ) where
  abbrev pub Names : Text → Text → Type 0
  Names value id = (IsChannel value × (id ≡ map lower value)) ⊎ IsNumber value id

  normalize-Names : (value id : Text) → normalize_chat_id lower value ≡ some id → Names value id
  unfolding normalize_chat_id
  normalize-Names value id h = elim (Bool-cases (has_prefix value (text "@"))) [
    | inl at ↦ elim (Bool-cases (byte_length value == 1 || any is_space value)) [
      | inl bad ↦ ground (arith, at, bad, h)
      | inr fine ↦
          inl ((at, not_sign value fine, ground (arith, fine)), sym (ground (arith, at, fine, h)))
    ]
    | inr no_at ↦ elim (Option-cases (parse_int value)) [
      | inl bad ↦ ground (arith, no_at, bad, h)
      | inr (z, good) ↦ inr (no_at, (z, good, sym (ground (arith, no_at, good, h))))
    ]
  ]

  normalize-channel :
      (value : Text) → IsChannel value → normalize_chat_id lower value ≡ some (map lower value)
  unfolding normalize_chat_id
  normalize-channel value (at, longer, spaceless) = elim (Bool-cases (byte_length value == 1)) [
    | inl one ↦ absurd (longer (only_at_sign value at one))
    | inr more ↦ rw (at, more, spaceless) refl
  ]

  Names-normalize : (value id : Text) → Names value id → normalize_chat_id lower value ≡ some id
  unfolding normalize_chat_id
  Names-normalize value id (inl (channel, e)) = normalize-channel value channel ∙ ap some (sym e)
  Names-normalize value id (inr (no_at, (z, good, e))) = rw (no_at, good) (ap some (sym e))

  normalize_number :
      (z : ℤ) → IsInt64 z → normalize_chat_id lower (format_int z) ≡ some (format_int z)
  unfolding normalize_chat_id
  normalize_number z h = rw (format_int-no_at z, parse_int-format_int z h) refl

  module _ (laws : LowerCase lower) where
    any_space-lower : (s : Text) → any is_space (map lower s) ≡ any is_space s
    unfolding any
    any_space-lower [] = refl
    any_space-lower (c ∷ cs) = rw (laws.keeps_space c, any_space-lower cs) refl

    lower-lower : (s : Text) → map lower (map lower s) ≡ map lower s
    lower-lower [] = refl
    lower-lower (c ∷ cs) = cc (laws.idempotent c, lower-lower cs)

    lower-prefix :
        (s : Text) → has_prefix s (text "@") ≡ true → has_prefix (map lower s) (text "@") ≡ true
    unfolding has_prefix
    lower-prefix [] h = h
    lower-prefix (c ∷ cs) h = ground (arith, laws.at_sign, ap lower (starts c h))
      where
        starts : (c : ℕ) → (c == 64 && true) ≡ true → c ≡ 64
        starts c h = ground (arith, h)

    lower-longer :
        (s : Text) → has_prefix s (text "@") ≡ true → s ≢ text "@" → map lower s ≢ text "@"
    unfolding has_prefix
    lower-longer [] at longer e = cc
    lower-longer (c ∷ []) at longer e = longer (ground (arith, at))
    lower-longer (c ∷ d ∷ ds) at longer e = cc e

    lower-IsChannel : (s : Text) → IsChannel s → IsChannel (map lower s)
    lower-IsChannel s (at, longer, spaceless) =
        (lower-prefix s at, lower-longer s at longer, any_space-lower s ∙ spaceless)

    Names-stable : (value id : Text) → Names value id → normalize_chat_id lower id ≡ some id
    Names-stable value id (inl (channel, e)) = rw e (
        normalize-channel (map lower value) (lower-IsChannel value channel)
        ∙ ap some (lower-lower value))
    Names-stable value id (inr (no_at, (z, good, e))) =
        rw e (normalize_number z (parse_int-IsInt64 value z good))

    -- A chat is accepted exactly if it is a channel, more than the sign `@` and without white space,
    -- or a signed decimal number of 64 bits. The result is the channel in lower case, or the number
    -- printed. It is canonical: to normalise it again changes nothing.
    pub normalize_chat_id-canonical :
        (value id : Text)
        → ((normalize_chat_id lower value ≡ some id) ↔ Names value id)
          × (normalize_again lower (normalize_chat_id lower value) ≡ normalize_chat_id lower value)
    normalize_chat_id-canonical value id = (
      (normalize-Names value id, Names-normalize value id),
      elim (Option-cases (normalize_chat_id lower value)) [
        | inl bad ↦ rw bad refl
        | inr (first, e) ↦ rw e (Names-stable value first (normalize-Names value first e))
      ],
    )
