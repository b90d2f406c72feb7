-- ===== src/Alib/Legacy/Kept.antt =====
-- internal/alib/book.go: what `UnmarshalJSON` keeps of a book.
use alib_fetcher.Base.{
  ℕ, pos, ◌≡◌, ◌≢◌, refl, ap, ◌∙◌, ◌⊎◌, inl, inr, List, [], ◌∷◌, map, Text, text, Option, none,
  some, Bool, true, false, not, ◌&&◌, if◌then◌else◌, is_none, Bool-cases,
}
use alib_fetcher.Alib.Book.{Book, Photo}
use alib_fetcher.Alib.Parser.Year.{parse_publication_year}
use alib_fetcher.Alib.Legacy.{
  Decoded, legacy_photos, legacy_string, convert_legacy_fragments, unmarshal_json, with_photos,
  no_photos,
}

-- Some text of an older version is there.
abbrev pub is_legacy : Decoded → Bool
is_legacy decoded = not (
    is_none decoded.text_before_seller
    && is_none decoded.text_before_buy
    && is_none decoded.text_after_buy)

-- The fields that no conversion touches, of which the first is the key of the record.
pub record SameIdentity (book original : Book) : Type 0 where
  pub buy_url : book.buy_url ≡ original.buy_url
  pub title : book.title ≡ original.title
  pub seller_url : book.seller_url ≡ original.seller_url

module _ (is_letter is_number : ℕ → Bool) where
  -- The year is the one that the bibliography names.
  abbrev pub IsDated : Book → Type 0
  IsDated book =
      book.publication_year ≡ pos (parse_publication_year is_letter is_number book.bibliography)

  -- A photo without a caption gets the default one.
  abbrev pub captioned : Text → Photo
  captioned url = record { url = url; caption = text "фото" }

  -- The photos of the book are its own, or, if it has none, those whose addresses the record has.
  abbrev pub PhotosOf : Decoded → List Photo → Type 0
  PhotosOf decoded shown =
      ((shown ≡ decoded.semantic.photos)
        × ((decoded.semantic.photos ≢ []) ⊎ (decoded.photo_urls ≡ none)))
      ⊎ ((decoded.semantic.photos ≡ [])
          × ((urls : List Text) × (decoded.photo_urls ≡ some urls) × (shown ≡ map captioned urls)))

  legacy_photos-captioned : (urls : List Text) → legacy_photos urls ≡ map captioned urls
  unfolding legacy_photos
  legacy_photos-captioned [] = refl
  legacy_photos-captioned (url ∷ urls) =
      ap (λ ps. captioned url ∷ ps) (legacy_photos-captioned urls)

  -- A book of this version changes at most in its photos.
  abbrev pub Unchanged : Book → Decoded → Type 0
  Unchanged book decoded =
      (is_legacy decoded ≡ false) × (book ≡ record decoded.semantic { photos = book.photos })

  with_photos-same :
      (book : Book) (urls : Option (List Text)) → SameIdentity (with_photos book urls) book
  with_photos-same book none = record { buy_url = refl; title = refl; seller_url = refl }
  with_photos-same book (some urls) = record { buy_url = refl; title = refl; seller_url = refl }

  -- The fields of a book that is written by this version.
  abbrev pub written : Book → Decoded
  written book = record {
    semantic = book;
    photo_urls = none;
    text_before_seller = none;
    text_before_buy = none;
    text_after_buy = none;
  }

  convert-same :
      (book : Book) (a b c : Text)
      → SameIdentity (convert_legacy_fragments is_letter is_number book a b c) book
        × IsDated (convert_legacy_fragments is_letter is_number book a b c)
  unfolding convert_legacy_fragments
  convert-same book a b c = (record { buy_url = refl; title = refl; seller_url = refl }, refl)

  same_trans : {a b c : Book} → SameIdentity a b → SameIdentity b c → SameIdentity a c
  same_trans p q = record {
    buy_url = p.buy_url ∙ q.buy_url;
    title = p.title ∙ q.title;
    seller_url = p.seller_url ∙ q.seller_url;
  }

  abbrev with_own : Decoded → Book
  with_own decoded =
      if no_photos decoded.semantic.photos
      then with_photos decoded.semantic decoded.photo_urls
      else decoded.semantic

  abbrev IsWithOwn : Decoded → Book → Type 0
  IsWithOwn decoded book =
      SameIdentity book decoded.semantic
      × PhotosOf decoded book.photos
      × (book ≡ record decoded.semantic { photos = book.photos })

  without_photos-IsWithOwn :
      (decoded : Decoded) (urls : Option (List Text))
      → decoded.photo_urls ≡ urls
      → decoded.semantic.photos ≡ []
      → IsWithOwn decoded (with_photos decoded.semantic urls)
  without_photos-IsWithOwn decoded none e bare =
      (with_photos-same decoded.semantic none, inl (refl, inr e), refl)
  without_photos-IsWithOwn decoded (some urls) e bare = (
    with_photos-same decoded.semantic (some urls),
    inr (bare, (urls, e, legacy_photos-captioned urls)),
    refl,
  )

  no_photos-nil : (shown : List Photo) → no_photos shown ≡ true → shown ≡ []
  no_photos-nil [] h = refl
  no_photos-nil (photo ∷ shown) h = cc h

  no_photos-cons : (shown : List Photo) → no_photos shown ≡ false → shown ≢ []
  no_photos-cons [] h e = cc h
  no_photos-cons (photo ∷ shown) h e = cc e

  with_own-IsWithOwn : (decoded : Decoded) → IsWithOwn decoded (with_own decoded)
  with_own-IsWithOwn decoded = elim (Bool-cases (no_photos decoded.semantic.photos)) [
    | inl bare ↦ rw bare (
        without_photos-IsWithOwn decoded decoded.photo_urls refl
          (no_photos-nil decoded.semantic.photos bare))
    | inr shown ↦ rw shown (
      record { buy_url = refl; title = refl; seller_url = refl },
      inl (refl, inl (no_photos-cons decoded.semantic.photos shown)),
      refl,
    )
  ]

  written-same : (book : Book) → unmarshal_json is_letter is_number (written book) ≡ book
  unfolding unmarshal_json
  written-same book = elim (Bool-cases (no_photos book.photos)) [
    | inl bare ↦ rw bare refl
    | inr shown ↦ rw shown refl
  ]

  -- Reading a record keeps the key, the title and the address of the seller. The photos are those of
  -- the record, or, if it has none, one with the default caption for every address that an older
  -- version wrote. Nothing else changes, unless there are texts of an older version: then the year is
  -- the one that the new bibliography names. What was read once and is written reads as itself.
  pub unmarshal_json-kept :
      (decoded : Decoded)
      → let book = unmarshal_json is_letter is_number decoded in
        SameIdentity book decoded.semantic
        × PhotosOf decoded book.photos
        × (((is_legacy decoded ≡ true) × IsDated book) ⊎ Unchanged book decoded)
        × (unmarshal_json is_letter is_number (written book) ≡ book)
  unfolding unmarshal_json
  unmarshal_json-kept decoded =
      let (same, shown, kept) = with_own-IsWithOwn decoded in
      let book : Book = with_own decoded in
      elim (Bool-cases (
        is_none decoded.text_before_seller
        && is_none decoded.text_before_buy
        && is_none decoded.text_after_buy)) [
          | inl plain ↦ rw plain (same, shown, inr (refl, kept), written-same book)
          | inr legacy ↦
              let a : Text = legacy_string decoded.text_before_seller in
              let b : Text = legacy_string decoded.text_before_buy in
              let c : Text = legacy_string decoded.text_after_buy in
              let (converted, dated) = convert-same book a b c in
              rw legacy (
                same_trans converted same,
                unfold convert_legacy_fragments in shown,
                inl (refl, dated),
                written-same (convert_legacy_fragments is_letter is_number book a b c),
              )
        ]
