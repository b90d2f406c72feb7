-- ===== src/Digest/Chunks/Laid.antt =====
-- internal/digest/render.go: how the text of a message is made up of its parts.
use mathlib.Core.List.{append_assoc}
use alib_fetcher.Base.{
  ℕ, ◌<◌, ◌-◌, ◌*◌, ◌≤◌, ◌≡◌, refl, sym, ◌⊎◌, List, [], ◌∷◌, ◌++◌, Text, Option, Bool, true, false,
  length, arith,
}
use alib_fetcher.Html.{Node}
use alib_fetcher.Alib.Book.{Book}
use alib_fetcher.Digest.Item.{Options, section_break}
use alib_fetcher.Digest.Limits.{ok, WithinTextLimits, render_book}
use alib_fetcher.Digest.Chunks.{
  Chunk, header, empty_notification, listing_separator, failure_summary, rich_message_block_limit,
  separator_of,
}

-- Parts with a rule between each two.
abbrev pub ruled : Text → List Text → Text
ruled part [] = part
ruled part (next ∷ parts) = part ++ (listing_separator ++ ruled next parts)

-- The parts of a message, under the header or without it.
abbrev pub laid : Bool → List Text → Text
laid false [] = []
laid true [] = header
laid false (part ∷ parts) = ruled part parts
laid true (part ∷ parts) = header ++ (section_break ++ ruled part parts)

-- Each part is a block, and so is each rule between two of them.
abbrev pub blocks_of : List Text → ℕ
blocks_of parts = 2 * length parts - 1

ruled-append :
    (part : Text) (parts : List Text) (last : Text)
    → ruled part (parts ++ last ∷ []) ≡ ruled part parts ++ (listing_separator ++ last)
ruled-append part [] last = refl
ruled-append part (next ∷ parts) last =
    rw
      (
        ruled-append next parts last,
        append_assoc part (listing_separator ++ ruled next parts) (listing_separator ++ last),
        append_assoc listing_separator (ruled next parts) (listing_separator ++ last),
      )
      refl

-- A further part follows behind a rule.
pub laid-append :
    (headed : Bool) (part : Text) (parts : List Text) (last : Text)
    → laid headed (part ∷ (parts ++ last ∷ []))
      ≡ laid headed (part ∷ parts) ++ (listing_separator ++ last)
laid-append false part parts last = ruled-append part parts last
laid-append true part parts last =
    rw
      (
        ruled-append part parts last,
        append_assoc header (section_break ++ ruled part parts) (listing_separator ++ last),
        append_assoc section_break (ruled part parts) (listing_separator ++ last),
      )
      refl

pub laid_behind :
    (headed : Bool) (parts : List Text) (last : Text)
    → 0 < length parts
    → laid headed parts ++ (listing_separator ++ last) ≡ laid headed (parts ++ last ∷ [])
laid_behind headed [] last h = absurd (omega (arith, h))
laid_behind headed (part ∷ parts) last h = sym (laid-append headed part parts last)

module _ (html_parse : Text → Option Node) (options : Options) where
  -- The items are the rendered books, in order.
  pub data Shown : List Book → List Text → Type 0 where
    nothing : Shown [] []
    listed :
        {book : Book} {item : Text} {books : List Book} {items : List Text}
        → render_book html_parse book options ≡ ok item
        → Shown books items
        → Shown (book ∷ books) (item ∷ items)

  pub Shown-length :
      {books : List Book} {items : List Text} → Shown books items → length items ≡ length books
  Shown-length nothing = refl
  Shown-length (listed e shown) = omega (arith, Shown-length shown)

  pub Shown-append :
      {books : List Book} {items : List Text} (book : Book) (item : Text)
      → Shown books items
      → render_book html_parse book options ≡ ok item
      → Shown (books ++ book ∷ []) (items ++ item ∷ [])
  Shown-append book item nothing e = listed e nothing
  Shown-append book item (listed first shown) e = listed first (Shown-append book item shown e)

  -- The chunk has these items, one for each of its books.
  pub record Lists (chunk : Chunk) (headed : Bool) (items : List Text) : Type 0 where
    pub shown : Shown chunk.books items
    pub content : chunk.content ≡ laid headed items

  separator_of-behind :
      (chunk : Chunk) → 0 < length chunk.books → separator_of chunk ≡ listing_separator
  unfolding separator_of
  separator_of-behind chunk h = ground arith

  extended_content :
      (chunk : Chunk) (headed : Bool) (books : List Book) (items : List Text) (item : Text)
      → Shown books items
      → chunk.books ≡ books
      → chunk.content ≡ laid headed items
      → chunk.content ++ (separator_of chunk ++ item) ≡ laid headed (items ++ item ∷ [])
  unfolding separator_of
  extended_content chunk false books items item nothing e c = rw (e, c) refl
  extended_content chunk true books items item nothing e c = rw (e, c) refl
  extended_content chunk headed books items item (listed {items = rest} first shown) e c =
      rw (separator_of-behind chunk (rw e (omega arith)), c) (sym (laid-append headed _ rest item))

  pub Lists-add :
      (chunk : Chunk) (headed : Bool) (items : List Text) (book : Book) (item : Text)
      → Lists chunk headed items
      → render_book html_parse book options ≡ ok item
      → Lists
          (record {
            content = chunk.content ++ (separator_of chunk ++ item);
            books = chunk.books ++ book ∷ [];
          })
          headed
          (items ++ item ∷ [])
  Lists-add chunk headed items book item v e = record {
    shown = Shown-append book item v.shown e;
    content = extended_content chunk headed chunk.books items item v.shown refl v.content;
  }

  module _ (failed : ℕ) where
    -- What else can stand in a message: nothing, the summary of the failures, or, without books, that
    -- there are none.
    abbrev pub IsNote : List Book → List Text → Type 0
    IsNote books note =
        (note ≡ [])
        ⊎ (note ≡ failure_summary failed ∷ [])
        ⊎ ((books ≡ []) × (note ≡ empty_notification ∷ []))

    -- What Telegram takes as one message: it keeps the limits on the text, and the parts that it is
    -- made up of, which are its books and at most one note, keep the limit on the blocks.
    pub record FitsMessage (chunk : Chunk) : Type 0 where
      pub within : WithinTextLimits html_parse options.limit chunk.content
      pub headed : Bool
      pub items : List Text
      pub note : List Text
      pub shown : Shown chunk.books items
      pub noted : IsNote chunk.books note
      pub content : chunk.content ≡ laid headed (items ++ note)
      pub few : blocks_of (items ++ note) ≤ rich_message_block_limit
