-- ===== src/Digest/Item.antt =====
-- internal/digest/render.go: the markup of one listing, before its size is looked at.
use alib_fetcher.Base.{
  ℕ, List, [], ◌∷◌, ◌++◌, Text, text, ◌==◌, if◌then◌else◌, trim_space, is_empty, join, ℤ, pos,
  Option, none, some, Bool, false, ◌&&◌, ◌||◌, not, ltb_ℤ, eqb_ℤ, ◌-ℤ◌,
}
use alib_fetcher.Alib.Book.{Book}
use alib_fetcher.Digest.Markup.{
  line_break, render_multiline_text, render_seller, render_photos, render_link,
}

-- `time.Time`, as far as the renderer reads it.
pub record LocalTime : Type 0 where
  pub year : ℤ
  pub month : ℕ

pub record Options : Type 0 where
  pub local_time : LocalTime
  pub fresh_books_lower_year : Option ℤ
  pub limit : ℤ

abbrev pub section_break : Text
section_break = line_break ++ line_break

abbrev pub at_least : ℤ → Option ℤ → Bool
at_least year none = false
at_least year (some lower) = not (ltb_ℤ year lower)

unfoldable pub publication_emoji : ℤ → Options → Text
unfolding ◌-ℤ◌
publication_emoji publication_year options =
    let current_year = options.local_time.year in
    if ltb_ℤ current_year publication_year
    then text "🛸 "
    else if eqb_ℤ publication_year (pos 0)
    then text "🛸 "
    else if ltb_ℤ publication_year (pos 0)
    then []
    else if eqb_ℤ publication_year current_year
        || (options.local_time.month == 1 && eqb_ℤ publication_year (current_year -ℤ pos 1))
    then text "🔥 "
    else if at_least publication_year options.fresh_books_lower_year
    then text "✨ "
    else []

-- A part of the listing that is left out where its trimmed text is empty.
abbrev optional : Text → (Text → Text) → List Text
optional value render = if is_empty value then [] else render value ∷ []

-- The joined parts, where there is one.
abbrev joined : List Text → Text → (Text → Text) → List Text
joined [] separator render = []
joined (part ∷ parts) separator render = render (join (part ∷ parts) separator) ∷ []

unfoldable pub main_line : Book → Options → Text
unfolding publication_emoji trim_space render_multiline_text
main_line book options =
    let title =
      publication_emoji book.publication_year options
      ++ (text "<b>" ++ (render_multiline_text (trim_space book.title) ++ text "</b>")) in
    let bibliography = trim_space book.bibliography in
    if is_empty bibliography
    then title
    else title ++ (text " " ++ render_multiline_text bibliography)

unfoldable pub details : Book → List Text
unfolding trim_space render_multiline_text render_seller render_photos
details book =
    optional (trim_space book.seller) (λ seller. render_seller seller book.seller_url book.location)
    ++ (optional (trim_space book.price) (λ price. text "Цена: " ++ render_multiline_text price)
        ++ (optional (trim_space book.condition) render_multiline_text
            ++ joined (render_photos book.photos) (text " - ")
                (λ links. text "Смотрите: " ++ links)))

-- `renderBook`, the markup of a listing whatever its size.
unfoldable pub render_book_markup : Book → Options → Text
unfolding main_line details trim_space render_multiline_text render_link join
render_book_markup book options =
    join
      (main_line book options
        ∷ (optional (trim_space book.content) render_multiline_text
            ++ (joined (details book) line_break (λ lines. lines)
                ++ render_link book.buy_url (text "Купить") ∷ [])))
      section_break
