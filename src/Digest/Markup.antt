-- ===== src/Digest/Markup.antt =====
-- internal/digest/render.go: the escaping of texts and link targets.
pub mod Safety
use alib_fetcher.Base.{
  ℕ, List, [], ◌∷◌, ◌++◌, Text, text, ◌==◌, if◌then◌else◌, replace_all, trim_space, is_empty,
  has_suffix,
}
use alib_fetcher.Alib.Book.{Photo}

abbrev pub line_break : Text
line_break = text "<br/>"

-- `html.EscapeString`
unfoldable pub escape_rune : ℕ → Text
escape_rune c =
    if c == b'&'
    then text "&amp;"
    else if c == b'\''
    then text "&#39;"
    else if c == b'<'
    then text "&lt;"
    else if c == b'>'
    then text "&gt;"
    else if c == b'"'
    then text "&#34;"
    else c ∷ []

unfoldable pub escape_string : Text → Text
unfolding escape_rune
escape_string [] = []
escape_string (c ∷ cs) = escape_rune c ++ escape_string cs

unfoldable pub render_multiline_text : Text → Text
unfolding escape_string replace_all
render_multiline_text value =
    let escaped = escape_string value in
    let without_crlf = replace_all escaped (13 ∷ 10 ∷ []) (10 ∷ []) in
    let without_cr = replace_all without_crlf (13 ∷ []) (10 ∷ []) in
    replace_all without_cr (10 ∷ []) line_break

unfoldable pub escape_link_target : Text → Text
unfolding escape_string replace_all
escape_link_target target =
    escape_string (replace_all (replace_all target (13 ∷ []) (text "%0D")) (10 ∷ []) (text "%0A"))

unfoldable pub render_link : Text → Text → Text
unfolding render_multiline_text escape_link_target
render_link target label =
    if is_empty target
    then render_multiline_text label
    else text "<a href=\""
      ++ (escape_link_target target ++ (text "\">" ++ (render_multiline_text label ++ text "</a>")))

unfoldable pub render_seller : Text → Text → Text → Text
unfolding render_link has_suffix trim_space
render_seller seller seller_url location =
    let link = text "Продавец: " ++ render_link seller_url seller in
    let place = trim_space location in
    let rendered =
      (if is_empty place then link else link ++ (text ", " ++ render_multiline_text place)) in
    if has_suffix rendered (text ".") then rendered else rendered ++ text "."

unfoldable pub photo_caption : Photo → Text
unfolding trim_space
photo_caption photo =
    let caption = trim_space photo.caption in if is_empty caption then text "фото" else caption

unfoldable pub render_photos : List Photo → List Text
unfolding photo_caption render_link
render_photos [] = []
render_photos (photo ∷ photos) = render_link photo.url (photo_caption photo) ∷ render_photos photos
