-- ===== src/Config/Search/Encoding.antt =====
-- `url.QueryEscape` of net/url, on the bytes of a text.
pub mod Decoded
use alib_fetcher.Base.{
  ℕ, ◌+◌, ◌-◌, ◌/◌, ◌%◌, List, [], ◌∷◌, ◌++◌, Text, Bool, true, false, ◌&&◌, ◌||◌, ◌==◌, ltb, leb,
  if◌then◌else◌,
}

abbrev pub is_unreserved : ℕ → Bool
is_unreserved c =
    (leb 97 c && leb c 122)
    || (leb 65 c && leb c 90)
    || (leb 48 c && leb c 57)
    || c == 45
    || c == 95
    || c == 46
    || c == 126

-- The upper-case hexadecimal digit.
abbrev pub hex_digit : ℕ → ℕ
hex_digit n = if ltb n 10 then 48 + n else 55 + n

abbrev pub escape_byte : ℕ → Text
escape_byte c =
    if is_unreserved c
    then c ∷ []
    else if c == 32
    then 43 ∷ []
    else 37 ∷ hex_digit (c / 16) ∷ hex_digit (c % 16) ∷ []

unfoldable pub query_escape : List ℕ → Text
query_escape [] = []
query_escape (c ∷ cs) = escape_byte c ++ query_escape cs
