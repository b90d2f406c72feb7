-- ===== src/Alib/Book.antt =====
-- internal/alib/book.go: the sale listing that all parts of the program exchange.
use alib_fetcher.Base.{List, Text, ℤ}

pub record Photo : Type 0 where
  pub url : Text
  pub caption : Text

pub record Book : Type 0 where
  pub title : Text
  pub bibliography : Text
  pub content : Text
  pub seller : Text
  pub seller_url : Text
  pub location : Text
  pub price : Text
  pub condition : Text
  pub buy_url : Text
  pub photos : List Photo
  pub publication_year : ℤ
