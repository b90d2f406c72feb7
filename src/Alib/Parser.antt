-- ===== src/Alib/Parser.antt =====
-- internal/alib/parser.go: how one listing of a page is read.
pub mod Texts
pub mod Lines
pub mod Year
pub mod Sale
pub mod Listing
