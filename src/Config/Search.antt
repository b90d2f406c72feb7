-- ===== src/Config/Search.antt =====
-- internal/config/search.go: the sources of one recipient and the URLs that are built of them.
pub mod Fields
pub mod Checks
pub mod Encoding
pub mod Urls
