-- ===== src/Digest.antt =====
-- internal/digest/render.go: the messages of a digest.
pub mod Markup
pub mod Item
pub mod Limits
pub mod Chunks
