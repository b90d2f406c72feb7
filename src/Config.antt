-- ===== src/Config.antt =====
-- internal/config: the configuration file.
pub mod FreshBooks
pub mod ChatId
pub mod Paths
pub mod StateFiles
pub mod Search
pub mod Settings
pub mod Documents
