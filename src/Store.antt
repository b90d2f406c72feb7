-- ===== src/Store.antt =====
-- internal/store/store.go: the state database.
pub mod Record
pub mod Bolt
pub mod Entries
pub mod Discover
pub mod Sent
pub mod Pending
pub mod Latest
pub mod Migrate
