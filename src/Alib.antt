-- ===== src/Alib.antt =====
-- internal/alib: the books of Alib.ru, how a listing is read, what is kept of the listings on its
-- pages, and the client that fetches them.
pub mod Book
pub mod Client
pub mod Listings
pub mod Parser
pub mod Legacy
