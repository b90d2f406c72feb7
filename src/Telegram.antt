-- ===== src/Telegram.antt =====
-- internal/telegram/sender.go: the adapter of Telegram behind the calls of its SDK.
pub mod Secrets
pub mod Responses
pub mod Errors
pub mod Client
