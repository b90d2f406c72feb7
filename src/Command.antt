-- ===== src/Command.antt =====
-- cmd/alib-fetcher/main.go: the options of the command line, and what the process is made of.
pub mod Options
pub mod Snapshot
